-- ===== src/Tests/Limits.antt =====
-- Concrete runs at the limits: several clients, a large counter, and the log.
use file_server.Prelude.{
  ◌-ℤ◌, IsMap, find, str_dec, if◌then◌else◌, ◌+◌, ◌^◌, ◌%◌, ◌*◌, Str, str, length, ℤ, pos, List, [],
  ◌∷◌, true, false, Option, none, ◌≡◌, refl, arith,
}
use file_server.Http.{fresh_writer}
use file_server.Config.{second}
use file_server.Pipeline.RateLimit.{TokenBucket, DomainState, bucket, cleanup_tick}
use file_server.Pipeline.RateLimit.Idle.{is_idle, cleanup_tick-find}
use file_server.Pipeline.RateLimit.Isolation.{Admission, of_key, answers, answers-of_key}
use file_server.Origin.{panicked, pull}
use file_server.Origin.Overflow.{pull_panics}
use file_server.Server.{WriterCall, set, status, body, direct, request_logger}
use file_server.Server.Logging.{sent, request_logger-sent}
use file_server.Tests.Handling.{client, request}
use file_server.Tests.Serving.{whole}

-- A bucket that admits every call.
abbrev generous : TokenBucket ℤ
generous = record { Bucket = Unit; new_limiter = λ rate burst. tt; allow = λ now b. (b, true) }

abbrev unsplit : Str → Option Str
unsplit addr = none

-- One client seen at the start, and one a second ago.
abbrev clients : DomainState whole generous unsplit
clients = record {
  mode = str "ip";
  algorithm = str "token_bucket";
  rate_per_sec = pos 2;
  burst = pos 2;
  limiters = (str "a", bucket tt) ∷ (str "b", bucket tt) ∷ [];
  last_seen = (str "a", pos 0) ∷ (str "b", pos (359 * second)) ∷ [];
  cleaning = true;
}

-- Calls of the two clients in turn.
abbrev admissions : List Admission
admissions =
    record { seen = pos 1; now = pos 1; key = str "a" }
    ∷ record { seen = pos 2; now = pos 2; key = str "b" }
    ∷ record { seen = pos 3; now = pos 3; key = str "a" }
    ∷ []

answers-of_key_example :
    answers whole generous unsplit (str "a") admissions clients
    ≡ answers whole generous unsplit (str "a") (of_key (str "a") admissions) clients
answers-of_key_example = answers-of_key whole generous unsplit (str "a") admissions clients

clients-IsMap : IsMap clients.last_seen
unfolding find str_dec
clients-IsMap = (refl, (refl, tt))

cleanup_tick-find_example :
    let s' = cleanup_tick whole generous unsplit (pos (360 * second)) clients in
    let idle =
      is_idle (pos (360 * second) -ℤ pos (5 * 60 * second)) (find (str "a") clients.last_seen) in
    (find (str "a") s'.limiters ≡ (if idle then none else find (str "a") clients.limiters))
    × (find (str "a") s'.last_seen ≡ (if idle then none else find (str "a") clients.last_seen))
cleanup_tick-find_example =
    cleanup_tick-find whole generous unsplit (pos (360 * second)) clients (str "a") clients-IsMap

abbrev three : List Str
three = str "http://a" ∷ str "http://b" ∷ str "http://c" ∷ []

pull_panics_example :
    pull client (λ n. str "5xx") (2 ^ 63) 0 three (pos 5) (pos 1) (str "/p") []
    ≡ ((2 ^ 63 + 1) % 2 ^ 64, (0, panicked))
pull_panics_example =
    pull_panics client (λ n. str "5xx") (2 ^ 63) 0 (str "http://a")
      (str "http://b" ∷ str "http://c" ∷ []) (pos 5) 1 (str "/p") [] (omega arith) (omega arith)
      (omega arith)

abbrev calls : List WriterCall
calls = set (str "X-Cache") (str "hit") ∷ status 200 ∷ body (str "ab") ∷ body (str "c") ∷ []

request_logger-sent_example :
    let w = direct calls fresh_writer in
    request_logger request calls false fresh_writer ≡ record {
      writer = w;
      lines =
          record {
            domain = request.host;
            path = request.path;
            status = sent w.status;
            bytes = length w.body;
            client_ip = request.remote_addr;
          }
          ∷ [];
      counted = (request.host, sent w.status) ∷ [];
    }
request_logger-sent_example = request_logger-sent request calls (refl, tt)
