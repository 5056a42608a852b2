-- ===== src/Server/Logging.antt =====
-- internal/server/middleware.go: what is logged of a response.
use file_server.Prelude.{
  ℕ, ◌+◌, Str, length, List, [], ◌∷◌, ◌++◌, Bool, true, false, Option, none, some, ◌≡◌, refl, ◌∙◌,
  arith,
}
use file_server.Http.{Request, fresh_writer, first_status, write_header, write_body}
use file_server.Server.{
  WriterCall, set, status, body, direct, Recorder, record_status, record_body, recorded,
  request_logger,
}

-- The status is written at most once, and before the body: `true` says that nothing is written yet.
abbrev pub IsOrderly : Bool → List WriterCall → Type 0
IsOrderly unwritten [] = Unit
IsOrderly unwritten (set k v ∷ calls) = IsOrderly unwritten calls
IsOrderly unwritten (status code ∷ calls) = (unwritten ≡ true) × IsOrderly false calls
IsOrderly unwritten (body b ∷ calls) = IsOrderly false calls

-- The status that net/http sends: 200 where none was written.
abbrev pub sent : Option ℕ → ℕ
sent none = 200
sent (some code) = code

abbrev is_unwritten : Option ℕ → Bool
is_unwritten none = true
is_unwritten (some code) = false

first_written : (s : Option ℕ) (code : ℕ) → is_unwritten (first_status s code) ≡ false
first_written none code = refl
first_written (some c) code = refl

first_sent : (s : Option ℕ) (code : ℕ) → is_unwritten s ≡ true → code ≡ sent (first_status s code)
first_sent none code e = refl
first_sent (some c) code e = absurd (cc)

implicit_sent : (s : Option ℕ) → sent s ≡ sent (first_status s 200)
implicit_sent none = refl
implicit_sent (some c) = refl

recorded-direct :
    (calls : List WriterCall) (rw : Recorder) → (recorded calls rw).inner ≡ direct calls rw.inner
unfolding recorded direct record_status record_body
recorded-direct [] rw = refl
recorded-direct (set k v ∷ calls) rw = recorded-direct calls _
recorded-direct (status code ∷ calls) rw = recorded-direct calls (record_status rw code)
recorded-direct (body b ∷ calls) rw = recorded-direct calls (record_body rw b)

length-append : (s t : Str) → length (s ++ t) ≡ length s + length t
length-append [] t = omega arith
length-append (c ∷ s) t = ground (arith, length-append s t)

recorded-bytes :
    (calls : List WriterCall) (rw : Recorder)
    → rw.bytes ≡ length rw.inner.body
    → (recorded calls rw).bytes ≡ length (recorded calls rw).inner.body
unfolding recorded record_status record_body write_header write_body
recorded-bytes [] rw e = e
recorded-bytes (set k v ∷ calls) rw e = recorded-bytes calls _ e
recorded-bytes (status code ∷ calls) rw e = recorded-bytes calls (record_status rw code) e
recorded-bytes (body b ∷ calls) rw e =
    recorded-bytes calls (record_body rw b) (ground (arith, length-append rw.inner.body b))

recorded-status :
    (calls : List WriterCall) (rw : Recorder) (unwritten : Bool)
    → is_unwritten rw.inner.status ≡ unwritten
    → rw.status ≡ sent rw.inner.status
    → IsOrderly unwritten calls
    → (recorded calls rw).status ≡ sent (recorded calls rw).inner.status
unfolding recorded record_status record_body write_header write_body
recorded-status [] rw u fresh e orderly = e
recorded-status (set k v ∷ calls) rw u fresh e orderly = recorded-status calls _ u fresh e orderly
recorded-status (status code ∷ calls) rw u fresh e orderly =
    recorded-status calls (record_status rw code) false (first_written rw.inner.status code)
      (first_sent rw.inner.status code (fresh ∙ orderly.0)) orderly.1
recorded-status (body b ∷ calls) rw u fresh e orderly =
    recorded-status calls (record_body rw b) false (first_written rw.inner.status 200)
      (e ∙ implicit_sent rw.inner.status) orderly

-- A handler that does not panic, writes the status at most once, and writes it before the body: the
-- client gets what the handler's calls make of the response writer, and one line is logged, and one
-- request counted, with the status that the client gets and the length of the body.
pub request_logger-sent :
    (r : Request) (calls : List WriterCall)
    → IsOrderly true calls
    → let w = direct calls fresh_writer in
      request_logger r calls false fresh_writer ≡ record {
        writer = w;
        lines =
            record {
              domain = r.host;
              path = r.path;
              status = sent w.status;
              bytes = length w.body;
              client_ip = r.remote_addr;
            }
            ∷ [];
        counted = (r.host, sent w.status) ∷ [];
      }
unfolding request_logger
request_logger-sent r calls orderly =
    let rw : Recorder = record { inner = fresh_writer; status = 200; bytes = 0 } in
    let same = recorded-direct calls rw in
    ground
      (arith, same, recorded-bytes calls rw refl, recorded-status calls rw true refl refl orderly)
