-- ===== src/Tests/Running.antt =====
-- Concrete runs of the program.
use file_server.Prelude.{
  ℕ, suc, Str, str, str_dec, Map, find, ℤ, pos, List, [], ◌∷◌, Bool, true, false, Option, none, ◌≡◌,
  refl,
}
use file_server.Errors.{leaf, Result, ok, err}
use file_server.Storage.Os.{Directory}
use file_server.Storage.LocalFs.{local_fs, read}
use file_server.Config.{Config, field, end, int, defaults}
use file_server.Config.Defaults.{IsUsable}
use file_server.Config.Loader.{Event, load, changed, hang_up, events_closed, watch_loop}
use file_server.Config.Loader.Reloads.{loaded, has_ended, hand_on, watch_loop-loaded}
use file_server.Flush
use file_server.Pipeline.RateLimit.{TokenBucket, DomainState}
use file_server.Domain.{Handler, Deps}
use file_server.Main.{
  Launch, running, request, prefix_posted, url_posted, file_event, registry, assemble, launch,
  launch_from, new_local_fs, serve, run,
}
use file_server.Main
use file_server.Main.Health.{IsHealthy}
use file_server.Main.Launching.{launched-IsHealthy}
use file_server.Main.Answers.{IsAnswer, serve_answered}
use file_server.Flush.{match, append_rule, rules_at, all_rules, persist, load_rules}
use file_server.Tests.{memory, formats}
use file_server.Tests.Files.{host}
use file_server.Tests.Flushing.{codec}
use file_server.Tests.Handling.{cache, deps, config, instants}
use file_server.Tests.Handling
use file_server.Tests.Managing.{decode_prefix, decode, parse, global}
use file_server.Tests.Serving.{whole, prefixes}

abbrev pub unmarshal : Str → Result (Config ℤ)
unmarshal [] = err (leaf (str "empty"))
unmarshal _ = ok global

abbrev pub quote : Str → Str
quote s = s

-- A directory with no rules to restore.
abbrev pub directory : Directory
directory = record { files = []; faults = []; temps = 0; clock = pos 7 }

-- The service that the configuration gives.
abbrev pub service : Handler Directory ℤ ℕ ℕ
service =
    assemble (defaults global) (Flush.load (local_fs host) codec (Flush.new directory)).0 directory
      0 0

pub launches :
    launch host codec unmarshal quote (str "c.yml") (ok (str "c")) none directory 0 0
    ≡ running (defaults global) service
unfolding launch launch_from new_local_fs load defaults Flush.load Flush.new read find str_dec
launches = refl

abbrev pub events : List Main.Event
events =
    prefix_posted (pos 8) (pos 8) (str "/p")
    ∷ request (instants (pos 9)) (pos 9) (pos 9) none Handling.request
    ∷ file_event (pos 10) hang_up (ok (str "c"))
    ∷ []

launched-IsHealthy_example :
    IsUsable (defaults global)
    × IsHealthy (
        run
          (local_fs host)
          codec
          (λ seen now. deps)
          (defaults global)
          decode_prefix
          decode
          parse
          unmarshal
          quote
          (str "c.yml")
          service
          events)
launched-IsHealthy_example =
    launched-IsHealthy host codec 0 0 unmarshal quote (str "c.yml") (ok (str "c")) none directory
      (λ seen now. deps) decode_prefix decode parse (defaults global) service events launches

-- A token bucket that is never filled again.
abbrev take_token : ℤ → ℤ × Bool
take_token (pos (suc n)) = (pos n, true)
take_token left = (left, false)

abbrev tokens : TokenBucket ℤ
tokens = record { Bucket = ℤ; new_limiter = λ rate burst. burst; allow = λ now. take_token }

abbrev unsplit : Str → Option Str
unsplit addr = none

abbrev Limits : Type 0
Limits = Map (DomainState whole tokens unsplit)

-- The domain of the tests, with a rate limit that lets nothing through.
abbrev limited : Handler memory.State ℤ Limits ℕ
limited = record {
  domains =
      (
        str "d",
        record (config) {
          plugins =
              record { type = str "rate_limit"; config = field (str "burst") (int (pos 0)) end }
              ∷ [];
        },
      )
      ∷ [];
  cache = cache;
  flush = record { rules = []; storage = cache.storage };
  plugins = [];
  net = record { counter = 0; network = 0; crashed = false };
}

abbrev registered : ℤ → ℤ → Deps ℤ Limits ℕ
registered seen now = record {
  formats = formats;
  short_hash = deps.short_hash;
  key_builder = deps.key_builder;
  registry = registry whole tokens unsplit prefixes seen now;
  client = deps.client;
  show = deps.show;
  parse_time = deps.parse_time;
}

serve_answered_example :
    IsAnswer
      (serve memory registered
        (instants (pos 9))
        (pos 9)
        (pos 9)
        none
        Handling.request
        limited).1.status
serve_answered_example =
    serve_answered memory whole tokens unsplit prefixes registered (λ seen now. refl)
      (instants (pos 9)) (pos 9) (pos 9) none Handling.request limited

-- A file that does not parse between two that do.
abbrev edits : List (Event × Result Str)
edits =
    (changed true false, ok (str "c"))
    ∷ (changed true false, ok [])
    ∷ (hang_up, ok (str "d"))
    ∷ (events_closed, ok (str "e"))
    ∷ []

abbrev count : Config ℤ → ℕ → ℕ
count cfg n = suc n

watch_loop-loaded_example : watch_loop unmarshal quote count (str "c.yml") edits 0 ≡ (
  hand_on unmarshal quote (str "c.yml") count (loaded unmarshal quote (str "c.yml") edits) 0,
  has_ended unmarshal quote (str "c.yml") edits,
)
watch_loop-loaded_example = watch_loop-loaded unmarshal quote (str "c.yml") count edits 0
