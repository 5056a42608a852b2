-- ===== src/Tests/Handling.antt =====
-- Concrete runs of the handler.
use file_server.Prelude.{
  ℕ, suc, str, Map, find, put, str_dec, has_prefix, ℤ, pos, after, ◌+ℤ◌, List, [], ◌∷◌, true, false,
  none, some, ◌≡◌, refl,
}
use file_server.Errors.{ok}
use file_server.Http.{Request, fresh_writer}
use file_server.Config.{DomainConfig}
use file_server.Cache.Lru.{
  LruCache, Meta, expires_at, new, set, stat, record_entry, evict_locked, evict,
}
use file_server.Cache.Lru.Invariant.{IsValid}
use file_server.Cache.Lru.Writes.{new-IsValid, set-refines}
use file_server.Cache.Singleflight
use file_server.Cache.Key.{build, build_query, build_header_hash, rules_of}
use file_server.Flush.{Rule, Store, rules_at, match_from, later}
use file_server.Flush
use file_server.Pipeline.{Run}
use file_server.Origin.{Client}
use file_server.Domain.{Handler, Instants, Deps}
use file_server.Domain.Invariant.{IsSound}
use file_server.Domain.Flushed.{WentToOrigin, flushed_goes_to_origin, expired_marked_hit}
use file_server.Tests.{memory, formats, meta_at}

-- An origin that answers.
abbrev pub client : Client ℕ
client = record {
  build = λ target. none;
  round_trip = λ w timeout target header.
      (suc w, ok (record { status_code = 200; header = []; body = ok (str "new") }));
}

abbrev pub deps : Deps ℤ ℕ ℕ
deps = record {
  formats = formats;
  short_hash = λ s. s;
  key_builder = record { global = record { include_query_params = []; include_headers = [] } };
  registry = [];
  client = client;
  show = λ n. str "5xx";
  parse_time = λ s. none;
}

abbrev pub config : DomainConfig ℤ
config = record {
  domain = str "d";
  origins = str "http://o" ∷ [];
  origin_timeout = pos 5;
  origin_retry = pos 0;
  default_ttl = pos 9;
  key_rules = none;
  plugins = [];
}

abbrev pub request : Request
request = record {
  host = str "d:80";
  path = str "/p";
  raw_query = [];
  query = [];
  header = [];
  remote_addr = [];
}

abbrev pub run : Run ℕ
run = record {
  ctx = record {
    rewritten_path = str "/p";
    set_response_headers = [];
    delete_response_headers = [];
  };
  request = request;
  writer = fresh_writer;
  state = 0;
}

-- A cache that holds the entry of the request, written at 0 for the lifetime 10.
abbrev pub entry : Meta
entry = meta_at (str "d:/p?#") (pos 0)

abbrev pub cache : LruCache memory.State
cache = (set memory formats (new (pos 2) []) (str "d:/p?#") (ok (str "old")) entry).0

pub cache-IsValid : IsValid cache
cache-IsValid =
    (set-refines memory formats (new (pos 2) []) (str "d:/p?#") (ok (str "old")) entry
      (new-IsValid 2 []).0 refl).0

abbrev rule : Rule
rule = record { id = []; domain = str "d"; prefix = str "/"; created_at = pos 3 }

-- The handler, with some flush rules.
abbrev pub handler : Map (List Rule) → Handler memory.State ℤ ℕ ℕ
handler rules = record {
  domains = (str "d", config) ∷ [];
  cache = cache;
  flush = record { rules = rules; storage = cache.storage };
  plugins = 0;
  net = record { counter = 0; network = 0; crashed = false };
}

abbrev pub flushing : Handler memory.State ℤ ℕ ℕ
flushing = handler ((str "d", rule ∷ []) ∷ [])

abbrev pub instants : ℤ → Instants
instants t = record { first = t; second = t; parsed = t; written = t }

pub key_is : build deps.short_hash deps.key_builder (str "d") (str "/p") request none ≡ str "d:/p?#"
unfolding build build_query build_header_hash rules_of
key_is = refl

pub flushing-IsSound : IsSound flushing
flushing-IsSound = record { valid = cache-IsValid; shared = refl }

pub held :
    Singleflight.stat memory cache
      (build deps.short_hash deps.key_builder (str "d") (str "/p") request none)
    ≡ ok entry
unfolding Singleflight.stat stat set record_entry evict_locked evict new find put str_dec build
    build_query build_header_hash rules_of
held = refl

matched : Flush.match flushing.flush (str "d") (str "/p") ≡ some rule
unfolding Flush.match rules_at match_from later find str_dec has_prefix
matched = refl

flushed_goes_to_origin_example :
    WentToOrigin memory deps (instants (pos 5)) flushing config run false
flushed_goes_to_origin_example =
    flushed_goes_to_origin memory deps (instants (pos 5)) flushing config run cache-IsValid entry
      held rule matched refl

unmatched : Flush.match (handler []).flush (str "d") (str "/p") ≡ none
unfolding Flush.match rules_at match_from later find str_dec
unmatched = refl

old : after (pos 11) (expires_at entry) ≡ true
unfolding expires_at ◌+ℤ◌
old = refl

expired_marked_hit_example :
    WentToOrigin memory deps (instants (pos 11)) (handler []) config run true
expired_marked_hit_example =
    expired_marked_hit memory deps (instants (pos 11)) (handler []) config run cache-IsValid entry
      held unmatched old
