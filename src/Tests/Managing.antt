-- ===== src/Tests/Managing.antt =====
-- Concrete runs of the management API.
use file_server.Prelude.{
  Str, str, str_eq, str_dec, has_prefix, ◌||◌, find, remove, ℤ, pos, Option, some, [], ◌∷◌, true,
  false, ◌≡◌, refl,
}
use file_server.Http.{Request, fresh_writer, write_header}
use file_server.Config.{Config}
use file_server.Cache.Lru.Invariant.{IsValid, contents}
use file_server.Cache.Singleflight
use file_server.Flush.{rules_at}
use file_server.Flush.Rules.{AllBefore}
use file_server.Domain.{is_ok, apply_flush}
use file_server.Domain.Flushed.{WentToOrigin}
use file_server.Admin.{url_key, flush_prefix, flush_url, stat_response}
use file_server.Admin.Effects.{flush_prefix-origin}
use file_server.Admin.Stat.{stat_response-hit}
use file_server.Admin.Urls.{flush_url-refines}
use file_server.Prelude.{none}
use file_server.Flush.{persist_key}
use file_server.Domain.Apart.{serve_http-IsApart}
use file_server.Cache.Lru.Frame.{IsApart}
use file_server.Cache.Lru.{record_entry, evict_locked, evict}
use file_server.Cache.Lru
use file_server.Prelude.{find, put, str_dec}
use file_server.Domain.{serve_http}
use file_server.Tests.{memory-laws}
use file_server.Tests.{memory}
use file_server.Tests.Flushing.{codec}
use file_server.Tests.Handling.{
  deps, config, request, run, entry, cache, cache-IsValid, handler, flushing, instants, held,
}

abbrev pub decode_prefix : Str → Option (Str × Str)
decode_prefix body = some (str "d", body)

abbrev pub decode : Str → Option Str
decode body = some body

abbrev pub parse : Str → Option (Str × Request)
parse url = some (str "d", request)

abbrev hash : Str → Str
hash s = s

abbrev pub global : Config ℤ
global = record {
  server = record { addr = str ":80" };
  admin = record { addr = str ":90" };
  storage = record { type = str "localfs"; root_dir = str "/var" };
  cache = record { max_items = pos 2; flush_rule_max_age = pos 9 };
  key_rules = record { include_query_params = []; include_headers = [] };
  domains = config ∷ [];
}

domain_given : str_eq (str "d") (str "") || str_eq (str "/p") (str "") ≡ false
unfolding str_dec
domain_given = refl

name_given : str_eq (str "d") (str "") ≡ false
unfolding str_dec
name_given = refl

url_given : str_eq (str "http://d/p") (str "") ≡ false
unfolding str_dec
url_given = refl

prefix_covers : has_prefix (str "/p") (str "/p") ≡ true
unfolding has_prefix
prefix_covers = refl

slash_covers : has_prefix (str "/p") (str "/") ≡ true
unfolding has_prefix
slash_covers = refl

no_older : AllBefore (pos 4) (rules_at (str "d") [])
unfolding rules_at find
no_older = tt

flush_prefix-origin_example :
    WentToOrigin memory deps
      (instants (pos 6))
      (flush_prefix memory decode_prefix codec
        (pos 4)
        (pos 4)
        (handler [])
        fresh_writer
        (str "/p")).0
      config
      run
      false
flush_prefix-origin_example =
    flush_prefix-origin memory deps (instants (pos 6)) config run codec (pos 4) (pos 4) (handler [])
      fresh_writer entry cache-IsValid tt no_older held refl decode_prefix (str "/p") (str "/p")
      refl domain_given prefix_covers

stat_response-hit_example :
    (stat_response memory
      (λ d. d)
      (pos 5)
      cache
      flushing.flush
      (str "d")
      (str "/p")
      (str "d:/p?#")).hit
    ≡ is_ok (
        Singleflight.stat memory
          (apply_flush memory deps cache flushing.flush (str "d") (str "/p") (str "d:/p?#"))
          (str "d:/p?#"))
stat_response-hit_example =
    stat_response-hit memory deps (λ d. d) (pos 5) cache flushing.flush (str "d") (str "/p")
      (str "d:/p?#") cache-IsValid

flush_url-refines_example :
    let (h', w') =
      flush_url memory hash deps.key_builder global parse decode flushing fresh_writer
        (str "http://d/p") in
    IsValid h'.cache
    × (contents h'.cache
        ≡ remove (url_key hash deps.key_builder global (str "d") request) (contents cache))
    × (w' ≡ write_header fresh_writer 204)
flush_url-refines_example =
    flush_url-refines memory hash deps.key_builder global parse decode flushing fresh_writer
      (str "http://d/p") (str "http://d/p") refl url_given (str "d") request refl cache-IsValid

-- No entry is under the key of the flush rules.
without_rules : IsApart memory persist_key (memory.read cache.storage persist_key) cache
unfolding Lru.set record_entry evict_locked evict Lru.new find put str_dec
without_rules = record { valid = cache-IsValid; absent = refl; same = refl }

serve_http-IsApart_example :
    IsApart memory persist_key
      (memory.read cache.storage persist_key)
      (serve_http memory deps (instants (pos 5)) none flushing fresh_writer request).0.cache
serve_http-IsApart_example =
    serve_http-IsApart memory memory-laws (memory.read cache.storage persist_key) deps
      (instants (pos 5)) none flushing fresh_writer request without_rules
