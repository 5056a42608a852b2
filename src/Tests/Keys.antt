-- ===== src/Tests/Keys.antt =====
-- Concrete runs of the cache keys and the lifetimes.
use mathlib.Core.List.{Perm, Permᴰ}
use file_server.Prelude.{
  ◌≤◌, Str, str, Map, find, str_dec, str_leb, ℤ, pos, pos_part, ◌<ℤ◌, split, to_lower, contains,
  has_prefix, trim_prefix, trim_space, trim_left, trim_right, atoi, natural, digits, lower_byte,
  List, [], ◌∷◌, true, false, Option, none, some, ◌≡◌, refl, arith,
}
use file_server.Errors.{ok}
use file_server.Http.{Request, Response, header_get, canonical, canonical_from, all_token, is_token}
use file_server.Config.{KeyRulesConfig}
use file_server.Cache.Key.{KeyBuilder, build, rules_of}
use file_server.Cache.Key.Normal.{build_permuted, SameFor}
use file_server.Cache.Key.Clash.{build_clash}
use file_server.Cache.Ttl.{parse_ttl, max_age}
use file_server.Cache.Ttl.Bounds.{control, max_seconds, is_forbidden, parse_ttl_overflow}

-- A response with one Cache-Control header.
abbrev answer : Str → Response
answer control = record {
  status_code = 200;
  header = (str "Cache-Control", control ∷ []) ∷ [];
  body = ok (str "x");
}

abbrev no_dates : Str → Option ℤ
no_dates s = none

minute_age : max_age (split (control (answer (str "public, max-age=60"))) b',') ≡ some (pos 60)
unfolding max_age split to_lower lower_byte header_get find str_dec canonical canonical_from
    all_token is_token has_prefix trim_prefix trim_space trim_left trim_right atoi natural digits
minute_age = refl

minute_fits :
    (secs : ℤ)
    → max_age (split (control (answer (str "public, max-age=60"))) b',') ≡ some secs
    → pos_part secs ≤ max_seconds
minute_fits secs e = ground (arith, minute_age)

abbrev long_lived : Response
long_lived = answer (str "max-age=9223372037")

long_allowed : is_forbidden long_lived ≡ false
unfolding contains to_lower lower_byte header_get find str_dec canonical canonical_from all_token
    is_token has_prefix
long_allowed = refl

long_age : max_age (split (control long_lived) b',') ≡ some (pos 9_223_372_037)
unfolding max_age split to_lower lower_byte header_get find str_dec canonical canonical_from
    all_token is_token has_prefix trim_prefix trim_space trim_left trim_right atoi natural digits
long_age = refl

parse_ttl_overflow_example : parse_ttl no_dates (pos 0) long_lived (pos 7) <ℤ pos 0
parse_ttl_overflow_example =
    parse_ttl_overflow no_dates (pos 0) long_lived (pos 7) 9_223_372_037 long_allowed long_age
      (omega arith) (omega arith)

-- A request with a query and no headers.
abbrev asking : Map (List Str) → Request
asking q = record {
  host = str "h";
  path = str "/p";
  raw_query = [];
  query = q;
  header = [];
  remote_addr = [];
}

abbrev by_params : List Str → KeyRulesConfig
by_params ps = record { include_query_params = ps; include_headers = [] }

abbrev builder : KeyBuilder
builder = record { global = by_params (str "a" ∷ []) }

abbrev hash : Str → Str
hash s = s

abbrev both : Map (List Str)
both = (str "a", str "1" ∷ []) ∷ (str "b", str "2" ∷ []) ∷ []

same_params : SameFor (rules_of builder none) (asking both) (asking ((str "a", str "1" ∷ []) ∷ []))
unfolding rules_of find str_dec
same_params = record { params = (refl, tt); headers = tt }

swapped : Perm (str "a" ∷ str "b" ∷ []) (str "b" ∷ str "a" ∷ [])
swapped = ∣ Permᴰ.swap refl refl ∣₁

unmoved : Perm {A = Str} [] []
unmoved = ∣ Permᴰ.nil ∣₁

build_permuted_example :
    build hash builder
      (str "d")
      (str "/p")
      (asking both)
      (some (by_params (str "a" ∷ str "b" ∷ [])))
    ≡ build hash builder
        (str "d")
        (str "/p")
        (asking both)
        (some (by_params (str "b" ∷ str "a" ∷ [])))
build_permuted_example =
    build_permuted hash builder (str "d") (str "/p") (asking both)
      (by_params (str "a" ∷ str "b" ∷ [])) (by_params (str "b" ∷ str "a" ∷ [])) swapped unmoved

abbrev names : List Str
names = str "a" ∷ str "b" ∷ []

names_ordered : str_leb (str "a=1") (str "b=2") ≡ true
unfolding str_leb
names_ordered = refl

abbrev joined : Map (List Str)
joined = (str "a", str "1&b=2" ∷ []) ∷ []

found :
    (find (str "a") joined ≡ some (str "1&b=2" ∷ []))
    × (find (str "b") joined ≡ none)
    × (find (str "a") both ≡ some (str "1" ∷ []))
    × (find (str "b") both ≡ some (str "2" ∷ []))
unfolding find str_dec
found = (refl, refl, refl, refl)

build_clash_example :
    build hash builder (str "d") (str "/p") (asking joined) (some (by_params names))
    ≡ build hash builder (str "d") (str "/p") (asking both) (some (by_params names))
build_clash_example =
    build_clash hash builder (str "d") (str "/p") (str "a") (str "b") (str "1") (str "2")
      (asking joined) (asking both) (by_params names) refl names_ordered found.0 found.1 found.2
      found.3 refl
