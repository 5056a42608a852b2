-- ===== src/Cache/Ttl.antt =====
-- internal/cache/cache.go: `ParseTTL`. The parsing of HTTP dates is a parameter.
pub mod Bounds
use file_server.Prelude.{
  ℕ, Str, str, ℤ, pos, ◌*ℤ◌, wrap_64, ltb_ℤ, sub_time, str_eq, has_prefix, trim_prefix, contains,
  to_lower, split, trim_space, atoi, List, [], ◌∷◌, ◌||◌, if◌then◌else◌, Option, none, some,
}
use file_server.Http.{Response, header_get}
use file_server.Config.{second}

-- The loop over the directives: the first positive `max-age` that parses.
unfoldable pub max_age : List Str → Option ℤ
unfolding has_prefix trim_prefix trim_space atoi
max_age [] = none
max_age (p ∷ ps) =
    let rest = max_age ps in
    let part = trim_space p in
    if has_prefix part (str "max-age=")
    then (elim (atoi (trim_prefix part (str "max-age="))) [
      | none ↦ rest
      | some secs ↦ if ltb_ℤ (pos 0) secs then some secs else rest
    ])
    else rest

-- What follows the test of Cache-Control: Expires, then the default.
unfoldable pub expires_ttl : (Str → Option ℤ) → ℤ → Str → ℤ → ℤ
unfolding sub_time
expires_ttl parse_time now expires default_ttl =
    if str_eq expires (str "") then default_ttl else elim (parse_time expires) [
      | none ↦ default_ttl
      | some t ↦ let d = sub_time t now in if ltb_ℤ (pos 0) d then d else default_ttl
    ]

-- `time.Duration(secs) * time.Second`
unfoldable pub seconds : ℤ → ℤ
unfolding wrap_64 ◌*ℤ◌
seconds secs = wrap_64 (secs *ℤ pos second)

-- `ParseTTL` at the instant `now`
unfoldable pub parse_ttl : (Str → Option ℤ) → ℤ → Response → ℤ → ℤ
unfolding header_get to_lower contains split max_age expires_ttl seconds
parse_ttl parse_time now resp default_ttl =
    let after_control =
      expires_ttl parse_time now (header_get resp.header (str "Expires")) default_ttl in
    let cc = to_lower (header_get resp.header (str "Cache-Control")) in
    if str_eq (header_get resp.header (str "Cache-Control")) (str "")
    then after_control
    else if contains cc (str "no-store") || contains cc (str "no-cache")
    then pos 0
    else elim (max_age (split cc b',')) [ none ↦ after_control | some secs ↦ seconds secs ]
