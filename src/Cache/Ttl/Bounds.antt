-- ===== src/Cache/Ttl/Bounds.antt =====
-- internal/cache/cache.go: the range of the lifetimes that `ParseTTL` returns.
use file_server.Prelude.{
  ℕ, ◌<◌, ◌≤◌, Str, str, ℤ, pos, pos_part, ◌<ℤ◌, ◌*ℤ◌, wrap_64, str_eq, has_prefix, contains,
  to_lower, split, trim_space, List, [], ◌∷◌, ◌||◌, Bool, Option, some, ◌≡◌, true, false, arith,
  Bool-cases, Option-cases, inl, inr, ◌⊎◌,
}
use file_server.Http.{Response, header_get}
use file_server.Cache.Ttl.{max_age, expires_ttl, seconds, parse_ttl}

-- The Cache-Control header, as `ParseTTL` reads it.
abbrev pub control : Response → Str
control resp = to_lower (header_get resp.header (str "Cache-Control"))

-- The largest number of seconds that fits a 64-bit duration.
abbrev pub max_seconds : ℕ
max_seconds = 9_223_372_036

max_age_positive : (ps : List Str) (secs : ℤ) → max_age ps ≡ some secs → pos 0 <ℤ secs
unfolding max_age
max_age_positive [] secs h = cc
max_age_positive (p ∷ ps) secs h = ground (arith, max_age_positive ps secs)

expires_ttl_positive :
    (parse_time : Str → Option ℤ) (now : ℤ) (e : Str) (d : ℤ)
    → pos 0 <ℤ d
    → pos 0 <ℤ expires_ttl parse_time now e d
unfolding expires_ttl
expires_ttl_positive parse_time now e d h = ground arith

seconds_positive : (secs : ℤ) → pos 0 <ℤ secs → pos_part secs ≤ max_seconds → pos 0 <ℤ seconds secs
unfolding seconds ◌*ℤ◌ wrap_64
seconds_positive secs h fits = ground arith

seconds_negative : (n : ℕ) → max_seconds < n → n < 18_446_744_074 → seconds (pos n) <ℤ pos 0
unfolding seconds ◌*ℤ◌ wrap_64
seconds_negative n large small = ground arith

empty_allowed :
    (h : Str)
    → contains (to_lower h) (str "no-store") || contains (to_lower h) (str "no-cache") ≡ true
    → str_eq h (str "") ≡ false
unfolding to_lower contains has_prefix
empty_allowed [] e = cc
empty_allowed (c ∷ s) e = ground arith

empty_no_max_age :
    (h : Str) (secs : ℤ) → max_age (split (to_lower h) b',') ≡ some secs → str_eq h (str "") ≡ false
unfolding to_lower split max_age trim_space has_prefix
empty_no_max_age [] secs e = cc
empty_no_max_age (c ∷ s) secs e = ground arith

-- A response that forbids caching.
abbrev pub is_forbidden : Response → Bool
is_forbidden resp =
    contains (control resp) (str "no-store") || contains (control resp) (str "no-cache")

module _ (parse_time : Str → Option ℤ) (now : ℤ) (resp : Response) (default_ttl : ℤ) where
  -- With a positive default, and if the first positive max-age that parses fits a 64-bit duration:
  -- the lifetime is 0 for a response that says no-store or no-cache in any case, whatever else it
  -- says, and positive for any other.
  pub parse_ttl_sign :
      pos 0 <ℤ default_ttl
      → ((secs : ℤ) → max_age (split (control resp) b',') ≡ some secs → pos_part secs ≤ max_seconds)
      → ((is_forbidden resp ≡ true) × (parse_ttl parse_time now resp default_ttl ≡ pos 0))
        ⊎ ((is_forbidden resp ≡ false) × (pos 0 <ℤ parse_ttl parse_time now resp default_ttl))
  unfolding parse_ttl
  parse_ttl_sign h fits = elim (Bool-cases (is_forbidden resp)) [
    | inl marked ↦
        inl (marked, ground (arith, empty_allowed (header_get resp.header (str "Cache-Control"))))
    | inr unmarked ↦ inr (
      unmarked,
      elim (Option-cases (max_age (split (control resp) b','))) [
        | inl absent ↦ ground (
          arith,
          expires_ttl_positive parse_time now (header_get resp.header (str "Expires")) default_ttl
              h,
        )
        | inr (secs, e) ↦ ground (
          arith,
          expires_ttl_positive parse_time now (header_get resp.header (str "Expires")) default_ttl
              h,
          seconds_positive secs (max_age_positive (split (control resp) b',') secs e) (fits secs e),
        )
      ],
    )
  ]

  -- The lifetime is negative for a response that may be cached and whose first positive max-age
  -- is between 9223372037 and 18446744073 seconds: the product with a second overflows.
  pub parse_ttl_overflow :
      (n : ℕ)
      → is_forbidden resp ≡ false
      → max_age (split (control resp) b',') ≡ some (pos n)
      → max_seconds < n
      → n < 18_446_744_074
      → parse_ttl parse_time now resp default_ttl <ℤ pos 0
  unfolding parse_ttl
  parse_ttl_overflow n allowed e large small = ground (
    arith,
    empty_no_max_age (header_get resp.header (str "Cache-Control")) (pos n),
    seconds_negative n large small,
  )
