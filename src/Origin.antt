-- ===== src/Origin.antt =====
-- internal/origin/puller.go: pulls from the origins of a domain. The HTTP client is a parameter:
-- what a request that cannot be built gives, and what the round trip gives, its timeouts included.
-- `W` is the state of the network. Go's `%` truncates towards zero, so it keeps a negative sign; an
-- index out of range panics.
pub mod Rounds
pub mod Overflow
pub mod Forwarding
use file_server.Prelude.{
  ℕ, zero, suc, ◌+◌, ◌-◌, ◌^◌, ◌%◌, Str, str, ◌++◌, str_eq, ◌==◌, ℤ, pos, negsuc, ◌+ℤ◌, wrap_64,
  ltb_ℤ, leb, ltb, length, get_elem?, List, [], ◌∷◌, Bool, true, false, ◌||◌, if◌then◌else◌, Option,
  none, some,
}
use file_server.Errors.{Error, leaf, wrap, Result, ok, err}
use file_server.Http.{Header, Response, header_add}

-- The `http.Client`, and `http.NewRequestWithContext` for a target.
pub record Client (W : Type 0) : Type 0 where
  pub build : Str → Option Error
  pub round_trip : W → ℤ → Str → Header → W × Result Response

-- `hopByHop`
unfoldable pub hop_by_hop : Str → Bool
hop_by_hop k =
    str_eq k (str "Connection")
    || str_eq k (str "Keep-Alive")
    || str_eq k (str "Proxy-Authenticate")
    || str_eq k (str "Proxy-Authorization")
    || str_eq k (str "Te")
    || str_eq k (str "Trailers")
    || str_eq k (str "Transfer-Encoding")
    || str_eq k (str "Upgrade")
    || str_eq k (str "Host")

-- `for _, v := range vs { dst.Add(k, v) }`
unfoldable pub add_values : Str → List Str → Header → Header
unfolding header_add
add_values k [] dst = dst
add_values k (v ∷ vs) dst = add_values k vs (header_add dst k v)

-- `copyHeaders`
unfoldable pub copy_headers : Header → Header → Header
unfolding hop_by_hop add_values
copy_headers dst [] = dst
copy_headers dst ((k, vs) ∷ src) =
    copy_headers (if hop_by_hop k then dst else add_values k vs dst) src

module _ {W : Type 0} (client : Client W) where
  -- The status of a response: from 500 on it is an error that is tried again.
  unfoldable pub check_status : (ℕ → Str) → Response → Result Response
  check_status show resp =
      if leb 500 resp.status_code
      then err (leaf (str "upstream returned " ++ show resp.status_code))
      else ok resp

  -- `do`
  unfoldable pub do_request : (ℕ → Str) → W → Str → Str → Header → ℤ → W × Result Response
  unfolding check_status copy_headers
  do_request show w origin_base path header timeout =
      let target = origin_base ++ path in
      elim (client.build target) [
        | some e ↦ (w, err (wrap (str "build request: ") e))
        | none ↦
            let (w', reply) = client.round_trip w timeout target (copy_headers [] header) in
            elim reply [ err e ↦ (w', err e) | ok resp ↦ (w', check_status show resp) ]
      ]

-- `a % n` on signed integers.
unfoldable pub rem : ℤ → ℕ → ℤ
rem (pos a) n = pos (a % n)
rem (negsuc a) n = let r = (a + 1) % n in if r == 0 then pos 0 else negsuc (r - 1)

-- `origins[idx]`; `none` is the panic.
unfoldable pub origin_at : List Str → ℤ → Option Str
origin_at origins (pos i) = get_elem? origins i
origin_at origins (negsuc i) = none

-- How a pull ends.
pub data Outcome : Type 0 where
  replied : Result Response → Outcome
  panicked : Outcome

-- `fmt.Errorf("origin: all attempts failed: %w", lastErr)`, where `lastErr` may be nil.
abbrev pub all_failed : Option Error → Error
all_failed none = wrap (str "origin: all attempts failed: ") (leaf (str "%!w(<nil>)"))
all_failed (some e) = wrap (str "origin: all attempts failed: ") e

-- The number of rounds of the loop from 0 up to `retry`.
abbrev pub rounds_of : ℤ → ℕ
rounds_of (pos n) = n + 1
rounds_of (negsuc n) = 0

-- `int(p.counter.Add(1)-1) % n`: the counter has 64 bits.
unfoldable pub start_of : ℕ → ℕ → ℤ
unfolding rem wrap_64
start_of counter n = rem (wrap_64 (pos (((counter + 1) % 2 ^ 64 + 2 ^ 64 - 1) % 2 ^ 64))) n

module _ {W : Type 0} (client : Client W) (show : ℕ → Str) where
  -- The loop of `Pull`, with the rounds that are left.
  unfoldable pub pull_from :
      ℕ → ℕ → ℤ → Option Error → List Str → ℤ → Str → Header → W → W × Outcome
  unfolding rem origin_at do_request ◌+ℤ◌
  pull_from zero attempt start last_err origins timeout path header w =
      (w, replied (err (all_failed last_err)))
  pull_from (suc rounds) attempt start last_err origins timeout path header w =
      elim (origin_at origins (rem (start +ℤ pos attempt) (length origins))) [
        | none ↦ (w, panicked)
        | some origin ↦
            let (w', reply) = do_request client show w origin path header timeout in
            elim reply [
              | ok resp ↦ (w', replied (ok resp))
              | err e ↦
                  pull_from rounds (attempt + 1) start
                    (some (wrap (str "origin " ++ origin ++ str ": ") e)) origins timeout path
                    header w'
            ]
      ]

  -- `Pull`: the counter after it, the network and the outcome.
  unfoldable pub pull : ℕ → W → List Str → ℤ → ℤ → Str → Header → ℕ × (W × Outcome)
  unfolding start_of pull_from
  pull counter w [] timeout retry path header =
      (counter, (w, replied (err (leaf (str "origin: no origins configured")))))
  pull counter w (o ∷ os) timeout retry path header = (
    (counter + 1) % 2 ^ 64,
    pull_from (rounds_of retry) 0 (start_of counter (length (o ∷ os))) none (o ∷ os) timeout path
        header w,
  )
