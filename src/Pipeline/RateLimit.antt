-- ===== src/Pipeline/RateLimit.antt =====
-- internal/pipeline/ratelimit/ratelimit.go: the rate limit plugin. Floating-point numbers, the
-- token bucket of golang.org/x/time/rate and net.SplitHostPort are parameters, and so are the
-- instants; the metric is not modelled. A critical section is one step.
pub mod Window
pub mod Idle
pub mod Isolation
use file_server.Prelude.{
  ℕ, ◌*◌, Str, str, str_eq, Map, find, put, remove, ℤ, pos, ◌-ℤ◌, after, keep, length, List, [],
  ◌∷◌, ◌++◌, Bool, true, false, not, if◌then◌else◌, Option, none, some,
}
use file_server.Http.{http_error}
use file_server.Config.{Value, Fields, float_64, int, int_64, string, second}
use file_server.Pipeline.{Plugin, register_plugin, Run, find_field}

-- `float64`, as far as the plugin computes with it: the conversions and `>=`.
pub record Float : Type 1 where
  pub F : Type 0
  pub of_int : ℤ → F
  pub to_int : F → ℤ
  pub geb : F → F → Bool

-- `rate.NewLimiter` and `Allow` at an instant.
pub record TokenBucket (F : Type 0) : Type 1 where
  pub Bucket : Type 0
  pub new_limiter : F → ℤ → Bucket
  pub allow : ℤ → Bucket → Bucket × Bool

-- `slidingWindow`
pub record SlidingWindow (F : Type 0) : Type 0 where
  pub rate_per_sec : F
  pub window : ℤ
  pub timestamps : List ℤ

-- The interface `limiter`, by its two implementations.
pub data Limiter (F B : Type 0) : Type 0 where
  bucket : B → Limiter F B
  sliding : SlidingWindow F → Limiter F B

-- `perDomainState`; `cleaning` says that `cleanupOnce` has run.
pub record PerDomainState (F B : Type 0) : Type 0 where
  pub mode : Str
  pub algorithm : Str
  pub rate_per_sec : F
  pub burst : ℤ
  pub limiters : Map (Limiter F B)
  pub last_seen : Map ℤ
  pub cleaning : Bool

-- `stringVal`
abbrev pub string_val : {F : Type 0} → Fields F → Str → Str → Str
string_val cfg key default = elim (find_field key cfg) [
  | some (string v) ↦ if str_eq v (str "") then default else v
  | _ ↦ default
]

module _ (fl : Float) where
  open fl use {F, of_int, to_int, geb}

  -- `floatVal`
  abbrev pub float_val : Fields F → Str → F → F
  float_val cfg key default = elim (find_field key cfg) [
    | some (float_64 x) ↦ x
    | some (int n) ↦ of_int n
    | some (int_64 n) ↦ of_int n
    | _ ↦ default
  ]

  -- `intVal`
  abbrev pub int_val : Fields F → Str → ℤ → ℤ
  int_val cfg key default = elim (find_field key cfg) [
    | some (int n) ↦ n
    | some (float_64 x) ↦ to_int x
    | some (int_64 n) ↦ n
    | _ ↦ default
  ]

  -- `newSlidingWindow`
  unfoldable pub new_sliding_window : F → SlidingWindow F
  new_sliding_window rps = record { rate_per_sec = rps; window = pos second; timestamps = [] }

  -- `slidingWindow.Allow` at the instant `now`
  unfoldable pub allow_sliding : ℤ → SlidingWindow F → SlidingWindow F × Bool
  unfolding ◌-ℤ◌
  allow_sliding now sw =
      let kept = keep (λ t. after t (now -ℤ sw.window)) sw.timestamps in
      if geb (of_int (pos (length kept))) sw.rate_per_sec
      then (record sw { timestamps = kept }, false)
      else (record sw { timestamps = kept ++ now ∷ [] }, true)

  module _ (tb : TokenBucket F) (split_host_port : Str → Option Str) where
    open tb use {Bucket, new_limiter, allow}

    abbrev pub DomainState : Type 0
    DomainState = PerDomainState F Bucket

    -- `Allow` of either limiter
    unfoldable pub allow_limiter : ℤ → Limiter F Bucket → Limiter F Bucket × Bool
    unfolding allow_sliding
    allow_limiter now (bucket b) = let (b', allowed) = allow now b in (bucket b', allowed)
    allow_limiter now (sliding sw) =
        let (sw', allowed) = allow_sliding now sw in (sliding sw', allowed)

    -- `newLimiter`
    unfoldable pub make_limiter : DomainState → Limiter F Bucket
    unfolding new_sliding_window
    make_limiter s =
        if str_eq s.algorithm (str "sliding_window")
        then sliding (new_sliding_window s.rate_per_sec)
        else bucket (new_limiter s.rate_per_sec s.burst)

    -- `limiterKey`
    unfoldable pub limiter_key : DomainState → Str → Str
    limiter_key s remote_addr =
        if str_eq s.mode (str "ip")
        then (elim (split_host_port remote_addr) [ none ↦ remote_addr | some ip ↦ ip ])
        else str "domain"

    -- The state that `Execute` stores for a domain that has none.
    abbrev pub initial_state : Fields F → DomainState
    initial_state cfg =
        let rps = float_val cfg (str "rate") (of_int (pos 100)) in
        record {
          mode = string_val cfg (str "mode") (str "domain");
          algorithm = string_val cfg (str "algorithm") (str "token_bucket");
          rate_per_sec = rps;
          burst = int_val cfg (str "burst") (to_int rps);
          limiters = [];
          last_seen = [];
          cleaning = false;
        }

    -- `p.domains.LoadOrStore(domain, …)`
    abbrev pub load_or_store : Map DomainState → Str → Fields F → DomainState
    load_or_store domains domain cfg = elim (find domain domains) [
      | none ↦ initial_state cfg
      | some s ↦ s
    ]

    -- The critical section of `Execute`.
    unfoldable pub admit : ℤ → ℤ → Str → DomainState → DomainState × Bool
    unfolding allow_limiter make_limiter
    admit seen now key s =
        let l : Limiter F Bucket = elim (find key s.limiters) [
          | none ↦ make_limiter s
          | some l ↦ l
        ] in
        let (l', allowed) = allow_limiter now l in
        (
          record s { limiters = put key l' s.limiters; last_seen = put key seen s.last_seen },
          allowed,
        )

    -- `Plugin.Execute`: the clock reads `seen` for the last use, and `now` in `Allow`.
    unfoldable pub rate_limit_plugin : ℤ → ℤ → Plugin F (Map DomainState)
    unfolding limiter_key admit
    rate_limit_plugin seen now cfg domain run =
        let s = load_or_store run.state domain cfg in
        let s' =
          if str_eq (string_val cfg (str "mode") (str "domain")) (str "ip")
          then record s { cleaning = true }
          else s in
        let (s'', allowed) = admit seen now (limiter_key s' run.request.remote_addr) s' in
        let run' = record run { state = put domain s'' run.state } in
        if allowed
        then (run', true)
        else (record run' { writer = http_error run.writer (str "Too Many Requests") 429 }, false)

    -- `init`, with the instants at which a request reads the clock
    unfoldable pub register_rate_limit :
        ℤ → ℤ → Map (Plugin F (Map DomainState)) → Map (Plugin F (Map DomainState))
    unfolding rate_limit_plugin register_plugin
    register_rate_limit seen now reg =
        register_plugin reg (str "rate_limit") (rate_limit_plugin seen now)

    -- The loop of `cleanup` over the keys of `last_seen`, at one tick.
    unfoldable pub drop_idle : ℤ → Map ℤ → DomainState → DomainState
    drop_idle cutoff [] s = s
    drop_idle cutoff ((k, t) ∷ seen) s = drop_idle cutoff seen (
        if after cutoff t
        then record s { limiters = remove k s.limiters; last_seen = remove k s.last_seen }
        else s)

    -- One tick of `cleanup`.
    unfoldable pub cleanup_tick : ℤ → DomainState → DomainState
    unfolding drop_idle ◌-ℤ◌
    cleanup_tick now s = drop_idle (now -ℤ pos (5 * 60 * second)) s.last_seen s
