-- ===== src/Pipeline/RateLimit/Idle.antt =====
-- internal/pipeline/ratelimit/ratelimit.go: what a tick of the cleanup drops.
use file_server.Prelude.{
  ◌*◌, Str, str_dec, Map, IsMap, find, remove, find-remove, ℤ, pos, ◌-ℤ◌, after, [], ◌∷◌, Bool,
  true, false, Bool-cases, if◌then◌else◌, Option, none, some, ◌≡◌, inl, inr, refl, sym, ap, ◌∙◌,
  arith,
}
use file_server.Config.{second}
use file_server.Pipeline.RateLimit.{Float, TokenBucket, DomainState, drop_idle, cleanup_tick}

-- Was the key last used before the cutoff?
abbrev pub is_idle : ℤ → Option ℤ → Bool
is_idle cutoff none = false
is_idle cutoff (some t) = after cutoff t

module _ (fl : Float) (tb : TokenBucket fl.F) (split_host_port : Str → Option Str) where
  module _ (cutoff : ℤ) (k : Str) where
    abbrev Drops : Map ℤ → DomainState fl tb split_host_port → Type 0
    Drops seen s =
        let s' = drop_idle fl tb split_host_port cutoff seen s in
        (find k s'.limiters ≡ (if is_idle cutoff (find k seen) then none else find k s.limiters))
        × (find k s'.last_seen
            ≡ (if is_idle cutoff (find k seen) then none else find k s.last_seen))

    module _ (j : Str) (t : ℤ) (seen : Map ℤ) (s : DomainState fl tb split_host_port) where
      abbrev dropped : DomainState fl tb split_host_port
      dropped = record s { limiters = remove j s.limiters; last_seen = remove j s.last_seen }

      drop_late :
          after cutoff t ≡ true
          → drop_idle fl tb split_host_port cutoff ((j, t) ∷ seen) s
            ≡ drop_idle fl tb split_host_port cutoff seen dropped
      unfolding drop_idle
      drop_late late = ground arith

      drop_early :
          after cutoff t ≡ false
          → drop_idle fl tb split_host_port cutoff ((j, t) ∷ seen) s
            ≡ drop_idle fl tb split_host_port cutoff seen s
      unfolding drop_idle
      drop_early early = ground arith

    -- What one more entry before the others means for the entry of `k` in a map.
    module _ (j : Str) (t : ℤ) (seen : Map ℤ) (absent : find j seen ≡ none) where
      idle_late {ℓ} :
          {V : Type ℓ} (m : Map V)
          → after cutoff t ≡ true
          → (if is_idle cutoff (find k seen) then none else find k (remove j m))
            ≡ (if is_idle cutoff (find k ((j, t) ∷ seen)) then none else find k m)
      unfolding find
      idle_late m late = elim (str_dec j k) [
        | yes same ↦ ground (arith, find-remove j k m)
        | no n ↦ ground (arith, find-remove j k m)
      ]

      idle_early {ℓ} :
          {V : Type ℓ} (m : Map V)
          → after cutoff t ≡ false
          → (if is_idle cutoff (find k seen) then none else find k m)
            ≡ (if is_idle cutoff (find k ((j, t) ∷ seen)) then none else find k m)
      unfolding find
      idle_early m early = elim (str_dec j k) [
        | yes same ↦ ground (arith, ap (λ x. find x seen) (sym same) ∙ absent)
        | no n ↦ ground arith
      ]

    drop_idle-Drops :
        (seen : Map ℤ) (s : DomainState fl tb split_host_port) → IsMap seen → Drops seen s
    drop_idle-Drops [] s m = unfold drop_idle find in (refl, refl)
    drop_idle-Drops ((j, t) ∷ seen) s m = elim (Bool-cases (after cutoff t)) [
      | inl late ↦
          let rest = drop_idle-Drops seen (dropped j t seen s) m.1 in
          rw (drop_late j t seen s late) (
            rest.0 ∙ idle_late j t seen m.0 s.limiters late,
            rest.1 ∙ idle_late j t seen m.0 s.last_seen late,
          )
      | inr early ↦
          let rest = drop_idle-Drops seen s m.1 in
          rw (drop_early j t seen s early) (
            rest.0 ∙ idle_early j t seen m.0 s.limiters early,
            rest.1 ∙ idle_early j t seen m.0 s.last_seen early,
          )
    ]

  -- If no key stands twice in the times of last use, a tick of the cleanup at the instant `now` drops
  -- the limiter and the time of exactly the keys that were last used more than five minutes before,
  -- and keeps the others' as they are.
  pub cleanup_tick-find :
      (now : ℤ) (s : DomainState fl tb split_host_port) (k : Str)
      → IsMap s.last_seen
      → let s' = cleanup_tick fl tb split_host_port now s in
        let idle = is_idle (now -ℤ pos (5 * 60 * second)) (find k s.last_seen) in
        (find k s'.limiters ≡ (if idle then none else find k s.limiters))
        × (find k s'.last_seen ≡ (if idle then none else find k s.last_seen))
  unfolding cleanup_tick
  cleanup_tick-find now s k m = drop_idle-Drops (now -ℤ pos (5 * 60 * second)) k s.last_seen s m
