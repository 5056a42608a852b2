-- ===== src/Pipeline/RateLimit/Window.antt =====
-- internal/pipeline/ratelimit/ratelimit.go: the sliding window admits at most its rate in any
-- second, and refuses no more calls than that needs.
use Prim.Native.Nat.{zero-le}
use native.Mathlib.Nat.{le_trans}
use file_server.Prelude.{
  ℕ, ◌≤◌, ◌<◌, leb, ltb, ℤ, pos, ◌-ℤ◌, -ℤ_parts, ◌≤ℤ◌, after, keep, keep-append, keep-keep, length,
  length-append, length-keep-le, List, [], ◌∷◌, ◌++◌, true, false, if◌then◌else◌, ◌≡◌, refl, arith,
  ◌∙◌, Bool-cases, inl, inr, sym,
}
use file_server.Config.{second}
use file_server.Pipeline.RateLimit.{Float, SlidingWindow, new_sliding_window, allow_sliding}

-- The instants of a list in the window of the width `w` that ends with `now`, its beginning left
-- out.
abbrev pub recent : ℕ → ℤ → List ℤ → List ℤ
recent w now = keep (λ t. after t (now -ℤ pos w))

-- The last instant of a list, after `first`.
abbrev pub last : ℤ → List ℤ → ℤ
last first [] = first
last first (t ∷ ts) = last t ts

-- Instants that do not go back.
abbrev pub Ascending : ℤ → List ℤ → Type 0
Ascending first [] = Unit
Ascending first (t ∷ ts) = (first ≤ℤ t) × Ascending t ts

after_earlier :
    (w : ℕ) (then' now t : ℤ)
    → then' ≤ℤ now
    → after t (now -ℤ pos w) ≡ true
    → after t (then' -ℤ pos w) ≡ true
after_earlier w then' now t le h = ground (arith, -ℤ_parts then' (pos w), -ℤ_parts now (pos w))

recent-recent :
    (w : ℕ) (then' now : ℤ) (h : List ℤ)
    → then' ≤ℤ now
    → recent w now (recent w then' h) ≡ recent w now h
recent-recent w then' now h le =
    keep-keep (λ t. after t (then' -ℤ pos w)) (λ t. after t (now -ℤ pos w)) h
      (λ t. after_earlier w then' now t le)

recent_now : (w : ℕ) (now : ℤ) → 0 < w → after now (now -ℤ pos w) ≡ true
recent_now w now h = ground (arith, -ℤ_parts now (pos w))

second_wide : 0 < second
second_wide = omega arith

module _ (fl : Float) where
  -- The calls of `Allow` at the given instants, with the instants that were admitted.
  unfoldable pub calls : SlidingWindow fl.F → List ℤ → List ℤ → SlidingWindow fl.F × List ℤ
  unfolding allow_sliding
  calls sw admitted [] = (sw, admitted)
  calls sw admitted (t ∷ ts) =
      let (sw', allowed) = allow_sliding fl t sw in
      calls sw' (if allowed then admitted ++ t ∷ [] else admitted) ts

  module _ (rate : fl.F) (w n : ℕ) (threshold : (m : ℕ) → fl.geb (fl.of_int (pos m)) rate ≡ leb n m)
      (wide : 0 < w) where
    -- The window holds the admitted instants of the last second, and no more than it may.
    record Tracks (sw : SlidingWindow fl.F) (admitted : List ℤ) (now : ℤ) : Type 0 where
      same_rate : sw.rate_per_sec ≡ rate
      same_window : sw.window ≡ pos w
      stamps : sw.timestamps ≡ recent w now admitted
      few : length (recent w now admitted) ≤ n

    allow_step :
        (sw : SlidingWindow fl.F) (admitted : List ℤ) (then' now : ℤ)
        → Tracks sw admitted then'
        → then' ≤ℤ now
        → allow_sliding fl now sw ≡ (
            if leb n (length (recent w now admitted))
            then (record sw { timestamps = recent w now admitted }, false)
            else (record sw { timestamps = recent w now admitted ++ now ∷ [] }, true))
    unfolding allow_sliding
    allow_step sw admitted then' now h le =
        rw (h.same_window, h.stamps, recent-recent w then' now admitted le, h.same_rate, threshold)

    recent-snoc :
        (now : ℤ) (admitted : List ℤ)
        → recent w now (admitted ++ now ∷ []) ≡ recent w now admitted ++ now ∷ []
    recent-snoc now admitted =
        keep-append (λ t. after t (now -ℤ pos w)) admitted (now ∷ []) ∙ rw (recent_now w now wide)

    still_few :
        (sw : SlidingWindow fl.F) (admitted : List ℤ) (then' now : ℤ)
        → Tracks sw admitted then'
        → then' ≤ℤ now
        → length (recent w now admitted) ≤ n
    still_few sw admitted then' now h le =
        rw (← recent-recent w then' now admitted le)
          (le_trans (length-keep-le (λ t. after t (now -ℤ pos w)) (recent w then' admitted)) h.few)

    allow-Tracks :
        (sw : SlidingWindow fl.F) (admitted : List ℤ) (then' now : ℤ)
        → Tracks sw admitted then'
        → then' ≤ℤ now
        → let (sw', allowed) = allow_sliding fl now sw in
          Tracks sw' (if allowed then admitted ++ now ∷ [] else admitted) now
    allow-Tracks sw admitted then' now h le =
        rw (allow_step sw admitted then' now h le)
          (elim (Bool-cases (leb n (length (recent w now admitted)))) [
            | inl full ↦ rw full (record {
              same_rate = h.same_rate;
              same_window = h.same_window;
              stamps = refl;
              few = still_few sw admitted then' now h le;
            })
            | inr room ↦ rw room (record {
              same_rate = h.same_rate;
              same_window = h.same_window;
              stamps = sym (recent-snoc now admitted);
              few =
                  rw (recent-snoc now admitted, length-append)
                    (ground (arith, still_few sw admitted then' now h le));
            })
          ])

    calls-Tracks :
        (ts : List ℤ) (sw : SlidingWindow fl.F) (admitted : List ℤ) (first : ℤ)
        → Tracks sw admitted first
        → Ascending first ts
        → let (sw', admitted') = calls sw admitted ts in Tracks sw' admitted' (last first ts)
    unfolding calls
    calls-Tracks [] sw admitted first h up = h
    calls-Tracks (t ∷ ts) sw admitted first h up =
        let (sw', allowed) = allow_sliding fl t sw in
        calls-Tracks ts sw' (if allowed then admitted ++ t ∷ [] else admitted) t
          (allow-Tracks sw admitted first t h up.0) up.1

-- For a rate that `n` calls reach and fewer do not, and calls of a new sliding window at instants
-- that do not go back: at the last of them, at most `n` calls were admitted within the second up
-- to it; and one more call, at an instant that is not earlier, is admitted exactly if fewer than
-- `n` calls were admitted within the second up to it.
pub calls_bounded :
    (fl : Float) (rate : fl.F) (n : ℕ) (first now : ℤ) (ts : List ℤ)
    → ((m : ℕ) → fl.geb (fl.of_int (pos m)) rate ≡ leb n m)
    → Ascending first ts
    → last first ts ≤ℤ now
    → let (sw, admitted) = calls fl (new_sliding_window fl rate) [] ts in
      (length (recent second (last first ts) admitted) ≤ n)
      × ((allow_sliding fl now sw).1 ≡ ltb (length (recent second now admitted)) n)
unfolding new_sliding_window
calls_bounded fl rate n first now ts threshold up le =
    let (sw, admitted) = calls fl (new_sliding_window fl rate) [] ts in
    let t =
      calls-Tracks fl rate second n threshold second_wide ts (new_sliding_window fl rate) [] first
        (record { same_rate = refl; same_window = refl; stamps = refl; few = zero-le }) up in
    (
      t.few,
      rw (allow_step fl rate second n threshold second_wide sw admitted (last first ts) now t le)
          (ground arith),
    )
