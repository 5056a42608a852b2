-- ===== src/Cache/Singleflight/Callers/Waiters.antt =====
-- internal/cache/singleflight.go: what the concurrent callers of `GetOrFetch` that wait in `Do` get.
use file_server.Prelude.{
  ℕ, Str, ℤ, List, [], ◌∷◌, true, ◌≡◌, ◌≢◌, ◌⊎◌, refl, inl, inr, Option-cases,
}
use file_server.Errors.{Result, ok, err}
use file_server.Storage.{Storage, Reader}
use file_server.Cache.Lru.{Meta, Formats, get}
use file_server.Cache.Singleflight.{Fetch, to_reader}
use file_server.Cache.Singleflight.Callers.{
  Group, GroupLaws, Phase, starting, entering, leading, fetching, waiting, storing, leaving,
  returned, after_first, after_second, after_fetch, Callers, turn_at, turn, run,
}
use file_server.Cache.Singleflight.Callers.Order.{is_running, put_phase_here}
use file_server.Cache.Singleflight.Callers.Flights.{IsFresh, run-IsOrdered, fresh-IsOrdered}
use file_server.Cache.Singleflight.Callers.Served.{
  held, served, AreServed, aside-AreServed, enter-AreServed, leave-AreServed,
}

not_waiting_first : (r : Result (Reader × Meta)) → after_first r ≢ waiting
unfolding after_first
not_waiting_first (ok p) e = cc
not_waiting_first (err x) e = cc

not_waiting_second : (r : Result (Reader × Meta)) → after_second r ≢ waiting
unfolding after_second
not_waiting_second (ok p) e = cc
not_waiting_second (err x) e = cc

not_waiting_fetch : (r : Result (Reader × Meta)) → after_fetch r ≢ waiting
unfolding after_fetch
not_waiting_fetch (ok (ok body, meta)) e = cc
not_waiting_fetch (ok (err x, meta)) e = cc
not_waiting_fetch (err x) e = cc

module _ (St : Storage) (f : Formats) (G : Group) {W : Type 0} (key_of : ℕ → Str)
    (fetch : ℕ → Fetch W) where
  -- What there is for the goroutine `i` to wait for: a caller of its key that is in the closure, or
  -- one that has returned what the next step of `i` returns too.
  abbrev pub IsAwaited : ℤ → ℕ → Callers St.State G.State W → Type 0
  IsAwaited now i s =
      (l : ℕ) × (key_of l ≡ key_of i)
      × ((is_running (s.phases l) ≡ true)
          ⊎ ((r : Result (Reader × Meta)) × (s.phases l ≡ returned r)
              × ((turn St f G key_of fetch now i s).phases i ≡ returned r)))

module _ (St : Storage) (f : Formats) (G : Group) (laws : GroupLaws G) {W : Type 0}
    (key_of : ℕ → Str) (fetch : ℕ → Fetch W) where
  turn_at-AreServed :
      (p : Phase) (now : ℤ) (i : ℕ) (s : Callers St.State G.State W)
      → s.phases i ≡ p
      → AreServed G key_of s.group s.phases
      → let s' = turn_at St f G key_of fetch p now i s in AreServed G key_of s'.group s'.phases
  unfolding turn_at
  turn_at-AreServed starting now i s e h =
      aside-AreServed G key_of s.group s.phases i (after_first (get St now s.cache (key_of i)).1) h
        (λ r bad. cc) (not_waiting_first (get St now s.cache (key_of i)).1)
  turn_at-AreServed entering now i s e h = elim (Option-cases (G.leader s.group (key_of i))) [
    | inl free ↦
        rw (laws.enter_free s.group (key_of i) i free).0
          (enter-AreServed G key_of s.group s.phases i leading h laws (λ r bad. cc) (λ bad. cc))
    | inr (l, taken) ↦
        let (waits, led, joined) = laws.enter_taken s.group (key_of i) i l taken in
        rw waits (
          enter-AreServed G key_of s.group s.phases i waiting h laws (λ r bad. cc)
            (λ _. held l joined led))
  ]
  turn_at-AreServed leading now i s e h =
      aside-AreServed G key_of s.group s.phases i (after_second (get St now s.cache (key_of i)).1) h
        (λ r bad. cc) (not_waiting_second (get St now s.cache (key_of i)).1)
  turn_at-AreServed fetching now i s e h =
      aside-AreServed G key_of s.group s.phases i (after_fetch (fetch i s.net).1) h (λ r bad. cc)
        (not_waiting_fetch (fetch i s.net).1)
  turn_at-AreServed waiting now i s e h = elim (Option-cases (G.outcome s.group i)) [
    | inl none_yet ↦ rw (none_yet, turn_at) h
    | inr (r, given) ↦
        rw (given, turn_at)
          (aside-AreServed G key_of s.group s.phases i (returned (to_reader r)) h (λ x bad. cc)
            (λ bad. cc))
  ]
  turn_at-AreServed (storing body meta) now i s e h =
      aside-AreServed G key_of s.group s.phases i
        (leaving (ok (record { bytes = body; meta = meta }))) h (λ r bad. cc) (λ bad. cc)
  turn_at-AreServed (leaving r) now i s e h = leave-AreServed G key_of laws s.group s.phases i r h e
  turn_at-AreServed (returned r) now i s e h = h

  run-AreServed :
      (schedule : List (ℤ × ℕ)) (s : Callers St.State G.State W)
      → AreServed G key_of s.group s.phases
      → let s' = run St f G key_of fetch schedule s in AreServed G key_of s'.group s'.phases
  unfolding run turn
  run-AreServed [] s h = h
  run-AreServed ((now, i) ∷ schedule) s h =
      run-AreServed schedule (turn St f G key_of fetch now i s)
        (turn_at-AreServed (s.phases i) now i s refl h)

  fresh-AreServed :
      (s : Callers St.State G.State W) → IsFresh G s → AreServed G key_of s.group s.phases
  fresh-AreServed s fresh i e = absurd (cc (fresh.unstarted i, e))

  -- Under every interleaving of the steps of any number of callers from a group with no call in
  -- flight, no caller waits in `Do` in vain: another caller of its key is in the closure, or one
  -- has returned, and the next step of the waiting caller returns the same as it.
  pub run-waiters :
      (schedule : List (ℤ × ℕ)) (s : Callers St.State G.State W) (i : ℕ) (now : ℤ)
      → IsFresh G s
      → (run St f G key_of fetch schedule s).phases i ≡ waiting
      → IsAwaited St f G key_of fetch now i (run St f G key_of fetch schedule s)
  unfolding turn turn_at
  run-waiters schedule s i now fresh e =
      let s' = run St f G key_of fetch schedule s in
      let ordered =
        run-IsOrdered St f G laws key_of fetch schedule s
          (fresh-IsOrdered St f G laws key_of fetch s fresh) in
      elim (run-AreServed schedule s (fresh-AreServed s fresh) i e) [
        | held l joined led ↦
            let (running, own) = ordered.runs (key_of i) l led in (l, own, inl running)
        | served l r joined given own done ↦ (
          l,
          own,
          inr (
            to_reader r,
            done,
            rw (e, given, turn_at) (put_phase_here s'.phases i (returned (to_reader r))),
          ),
        )
      ]
