-- ===== src/Cache/Singleflight/Callers/Flights.antt =====
-- internal/cache/singleflight.go: which of the concurrent callers of `GetOrFetch` are in the closure.
use file_server.Prelude.{
  ℕ, Str, ℤ, List, [], ◌∷◌, true, false, none, some-injective, ◌≡◌, ◌≢◌, refl, sym, ap, ◌∙◌, inl,
  inr, Option-cases, Bool-cases,
}
use file_server.Errors.{ok}
use file_server.Storage.{Storage}
use file_server.Cache.Lru.{Formats, get}
use file_server.Cache.Singleflight.{Fetch, to_reader}
use file_server.Cache.Singleflight.Callers.{
  Group, GroupLaws, Phase, starting, entering, leading, fetching, waiting, storing, leaving,
  returned, after_first, after_second, after_fetch, Callers, turn_at, turn, run,
}
use file_server.Cache.Singleflight.Callers.Order.{
  is_running, running-after_first, running-after_second, running-after_fetch, IsOrdered,
  aside-IsOrdered, enter_leads, enter_waits, leave-IsOrdered,
}

-- No goroutine has taken a step, and the group has no call in flight.
pub record IsFresh {S W : Type 0} (G : Group) (s : Callers S G.State W) : Type 0 where
  pub unstarted : (i : ℕ) → s.phases i ≡ starting
  pub idle : (k : Str) → G.leader s.group k ≡ none

module _ (St : Storage) (f : Formats) (G : Group) (laws : GroupLaws G) {W : Type 0}
    (key_of : ℕ → Str) (fetch : ℕ → Fetch W) where
  turn_at-IsOrdered :
      (p : Phase) (now : ℤ) (i : ℕ) (s : Callers St.State G.State W)
      → s.phases i ≡ p
      → IsOrdered G key_of s.group s.phases
      → let s' = turn_at St f G key_of fetch p now i s in IsOrdered G key_of s'.group s'.phases
  unfolding turn_at is_running
  turn_at-IsOrdered starting now i s e h =
      aside-IsOrdered G key_of s.group s.phases i h (after_first (get St now s.cache (key_of i)).1)
        (running-after_first (get St now s.cache (key_of i)).1 ∙ ap is_running (sym e))
  turn_at-IsOrdered entering now i s e h = elim (Option-cases (G.leader s.group (key_of i))) [
    | inl free ↦
        rw (laws.enter_free s.group (key_of i) i free).0
          (enter_leads G key_of s.group s.phases i h laws leading refl free)
    | inr (l, taken) ↦
        rw (laws.enter_taken s.group (key_of i) i l taken).0
          (enter_waits G key_of s.group s.phases i h laws waiting l (ap is_running (sym e)) taken)
  ]
  turn_at-IsOrdered leading now i s e h =
      aside-IsOrdered G key_of s.group s.phases i h (after_second (get St now s.cache (key_of i)).1)
        (running-after_second (get St now s.cache (key_of i)).1 ∙ ap is_running (sym e))
  turn_at-IsOrdered fetching now i s e h =
      aside-IsOrdered G key_of s.group s.phases i h (after_fetch (fetch i s.net).1)
        (running-after_fetch (fetch i s.net).1 ∙ ap is_running (sym e))
  turn_at-IsOrdered waiting now i s e h = elim (Option-cases (G.outcome s.group i)) [
    | inl none_yet ↦ rw (none_yet, turn_at) h
    | inr (r, given) ↦
        rw (given, turn_at)
          (aside-IsOrdered G key_of s.group s.phases i h (returned (to_reader r))
            (ap is_running (sym e)))
  ]
  turn_at-IsOrdered (storing body meta) now i s e h =
      aside-IsOrdered G key_of s.group s.phases i h
        (leaving (ok (record { bytes = body; meta = meta }))) (ap is_running (sym e))
  turn_at-IsOrdered (leaving r) now i s e h =
      leave-IsOrdered G key_of s.group s.phases i h laws (returned (to_reader r)) r
        (ap is_running e) refl
  turn_at-IsOrdered (returned r) now i s e h = h

  pub turn-IsOrdered :
      (now : ℤ) (i : ℕ) (s : Callers St.State G.State W)
      → IsOrdered G key_of s.group s.phases
      → let s' = turn St f G key_of fetch now i s in IsOrdered G key_of s'.group s'.phases
  unfolding turn
  turn-IsOrdered now i s = turn_at-IsOrdered (s.phases i) now i s refl

  pub run-IsOrdered :
      (schedule : List (ℤ × ℕ)) (s : Callers St.State G.State W)
      → IsOrdered G key_of s.group s.phases
      → let s' = run St f G key_of fetch schedule s in IsOrdered G key_of s'.group s'.phases
  unfolding run
  run-IsOrdered [] s h = h
  run-IsOrdered ((now, i) ∷ schedule) s h =
      run-IsOrdered schedule (turn St f G key_of fetch now i s) (turn-IsOrdered now i s h)

  pub fresh-IsOrdered :
      (s : Callers St.State G.State W) → IsFresh G s → IsOrdered G key_of s.group s.phases
  unfolding is_running
  fresh-IsOrdered s fresh = record {
    known = λ i e. absurd (cc (fresh.unstarted i, e));
    runs = λ k l e. absurd (cc (fresh.idle k, e));
  }

  -- Under every interleaving of the steps of any number of callers from a group with no call in
  -- flight: while one caller is in the closure of `Do`, no other caller of its key is.
  pub run-one_leader :
      (schedule : List (ℤ × ℕ)) (s : Callers St.State G.State W) (i j : ℕ)
      → IsFresh G s
      → i ≢ j
      → is_running ((run St f G key_of fetch schedule s).phases i) ≡ true
      → key_of i ≡ key_of j
      → is_running ((run St f G key_of fetch schedule s).phases j) ≡ false
  run-one_leader schedule s i j fresh other runs same =
      let s' = run St f G key_of fetch schedule s in
      let h = run-IsOrdered schedule s (fresh-IsOrdered s fresh) in
      elim (Bool-cases (is_running (s'.phases j))) [
        | inr out ↦ out
        | inl runs' ↦
            let led = sym (h.known i runs) ∙ ap (G.leader s'.group) same ∙ h.known j runs' in
            absurd (other (some-injective i j led))
      ]
