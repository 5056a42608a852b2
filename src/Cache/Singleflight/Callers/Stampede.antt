-- ===== src/Cache/Singleflight/Callers/Stampede.antt =====
-- internal/cache/singleflight.go: how often `GetOrFetch` fetches for concurrent callers of one key.
use file_server.Prelude.{
  ℕ, ◌≤◌, Str, ℤ, List, [], ◌∷◌, All, none, some, ◌≡◌, refl, ap, inl, inr, arith, Option-cases,
}
use file_server.Errors.{ok}
use file_server.Storage.{Storage, StorageLaws, Metadata}
use file_server.Cache.Lru.{Formats, get, meta_to_storage_meta}
use file_server.Cache.Lru.Held.{IsRoomy, get-IsRoomy, get-IsHeld}
use file_server.Cache.Lru.Writes.{set_stored}
use file_server.Cache.Singleflight.{Fetch, to_reader}
use file_server.Cache.Singleflight.Callers.{
  Group, GroupLaws, Phase, starting, entering, leading, fetching, waiting, storing, leaving,
  returned, after_first, Callers, turn_at, turn, run,
}
use file_server.Cache.Singleflight.Callers.Order.{IsOrdered}
use file_server.Cache.Singleflight.Callers.Flights.{IsFresh, turn-IsOrdered, fresh-IsOrdered}
use file_server.Cache.Singleflight.Callers.Once.{
  is_storing, pulling-after_first, IsGood, IsOnce, unfetched, fetched, kept, aside-IsOnce,
  second-IsOnce, fetch-IsOnce, store-IsOnce,
}

module _ (St : Storage) (laws : StorageLaws St) (f : Formats) (G : Group) (g_laws : GroupLaws G)
    {W : Type 0} (key : Str) (during : ℤ → Type 0) (fetch : ℕ → Fetch W) where
  module _
      (stores : (s : St.State) (b : Str) (m : Metadata) → (St.write s key (ok b) (some m)).1 ≡ none)
      (good : (i : ℕ) (w : W) → IsGood key during (fetch i w).1) where
    turn_at-IsOnce :
        (p : Phase) (now : ℤ) (i : ℕ) (s : Callers St.State G.State W)
        → during now
        → s.phases i ≡ p
        → IsOrdered G (λ j. key) s.group s.phases
        → IsOnce St key during s.fetches s.cache s.phases
        → let s' = turn_at St f G (λ j. key) fetch p now i s in
          IsOnce St key during s'.fetches s'.cache s'.phases
    unfolding turn_at
    turn_at-IsOnce starting now i s t e h once =
        aside-IsOnce St laws f G key during s.fetches s.cache s.phases i (get St now s.cache key).0
          (after_first (get St now s.cache key).1) (get-IsRoomy St key now s.cache)
          (λ held. get-IsHeld St key now during s.cache held t) (ap is_storing e)
          (pulling-after_first (get St now s.cache key).1) once
    turn_at-IsOnce entering now i s t e h once = elim (Option-cases (G.leader s.group key)) [
      | inl free ↦ rw (g_laws.enter_free s.group key i free).0 (
          aside-IsOnce St laws f G key during s.fetches s.cache s.phases i s.cache leading (λ x. x)
            (λ x. x) (ap is_storing e) refl once)
      | inr (l, taken) ↦ rw (g_laws.enter_taken s.group key i l taken).0 (
          aside-IsOnce St laws f G key during s.fetches s.cache s.phases i s.cache waiting (λ x. x)
            (λ x. x) (ap is_storing e) refl once)
    ]
    turn_at-IsOnce leading now i s t e h once =
        second-IsOnce St laws f G key during s.fetches s.cache s.phases i s.group h now t e once
    turn_at-IsOnce fetching now i s t e h once =
        fetch-IsOnce St laws f G key during s.fetches s.cache s.phases i s.group h (fetch i s.net).1
          e (good i s.net) once
    turn_at-IsOnce waiting now i s t e h once = elim (Option-cases (G.outcome s.group i)) [
      | inl none_yet ↦ rw (none_yet, turn_at) once
      | inr (r, given) ↦
          rw (given, turn_at)
            (aside-IsOnce St laws f G key during s.fetches s.cache s.phases i s.cache
              (returned (to_reader r)) (λ x. x) (λ x. x) (ap is_storing e) refl once)
    ]
    turn_at-IsOnce (storing body meta) now i s t e h once =
        store-IsOnce St laws f G key during s.fetches s.cache s.phases i s.group h body meta
          (leaving (ok (record { bytes = body; meta = meta }))) e refl
          (ap (λ x. x.1)
            (set_stored St f s.cache key (ok body) meta
              (stores s.cache.storage body (meta_to_storage_meta f meta))))
          once
    turn_at-IsOnce (leaving r) now i s t e h once =
        aside-IsOnce St laws f G key during s.fetches s.cache s.phases i s.cache
          (returned (to_reader r)) (λ x. x) (λ x. x) (ap is_storing e) refl once
    turn_at-IsOnce (returned r) now i s t e h once = once

    run-IsOnce :
        (schedule : List (ℤ × ℕ)) (s : Callers St.State G.State W)
        → All (λ x. during x.0) schedule
        → IsOrdered G (λ j. key) s.group s.phases
        → IsOnce St key during s.fetches s.cache s.phases
        → let s' = run St f G (λ j. key) fetch schedule s in
          IsOnce St key during s'.fetches s'.cache s'.phases
    unfolding run turn
    run-IsOnce [] s ts h once = once
    run-IsOnce ((now, i) ∷ schedule) s ts h once =
        run-IsOnce schedule (turn St f G (λ j. key) fetch now i s) ts.1
          (turn-IsOrdered St f G g_laws (λ j. key) fetch now i s h)
          (turn_at-IsOnce (s.phases i) now i s ts.0 refl h once)

    at_most_one :
        (s : Callers St.State G.State W)
        → IsOnce St key during s.fetches s.cache s.phases
        → s.fetches ≤ 1
    at_most_one s (unfetched e roomy quiet) = omega (arith, e)
    at_most_one s (fetched o body m e roomy at own live) = omega (arith, e)
    at_most_one s (kept e held quiet) = e

    -- However many goroutines call `GetOrFetch` of one key, and however their steps interleave, at
    -- most one of them fetches. This is so from a valid cache with room for an entry and a group
    -- with no call in flight, over a storage that keeps its laws and takes the bodies of the key,
    -- if each fetch would succeed with metadata of the key and a lifetime that lasts over the
    -- instants of the schedule.
    pub run-fetches_once :
        (schedule : List (ℤ × ℕ)) (s : Callers St.State G.State W)
        → All (λ x. during x.0) schedule
        → IsFresh G s
        → IsRoomy s.cache
        → s.fetches ≡ 0
        → (run St f G (λ j. key) fetch schedule s).fetches ≤ 1
    run-fetches_once schedule s ts fresh roomy zero_yet =
        at_most_one (run St f G (λ j. key) fetch schedule s) (
          run-IsOnce schedule s ts (fresh-IsOrdered St f G g_laws (λ j. key) fetch s fresh)
            (unfetched zero_yet roomy (λ j. ap is_storing (fresh.unstarted j))))
