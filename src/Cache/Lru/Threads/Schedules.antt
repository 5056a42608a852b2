-- ===== src/Cache/Lru/Threads/Schedules.antt =====
-- internal/cache/cache.go: the invariant of the cache under the schedules of several goroutines.
use file_server.Prelude.{
  str, ℕ, zero, suc, Str, find, ℤ, after, All, List, [], ◌∷◌, Bool-cases, Option-cases, none, some,
  ◌≡◌, inl, inr,
}
use file_server.Errors.{Failure, wrap, Result-cases}
use file_server.Storage.{Storage, Reader}
use file_server.Cache.Lru.{
  Meta, LruCache, Formats, meta_to_storage_meta, expires_at, drop_key, delete,
}
use file_server.Cache.Lru.Invariant.{IsValid}
use file_server.Cache.Lru.Writes.{stored-IsValid, recorded-IsValid, delete-refines}
use file_server.Cache.Lru.Refinement.{expired-IsValid, touched-IsValid}
use file_server.Cache.Lru.Threads.{
  Call, getting, reading, unreadable, setting, recording, deleting, removing, got, ended, look_up,
  advance, turn, run,
}

-- A `Set` is called under the metadata's own key.
abbrev pub IsKeyed : Call → Type 0
IsKeyed (setting key r m) = m.key ≡ key
IsKeyed (recording key m) = m.key ≡ key
IsKeyed (getting key) = Unit
IsKeyed (reading key m) = Unit
IsKeyed (unreadable key e) = Unit
IsKeyed (deleting key) = Unit
IsKeyed (removing key) = Unit
IsKeyed (got r) = Unit
IsKeyed (ended r) = Unit

module _ (St : Storage) (f : Formats) where
  dropped-IsValid : (c : LruCache St.State) (key : Str) → IsValid c → IsValid (drop_key St c key)
  unfolding delete
  dropped-IsValid c key v =
      stored-IsValid St (delete St c key).0 (delete-refines St c key v).0
        (drop_key St c key).storage

  module _ (now : ℤ) (c : LruCache St.State) (v : IsValid c) where
    -- The same, of a step.
    abbrev IsKept : LruCache St.State × Call → Type 0
    IsKept s = IsValid s.0 × IsKeyed s.1

    module _ (key : Str) where
      missed : find key c.items ≡ none → IsKept (look_up St f now c key)
      unfolding look_up
      missed absent = rw (look_up, absent) (v, tt)

      found : (i : ℕ) → find key c.items ≡ some i → IsKept (look_up St f now c key)
      unfolding look_up
      found i e = elim (Bool-cases (after now (expires_at (c.values i)))) [
        | inl late ↦ rw (look_up, e, late) (expired-IsValid St c now key v i e, tt)
        | inr live ↦ rw (look_up, e, live) (touched-IsValid St c now key v i e, tt)
      ]

      look_up-IsKept : IsKept (look_up St f now c key)
      look_up-IsKept = elim (Option-cases (find key c.items)) [
        | inl absent ↦ missed absent
        | inr (i, e) ↦ found i e
      ]

      read-IsKept : (m : Meta) → IsKept (advance St f now c (reading key m))
      unfolding advance
      read-IsKept m = elim (Result-cases (St.read c.storage key)) [
        | inl (p, e) ↦ rw (advance, e) (v, tt)
        | inr (x, e) ↦ rw (advance, e) (v, tt)
      ]

      write-IsKept :
          (r : Reader) (m : Meta) → m.key ≡ key → IsKept (advance St f now c (setting key r m))
      unfolding advance
      write-IsKept r m same =
          let (s, failure) = St.write c.storage key r (some (meta_to_storage_meta f m)) in
          (stored-IsValid St c v s, written-IsKeyed failure)
        where
          written-IsKeyed :
              (failure : Failure)
              → IsKeyed (elim failure [
                | some e ↦ ended (some (wrap (str "cache: storage write: ") e))
                | none ↦ recording key m
              ])
          written-IsKeyed none = same
          written-IsKeyed (some e) = tt

    advance-IsKept : (t : Call) → IsKeyed t → IsKept (advance St f now c t)
    unfolding advance
    advance-IsKept (getting key) k = look_up-IsKept key
    advance-IsKept (reading key m) k = read-IsKept key m
    advance-IsKept (unreadable key e) k = (dropped-IsValid c key v, tt)
    advance-IsKept (setting key r m) k = write-IsKept key r m k
    advance-IsKept (recording key m) k = (recorded-IsValid St c v c.storage key m k, tt)
    advance-IsKept (deleting key) k = (dropped-IsValid c key v, tt)
    advance-IsKept (removing key) k = (stored-IsValid St c v (St.delete c.storage key).0, tt)
    advance-IsKept (got r) k = (v, tt)
    advance-IsKept (ended r) k = (v, tt)

  turn-IsValid :
      (i : ℕ) (now : ℤ) (c : LruCache St.State) (ts : List Call)
      → IsValid c
      → All IsKeyed ts
      → let (c', ts') = turn St f i now c ts in IsValid c' × All IsKeyed ts'
  unfolding turn
  turn-IsValid i now c [] v keyed = (v, tt)
  turn-IsValid zero now c (t ∷ ts) v keyed =
      let kept = advance-IsKept now c v t keyed.0 in (kept.0, (kept.1, keyed.1))
  turn-IsValid (suc i) now c (t ∷ ts) v keyed =
      let kept = turn-IsValid i now c ts v keyed.1 in (kept.0, (keyed.0, kept.1))

  -- Whatever calls of `Get`, `Set` under the metadata's own key, and `Delete` run at once, and in
  -- whatever order they take their steps: after every step the map and the list of the cache hold
  -- the same elements, each under its key, and no more than the capacity.
  pub run-IsValid :
      (schedule : List (ℕ × ℤ)) (c : LruCache St.State) (ts : List Call)
      → IsValid c
      → All IsKeyed ts
      → IsValid (run St f schedule c ts).0
  unfolding run
  run-IsValid [] c ts v keyed = v
  run-IsValid ((i, now) ∷ schedule) c ts v keyed =
      let kept = turn-IsValid i now c ts v keyed in
      run-IsValid schedule (turn St f i now c ts).0 (turn St f i now c ts).1 kept.0 kept.1
