-- ===== src/Cache/Lru/Threads.antt =====
-- internal/cache/cache.go: `Get`, `Set` and `Delete` of several goroutines at once. A call is cut
-- where it gives up `mu` or calls the storage without it; a critical section, and a call of the
-- storage outside of one, is one step. A schedule names the goroutine that takes the next step, and
-- the instant that its clock shows.
pub mod Schedules
use file_server.Prelude.{
  ℕ, zero, suc, Str, str, ◌++◌, find, ℤ, after, List, [], ◌∷◌, Bool, true, false, if◌then◌else◌,
  none, some,
}
use file_server.Errors.{Error, leaf, wrap, Result, ok, err, Failure}
use file_server.Storage.{Storage, Reader}
use file_server.Cache.Lru.{
  Meta, LruCache, Formats, expires_at, meta_to_storage_meta, move_to_front, remove_locked, drop_key,
  record_entry,
}

-- What is left of a call: the calls before their first step, what follows each of their steps, and
-- what they return.
pub data Call : Type 0 where
  getting : Str → Call
  reading : Str → Meta → Call
  unreadable : Str → Error → Call
  setting : Str → Reader → Meta → Call
  recording : Str → Meta → Call
  deleting : Str → Call
  removing : Str → Call
  got : Result (Reader × Meta) → Call
  ended : Failure → Call

module _ (St : Storage) (f : Formats) where
  -- The first critical section of `Get`
  unfoldable pub look_up : ℤ → LruCache St.State → Str → LruCache St.State × Call
  unfolding remove_locked move_to_front expires_at
  look_up now c key = elim (find key c.items) [
    | none ↦ (c, got (err (leaf (str "cache: miss: " ++ key))))
    | some el ↦
        if after now (expires_at (c.values el))
        then (remove_locked c el, got (err (leaf (str "cache: expired: " ++ key))))
        else (record c { lru = move_to_front el c.lru }, reading key (c.values el))
  ]

  -- The next step of a call.
  unfoldable pub advance : ℤ → LruCache St.State → Call → LruCache St.State × Call
  unfolding look_up drop_key record_entry meta_to_storage_meta
  advance now c (getting key) = look_up now c key
  advance now c (reading key meta) = elim (St.read c.storage key) [
    | ok (rc, _) ↦ (c, got (ok (rc, meta)))
    | err e ↦ (c, unreadable key e)
  ]
  advance now c (unreadable key e) =
      (drop_key St c key, got (err (wrap (str "cache: storage read: ") e)))
  advance now c (setting key r meta) =
      let (s, failure) = St.write c.storage key r (some (meta_to_storage_meta f meta)) in
      (
        record c { storage = s },
        (elim failure [
          | some e ↦ ended (some (wrap (str "cache: storage write: ") e))
          | none ↦ recording key meta
        ]),
      )
  advance now c (recording key meta) = (record_entry St c key meta, ended none)
  advance now c (deleting key) = (drop_key St c key, removing key)
  advance now c (removing key) =
      let (s, failure) = St.delete c.storage key in (record c { storage = s }, ended failure)
  advance now c (got r) = (c, got r)
  advance now c (ended r) = (c, ended r)

  -- A turn of the goroutine `i`; there is none out of range.
  unfoldable pub turn : ℕ → ℤ → LruCache St.State → List Call → LruCache St.State × List Call
  unfolding advance
  turn i now c [] = (c, [])
  turn zero now c (t ∷ ts) = let (c', t') = advance now c t in (c', t' ∷ ts)
  turn (suc i) now c (t ∷ ts) = let (c', ts') = turn i now c ts in (c', t ∷ ts')

  unfoldable pub run : List (ℕ × ℤ) → LruCache St.State → List Call → LruCache St.State × List Call
  unfolding turn
  run [] c ts = (c, ts)
  run ((i, now) ∷ schedule) c ts = let (c', ts') = turn i now c ts in run schedule c' ts'
