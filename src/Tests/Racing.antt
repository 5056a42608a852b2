-- ===== src/Tests/Racing.antt =====
-- Concrete schedules of the calls of the cache.
use file_server.Prelude.{
  none, ℕ, str, str_dec, find, put, remove, ℤ, pos, All, List, [], ◌∷◌, ◌≡◌, refl,
}
use file_server.Errors.{leaf, wrap, ok, err}
use file_server.Cache.Lru.{LruCache, record_entry, new, drop_key, evict_locked, evict}
use file_server.Cache.Lru.Invariant.{IsValid}
use file_server.Cache.Lru.Writes.{new-IsValid}
use file_server.Cache.Lru.Threads.{Call, getting, setting, deleting, got, ended, advance, turn, run}
use file_server.Cache.Lru.Threads.Schedules.{IsKeyed, run-IsValid}
use file_server.Tests.{memory, formats, meta_at}

abbrev empty : LruCache memory.State
empty = new (pos 1) []

-- A `Set`, a `Delete` and a `Get` of one key.
abbrev racing : List Call
racing =
    setting (str "k") (ok (str "v")) (meta_at (str "k") (pos 0))
    ∷ deleting (str "k")
    ∷ getting (str "k")
    ∷ []

racing-IsKeyed : All IsKeyed racing
racing-IsKeyed = (refl, (tt, (tt, tt)))

-- The body is written, then deleted, then indexed; the `Get` comes last.
abbrev schedule : List (ℕ × ℤ)
schedule =
    (0, pos 1) ∷ (1, pos 1) ∷ (1, pos 1) ∷ (0, pos 1) ∷ (2, pos 2) ∷ (2, pos 2) ∷ (2, pos 2) ∷ []

-- Between the `Set` and the `Get` the index leads to a body that is gone.
lost_body :
    (run memory formats schedule empty racing).1
    ≡ ended none
      ∷ ended none
      ∷ got (err (wrap (str "cache: storage read: ") (leaf (str "not found"))))
      ∷ []
unfolding run turn advance new drop_key record_entry evict_locked evict find put remove str_dec
lost_body = refl

run-IsValid_example : IsValid (run memory formats schedule empty racing).0
run-IsValid_example =
    run-IsValid memory formats schedule empty racing (new-IsValid 1 []).0 racing-IsKeyed
