-- ===== src/Tests/Caching.antt =====
-- Concrete runs of the cache, its keys and its lifetimes.
use file_server.Prelude.{
  ℕ, suc, ◌<◌, str, find, remove, pos, after, ◌+ℤ◌, [], false, none, some, ◌≡◌, refl, arith,
}
use file_server.Errors.{leaf, wrap_failure, ok, err}
use file_server.Cache.Lru.{LruCache, new, get, set, delete, expires_at, meta_to_storage_meta}
use file_server.Cache.Lru.Ideal.{is_readable, ideal_get, ideal_reply, ideal_set}
use file_server.Cache.Lru.Invariant.{IsValid, contents}
use file_server.Cache.Lru.Steps.{capacity}
use file_server.Cache.Lru.Refinement.{get-refines}
use file_server.Cache.Lru.Writes.{new-IsValid, set-refines, delete-refines}
use file_server.Cache.Lru.Backing.{get-set}
use file_server.Cache.Singleflight.{Fetch, get_or_fetch}
use file_server.Cache.Singleflight.Fetches.{get_or_fetch_again}
use file_server.Tests.{memory, memory-laws, formats, meta_at}

-- An empty cache of two entries, and one with an entry.
abbrev empty : LruCache memory.State
empty = new (pos 2) []

abbrev one : LruCache memory.State
one = (set memory formats empty (str "a") (ok (str "x")) (meta_at (str "a") (pos 0))).0

empty-IsValid : IsValid empty
empty-IsValid = (new-IsValid 2 []).0

one-IsValid : IsValid one
one-IsValid =
    (set-refines memory formats empty (str "a") (ok (str "x")) (meta_at (str "a") (pos 0))
      empty-IsValid refl).0

get-refines_example :
    IsValid (get memory (pos 3) one (str "a")).0
    × (contents (get memory (pos 3) one (str "a")).0
        ≡ ideal_get
            (pos 3)
            (is_readable (memory.read one.storage (str "a")))
            (str "a")
            (contents one))
    × ((get memory (pos 3) one (str "a")).1
        ≡ ideal_reply (pos 3) (memory.read one.storage (str "a")) (str "a") (contents one))
get-refines_example = get-refines memory one (pos 3) (str "a") one-IsValid

set-refines_example :
    IsValid (set memory formats one (str "b") (ok (str "y")) (meta_at (str "b") (pos 1))).0
    × (contents (set memory formats one (str "b") (ok (str "y")) (meta_at (str "b") (pos 1))).0
        ≡ (elim (memory.write one.storage
            (str "b")
            (ok (str "y"))
            (some (meta_to_storage_meta formats (meta_at (str "b") (pos 1))))).1 [
              | none ↦ ideal_set (capacity one) (str "b") (meta_at (str "b") (pos 1)) (contents one)
              | some e ↦ contents one
            ]))
    × ((set memory formats one (str "b") (ok (str "y")) (meta_at (str "b") (pos 1))).1
        ≡ wrap_failure
            (str "cache: storage write: ")
            (memory.write one.storage
              (str "b")
              (ok (str "y"))
              (some (meta_to_storage_meta formats (meta_at (str "b") (pos 1))))).1)
set-refines_example =
    set-refines memory formats one (str "b") (ok (str "y")) (meta_at (str "b") (pos 1)) one-IsValid
      refl

delete-refines_example :
    IsValid (delete memory one (str "a")).0
    × (contents (delete memory one (str "a")).0 ≡ remove (str "a") (contents one))
    × ((delete memory one (str "a")).0.storage ≡ (memory.delete one.storage (str "a")).0)
    × ((delete memory one (str "a")).1 ≡ (memory.delete one.storage (str "a")).1)
delete-refines_example = delete-refines memory one (str "a") one-IsValid

empty_room : 0 < capacity empty
unfolding new
empty_room = omega arith

empty_writes :
    (set memory formats empty (str "a") (ok (str "x")) (meta_at (str "a") (pos 0))).1 ≡ none
unfolding set
empty_writes = refl

live : after (pos 5) (expires_at (meta_at (str "a") (pos 0))) ≡ false
unfolding expires_at ◌+ℤ◌
live = refl

get-set_example :
    (get memory (pos 5) one (str "a")).1 ≡ ok (ok (str "x"), meta_at (str "a") (pos 0))
get-set_example =
    get-set memory memory-laws formats empty (str "a") (str "x") (meta_at (str "a") (pos 0)) (pos 5)
      empty-IsValid refl empty_room empty_writes live

-- A fetch that counts its calls.
abbrev fetch : Fetch ℕ
fetch w = (suc w, ok (ok (str "x"), meta_at (str "a") (pos 0)))

missed : (get memory (pos 5) empty (str "a")).1 ≡ err (leaf (str "cache: miss: a"))
unfolding get new find
missed = refl

missed_writes :
    (set memory formats
      (get memory (pos 5) empty (str "a")).0
      (str "a")
      (ok (str "x"))
      (meta_at (str "a") (pos 0))).1
    ≡ none
unfolding set get new find
missed_writes = refl

get_or_fetch_again_example :
    let r = get_or_fetch memory formats (pos 5) (pos 5) none empty 0 (str "a") fetch in
    let r' = get_or_fetch memory formats (pos 5) (pos 6) none r.0.0 r.0.1 (str "a") fetch in
    (r'.1 ≡ ok (ok (str "x"), meta_at (str "a") (pos 0))) × (r'.0.1 ≡ 1)
get_or_fetch_again_example =
    get_or_fetch_again memory memory-laws formats empty (pos 5) (pos 5) (pos 5) (pos 6) 0 1
      (str "a") (str "x") (meta_at (str "a") (pos 0)) (leaf (str "cache: miss: a")) fetch fetch none
      empty-IsValid empty_room missed refl refl missed_writes live
