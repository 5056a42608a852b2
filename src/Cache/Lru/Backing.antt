-- ===== src/Cache/Lru/Backing.antt =====
-- internal/cache/cache.go with internal/storage/storage.go: the bodies of the entries in the storage,
-- and `Get` after `Set`.
use file_server.Prelude.{
  ℕ, zero, suc, ◌-◌, ◌<◌, ◌≤◌, Str, Map, find, find-remove, length, take, ℤ, pos, after, [], ◌∷◌,
  false, none, some, ◌≡◌, Bool-cases, Option-cases, inl, inr, refl, arith, ◌∙◌,
}
use file_server.Errors.{ok, Failure}
use file_server.Storage.{Storage, StorageLaws}
use file_server.Cache.Lru.{
  LruCache, Meta, Formats, expires_at, remove_locked, back, record_entry, get, set, evict,
  evict_locked, meta_to_storage_meta,
}
use file_server.Cache.Lru.Invariant.{IsIndexed, IsValid, contents, pushed, pushed-IsIndexed}
use file_server.Cache.Lru.Evict.{
  over, round, round-IsIndexed, length-round, contents-round-remove, evict_stop, evict_empty,
  evict-round, contents-evict_fuel,
}
use file_server.Cache.Lru.Ideal.{ideal_reply, ideal_set}
use file_server.Cache.Lru.Steps.{capacity, max_items-capacity}
use file_server.Cache.Lru.Refinement.{get-refines}
use file_server.Cache.Lru.Writes.{set_stored, set_failed, set-refines, stored-IsValid}

find-take {ℓ} :
    {V : Type ℓ} (k : Str) (v : V) (n : ℕ) (m : Map V)
    → find k (take n m) ≡ some v
    → find k m ≡ some v
unfolding find
find-take k v zero m h = cc
find-take k v (suc n) [] h = h
find-take k v (suc n) ((j, w) ∷ m) h = ground (arith, find-take k v n m)

module _ (St : Storage) (laws : StorageLaws St) where
  module _ (c : LruCache St.State) (h : IsIndexed c) (i : ℕ) (last : back c.lru ≡ some i) where
    -- A round of the eviction deletes the body of the key that it drops, and no other.
    read-round :
        (k : Str) (m : Meta)
        → find k (contents (round St c i)) ≡ some m
        → St.read (round St c i).storage k ≡ St.read c.storage k
    unfolding remove_locked
    read-round k m kept = laws.read-delete_ne c.storage (c.values i).key k (λ e. ground (
      arith,
      e,
      contents-round-remove St c h i last,
      find-remove (c.values i).key k (contents c),
    ))

  read-evict :
      (fuel n : ℕ) (c : LruCache St.State) (k : Str) (m : Meta)
      → IsIndexed c
      → length c.lru ≤ fuel
      → c.max_items ≡ pos n
      → find k (contents (evict St fuel c)) ≡ some m
      → St.read (evict St fuel c).storage k ≡ St.read c.storage k
  unfolding evict
  read-evict zero n c k m h e cap kept = refl
  read-evict (suc fuel) n c k m h e cap kept = elim (Bool-cases (over St c)) [
    | inr fits ↦ rw (evict_stop St fuel c fits)
    | inl more ↦ elim (Option-cases (back c.lru)) [
      | inl last ↦ rw (evict_empty St fuel c last)
      | inr (i, last) ↦
          let next = evict-round St fuel c i more last in
          let kept' = rw next at kept in
          rw next (
            read-evict fuel n (round St c i) k m (round-IsIndexed St c h i last)
              (omega (arith, length-round St c h i last)) cap kept'
            ∙ read-round c h i last k m (
                find-take k m n (contents (round St c i)) (
                  rw
                    (contents-evict_fuel St fuel n (round St c i) (round-IsIndexed St c h i last)
                      (omega (arith, length-round St c h i last)) cap)
                    at kept')))
    ]
  ]

  -- Recording an entry leaves the bodies of the entries that stay as they are.
  read-record_entry :
      (c : LruCache St.State) (key k : Str) (m m' : Meta)
      → IsValid c
      → m.key ≡ key
      → find k (contents (record_entry St c key m)) ≡ some m'
      → St.read (record_entry St c key m).storage k ≡ St.read c.storage k
  unfolding record_entry evict_locked
  read-record_entry c key k m m' v same kept = elim (Option-cases (find key c.items)) [
    | inl absent ↦
        rw (absent, record_entry)
          (let p = pushed c v.indexed key m same absent in
            read-evict (length p.lru) (capacity c) p k m'
              (pushed-IsIndexed c v.indexed key m same absent) (omega arith)
              (max_items-capacity c v) (rw (absent, record_entry) at kept))
    | inr (i, found) ↦ rw (found, record_entry)
  ]

  module _ (f : Formats) (c : LruCache St.State) (key body : Str) (m : Meta) where
    abbrev pub written : St.State × Failure
    written = St.write c.storage key (ok body) (some (meta_to_storage_meta f m))

    -- A `Set` that succeeds.
    module _ (v : IsValid c) (same : m.key ≡ key)
        (done : (set St f c key (ok body) m).1 ≡ none) where
      write_done : written.1 ≡ none
      write_done = elim (Option-cases written.1) [
        | inl fine ↦ fine
        | inr (e, failed) ↦ cc (set_failed St f c key (ok body) m e failed, done)
      ]

      abbrev pub after_set : LruCache St.State
      after_set = record_entry St (record c { storage = written.0 }) key m

      pub set-after_set : set St f c key (ok body) m ≡ (after_set, none)
      set-after_set = set_stored St f c key (ok body) m write_done

      pub after_set-IsValid : IsValid after_set
      after_set-IsValid = rw set-after_set at ((set-refines St f c key (ok body) m v same).0)

      contents-after_set : contents after_set ≡ ideal_set (capacity c) key m (contents c)
      contents-after_set =
          rw (set-after_set, write_done) at ((set-refines St f c key (ok body) m v same).1)

      read-after_set :
          (k : Str) (m' : Meta)
          → find k (contents after_set) ≡ some m'
          → St.read after_set.storage k ≡ St.read written.0 k
      read-after_set k m' kept =
          read-record_entry (record c { storage = written.0 }) key k m m'
            (stored-IsValid St c v written.0) same kept

      module _ (room : 0 < capacity c) where
        pub found_after_set : find key (contents after_set) ≡ some m
        unfolding ideal_set find
        found_after_set =
            rw contents-after_set
              (let e : capacity c ≡ suc (capacity c - 1) = omega arith in rw e (ground arith))

        pub stored_after_set :
            St.read after_set.storage key ≡ ok (ok body, laws.kept (meta_to_storage_meta f m))
        stored_after_set =
            read-after_set key m found_after_set
            ∙ laws.read-write c.storage written.0 key body (meta_to_storage_meta f m)
                (λ i. (written.0, write_done i))

        pub reply_after_set :
            (now : ℤ)
            → after now (expires_at m) ≡ false
            → (get St now after_set key).1 ≡ ok (ok body, m)
        unfolding ideal_reply
        reply_after_set now live =
            (get-refines St after_set now key after_set-IsValid).2
            ∙ ground (arith, found_after_set, stored_after_set)

-- Over a storage that keeps its laws, and with a capacity that is not zero: after a `Set` that
-- succeeds under the metadata's own key, and until the entry expires, `Get` of that key returns
-- the body and the metadata that were set, whatever was evicted.
pub get-set :
    (St : Storage) (laws : StorageLaws St) (f : Formats) (c : LruCache St.State) (key body : Str)
    (m : Meta) (now : ℤ)
    → IsValid c
    → m.key ≡ key
    → 0 < capacity c
    → (set St f c key (ok body) m).1 ≡ none
    → after now (expires_at m) ≡ false
    → (get St now (set St f c key (ok body) m).0 key).1 ≡ ok (ok body, m)
get-set St laws f c key body m now v same room done live =
    rw (set-after_set St laws f c key body m v same done)
      (reply_after_set St laws f c key body m v same done room now live)
