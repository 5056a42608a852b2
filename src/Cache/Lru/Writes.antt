-- ===== src/Cache/Lru/Writes.antt =====
-- internal/cache/cache.go: `NewLRUCache`, `Set`, `Delete` and `Stat` on the list of entries in the
-- order of use.
use file_server.Prelude.{
  ℕ, Str, str, ◌++◌, find, remove, length, length-take-le, pos, ◌≤◌, [], ◌∷◌, none, some, ◌≡◌,
  Option-cases, inl, inr, refl, arith, ◌∙◌, sym,
}
use file_server.Errors.{Error, leaf, wrap, wrap_failure, ok, err, Failure}
use file_server.Storage.{Storage, Reader}
use file_server.Cache.Lru.{
  LruCache, Meta, Formats, drop_key, record_entry, new, set, delete, stat, len,
  meta_to_storage_meta,
}
use file_server.Cache.Lru.Elements.{length-view}
use file_server.Cache.Lru.Invariant.{IsValid, contents}
use file_server.Cache.Lru.Evict.{with_storage-IsIndexed}
use file_server.Cache.Lru.Ideal.{ideal_set}
use file_server.Cache.Lru.Steps.{
  find-contents, find-contents-none, capacity, IsValid-of_contents, contents_fit,
  max_items-capacity, drop_key-IsIndexed, contents-drop_key, max_items-drop_key, storage-drop_key,
  record_entry-IsIndexed, max_items-record_entry, contents-record_entry, length-remove-le,
}

-- A new cache is valid and empty, if its capacity is not negative.
pub new-IsValid :
    {S : Type 0} (n : ℕ) (s : S)
    → IsValid (new (pos n) s) × (contents (new (pos n) s) ≡ []) × (capacity (new (pos n) s) ≡ n)
unfolding new find
new-IsValid n s = (
  record {
    indexed = record { agree = λ k. refl; distinct = tt; fresh = tt };
    bounded = omega arith;
  },
  refl,
  refl,
)

module _ (St : Storage) (c : LruCache St.State) (v : IsValid c) (s : St.State) where
  -- The index of a valid cache, over another state of the storage.
  abbrev pub stored : LruCache St.State
  stored = record c { storage = s }

  pub stored-IsValid : IsValid stored
  stored-IsValid = record { indexed = with_storage-IsIndexed c s v.indexed; bounded = v.bounded }

  module _ (key : Str) (m : Meta) (same : m.key ≡ key) where
    recorded : contents (record_entry St stored key m) ≡ ideal_set (capacity c) key m (contents c)
    recorded =
        contents-record_entry St stored stored-IsValid.indexed key m same (capacity c)
          (max_items-capacity c v) (contents_fit c v)

    pub recorded-IsValid : IsValid (record_entry St stored key m)
    unfolding ideal_set
    recorded-IsValid =
        IsValid-of_contents (capacity c) (record_entry St stored key m)
          (record_entry-IsIndexed St stored stored-IsValid.indexed key m same)
          (max_items-record_entry St stored stored-IsValid.indexed key m same
            ∙ max_items-capacity c v)
          (rw recorded (length-take-le (capacity c) ((key, m) ∷ remove key (contents c))))

module _ (St : Storage) (f : Formats) (c : LruCache St.State) (key : Str) (r : Reader)
    (m : Meta) where
  abbrev written : St.State × Failure
  written = St.write c.storage key r (some (meta_to_storage_meta f m))

  pub set_stored :
      written.1 ≡ none
      → set St f c key r m ≡ (record_entry St (record c { storage = written.0 }) key m, none)
  unfolding set
  set_stored e = ground arith

  pub set_failed :
      (e : Error)
      → written.1 ≡ some e
      → set St f c key r m
        ≡ (record c { storage = written.0 }, some (wrap (str "cache: storage write: ") e))
  unfolding set
  set_failed e h = ground arith

-- `Set` under the metadata's own key. Where the storage takes the body, the cache stays valid, the
-- new entry comes first in place of an older one of the same key, and the least recently used
-- entries that do not fit are gone; where it does not, the entries are as before and the error is
-- the storage's, wrapped.
pub set-refines :
    (St : Storage) (f : Formats) (c : LruCache St.State) (key : Str) (r : Reader) (m : Meta)
    → IsValid c
    → m.key ≡ key
    → IsValid (set St f c key r m).0
      × (contents (set St f c key r m).0
          ≡ (elim (St.write c.storage key r (some (meta_to_storage_meta f m))).1 [
            | none ↦ ideal_set (capacity c) key m (contents c)
            | some e ↦ contents c
          ]))
      × ((set St f c key r m).1
          ≡ wrap_failure
              (str "cache: storage write: ")
              (St.write c.storage key r (some (meta_to_storage_meta f m))).1)
unfolding wrap_failure
set-refines St f c key r m v same =
    let w = St.write c.storage key r (some (meta_to_storage_meta f m)) in
    elim (Option-cases w.1) [
      | inl done ↦
          rw (set_stored St f c key r m done, done)
            (recorded-IsValid St c v w.0 key m same, recorded St c v w.0 key m same, refl)
      | inr (e, failed) ↦
          rw (set_failed St f c key r m e failed, failed) (stored-IsValid St c v w.0, refl, refl)
    ]

-- `Delete` keeps the cache valid, drops the entry of the key and no other, and returns what the
-- storage's deletion returns.
pub delete-refines :
    (St : Storage) (c : LruCache St.State) (key : Str)
    → IsValid c
    → IsValid (delete St c key).0
      × (contents (delete St c key).0 ≡ remove key (contents c))
      × ((delete St c key).0.storage ≡ (St.delete c.storage key).0)
      × ((delete St c key).1 ≡ (St.delete c.storage key).1)
unfolding delete
delete-refines St c key v =
    let d = drop_key St c key in
    let dropped = contents-drop_key St c v.indexed key in
    (
      stored-IsValid St d
          (IsValid-of_contents (capacity c) d (drop_key-IsIndexed St c v.indexed key)
            (max_items-drop_key St c v.indexed key ∙ max_items-capacity c v)
            (rw dropped (omega (arith, length-remove-le key (contents c), contents_fit c v))))
          (St.delete d.storage key).0,
      dropped,
      rw (storage-drop_key St c v.indexed key),
      rw (storage-drop_key St c v.indexed key),
    )

-- `Stat` and `Len` read the entries, whatever their age, and change nothing.
pub stat-contents :
    {S : Type 0} (c : LruCache S) (key : Str)
    → IsValid c
    → (stat c key ≡ (elim (find key (contents c)) [
      | none ↦ err (leaf (str "cache: not found: " ++ key))
      | some m ↦ ok m
    ]))
      × (len c ≡ length (contents c))
      × (len c ≤ capacity c)
unfolding stat len
stat-contents c key v = (
  elim (Option-cases (find key c.items)) [
    | inl absent ↦ ground (arith, find-contents-none c v.indexed key absent)
    | inr (i, found) ↦ ground (arith, find-contents c v.indexed key i found)
  ],
  sym (length-view c.values c.lru),
  omega (arith, length-view c.values c.lru, contents_fit c v),
)
