-- ===== src/Cache/Lru/Frame.antt =====
-- internal/cache/cache.go with internal/storage/storage.go: a key that other code of the program
-- stores something under, and the calls of the cache on other keys.
use file_server.Prelude.{
  ℕ, zero, suc, Str, Map, find, find-remove, remove, length, take, ℤ, [], ◌∷◌, Bool, none, some,
  ◌≡◌, ◌≢◌, Bool-cases, Option-cases, inl, inr, refl, arith, ◌∙◌,
}
use file_server.Errors.{Result}
use file_server.Storage.{Storage, StorageLaws, Reader, Metadata}
use file_server.Cache.Lru.{
  LruCache, Meta, Formats, remove_locked, back, record_entry, get, set, delete, evict, evict_locked,
  meta_to_storage_meta,
}
use file_server.Cache.Lru.Elements.{find-back}
use file_server.Cache.Lru.Invariant.{
  IsIndexed, IsValid, contents, pushed, pushed-IsIndexed, contents-pushed,
}
use file_server.Cache.Lru.Evict.{
  over, round, round-IsIndexed, contents-round-remove, evict_stop, evict_empty, evict-round,
}
use file_server.Cache.Lru.Ideal.{ideal_get, ideal_set, is_readable}
use file_server.Cache.Lru.Steps.{capacity, find-contents}
use file_server.Cache.Lru.Refinement.{get-refines, storage-get}
use file_server.Cache.Lru.Writes.{
  set_stored, set_failed, set-refines, delete-refines, stored-IsValid,
}

module _ (k : Str) where
  absent-remove : (key : Str) (l : Map Meta) → find k l ≡ none → find k (remove key l) ≡ none
  absent-remove key l h = ground (arith, find-remove key k l)

  absent-take : (n : ℕ) (l : Map Meta) → find k l ≡ none → find k (take n l) ≡ none
  unfolding find
  absent-take zero l h = refl
  absent-take (suc n) [] h = refl
  absent-take (suc n) ((j, m) ∷ l) h = ground (arith, absent-take n l)

  absent-ideal_get :
      (now : ℤ) (readable : Bool) (key : Str) (l : Map Meta)
      → find k l ≡ none
      → find k (ideal_get now readable key l) ≡ none
  unfolding ideal_get find
  absent-ideal_get now readable key l h = elim (Option-cases (find key l)) [
    | inl missing ↦ ground (arith, missing)
    | inr (m, found) ↦ ground (arith, found, absent-remove key l h)
  ]

  absent-ideal_set :
      (n : ℕ) (key : Str) (m : Meta) (l : Map Meta)
      → key ≢ k
      → find k l ≡ none
      → find k (ideal_set n key m l) ≡ none
  unfolding ideal_set find
  absent-ideal_set n key m l other h =
      absent-take n ((key, m) ∷ remove key l) (ground (arith, absent-remove key l h))

module _ (St : Storage) (k : Str) (b : Result (Reader × Metadata)) where
  -- The cache has no entry under the key, and the storage gives `b` for it.
  pub record IsApart (c : LruCache St.State) : Type 0 where
    pub valid : IsValid c
    pub absent : find k (contents c) ≡ none
    pub same : St.read c.storage k ≡ b

module _ (St : Storage) (laws : StorageLaws St) (k : Str) where
  module _ (c : LruCache St.State) (h : IsIndexed c) (i : ℕ) (last : back c.lru ≡ some i)
      (absent : find k (contents c) ≡ none) where
    -- The last element is under another key.
    victim_other : (c.values i).key ≢ k
    victim_other e = cc (
      find-contents c h (c.values i).key i
          (h.agree (c.values i).key ∙ find-back c.values i c.lru last h.distinct),
      absent,
      e,
    )

    absent-round : find k (contents (round St c i)) ≡ none
    absent-round =
        rw (contents-round-remove St c h i last)
          (absent-remove k (c.values i).key (contents c) absent)

    read_other-round : St.read (round St c i).storage k ≡ St.read c.storage k
    unfolding remove_locked
    read_other-round = laws.read-delete_ne c.storage (c.values i).key k victim_other

  read_other-evict :
      (fuel : ℕ) (c : LruCache St.State)
      → IsIndexed c
      → find k (contents c) ≡ none
      → St.read (evict St fuel c).storage k ≡ St.read c.storage k
  unfolding evict
  read_other-evict zero c h absent = refl
  read_other-evict (suc fuel) c h absent = elim (Bool-cases (over St c)) [
    | inr fits ↦ rw (evict_stop St fuel c fits)
    | inl more ↦ elim (Option-cases (back c.lru)) [
      | inl last ↦ rw (evict_empty St fuel c last)
      | inr (i, last) ↦ rw (evict-round St fuel c i more last) (
          read_other-evict fuel (round St c i) (round-IsIndexed St c h i last)
            (absent-round c h i last absent)
          ∙ read_other-round c h i last absent)
    ]
  ]

  module _ (c : LruCache St.State) (key : Str) (other : key ≢ k) where
    read_other-record_entry :
        (m : Meta)
        → IsValid c
        → m.key ≡ key
        → find k (contents c) ≡ none
        → St.read (record_entry St c key m).storage k ≡ St.read c.storage k
    unfolding record_entry evict_locked
    read_other-record_entry m v own absent = elim (Option-cases (find key c.items)) [
      | inl free ↦
          rw (free, record_entry)
            (let p = pushed c v.indexed key m own free in
              read_other-evict (length p.lru) p (pushed-IsIndexed c v.indexed key m own free) (
                rw (contents-pushed c v.indexed key m own free)
                  (unfold find in ground (arith, absent))))
      | inr (i, found) ↦ rw (found, record_entry)
    ]

  module _ (b : Result (Reader × Metadata)) (c : LruCache St.State) (key : Str)
      (apart : IsApart St k b c) where
    -- `Get`, of whatever key, changes neither.
    pub get-IsApart : (now : ℤ) → IsApart St k b (get St now c key).0
    get-IsApart now =
        let (v, held, _) = get-refines St c now key apart.valid in
        record {
          valid = v;
          absent = rw held (
              absent-ideal_get k now (is_readable (St.read c.storage key)) key (contents c)
                apart.absent);
          same = rw (storage-get St c now key) apart.same;
        }

    module _ (other : key ≢ k) where
      pub delete-IsApart : IsApart St k b (delete St c key).0
      delete-IsApart =
          let (v, held, stored, _) = delete-refines St c key apart.valid in
          record {
            valid = v;
            absent = rw held (absent-remove k key (contents c) apart.absent);
            same = rw stored (laws.read-delete_ne c.storage key k other ∙ apart.same);
          }

      pub set-IsApart :
          (f : Formats) (r : Reader) (m : Meta)
          → m.key ≡ key
          → IsApart St k b (set St f c key r m).0
      set-IsApart f r m own =
          let w = St.write c.storage key r (some (meta_to_storage_meta f m)) in
          let kept = laws.read-write_ne c.storage key k r (some (meta_to_storage_meta f m)) other in
          let (v, held, _) = set-refines St f c key r m apart.valid own in
          elim (Option-cases w.1) [
            | inl done ↦ record {
              valid = v;
              absent =
                  rw (held, done)
                    (absent-ideal_set k (capacity c) key m (contents c) other apart.absent);
              same = rw (set_stored St f c key r m done) (
                  read_other-record_entry (record c { storage = w.0 }) key other m
                    (stored-IsValid St c apart.valid w.0) own apart.absent
                  ∙ kept
                  ∙ apart.same);
            }
            | inr (e, failed) ↦ record {
              valid = v;
              absent = rw (held, failed) apart.absent;
              same = rw (set_failed St f c key r m e failed) (kept ∙ apart.same);
            }
          ]
