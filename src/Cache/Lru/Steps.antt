-- ===== src/Cache/Lru/Steps.antt =====
-- internal/cache/cache.go: the effect of each critical section on the contents and the invariant.
use mathlib.Core.Path.{fun_ext}
use file_server.Prelude.{
  ℕ, ◌<◌, ◌≤◌, Str, Map, find, remove, find-remove, remove_absent, length, take, take_all, pos, [],
  ◌∷◌, none, some, ◌≡◌, Option-cases, inl, inr, arith, ap, ◌∙◌, sym, subst, pos_part,
}
use file_server.Storage.{Storage}
use file_server.Cache.Lru.{
  LruCache, Meta, update, move_to_front, remove_locked, drop_key, evict_locked, record_entry,
}
use file_server.Cache.Lru.Elements.{
  entries, key-find-entries, find-view-some, find-view-none, length-view,
}
use file_server.Cache.Lru.Invariant.{
  IsIndexed, IsValid, contents, remove_locked-IsIndexed, contents-remove_locked,
  rewritten-IsIndexed, contents-rewritten, pushed, pushed-IsIndexed, contents-pushed,
}
use file_server.Cache.Lru.Evict.{evict-IsIndexed, contents-evict, max_items-evict}
use file_server.Cache.Lru.Ideal.{ideal_set}

pub remove-remove {ℓ} : {V : Type ℓ} (k : Str) (m : Map V) → remove k (remove k m) ≡ remove k m
remove-remove k m = remove_absent k (remove k m) (ground (arith, find-remove k k m))

pub length-remove-le {ℓ} : {V : Type ℓ} (k : Str) (m : Map V) → length (remove k m) ≤ length m
unfolding remove
length-remove-le k [] = omega arith
length-remove-le k ((j, v) ∷ m) = ground (arith, length-remove-le k m)

pub remove-cons {ℓ} :
    {V : Type ℓ} (k : Str) (v : V) (m : Map V) → remove k ((k, v) ∷ m) ≡ remove k m
unfolding remove
remove-cons k v m = ground arith

-- A key that is found takes a place.
pub length-remove-lt {ℓ} :
    {V : Type ℓ} (k : Str) (v : V) (m : Map V) → find k m ≡ some v → length (remove k m) < length m
unfolding remove find
length-remove-lt k v [] h = cc
length-remove-lt k v ((j, w) ∷ m) h = ground (arith, length-remove-lt k v m, length-remove-le k m)

update_same : (v : ℕ → Meta) (i : ℕ) → update v i (v i) ≡ v
update_same v i = fun_ext (λ j. ground arith)

module _ {S : Type 0} (c : LruCache S) (h : IsIndexed c) where
  -- An element to which the map leads.
  module _ (k : Str) (i : ℕ) (found : find k c.items ≡ some i) where
    pub in_entries : find k (entries c.values c.lru) ≡ some i
    in_entries = sym (h.agree k) ∙ found

    pub key_of_found : (c.values i).key ≡ k
    key_of_found = key-find-entries c.values k i c.lru in_entries

    pub find-contents : find k (contents c) ≡ some (c.values i)
    find-contents = find-view-some c.values k i c.lru in_entries

    touch_as_update :
        record c { values = update c.values i (c.values i); lru = move_to_front i c.lru }
        ≡ record c { lru = move_to_front i c.lru }
    touch_as_update =
        ap (λ v. record c { values = v; lru = move_to_front i c.lru }) (update_same c.values i)

    pub touch-IsIndexed : IsIndexed (record c { lru = move_to_front i c.lru })
    touch-IsIndexed =
        subst IsIndexed touch_as_update
          (rewritten-IsIndexed c h k i in_entries (c.values i) key_of_found)

    pub contents-touch :
        contents (record c { lru = move_to_front i c.lru })
        ≡ (k, c.values i) ∷ remove k (contents c)
    contents-touch =
        sym (ap contents touch_as_update)
        ∙ contents-rewritten c h k i in_entries (c.values i) key_of_found

  pub find-contents-none : (k : Str) → find k c.items ≡ none → find k (contents c) ≡ none
  find-contents-none k absent = find-view-none c.values k c.lru (sym (h.agree k) ∙ absent)

abbrev pub capacity : {S : Type 0} → LruCache S → ℕ
capacity c = pos_part c.max_items

-- The invariant, by way of the contents.
pub IsValid-of_contents :
    {S : Type 0} (n : ℕ) (c : LruCache S)
    → IsIndexed c
    → c.max_items ≡ pos n
    → length (contents c) ≤ n
    → IsValid c
IsValid-of_contents n c h m fits = record {
  indexed = h;
  bounded = ground (arith, m, length-view c.values c.lru);
}

pub contents_fit : {S : Type 0} (c : LruCache S) → IsValid c → length (contents c) ≤ capacity c
contents_fit c v = ground (arith, v.bounded, length-view c.values c.lru)

pub max_items-capacity : {S : Type 0} (c : LruCache S) → IsValid c → c.max_items ≡ pos (capacity c)
max_items-capacity c v = ground (arith, v.bounded)

module _ (St : Storage) (c : LruCache St.State) (h : IsIndexed c) (key : Str) where
  pub drop_key-IsIndexed : IsIndexed (drop_key St c key)
  unfolding drop_key
  drop_key-IsIndexed = elim (Option-cases (find key c.items)) [
    | inl absent ↦ rw (absent, drop_key) h
    | inr (i, found) ↦
        rw (found, drop_key) (remove_locked-IsIndexed c h key i (in_entries c h key i found))
  ]

  pub contents-drop_key : contents (drop_key St c key) ≡ remove key (contents c)
  unfolding drop_key
  contents-drop_key = elim (Option-cases (find key c.items)) [
    | inl absent ↦
        rw (absent, drop_key)
          (sym (remove_absent key (contents c) (find-contents-none c h key absent)))
    | inr (i, found) ↦
        rw (found, drop_key) (contents-remove_locked c h key i (in_entries c h key i found))
  ]

  pub max_items-drop_key : (drop_key St c key).max_items ≡ c.max_items
  unfolding drop_key remove_locked
  max_items-drop_key = ground arith

  pub storage-drop_key : (drop_key St c key).storage ≡ c.storage
  unfolding drop_key remove_locked
  storage-drop_key = ground arith

  module _ (m : Meta) (same : m.key ≡ key) where
    pub record_entry-IsIndexed : IsIndexed (record_entry St c key m)
    unfolding record_entry evict_locked
    record_entry-IsIndexed = elim (Option-cases (find key c.items)) [
      | inl absent ↦
          rw (absent, record_entry)
            (evict-IsIndexed St (length (pushed c h key m same absent).lru)
              (pushed c h key m same absent) (pushed-IsIndexed c h key m same absent))
      | inr (i, found) ↦
          rw (found, record_entry)
            (rewritten-IsIndexed c h key i (in_entries c h key i found) m same)
    ]

    pub max_items-record_entry : (record_entry St c key m).max_items ≡ c.max_items
    unfolding record_entry evict_locked
    max_items-record_entry = elim (Option-cases (find key c.items)) [
      | inl absent ↦
          rw (absent, record_entry)
            (max_items-evict St (length (pushed c h key m same absent).lru)
              (pushed c h key m same absent))
      | inr (i, found) ↦ rw (found, record_entry)
    ]

    pub contents-record_entry :
        (n : ℕ)
        → c.max_items ≡ pos n
        → length (contents c) ≤ n
        → contents (record_entry St c key m) ≡ ideal_set n key m (contents c)
    unfolding record_entry evict_locked ideal_set
    contents-record_entry n e fits = elim (Option-cases (find key c.items)) [
      | inl absent ↦
          rw (absent, record_entry)
            (contents-evict St n (pushed c h key m same absent)
                (pushed-IsIndexed c h key m same absent) e
              ∙ ap (take n) (
                  contents-pushed c h key m same absent
                  ∙ ap (◌∷◌ (key, m))
                      (sym (remove_absent key (contents c) (find-contents-none c h key absent)))))
      | inr (i, found) ↦
          rw (found, record_entry)
            (contents-rewritten c h key i (in_entries c h key i found) m same
              ∙ sym (
                  take_all ((key, m) ∷ remove key (contents c)) n (
                    omega (
                      arith,
                      length-remove-lt key (c.values i) (contents c)
                          (find-contents c h key i found),
                    ))))
    ]
