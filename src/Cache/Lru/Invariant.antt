-- ===== src/Cache/Lru/Invariant.antt =====
-- internal/cache/cache.go: the invariant of `LRUCache`, and what the helpers do to its contents.
use file_server.Prelude.{
  ℕ, ◌+◌, ◌<◌, Str, Map, find, put, remove, IsMap, find-remove, find-put, remove-IsMap, length, All,
  pos, ◌≤ℤ◌, List, [], ◌∷◌, true, none, some, ◌≡◌, ◌≢◌, arith, sym, subst,
}
use file_server.Cache.Lru.{
  Meta, LruCache, list_remove, is_element, move_to_front, update, remove_locked,
}
use file_server.Cache.Lru.Elements.{
  entries, view, key-find-entries, entries-list_remove, view-list_remove, is_element-find,
  length-list_remove, All-list_remove, absent_of_key, entries-update, view-update,
}

-- The map and the list hold the same elements, each under the key of its value, no key twice.
pub record IsIndexed {S : Type 0} (c : LruCache S) : Type 0 where
  pub agree : (k : Str) → find k c.items ≡ find k (entries c.values c.lru)
  pub distinct : IsMap (entries c.values c.lru)
  pub fresh : All (λ i. i < c.next) c.lru

-- Besides, the list is within the capacity.
pub record IsValid {S : Type 0} (c : LruCache S) : Type 0 where
  pub indexed : IsIndexed c
  pub bounded : pos (length c.lru) ≤ℤ c.max_items

-- What the cache holds: the values by their keys, most recently used first.
abbrev pub contents : {S : Type 0} → LruCache S → Map Meta
contents c = view c.values c.lru

fresh_absent : (n : ℕ) (l : List ℕ) → All (λ i. i < n) l → All (λ j. j ≢ n) l
fresh_absent n [] h = tt
fresh_absent n (i ∷ l) h = (omega arith, fresh_absent n l h.1)

fresh_weaken : (n : ℕ) (l : List ℕ) → All (λ i. i < n) l → All (λ i. i < n + 1) l
fresh_weaken n [] h = tt
fresh_weaken n (i ∷ l) h = (omega arith, fresh_weaken n l h.1)

fresh_element : (n i : ℕ) (l : List ℕ) → All (λ i. i < n) l → is_element i l ≡ true → i < n
unfolding is_element
fresh_element n i [] h e = cc
fresh_element n i (j ∷ l) h e = ground (arith, fresh_element n i l h.1)

module _ {S : Type 0} (c : LruCache S) (h : IsIndexed c) where
  module _ (k : Str) (i : ℕ) (found : find k (entries c.values c.lru) ≡ some i) where
    pub remove_locked-IsIndexed : IsIndexed (remove_locked c i)
    unfolding remove_locked
    remove_locked-IsIndexed = record {
      agree = λ j. rw (
        key-find-entries c.values k i c.lru found,
        entries-list_remove c.values k i c.lru found h.distinct,
        find-remove,
        find-remove,
        h.agree j,
      );
      distinct =
          rw (entries-list_remove c.values k i c.lru found h.distinct)
            (remove-IsMap k (entries c.values c.lru) h.distinct);
      fresh = All-list_remove (λ i. i < c.next) i c.lru h.fresh;
    }

    pub contents-remove_locked : contents (remove_locked c i) ≡ remove k (contents c)
    unfolding remove_locked
    contents-remove_locked = view-list_remove c.values k i c.lru found h.distinct

    pub length-remove_locked : length (remove_locked c i).lru + 1 ≡ length c.lru
    unfolding remove_locked
    length-remove_locked = length-list_remove i c.lru (is_element-find c.values k i c.lru found)

    -- A new value for the element, of the same key, and the element moved to the front.
    module _ (m : Meta) (same : m.key ≡ k) where
      abbrev rewritten : LruCache S
      rewritten = record c { values = update c.values i m; lru = move_to_front i c.lru }

      front : move_to_front i c.lru ≡ i ∷ list_remove i c.lru
      unfolding move_to_front
      front = rw (is_element-find c.values k i c.lru found)

      others : All (λ j. j ≢ i) (list_remove i c.lru)
      others = absent_of_key c.values i (list_remove i c.lru) (
          rw
            (
              entries-list_remove c.values k i c.lru found h.distinct,
              key-find-entries c.values k i c.lru found,
              find-remove,
            )
            (ground arith))

      rewritten-entries :
          entries rewritten.values rewritten.lru ≡ (k, i) ∷ remove k (entries c.values c.lru)
      rewritten-entries =
          rw (front, entries-update c.values i m (list_remove i c.lru) others)
            (ground (arith, entries-list_remove c.values k i c.lru found h.distinct))

      pub rewritten-IsIndexed : IsIndexed rewritten
      unfolding find
      rewritten-IsIndexed = record {
        agree = λ j.
            rw (rewritten-entries, h.agree j)
              (ground (arith, find-remove k j (entries c.values c.lru)));
        distinct = rw rewritten-entries (
          ground (arith, find-remove k k (entries c.values c.lru)),
          remove-IsMap k (entries c.values c.lru) h.distinct,
        );
        fresh = rw front (
          fresh_element c.next i c.lru h.fresh (is_element-find c.values k i c.lru found),
          All-list_remove (λ i. i < c.next) i c.lru h.fresh,
        );
      }

      pub contents-rewritten : contents rewritten ≡ (k, m) ∷ remove k (contents c)
      contents-rewritten =
          rw (front, view-update c.values i m (list_remove i c.lru) others)
            (ground (arith, view-list_remove c.values k i c.lru found h.distinct))

      pub length-rewritten : length rewritten.lru ≡ length c.lru
      length-rewritten =
          rw front
            (omega (arith, length-list_remove i c.lru (is_element-find c.values k i c.lru found)))

  -- A new element at the front, under a key that no other element has.
  module _ (k : Str) (m : Meta) (same : m.key ≡ k) (absent : find k c.items ≡ none) where
    abbrev pub pushed : LruCache S
    pushed = record c {
      items = put k c.next c.items;
      lru = c.next ∷ c.lru;
      values = update c.values c.next m;
      next = c.next + 1;
    }

    pushed-entries : entries pushed.values pushed.lru ≡ (k, c.next) ∷ entries c.values c.lru
    pushed-entries =
        ground (arith, entries-update c.values c.next m c.lru (fresh_absent c.next c.lru h.fresh))

    pub pushed-IsIndexed : IsIndexed pushed
    unfolding find
    pushed-IsIndexed = record {
      agree = λ j.
          subst (λ e. find j pushed.items ≡ find j e) (sym pushed-entries)
            (rw (find-put, h.agree j));
      distinct = subst IsMap (sym pushed-entries) (ground (arith, h.agree k), h.distinct);
      fresh = (omega arith, fresh_weaken c.next c.lru h.fresh);
    }

    pub contents-pushed : contents pushed ≡ (k, m) ∷ contents c
    contents-pushed =
        ground (arith, view-update c.values c.next m c.lru (fresh_absent c.next c.lru h.fresh))
