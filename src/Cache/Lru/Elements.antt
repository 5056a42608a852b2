-- ===== src/Cache/Lru/Elements.antt =====
-- internal/cache/cache.go: the list of elements read through the heap, as maps from keys.
use file_server.Prelude.{
  ℕ, zero, suc, ◌+◌, Str, Map, find, remove, IsMap, remove_absent, length, take, All, List, [], ◌∷◌,
  true, none, some, ◌≡◌, ◌≢◌, refl, arith, ap,
}
use file_server.Cache.Lru.{Meta, list_remove, is_element, back, update}

-- The keys of the elements, with their numbers and with their values.
abbrev pub entries : (ℕ → Meta) → List ℕ → Map ℕ
entries values [] = []
entries values (i ∷ l) = ((values i).key, i) ∷ entries values l

abbrev pub view : (ℕ → Meta) → List ℕ → Map Meta
view values [] = []
view values (i ∷ l) = ((values i).key, values i) ∷ view values l

module _ (v : ℕ → Meta) where
  pub key-find-entries :
      (k : Str) (i : ℕ) (l : List ℕ) → find k (entries v l) ≡ some i → (v i).key ≡ k
  unfolding find
  key-find-entries k i [] h = cc
  key-find-entries k i (j ∷ l) h = ground (arith, key-find-entries k i l)

  pub find-view-none :
      (k : Str) (l : List ℕ) → find k (entries v l) ≡ none → find k (view v l) ≡ none
  unfolding find
  find-view-none k [] h = refl
  find-view-none k (j ∷ l) h = ground (arith, find-view-none k l)

  pub find-view-some :
      (k : Str) (i : ℕ) (l : List ℕ)
      → find k (entries v l) ≡ some i
      → find k (view v l) ≡ some (v i)
  unfolding find
  find-view-some k i [] h = cc
  find-view-some k i (j ∷ l) h = ground (arith, find-view-some k i l)

  pub find-entries-none :
      (k : Str) (l : List ℕ) → find k (view v l) ≡ none → find k (entries v l) ≡ none
  unfolding find
  find-entries-none k [] h = refl
  find-entries-none k (j ∷ l) h = ground (arith, find-entries-none k l)

  pub is_element-find :
      (k : Str) (i : ℕ) (l : List ℕ) → find k (entries v l) ≡ some i → is_element i l ≡ true
  unfolding find is_element
  is_element-find k i [] h = cc
  is_element-find k i (j ∷ l) h = ground (arith, is_element-find k i l)

  pub view-remove_absent :
      (k : Str) (l : List ℕ) → find k (entries v l) ≡ none → remove k (view v l) ≡ view v l
  view-remove_absent k l h = remove_absent k (view v l) (find-view-none k l h)

  module _ (k : Str) (i : ℕ) where
    pub entries-list_remove :
        (l : List ℕ)
        → find k (entries v l) ≡ some i
        → IsMap (entries v l)
        → entries v (list_remove i l) ≡ remove k (entries v l)
    unfolding find list_remove remove
    entries-list_remove [] h m = refl
    entries-list_remove (j ∷ l) h m =
        ground (arith, entries-list_remove l, remove_absent k (entries v l), key-find-entries k i l)

    pub view-list_remove :
        (l : List ℕ)
        → find k (entries v l) ≡ some i
        → IsMap (entries v l)
        → view v (list_remove i l) ≡ remove k (view v l)
    unfolding find list_remove remove
    view-list_remove [] h m = refl
    view-list_remove (j ∷ l) h m =
        ground (arith, view-list_remove l, view-remove_absent k l, key-find-entries k i l)

  -- An element whose key no element of the list has is not in the list.
  pub absent_of_key :
      (i : ℕ) (l : List ℕ) → find (v i).key (entries v l) ≡ none → All (λ j. j ≢ i) l
  unfolding find
  absent_of_key i [] h = tt
  absent_of_key i (j ∷ l) h = (λ e. ground arith, absent_of_key i l (ground arith))

  pub entries-update :
      (i : ℕ) (m : Meta) (l : List ℕ) → All (λ j. j ≢ i) l → entries (update v i m) l ≡ entries v l
  entries-update i m [] h = refl
  entries-update i m (j ∷ l) h = ground (arith, entries-update i m l h.1)

  pub view-update :
      (i : ℕ) (m : Meta) (l : List ℕ) → All (λ j. j ≢ i) l → view (update v i m) l ≡ view v l
  view-update i m [] h = refl
  view-update i m (j ∷ l) h = ground (arith, view-update i m l h.1)

  pub find-back :
      (i : ℕ) (l : List ℕ)
      → back l ≡ some i
      → IsMap (entries v l)
      → find (v i).key (entries v l) ≡ some i
  unfolding find back
  find-back i [] h m = cc
  find-back i (j ∷ []) h m = ground arith
  find-back i (j ∷ j' ∷ l) h m = ground (arith, find-back i (j' ∷ l) h m.1)

  -- To remove the last element is to keep the others.
  pub view-remove_back :
      (i n : ℕ) (l : List ℕ)
      → back l ≡ some i
      → length l ≡ suc n
      → IsMap (entries v l)
      → view v (list_remove i l) ≡ take n (view v l)
  unfolding back list_remove
  view-remove_back i n [] h e m = cc
  view-remove_back i zero (j ∷ []) h e m = ground arith
  view-remove_back i (suc n) (j ∷ []) h e m = absurd (omega arith)
  view-remove_back i zero (j ∷ j' ∷ l) h e m = absurd (omega arith)
  view-remove_back i (suc n) (j ∷ j' ∷ l) h e m =
      ground (arith, view-remove_back i n (j' ∷ l) h (omega arith) m.1, find-back i (j' ∷ l) h m.1)

pub length-view : (v : ℕ → Meta) (l : List ℕ) → length (view v l) ≡ length l
length-view v [] = refl
length-view v (i ∷ l) = ap suc (length-view v l)

pub length-list_remove :
    (i : ℕ) (l : List ℕ) → is_element i l ≡ true → length (list_remove i l) + 1 ≡ length l
unfolding is_element list_remove
length-list_remove i [] h = cc
length-list_remove i (j ∷ l) h = ground (arith, length-list_remove i l)

pub All-list_remove {ℓ} : (P : ℕ → Type ℓ) (i : ℕ) (l : List ℕ) → All P l → All P (list_remove i l)
unfolding list_remove
All-list_remove P i [] h = tt
All-list_remove P i (j ∷ l) h = ground (arith, All-list_remove P i l h.1)
