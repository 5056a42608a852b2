-- ===== src/Cache/Lru/Evict.antt =====
-- internal/cache/cache.go: the rounds of `evictLocked`, and the entries that it leaves.
use file_server.Prelude.{
  remove, ℕ, zero, suc, ◌+◌, ◌-◌, ◌≤◌, Str, length, take, take-take, take_all, pos, ltb_ℤ, List, [],
  ◌∷◌, Bool, true, false, none, some, ◌≡◌, Bool-cases, Option-cases, inl, inr, refl, arith, ap, ◌∙◌,
  sym,
}
use file_server.Storage.{Storage}
use file_server.Cache.Lru.{LruCache, Meta, back, remove_locked, evict}
use file_server.Cache.Lru.Elements.{find-back, view-remove_back, length-view}
use file_server.Cache.Lru.Invariant.{
  IsIndexed, contents, remove_locked-IsIndexed, length-remove_locked, contents-remove_locked,
}

back-eq-none : (l : List ℕ) → back l ≡ none → l ≡ []
unfolding back
back-eq-none [] h = refl
back-eq-none (i ∷ []) h = cc
back-eq-none (i ∷ j ∷ l) h = cc (back-eq-none (j ∷ l) h)

take-nil : (n : ℕ) → take {A = Str × Meta} n [] ≡ []
take-nil zero = refl
take-nil (suc n) = refl

module _ {S : Type 0} (c : LruCache S) (s : S) where
  -- The storage is no part of the index.
  pub with_storage-IsIndexed : IsIndexed c → IsIndexed (record c { storage = s })
  with_storage-IsIndexed h = record { agree = h.agree; distinct = h.distinct; fresh = h.fresh }

module _ (St : Storage) where
  -- The state after one round of the loop.
  abbrev pub round : LruCache St.State → ℕ → LruCache St.State
  round c i = remove_locked (record c { storage = (St.delete c.storage (c.values i).key).0 }) i

  module _ (c : LruCache St.State) (h : IsIndexed c) (i : ℕ) (last : back c.lru ≡ some i) where
    pub round-IsIndexed : IsIndexed (round c i)
    round-IsIndexed =
        remove_locked-IsIndexed (record c { storage = (St.delete c.storage (c.values i).key).0 })
          (with_storage-IsIndexed c (St.delete c.storage (c.values i).key).0 h) (c.values i).key i
          (find-back c.values i c.lru last h.distinct)

    pub length-round : length (round c i).lru + 1 ≡ length c.lru
    length-round =
        length-remove_locked (record c { storage = (St.delete c.storage (c.values i).key).0 })
          (with_storage-IsIndexed c (St.delete c.storage (c.values i).key).0 h) (c.values i).key i
          (find-back c.values i c.lru last h.distinct)

    pub contents-round-remove : contents (round c i) ≡ remove (c.values i).key (contents c)
    contents-round-remove =
        contents-remove_locked (record c { storage = (St.delete c.storage (c.values i).key).0 })
          (with_storage-IsIndexed c (St.delete c.storage (c.values i).key).0 h) (c.values i).key i
          (find-back c.values i c.lru last h.distinct)

    pub contents-round : (n : ℕ) → length c.lru ≡ suc n → contents (round c i) ≡ take n (contents c)
    unfolding remove_locked
    contents-round n e = view-remove_back c.values i n c.lru last e h.distinct

  -- The loop goes on while there are too many elements.
  abbrev pub over : LruCache St.State → Bool
  over c = ltb_ℤ c.max_items (pos (length c.lru))

  module _ (fuel : ℕ) (c : LruCache St.State) where
    pub evict_stop : over c ≡ false → evict St (suc fuel) c ≡ c
    unfolding evict
    evict_stop fits = ground arith

    pub evict_empty : back c.lru ≡ none → evict St (suc fuel) c ≡ c
    unfolding evict
    evict_empty last = ground arith

    pub evict-round :
        (i : ℕ)
        → over c ≡ true
        → back c.lru ≡ some i
        → evict St (suc fuel) c ≡ evict St fuel (round c i)
    unfolding evict
    evict-round i more last = ground arith

  pub evict-IsIndexed :
      (fuel : ℕ) (c : LruCache St.State) → IsIndexed c → IsIndexed (evict St fuel c)
  unfolding evict
  evict-IsIndexed zero c h = h
  evict-IsIndexed (suc fuel) c h = elim (Bool-cases (over c)) [
    | inr fits ↦ rw (evict_stop fuel c fits) h
    | inl more ↦ elim (Option-cases (back c.lru)) [
      | inl last ↦ rw (evict_empty fuel c last) h
      | inr (i, last) ↦
          rw (evict-round fuel c i more last)
            (evict-IsIndexed fuel (round c i) (round-IsIndexed c h i last))
    ]
  ]

  pub max_items-evict :
      (fuel : ℕ) (c : LruCache St.State) → (evict St fuel c).max_items ≡ c.max_items
  unfolding evict remove_locked
  max_items-evict zero c = refl
  max_items-evict (suc fuel) c = elim (Bool-cases (over c)) [
    | inr fits ↦ rw (evict_stop fuel c fits)
    | inl more ↦ elim (Option-cases (back c.lru)) [
      | inl last ↦ rw (evict_empty fuel c last)
      | inr (i, last) ↦ rw (evict-round fuel c i more last) (max_items-evict fuel (round c i))
    ]
  ]

  pub contents-evict_fuel :
      (fuel n : ℕ) (c : LruCache St.State)
      → IsIndexed c
      → length c.lru ≤ fuel
      → c.max_items ≡ pos n
      → contents (evict St fuel c) ≡ take n (contents c)
  unfolding evict
  contents-evict_fuel zero n c h e m =
      sym (take_all (contents c) n (omega (arith, length-view c.values c.lru)))
  contents-evict_fuel (suc fuel) n c h e m = elim (Bool-cases (over c)) [
    | inr fits ↦
        rw (evict_stop fuel c fits)
          (sym (take_all (contents c) n (ground (arith, m, length-view c.values c.lru))))
    | inl more ↦ elim (Option-cases (back c.lru)) [
      | inl last ↦ rw (evict_empty fuel c last, back-eq-none c.lru last) (sym (take-nil n))
      | inr (i, last) ↦ rw (evict-round fuel c i more last) (
          contents-evict_fuel fuel n (round c i) (round-IsIndexed c h i last)
            (omega (arith, length-round c h i last)) m
          ∙ ap (take n) (contents-round c h i last (length c.lru - 1) (ground (arith, m)))
          ∙ take-take n (length c.lru - 1) (contents c) (ground (arith, m)))
    ]
  ]

  -- With the length for fuel the loop keeps the first entries that fit.
  pub contents-evict :
      (n : ℕ) (c : LruCache St.State)
      → IsIndexed c
      → c.max_items ≡ pos n
      → contents (evict St (length c.lru) c) ≡ take n (contents c)
  contents-evict n c h m = contents-evict_fuel (length c.lru) n c h (omega arith) m
