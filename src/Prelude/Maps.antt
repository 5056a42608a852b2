-- ===== src/Prelude/Maps.antt =====
-- Go maps with string keys, as association lists. A `range` loop visits the entries in the order
-- of the list; Go leaves that order open, so statements about such loops must not rest on it.
use mathlib.Core.Path.{◌≡◌, refl, sym, subst, ◌∙◌}
use mathlib.Core.List.{List, [], ◌∷◌}
use mathlib.Core.Logic.{ite, if_neg, ◌≢◌}
use mathlib.Core.Option.{Option, none, some}
use native.Mathlib.Omega.{arith}
use file_server.Prelude.Lists.{All}
use file_server.Prelude.Text.{Str, str_dec, str_dec_refl}

abbrev pub Map {ℓ} : Type ℓ → Type ℓ
Map V = List (Str × V)

module _ {ℓ} {V : Type ℓ} where
  -- `m[k]`
  unfoldable pub find : Str → Map V → Option V
  find k [] = none
  find k ((j, v) ∷ m) = ite (str_dec j k) (some v) (find k m)

  -- `m[k] = v`
  unfoldable pub put : Str → V → Map V → Map V
  put k v [] = (k, v) ∷ []
  put k v ((j, w) ∷ m) = ite (str_dec j k) ((j, v) ∷ m) ((j, w) ∷ put k v m)

  -- `delete(m, k)`
  unfoldable pub remove : Str → Map V → Map V
  remove k [] = []
  remove k ((j, v) ∷ m) = ite (str_dec j k) (remove k m) ((j, v) ∷ remove k m)

  -- No key twice.
  abbrev pub IsMap : Map V → Type ℓ
  IsMap [] = Unit
  IsMap ((k, v) ∷ m) = (find k m ≡ none) × IsMap m

  find_here : (k j : Str) (v : V) (m : Map V) → j ≡ k → find k ((j, v) ∷ m) ≡ some v
  unfolding find
  find_here k j v m same = ground arith

  find_there : (k j : Str) (v : V) (m : Map V) → j ≢ k → find k ((j, v) ∷ m) ≡ find k m
  unfolding find
  find_there k j v m n = ground arith

  -- What holds of all values holds of the value that is found.
  pub find-All {κ} :
      (Q : V → Type κ) (k : Str) (m : Map V) (v : V) → All (λ e. Q e.1) m → find k m ≡ some v → Q v
  find-All Q k [] v all e = absurd (unfold find in cc)
  find-All Q k ((j, w) ∷ m) v all e = elim (str_dec j k) [
    | yes same ↦
        let found : some w ≡ some v = sym (find_here k j w m same) ∙ e in subst Q (cc) all.0
    | no n ↦ find-All Q k m v all.1 (sym (find_there k j w m n) ∙ e)
  ]

  pub find-put :
      (k j : Str) (v : V) (m : Map V) → find j (put k v m) ≡ ite (str_dec k j) (some v) (find j m)
  unfolding find put
  find-put k j v [] = refl
  find-put k j v ((i, w) ∷ m) = ground (arith, find-put k j v m)

  pub find-remove :
      (k j : Str) (m : Map V) → find j (remove k m) ≡ ite (str_dec k j) none (find j m)
  unfolding find remove
  find-remove k j [] = ground arith
  find-remove k j ((i, w) ∷ m) = ground (arith, find-remove k j m)

  pub find-put_ne : (k j : Str) (v : V) (m : Map V) → k ≢ j → find j (put k v m) ≡ find j m
  find-put_ne k j v m n = find-put k j v m ∙ if_neg (str_dec k j) n (some v) (find j m)

  pub find-put_self : (k : Str) (v : V) (m : Map V) → find k (put k v m) ≡ some v
  find-put_self k v m = find-put k k v m ∙ str_dec_refl k (some v) (find k m)

  pub find-remove_ne : (k j : Str) (m : Map V) → k ≢ j → find j (remove k m) ≡ find j m
  find-remove_ne k j m n = find-remove k j m ∙ if_neg (str_dec k j) n none (find j m)

  pub find-remove_self : (k : Str) (m : Map V) → find k (remove k m) ≡ none
  find-remove_self k m = find-remove k k m ∙ str_dec_refl k none (find k m)

  pub remove_absent : (k : Str) (m : Map V) → find k m ≡ none → remove k m ≡ m
  unfolding find remove
  remove_absent k [] h = refl
  remove_absent k ((j, v) ∷ m) h = ground (arith, remove_absent k m)

  pub put-IsMap : (k : Str) (v : V) (m : Map V) → IsMap m → IsMap (put k v m)
  unfolding find put
  put-IsMap k v [] h = (refl, tt)
  put-IsMap k v ((j, w) ∷ m) h = ground (arith, put-IsMap k v m h.1, find-put k j v m)

  pub remove-IsMap : (k : Str) (m : Map V) → IsMap m → IsMap (remove k m)
  unfolding find remove
  remove-IsMap k [] h = tt
  remove-IsMap k ((j, w) ∷ m) h = ground (arith, remove-IsMap k m h.1, find-remove k j m)
