-- ===== src/Pipeline/Chain.antt =====
-- internal/pipeline/pipeline.go: how the chain of plugins composes.
use mathlib.Core.Path.{fun_ext}
use file_server.Prelude.{
  Str, Map, find, List, [], ◌∷◌, ◌++◌, keep, Bool, true, false, none, some, ◌≡◌, refl, arith,
  Option-cases, inl, inr, ap, sym, ◌∙◌,
}
use file_server.Config.{PluginConfig}
use file_server.Pipeline.{Plugin, Run, execute_from}

-- Go on with a second chain, if the first has passed.
abbrev pub and_then : {P : Type 0} → Run P × Bool → (Run P → Run P × Bool) → Run P × Bool
and_then (run, true) next = next run
and_then (run, false) next = (run, false)

abbrev pub is_registered : {F P : Type 0} → Map (Plugin F P) → PluginConfig F → Bool
is_registered reg pcfg = elim (find pcfg.type reg) [ none ↦ false | some pl ↦ true ]

module _ {F P : Type 0} (reg : Map (Plugin F P)) (domain : Str) where
  module _ (x : PluginConfig F) (rest : List (PluginConfig F)) (run : Run P) where
    pub execute_unknown :
        find x.type reg ≡ none
        → execute_from reg domain (x ∷ rest) run ≡ execute_from reg domain rest run
    unfolding execute_from
    execute_unknown unknown = ground arith

    pub execute_known :
        (pl : Plugin F P)
        → find x.type reg ≡ some pl
        → execute_from reg domain (x ∷ rest) run
          ≡ and_then (pl x.config domain run) (execute_from reg domain rest)
    unfolding execute_from
    execute_known pl known = ground arith

  and_then_assoc :
      (r : Run P × Bool) (f g : Run P → Run P × Bool)
      → and_then (and_then r f) g ≡ and_then r (λ s. and_then (f s) g)
  and_then_assoc (run, true) f g = refl
  and_then_assoc (run, false) f g = refl

  -- A chain runs its plugins in the order of the configuration, each on what the one before left,
  -- and once one of them has not passed, none of those behind it runs.
  pub execute_from-append :
      (xs ys : List (PluginConfig F)) (run : Run P)
      → execute_from reg domain (xs ++ ys) run
        ≡ and_then (execute_from reg domain xs run) (execute_from reg domain ys)
  execute_from-append [] ys run = unfold execute_from in refl
  execute_from-append (x ∷ xs) ys run = elim (Option-cases (find x.type reg)) [
    | inl unknown ↦
        execute_unknown x (xs ++ ys) run unknown
        ∙ execute_from-append xs ys run
        ∙ ap (λ r. and_then r (execute_from reg domain ys)) (sym (execute_unknown x xs run unknown))
    | inr (pl, known) ↦
        execute_known x (xs ++ ys) run pl known
        ∙ ap (and_then (pl x.config domain run)) (fun_ext (λ s. execute_from-append xs ys s))
        ∙ sym (
            and_then_assoc (pl x.config domain run) (execute_from reg domain xs)
              (execute_from reg domain ys))
        ∙ ap (λ r. and_then r (execute_from reg domain ys)) (sym (execute_known x xs run pl known))
  ]

  -- Plugins that are not registered have no effect: the chain runs as if they were not configured.
  pub execute_from-keep :
      (xs : List (PluginConfig F)) (run : Run P)
      → execute_from reg domain (keep (is_registered reg) xs) run ≡ execute_from reg domain xs run
  execute_from-keep [] run = refl
  execute_from-keep (x ∷ xs) run = elim (Option-cases (find x.type reg)) [
    | inl unknown ↦
        rw (unknown, is_registered)
          (execute_from-keep xs run ∙ sym (execute_unknown x xs run unknown))
    | inr (pl, known) ↦
        rw (known, is_registered)
          (execute_known x (keep (is_registered reg) xs) run pl known
            ∙ ap (and_then (pl x.config domain run)) (fun_ext (λ s. execute_from-keep xs s))
            ∙ sym (execute_known x xs run pl known))
  ]
