-- ===== src/Flush/Cleanup.antt =====
-- internal/flush/store.go: what `Cleanup` does to the rules in memory.
use file_server.Prelude.{
  ℕ, Str, str_dec, Map, find, ℤ, ◌-ℤ◌, ◌+ℤ◌, pos, after, neg_64, ◌<◌, ◌^◌, All, keep, List, [], ◌∷◌,
  Bool, none, ◌≡◌, neg_64_in_range, length-keep-le, ◌≤◌, if_pos, if_neg, subst, refl, arith, ite,
  ap, ◌∙◌,
}
use file_server.Storage.{Storage}
use file_server.Flush.{Rule, Store, Codec, rules_at, all_rules, cleanup_rules, rule_count, cleanup}
use file_server.Flush.Rules.{IsGrouped, rules_at-cons, rules_at_absent, rules-persist}

All-keep {ℓ κ} :
    {A : Type ℓ} (P : A → Type κ) (p : A → Bool) (xs : List A) → All P xs → All P (keep p xs)
All-keep P p [] h = tt
All-keep P p (x ∷ xs) h = ground (arith, All-keep P p xs h.1)

-- One entry of the map after `Cleanup`, by what is kept of it.
cleanup_entry : ℤ → Str → List Rule → Map (List Rule) → Map (List Rule)
cleanup_entry cutoff d [] rest = rest
cleanup_entry cutoff d (r ∷ kept) rest = (d, r ∷ kept) ∷ rest

cleanup_rules-cons :
    (cutoff : ℤ) (d : Str) (rs : List Rule) (m : Map (List Rule))
    → cleanup_rules cutoff ((d, rs) ∷ m)
      ≡ cleanup_entry cutoff d (keep (λ r. after r.created_at cutoff) rs) (cleanup_rules cutoff m)
unfolding cleanup_rules cleanup_entry
cleanup_rules-cons cutoff d rs m = ground arith

rules_at-cleanup_entry :
    (cutoff : ℤ) (d d' : Str) (kept : List Rule) (rest : Map (List Rule))
    → (d' ≡ d → rules_at d rest ≡ [])
    → rules_at d (cleanup_entry cutoff d' kept rest) ≡ ite (str_dec d' d) kept (rules_at d rest)
unfolding cleanup_entry
rules_at-cleanup_entry cutoff d d' [] rest h = elim (str_dec d' d) [
  | yes e ↦ rw (if_pos _ e) (h e)
  | no n ↦ rw (if_neg _ n)
]
rules_at-cleanup_entry cutoff d d' (r ∷ kept) rest h = rules_at-cons d d' (r ∷ kept) rest

-- After `Cleanup` with the given cutoff a domain has its rules that are younger, in order.
pub rules-cleanup_rules :
    (cutoff : ℤ) (d : Str) (m : Map (List Rule))
    → IsGrouped m
    → rules_at d (cleanup_rules cutoff m) ≡ keep (λ r. after r.created_at cutoff) (rules_at d m)
rules-cleanup_rules cutoff d [] g = unfold rules_at cleanup_rules find in refl
rules-cleanup_rules cutoff d ((d', rs) ∷ m) g =
    rw (cleanup_rules-cons, rules_at-cons)
      (rules_at-cleanup_entry cutoff d d' (keep (λ r. after r.created_at cutoff) rs)
          (cleanup_rules cutoff m)
          (λ e.
            rules-cleanup_rules cutoff d m g.3
            ∙ ap (keep (λ r. after r.created_at cutoff))
                (rules_at_absent d m (subst (λ x. find x m ≡ none) e g.2)))
        ∙ ground (arith, rules-cleanup_rules cutoff d m g.3))

cleanup_rules-absent :
    (cutoff : ℤ) (d : Str) (m : Map (List Rule))
    → find d m ≡ none
    → find d (cleanup_rules cutoff m) ≡ none
unfolding cleanup_rules find
cleanup_rules-absent cutoff d [] h = refl
cleanup_rules-absent cutoff d ((d', rs) ∷ m) h = ground (arith, cleanup_rules-absent cutoff d m)

pub cleanup_rules-IsGrouped :
    (cutoff : ℤ) (m : Map (List Rule)) → IsGrouped m → IsGrouped (cleanup_rules cutoff m)
cleanup_rules-IsGrouped cutoff [] g = unfold cleanup_rules in tt
cleanup_rules-IsGrouped cutoff ((d, rs) ∷ m) g = rw cleanup_rules-cons (
    entry (keep (λ r. after r.created_at cutoff) rs)
      (All-keep (λ r. r.domain ≡ d) (λ r. after r.created_at cutoff) rs g.0)
      (cleanup_rules-absent cutoff d m g.2) (cleanup_rules-IsGrouped cutoff m g.3))
  where
    entry :
        (kept : List Rule)
        → All (λ r. r.domain ≡ d) kept
        → find d (cleanup_rules cutoff m) ≡ none
        → IsGrouped (cleanup_rules cutoff m)
        → IsGrouped (cleanup_entry cutoff d kept (cleanup_rules cutoff m))
    entry [] h absent rest = unfold cleanup_entry in rest
    entry (r ∷ kept) h absent rest = unfold cleanup_entry in (h, (λ e. cc), absent, rest)

module _ (St : Storage) (codec : Codec) where
  -- For a maximal age within 64 bits, `Cleanup` leaves each domain exactly its rules that are
  -- younger than that age, in order, and the rules stay grouped, persisted or not.
  pub rules-cleanup :
      (now : ℤ) (st : Store St.State) (max_age : ℕ) (d : Str)
      → IsGrouped st.rules
      → max_age < 2 ^ 63
      → let st' = (cleanup St codec now st (pos max_age)).0 in
        (rules_at d st'.rules
          ≡ keep (λ r. after r.created_at (now +ℤ (pos 0 -ℤ pos max_age))) (rules_at d st.rules))
        × (rule_count st' d ≤ rule_count st d)
        × IsGrouped st'.rules
  unfolding cleanup rule_count
  rules-cleanup now st max_age d g fits =
      let cutoff = now +ℤ neg_64 (pos max_age) in
      let rules = cleanup_rules cutoff st.rules in
      let same = rules-persist St codec (record st { rules = rules }) (all_rules rules) in
      let at_d = rules-cleanup_rules cutoff d st.rules g in
      (
        rw same (
            at_d
            ∙ ap (λ t. keep (λ r. after r.created_at (now +ℤ t)) (rules_at d st.rules))
                (neg_64_in_range max_age fits)),
        rw (same, at_d) (length-keep-le (λ r. after r.created_at cutoff) (rules_at d st.rules)),
        rw same (cleanup_rules-IsGrouped cutoff st.rules g),
      )
