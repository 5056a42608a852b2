-- ===== src/Flush/Persistence.antt =====
-- internal/flush/store.go: what `AddRule` and `Cleanup` persist, `Load` restores.
use mathlib.Core.List.{append-nil, append_assoc}
use file_server.Prelude.{
  Str, str, str_dec, str_eq, Map, find, ℤ, All, keep, keep-append, List, [], ◌∷◌, ◌++◌, none, some,
  ◌≡◌, refl, arith, if_pos, if_neg, ap, ◌∙◌, sym, subst, inl, inr,
}
use file_server.Errors.{Error, Result-cases, ok, err, Failure, wrap, wrap_failure}
use file_server.Storage.{Storage, StorageLaws, empty_metadata}
use file_server.Flush.{
  Rule, Store, Codec, persist_key, rules_at, append_rule, all_rules, load_rules, new, persist, load,
  new_rule, add_rule, match, match_from,
}
use file_server.Flush.Rules.{
  IsGrouped, rules-append_rule, rules_at-cons, rules_at_absent, append_rule-IsGrouped,
  rules-persist,
}

-- Decoding gives back what was encoded.
pub record CodecLaws (codec : Codec) : Type 0 where
  pub unmarshal-marshal :
      (rs : List Rule) (bytes : Str) → codec.marshal rs ≡ ok bytes → codec.unmarshal bytes ≡ ok rs

-- The rules of one domain among the rules of all.
abbrev of_domain : Str → List Rule → List Rule
of_domain d = keep (λ r. str_eq r.domain d)

-- The loop of `Load` appends the rules of each domain in their order.
rules-load_rules :
    (d : Str) (m : Map (List Rule)) (rs : List Rule)
    → rules_at d (load_rules m rs) ≡ rules_at d m ++ of_domain d rs
unfolding load_rules
rules-load_rules d m [] = sym (append-nil (rules_at d m))
rules-load_rules d m (r ∷ rs) =
    rules-load_rules d (append_rule r.domain r m) rs
    ∙ rw rules-append_rule (elim (str_dec r.domain d) [
      | yes e ↦ rw (if_pos _ e, if_pos _ e) (append_assoc (rules_at d m) (r ∷ []) (of_domain d rs))
      | no n ↦ rw (if_neg _ n, if_neg _ n)
    ])

of_domain_own : (d : Str) (rs : List Rule) → All (λ r. r.domain ≡ d) rs → of_domain d rs ≡ rs
of_domain_own d [] h = refl
of_domain_own d (r ∷ rs) h = rw (if_pos _ h.0) (ap (◌∷◌ r) (of_domain_own d rs h.1))

of_domain_other :
    (d d' : Str) (rs : List Rule) → ¬ (d' ≡ d) → All (λ r. r.domain ≡ d') rs → of_domain d rs ≡ []
of_domain_other d d' [] n h = refl
of_domain_other d d' (r ∷ rs) n h =
    rw (if_neg _ (λ e. n (sym h.0 ∙ e))) (of_domain_other d d' rs n h.1)

of_domain-all_rules :
    (d : Str) (m : Map (List Rule)) → IsGrouped m → of_domain d (all_rules m) ≡ rules_at d m
unfolding all_rules
of_domain-all_rules d [] g = unfold rules_at find in refl
of_domain-all_rules d ((d', rs) ∷ m) g =
    rw (keep-append, rules_at-cons, of_domain-all_rules d m g.3)
      (elim (str_dec d' d) [
        | yes e ↦
            rw
              (
                if_pos _ e,
                of_domain_own d rs (subst (λ x. All (λ r. r.domain ≡ x) rs) e g.0),
                rules_at_absent d m (subst (λ x. find x m ≡ none) e g.2),
              )
              (append-nil rs)
        | no n ↦ rw (if_neg _ n, of_domain_other d d' rs n g.0)
      ])

module _ (St : Storage) (codec : Codec) (laws : StorageLaws St) (codec_laws : CodecLaws codec) where
  module _ (st : Store St.State) (all : List Rule) where
    abbrev written : Str → St.State × Failure
    written bytes =
        St.write st.storage persist_key (ok bytes)
          (some (record empty_metadata { content_type = str "application/json" }))

    persist_failed :
        (e : Error)
        → codec.marshal all ≡ err e
        → persist St codec st all ≡ (st, some (wrap (str "flush: encode rules: ") e))
    unfolding persist
    persist_failed e failed = ground arith

    persist-written :
        (bytes : Str)
        → codec.marshal all ≡ ok bytes
        → persist St codec st all ≡ (
          record st { storage = (written bytes).0 },
          wrap_failure (str "flush: persist rules: ") (written bytes).1,
        )
    unfolding persist
    persist-written bytes encoded = ground arith

    -- What the storage holds after a `persist` that succeeded is read and decoded by `Load`.
    load-written :
        (bytes : Str)
        → codec.marshal all ≡ ok bytes
        → (written bytes).1 ≡ none
        → load St codec (new (written bytes).0)
          ≡ (record (new (written bytes).0) { rules = load_rules [] all }, none)
    unfolding load new
    load-written bytes encoded stored = ground (
      arith,
      laws.read-write st.storage (written bytes).0 persist_key bytes
          (record empty_metadata { content_type = str "application/json" })
          (λ i. ((written bytes).0, stored i)),
      codec_laws.unmarshal-marshal all bytes encoded,
    )

    -- A `persist` that succeeds lets `Load` read the same rules.
    load-persist :
        (persist St codec st all).1 ≡ none
        → load St codec (new (persist St codec st all).0.storage)
          ≡ (record (new (persist St codec st all).0.storage) { rules = load_rules [] all }, none)
    unfolding wrap_failure
    load-persist done = elim (Result-cases (codec.marshal all)) [
      | inr (e, failed) ↦ cc (persist_failed e failed, done)
      | inl (bytes, encoded) ↦
          let stored : (written bytes).1 ≡ none = ground (arith, persist-written bytes encoded) in
          rw (persist-written bytes encoded) (load-written bytes encoded stored)
    ]

  -- The rules that `Load` restores to a new store, after a `persist` of all rules that succeeded.
  pub restored :
      (st : Store St.State) (rules : Map (List Rule)) (d : Str)
      → IsGrouped rules
      → (persist St codec st (all_rules rules)).1 ≡ none
      → let r = load St codec (new (persist St codec st (all_rules rules)).0.storage) in
        (r.1 ≡ none) × (rules_at d r.0.rules ≡ rules_at d rules)
  restored st rules d g done = rw (load-persist st (all_rules rules) done) (
    refl,
    rules-load_rules d [] (all_rules rules) ∙ unfold rules_at find in of_domain-all_rules d rules g,
  )

  -- After an `AddRule` that succeeds, `Load` into a new store over the same storage succeeds, and
  -- gives every domain the rules, in the order, that the store in memory has: so `Match` answers
  -- after a restart as it did before. (The order in which the domains are visited has no part.)
  pub load-add_rule :
      (id_at now : ℤ) (st : Store St.State) (domain prefix d path : Str)
      → IsGrouped st.rules
      → (add_rule St codec id_at now st domain prefix).1 ≡ none
      → let st' = (add_rule St codec id_at now st domain prefix).0 in
        let r = load St codec (new st'.storage) in
        (r.1 ≡ none)
        × (rules_at d r.0.rules ≡ rules_at d st'.rules)
        × (match r.0 d path ≡ match st' d path)
  unfolding add_rule match
  load-add_rule id_at now st domain prefix d path g done =
      let rules = append_rule domain (new_rule St codec id_at now domain prefix) st.rules in
      let st' = record st { rules = rules } in
      let kept = rules-persist St codec st' (all_rules rules) in
      let grouped = append_rule-IsGrouped (new_rule St codec id_at now domain prefix) st.rules g in
      let (fine, same) = restored st' rules d grouped done in
      (fine, rw kept same, rw kept (ap (match_from path none) same))
