-- ===== src/Flush/Rules.antt =====
-- internal/flush/store.go: what `AddRule` does to the rules in memory.
use file_server.Prelude.{
  Str, str_dec, Map, find, put, find-put, ℤ, after, has_prefix, All, All-append, List, [], ◌∷◌,
  ◌++◌, true, Option, none, some, ◌≡◌, ◌≢◌, if_pos, if_neg, if◌then◌else◌, ◌&&◌, str_eq, subst,
  refl, arith, ite, ◌∙◌,
}
use file_server.Storage.{Storage}
use file_server.Flush.{
  Rule, Store, Codec, rules_at, append_rule, all_rules, later, match_from, match, persist, new_rule,
  add_rule,
}

-- Every domain has its own rules, and some: what the map of a store looks like.
abbrev pub IsGrouped : Map (List Rule) → Type 0
IsGrouped [] = Unit
IsGrouped ((d, rs) ∷ m) = All (λ r. r.domain ≡ d) rs × (rs ≢ []) × (find d m ≡ none) × IsGrouped m

pub rules-append_rule :
    (d domain : Str) (r : Rule) (m : Map (List Rule))
    → rules_at d (append_rule domain r m)
      ≡ ite (str_dec domain d) (rules_at d m ++ r ∷ []) (rules_at d m)
unfolding rules_at append_rule
rules-append_rule d domain r m = ground (arith, find-put domain d (rules_at domain m ++ r ∷ []) m)

put-IsGrouped :
    (d : Str) (rs : List Rule) (m : Map (List Rule))
    → All (λ r. r.domain ≡ d) rs
    → rs ≢ []
    → IsGrouped m
    → IsGrouped (put d rs m)
unfolding put find
put-IsGrouped d rs [] h ne g = (h, ne, refl, tt)
put-IsGrouped d rs ((d', rs') ∷ m) h ne g = elim (str_dec d' d) [
  | yes e ↦ rw (if_pos _ e) (rw e h, ne, g.2, g.3)
  | no n ↦
      rw (if_neg _ n) (g.0, g.1, ground (arith, find-put d d' rs m), put-IsGrouped d rs m h ne g.3)
]

pub rules_at-cons :
    (d d' : Str) (rs : List Rule) (m : Map (List Rule))
    → rules_at d ((d', rs) ∷ m) ≡ ite (str_dec d' d) rs (rules_at d m)
unfolding rules_at find
rules_at-cons d d' rs m = ground arith

pub rules_at_absent : (d : Str) (m : Map (List Rule)) → find d m ≡ none → rules_at d m ≡ []
unfolding rules_at
rules_at_absent d m h = rw (h, rules_at)

rules_at-domain :
    (d : Str) (m : Map (List Rule)) → IsGrouped m → All (λ r. r.domain ≡ d) (rules_at d m)
rules_at-domain d [] g = unfold rules_at find in tt
rules_at-domain d ((d', rs) ∷ m) g = elim (str_dec d' d) [
  | yes e ↦ rw rules_at-cons (rw (if_pos _ e) (subst (λ x. All (λ r. r.domain ≡ x) rs) e g.0))
  | no n ↦ rw rules_at-cons (rw (if_neg _ n) (rules_at-domain d m g.3))
]

snoc_ne : (rs : List Rule) (r : Rule) → rs ++ r ∷ [] ≢ []
snoc_ne [] r e = cc
snoc_ne (s ∷ rs) r e = cc

pub append_rule-IsGrouped :
    (r : Rule) (m : Map (List Rule)) → IsGrouped m → IsGrouped (append_rule r.domain r m)
unfolding append_rule
append_rule-IsGrouped r m g =
    put-IsGrouped r.domain (rules_at r.domain m ++ r ∷ []) m
      (All-append (λ s. s.domain ≡ r.domain) (rules_at r.domain m) (r ∷ [])
        (rules_at-domain r.domain m g) (refl, tt))
      (snoc_ne (rules_at r.domain m) r) g

match_from-snoc :
    (path : Str) (latest : Option Rule) (rs : List Rule) (r : Rule)
    → match_from path latest (rs ++ r ∷ []) ≡ later path r (match_from path latest rs)
unfolding match_from
match_from-snoc path latest [] r = refl
match_from-snoc path latest (s ∷ rs) r = match_from-snoc path (later path s latest) rs r

-- All rules are older than the instant.
abbrev pub AllBefore : ℤ → List Rule → Type 0
AllBefore now = All (λ r. after now r.created_at ≡ true)

abbrev Before : ℤ → Option Rule → Type 0
Before now none = Unit
Before now (some l) = after now l.created_at ≡ true

match_from-Before :
    (now : ℤ) (path : Str) (latest : Option Rule) (rs : List Rule)
    → Before now latest
    → AllBefore now rs
    → Before now (match_from path latest rs)
unfolding match_from later
match_from-Before now path latest [] b h = b
match_from-Before now path none (r ∷ rs) b h =
    match_from-Before now path (later path r none) rs (ground (arith, h.0)) h.1
match_from-Before now path (some l) (r ∷ rs) b h =
    match_from-Before now path (later path r (some l)) rs (ground (arith, h.0)) h.1

later_newest :
    (now : ℤ) (path : Str) (r : Rule) (latest : Option Rule)
    → r.created_at ≡ now
    → Before now latest
    → later path r latest ≡ (if has_prefix path r.prefix then some r else latest)
unfolding later
later_newest now path r none e b = refl
later_newest now path r (some l) e b = ground arith

module _ (St : Storage) (codec : Codec) where
  pub rules-persist :
      (st : Store St.State) (all : List Rule) → (persist St codec st all).0.rules ≡ st.rules
  unfolding persist
  rules-persist st all = ground arith

  module _ (id_at now : ℤ) (st : Store St.State) (domain prefix : Str) where
    pub rules-add_rule :
        (add_rule St codec id_at now st domain prefix).0.rules
        ≡ append_rule domain (new_rule St codec id_at now domain prefix) st.rules
    unfolding add_rule
    rules-add_rule =
        let rules = append_rule domain (new_rule St codec id_at now domain prefix) st.rules in
        rules-persist (record st { rules = rules }) (all_rules rules)

    -- After `AddRule`, whether or not the rules could be persisted, if the rules were grouped by
    -- domain and every other rule of its domain is older than the new one: `Match` finds the new
    -- rule for the paths of its domain that have its prefix, and what it found before for every
    -- other path and domain; and the rules stay grouped.
    pub match-add_rule :
        (d path : Str)
        → IsGrouped st.rules
        → AllBefore now (rules_at domain st.rules)
        → let st' = (add_rule St codec id_at now st domain prefix).0 in
          (match st' d path ≡ (
            if str_eq domain d && has_prefix path prefix
            then some (new_rule St codec id_at now domain prefix)
            else match st d path))
          × IsGrouped st'.rules
    unfolding match
    match-add_rule d path g older = (
      rw (rules-add_rule, rules-append_rule)
          (elim (str_dec domain d) [
            | yes e ↦
                rw (if_pos _ e, if_pos _ e)
                  (match_from-snoc path none (rules_at d st.rules) added
                    ∙ later_newest now path added (match_from path none (rules_at d st.rules)) refl
                        (match_from-Before now path none (rules_at d st.rules) tt
                          (subst (λ x. AllBefore now (rules_at x st.rules)) e older)))
            | no n ↦ rw (if_neg _ n, if_neg _ n)
          ]),
      rw rules-add_rule (append_rule-IsGrouped added st.rules g),
    )
      where
        added : Rule
        added = new_rule St codec id_at now domain prefix
