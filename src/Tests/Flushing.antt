-- ===== src/Tests/Flushing.antt =====
-- Concrete runs of the flush rules.
use file_server.Prelude.{
  ◌≤◌, Str, str, find, put, str_dec, has_prefix, ℤ, pos, negsuc, ◌+ℤ◌, ◌-ℤ◌, after, keep, List, [],
  ◌∷◌, str_eq, ◌&&◌, if◌then◌else◌, none, some, ◌≡◌, refl, arith,
}
use file_server.Errors.{leaf, Result, ok, err}
use file_server.Flush.{
  Rule, Codec, Store, rules_at, match, rule_count, new, new_rule, add_rule, cleanup, append_rule,
  all_rules, persist,
}
use file_server.Flush.Matching.{IsLatest, match-IsLatest}
use file_server.Flush.Rules.{IsGrouped, AllBefore, match-add_rule}
use file_server.Flush.Cleanup.{rules-cleanup}
use file_server.Flush.Persistence.{CodecLaws}
use file_server.Tests.{memory}

-- An encoding of the lists of one rule with no id and with a domain of one byte.
abbrev encode_rule : Str → Str → Str → ℤ → Result Str
encode_rule [] (d ∷ []) prefix (pos t) = ok (t ∷ d ∷ prefix)
encode_rule _ _ _ _ = err (leaf (str "unsupported"))

abbrev encode : List Rule → Result Str
encode (r ∷ []) = encode_rule r.id r.domain r.prefix r.created_at
encode _ = err (leaf (str "unsupported"))

abbrev decode : Str → Result (List Rule)
decode (t ∷ d ∷ prefix) =
    ok (record { id = []; domain = d ∷ []; prefix = prefix; created_at = pos t } ∷ [])
decode _ = err (leaf (str "malformed"))

abbrev pub codec : Codec
codec = record { marshal = encode; unmarshal = decode; show_nanos = λ t. [] }

decode-encode_rule :
    (id domain prefix : Str) (t : ℤ) (bytes : Str)
    → encode_rule id domain prefix t ≡ ok bytes
    → decode bytes ≡ ok (record { id = id; domain = domain; prefix = prefix; created_at = t } ∷ [])
decode-encode_rule [] (d ∷ []) prefix (pos t) bytes e = ground arith
decode-encode_rule [] (d ∷ []) prefix (negsuc t) bytes e = cc
decode-encode_rule [] [] prefix t bytes e = cc
decode-encode_rule [] (d ∷ d' ∷ l) prefix t bytes e = cc
decode-encode_rule (i ∷ l) domain prefix t bytes e = cc

decode-encode : (rs : List Rule) (bytes : Str) → encode rs ≡ ok bytes → decode bytes ≡ ok rs
decode-encode [] bytes e = cc
decode-encode (r ∷ []) bytes e = decode-encode_rule r.id r.domain r.prefix r.created_at bytes e
decode-encode (r ∷ s ∷ rs) bytes e = cc

pub codec-laws : CodecLaws codec
codec-laws = record { unmarshal-marshal = λ rs bytes e. decode-encode rs bytes e }

-- A store with one rule, of the instant 4.
abbrev rule : Rule
rule = new_rule memory codec (pos 4) (pos 4) (str "d") (str "/a")

abbrev store : Store memory.State
store = record { rules = (str "d", rule ∷ []) ∷ []; storage = [] }

store-IsGrouped : IsGrouped store.rules
unfolding find
store-IsGrouped = ((refl, tt), (λ e. cc), refl, tt)

store_older : AllBefore (pos 9) (rules_at (str "d") store.rules)
unfolding rules_at find str_dec
store_older = (refl, tt)

match-IsLatest_example :
    IsLatest (str "/a/b") (rules_at (str "d") store.rules) (match store (str "d") (str "/a/b"))
match-IsLatest_example = match-IsLatest store (str "d") (str "/a/b")

match-add_rule_example :
    let st' = (add_rule memory codec (pos 9) (pos 9) store (str "d") (str "/a/b")).0 in
    (match st' (str "d") (str "/a/b/c") ≡ (
      if str_eq (str "d") (str "d") && has_prefix (str "/a/b/c") (str "/a/b")
      then some (new_rule memory codec (pos 9) (pos 9) (str "d") (str "/a/b"))
      else match store (str "d") (str "/a/b/c")))
    × IsGrouped st'.rules
match-add_rule_example =
    match-add_rule memory codec (pos 9) (pos 9) store (str "d") (str "/a/b") (str "d")
      (str "/a/b/c") store-IsGrouped store_older

rules-cleanup_example :
    let st' = (cleanup memory codec (pos 9) store (pos 7)).0 in
    (rules_at (str "d") st'.rules
      ≡ keep (λ r. after r.created_at (pos 9 +ℤ (pos 0 -ℤ pos 7))) (rules_at (str "d") store.rules))
    × (rule_count st' (str "d") ≤ rule_count store (str "d"))
    × IsGrouped st'.rules
rules-cleanup_example =
    rules-cleanup memory codec (pos 9) store 7 (str "d") store-IsGrouped (omega arith)

abbrev unused : Store memory.State
unused = new []

persisted : (add_rule memory codec (pos 4) (pos 4) unused (str "d") (str "/a")).1 ≡ none
unfolding add_rule append_rule rules_at find put all_rules persist str_dec new
persisted = refl

unused-IsGrouped : IsGrouped unused.rules
unfolding new
unused-IsGrouped = tt
