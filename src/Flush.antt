-- ===== src/Flush.antt =====
-- internal/flush/store.go: the flush rules. JSON and the printing of an instant's nanoseconds are
-- parameters, and so is each instant that `time.Now` returns. A critical section is one step.
pub mod Matching
pub mod Rules
pub mod Cleanup
pub mod Persistence
pub mod Restoring
use file_server.Prelude.{
  ℕ, Str, str, Map, find, put, ℤ, ◌+ℤ◌, neg_64, after, has_prefix, length, keep, List, [], ◌∷◌,
  ◌++◌, if◌then◌else◌, Option, none, some,
}
use file_server.Errors.{Result, ok, err, Failure, wrap, wrap_failure}
use file_server.Storage.{Storage, Reader, empty_metadata}

abbrev pub persist_key : Str
persist_key = str "__flush_rules__"

pub record Rule : Type 0 where
  pub id : Str
  pub domain : Str
  pub prefix : Str
  pub created_at : ℤ

-- encoding/json on the rules, and `fmt.Sprintf("%d", t.UnixNano())`.
pub record Codec : Type 0 where
  pub marshal : List Rule → Result Str
  pub unmarshal : Str → Result (List Rule)
  pub show_nanos : ℤ → Str

-- `Store`; the storage is shared with the rest of the program.
pub record Store (S : Type 0) : Type 0 where
  pub rules : Map (List Rule)
  pub storage : S

-- `st.rules[domain]`, empty for a missing key
unfoldable pub rules_at : Str → Map (List Rule) → List Rule
rules_at domain m = elim (find domain m) [ none ↦ [] | some rs ↦ rs ]

-- `st.rules[domain] = append(st.rules[domain], r)`
unfoldable pub append_rule : Str → Rule → Map (List Rule) → Map (List Rule)
unfolding rules_at
append_rule domain r m = put domain (rules_at domain m ++ r ∷ []) m

-- `allRulesLocked`
unfoldable pub all_rules : Map (List Rule) → List Rule
all_rules [] = []
all_rules ((domain, rs) ∷ m) = rs ++ all_rules m

-- The loop of `Load`.
unfoldable pub load_rules : Map (List Rule) → List Rule → Map (List Rule)
unfolding append_rule
load_rules m [] = m
load_rules m (r ∷ rs) = load_rules (append_rule r.domain r m) rs

-- The loop of `Cleanup`: a domain with no rule left is deleted.
unfoldable pub cleanup_rules : ℤ → Map (List Rule) → Map (List Rule)
cleanup_rules cutoff [] = []
cleanup_rules cutoff ((domain, rs) ∷ m) =
    let rest = cleanup_rules cutoff m in
    elim (keep (λ r. after r.created_at cutoff) rs) [
      | [] ↦ rest
      | r ∷ kept ↦ (domain, r ∷ kept) ∷ rest
    ]

-- The test of `Match` on one rule, with the latest match so far.
unfoldable pub later : Str → Rule → Option Rule → Option Rule
later path r latest =
    if has_prefix path r.prefix
    then (elim latest [
      | none ↦ some r
      | some l ↦ if after r.created_at l.created_at then some r else some l
    ])
    else latest

-- The loop of `Match`.
unfoldable pub match_from : Str → Option Rule → List Rule → Option Rule
unfolding later
match_from path latest [] = latest
match_from path latest (r ∷ rs) = match_from path (later path r latest) rs

module _ {S : Type 0} where
  unfoldable pub new : S → Store S
  new s = record { rules = []; storage = s }

  -- `Match`
  unfoldable pub match : Store S → Str → Str → Option Rule
  unfolding match_from rules_at
  match st domain path = match_from path none (rules_at domain st.rules)

  -- `RuleCount`
  unfoldable pub rule_count : Store S → Str → ℕ
  unfolding rules_at
  rule_count st domain = length (rules_at domain st.rules)

module _ (St : Storage) (codec : Codec) where
  -- The end of `Load`, once the rules are decoded.
  abbrev loaded : Store St.State → Result (List Rule) → Store St.State × Failure
  loaded st (err e) = (st, some (wrap (str "flush: decode rules: ") e))
  loaded st (ok all) = (record st { rules = load_rules st.rules all }, none)

  -- What `Load` does with the reader.
  abbrev decode_rules : Store St.State → Reader → Store St.State × Failure
  decode_rules st (err e) = (st, some (wrap (str "flush: read rules: ") e))
  decode_rules st (ok bytes) = loaded st (codec.unmarshal bytes)

  -- `Load`: whatever the error of the read, there are no rules to restore.
  unfoldable pub load : Store St.State → Store St.State × Failure
  unfolding load_rules
  load st = elim (St.read st.storage persist_key) [
    | err e ↦ (st, none)
    | ok (rc, _) ↦ decode_rules st rc
  ]

  -- `persist`
  unfoldable pub persist : Store St.State → List Rule → Store St.State × Failure
  unfolding wrap_failure
  persist st all = elim (codec.marshal all) [
    | err e ↦ (st, some (wrap (str "flush: encode rules: ") e))
    | ok bytes ↦
        let (s, failure) =
          St.write st.storage persist_key (ok bytes)
            (some (record empty_metadata { content_type = str "application/json" })) in
        (record st { storage = s }, wrap_failure (str "flush: persist rules: ") failure)
  ]

  -- The rule that `AddRule` records: the two calls of `time.Now` give the id and the instant.
  abbrev pub new_rule : ℤ → ℤ → Str → Str → Rule
  new_rule id_at now domain prefix = record {
    id = codec.show_nanos id_at;
    domain = domain;
    prefix = prefix;
    created_at = now;
  }

  -- `AddRule`
  unfoldable pub add_rule : ℤ → ℤ → Store St.State → Str → Str → Store St.State × Failure
  unfolding append_rule all_rules persist
  add_rule id_at now st domain prefix =
      let rules = append_rule domain (new_rule id_at now domain prefix) st.rules in
      persist (record st { rules = rules }) (all_rules rules)

  -- `Cleanup` at the instant `now`
  unfoldable pub cleanup : ℤ → Store St.State → ℤ → Store St.State × Failure
  unfolding cleanup_rules all_rules persist ◌+ℤ◌ neg_64
  cleanup now st max_age =
      let rules = cleanup_rules (now +ℤ neg_64 max_age) st.rules in
      persist (record st { rules = rules }) (all_rules rules)
