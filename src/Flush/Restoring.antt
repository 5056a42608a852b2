-- ===== src/Flush/Restoring.antt =====
-- internal/flush/store.go: a storage from which `Load` gives the rules of a store in memory.
use file_server.Prelude.{
  Str, Map, ℤ, ◌+ℤ◌, neg_64, List, [], none, ◌≡◌, refl, sym, ap, ◌∙◌, inl, inr,
}
use file_server.Errors.{Result, Result-cases, ok, err, Failure}
use file_server.Storage.{Storage, StorageLaws, Reader, Metadata}
use file_server.Flush.{
  Rule, Store, Codec, persist_key, rules_at, append_rule, all_rules, new, load, persist, new_rule,
  add_rule, cleanup, cleanup_rules, match, match_from,
}
use file_server.Flush.Rules.{IsGrouped, append_rule-IsGrouped, rules-persist}
use file_server.Flush.Cleanup.{cleanup_rules-IsGrouped}
use file_server.Flush.Persistence.{CodecLaws, restored}

module _ (St : Storage) (codec : Codec) where
  -- A new store over the storage loads the rules of every domain, in their order.
  pub record Restores (s : St.State) (rules : Map (List Rule)) : Type 0 where
    pub fine : (load St codec (new s)).1 ≡ none
    pub same : (d : Str) → rules_at d (load St codec (new s)).0.rules ≡ rules_at d rules

  -- What `Load` gives rests on what is read under the rules' key.
  module _ (s s' : St.State) where
    load_alike :
        (r : Result (Reader × Metadata))
        → St.read s persist_key ≡ r
        → St.read s' persist_key ≡ r
        → ((load St codec (new s')).0.rules ≡ (load St codec (new s)).0.rules)
          × ((load St codec (new s')).1 ≡ (load St codec (new s)).1)
    unfolding load new
    load_alike (err e) a b = rw (a, b, load) (refl, refl)
    load_alike (ok (err e, m)) a b = rw (a, b, load) (refl, refl)
    load_alike (ok (ok bytes, m)) a b = elim (Result-cases (codec.unmarshal bytes)) [
      | inl (all, e) ↦ rw (a, b, load, e) (refl, refl)
      | inr (x, e) ↦ rw (a, b, load, e) (refl, refl)
    ]

    pub Restores-of_read :
        (rules : Map (List Rule))
        → St.read s' persist_key ≡ St.read s persist_key
        → Restores s rules
        → Restores s' rules
    Restores-of_read rules e r =
        let (rules_alike, failure_alike) = load_alike (St.read s persist_key) refl e in
        record { fine = failure_alike ∙ r.fine; same = λ d. ap (rules_at d) rules_alike ∙ r.same d }

  -- The rules that a `Load` has given are restored.
  pub load-Restores :
      (s : St.State) → (load St codec (new s)).1 ≡ none → Restores s (load St codec (new s)).0.rules
  load-Restores s done = record { fine = done; same = λ d. refl }

  module _ (laws : StorageLaws St) (codec_laws : CodecLaws codec) (st : Store St.State)
      (g : IsGrouped st.rules) where
    module _ (rules : Map (List Rule)) (grouped : IsGrouped rules) where
      abbrev persisted : Store St.State × Failure
      persisted = persist St codec (record st { rules = rules }) (all_rules rules)

      persist-Restores : persisted.1 ≡ none → Restores persisted.0.storage persisted.0.rules
      persist-Restores done = record {
        fine =
            (restored St codec laws codec_laws (record st { rules = rules }) rules [] grouped
              done).0;
        same = λ d.
            (restored St codec laws codec_laws (record st { rules = rules }) rules d grouped done).1
            ∙ ap (rules_at d)
                (sym (rules-persist St codec (record st { rules = rules }) (all_rules rules)));
      }

    -- After an `AddRule` that could persist, and after a `Cleanup` that could,
    -- `Load` gives the rules in memory.
    pub add_rule-Restores :
        (id_at now : ℤ) (domain prefix : Str)
        → let r = add_rule St codec id_at now st domain prefix in
          r.1 ≡ none → Restores r.0.storage r.0.rules
    unfolding add_rule
    add_rule-Restores id_at now domain prefix =
        persist-Restores (append_rule domain (new_rule St codec id_at now domain prefix) st.rules)
          (append_rule-IsGrouped (new_rule St codec id_at now domain prefix) st.rules g)

    pub cleanup-Restores :
        (now max_age : ℤ)
        → let r = cleanup St codec now st max_age in r.1 ≡ none → Restores r.0.storage r.0.rules
    unfolding cleanup
    cleanup-Restores now max_age =
        persist-Restores (cleanup_rules (now +ℤ neg_64 max_age) st.rules)
          (cleanup_rules-IsGrouped (now +ℤ neg_64 max_age) st.rules g)

  -- A store with the restored rules matches as the one in memory.
  pub Restores-match :
      (s : St.State) (st : Store St.State) (d path : Str)
      → Restores s st.rules
      → match (load St codec (new s)).0 d path ≡ match st d path
  unfolding match
  Restores-match s st d path r = ap (match_from path none) (r.same d)
