-- ===== src/Main/Loading.antt =====
-- internal/config/loader.go and the start of internal/flush/store.go: what the loading gives.
use file_server.Prelude.{
  Str, str, str_dec, Map, find, find-put, put, All, List, [], ◌∷◌, some, ◌≡◌, ◌++◌, inl, inr, sym,
  subst, ◌∙◌, arith, if_pos, if_neg,
}
use file_server.Errors.{Error, wrap, Result, Result-cases, ok, err}
use file_server.Storage.{Storage, Reader, Metadata}
use file_server.Config.{Config, DomainConfig, defaults}
use file_server.Config.Defaults.{IsUsableDomain, IsUsable, defaults-IsUsable}
use file_server.Config.Loader.{load}
use file_server.Flush.{persist_key, Rule, Store, Codec, append_rule, load_rules}
use file_server.Flush
use file_server.Flush.Rules.{IsGrouped, append_rule-IsGrouped}
use file_server.Domain.{update_domains}

-- Every configured domain stands under its own name, with values that the program can run with.
abbrev pub AreUsable : {F : Type 0} → Map (DomainConfig F) → Type 0
AreUsable {F} m =
    (k : Str) (cfg : DomainConfig F) → find k m ≡ some cfg → IsUsableDomain cfg × (cfg.domain ≡ k)

some_same : {A : Type 0} (a b : A) → some a ≡ some b → a ≡ b
some_same a b e = cc

ok_same : {A : Type 0} (a b : A) → ok a ≡ ok b → a ≡ b
ok_same a b e = cc

module _ {F : Type 0} where
  put-AreUsable :
      (d : DomainConfig F) (m : Map (DomainConfig F))
      → IsUsableDomain d
      → AreUsable m
      → AreUsable (put d.domain d m)
  put-AreUsable d m usable rest k cfg e = elim (str_dec d.domain k) [
    | yes same ↦
        let found : some d ≡ some cfg =
          sym (find-put d.domain k d m ∙ if_pos (str_dec d.domain k) same (some d) (find k m))
          ∙ e in
        subst (λ c. IsUsableDomain c × (c.domain ≡ k)) (some_same d cfg found) (usable, same)
    | no n ↦
        rest k cfg
          (sym (find-put d.domain k d m ∙ if_neg (str_dec d.domain k) n (some d) (find k m)) ∙ e)
  ]

  pub update_domains-AreUsable :
      (m : Map (DomainConfig F)) (ds : List (DomainConfig F))
      → AreUsable m
      → All IsUsableDomain ds
      → AreUsable (update_domains m ds)
  unfolding update_domains
  update_domains-AreUsable m [] h all = h
  update_domains-AreUsable m (d ∷ ds) h all =
      update_domains-AreUsable (put d.domain d m) ds (put-AreUsable d m all.0 h) all.1

  pub none-AreUsable : AreUsable {F = F} []
  unfolding find
  none-AreUsable k cfg e = absurd (cc)

  -- The two ways through `Load`, once the file has been read.
  module _ (unmarshal : Str → Result (Config F)) (quote : Str → Str) (path bytes : Str) where
    pub load_parsed :
        (raw : Config F)
        → unmarshal bytes ≡ ok raw
        → load unmarshal quote path (ok bytes) ≡ ok (defaults raw)
    unfolding load
    load_parsed raw e = rw (e, load)

    pub load_malformed :
        (e : Error)
        → unmarshal bytes ≡ err e
        → (x : Error) × (load unmarshal quote path (ok bytes) ≡ err x)
    unfolding load
    load_malformed e failed =
        (wrap (str "config: parse " ++ quote path ++ str ": ") e, rw (failed, load))

  pub load-IsUsable :
      (unmarshal : Str → Result (Config F)) (quote : Str → Str) (path : Str) (file : Result Str)
      (cfg : Config F)
      → load unmarshal quote path file ≡ ok cfg
      → IsUsable cfg
  load-IsUsable unmarshal quote path (err e) cfg h = absurd (unfold load in cc h)
  load-IsUsable unmarshal quote path (ok bytes) cfg h = elim (Result-cases (unmarshal bytes)) [
    | inl (raw, e) ↦
        subst IsUsable
          (ok_same (defaults raw) cfg (sym (load_parsed unmarshal quote path bytes raw e) ∙ h))
          (defaults-IsUsable raw)
    | inr (e, failed) ↦
        let (x, bad) = load_malformed unmarshal quote path bytes e failed in absurd (cc)
  ]

load_rules-IsGrouped :
    (m : Map (List Rule)) (rs : List Rule) → IsGrouped m → IsGrouped (load_rules m rs)
unfolding load_rules
load_rules-IsGrouped m [] g = g
load_rules-IsGrouped m (r ∷ rs) g =
    load_rules-IsGrouped (append_rule r.domain r m) rs (append_rule-IsGrouped r m g)

module _ (St : Storage) (codec : Codec) where
  -- The ways through `Load`.
  module _ (st : Store St.State) where
    load_none :
        (e : Error)
        → St.read st.storage persist_key ≡ err e
        → (Flush.load St codec st).0.rules ≡ st.rules
    unfolding Flush.load
    load_none e failed = ground arith

    load_unread :
        (e : Error) (m : Metadata)
        → St.read st.storage persist_key ≡ ok (err e, m)
        → (Flush.load St codec st).0.rules ≡ st.rules
    unfolding Flush.load
    load_unread e m failed = ground arith

    load_undecoded :
        (bytes : Str) (m : Metadata) (e : Error)
        → St.read st.storage persist_key ≡ ok (ok bytes, m)
        → codec.unmarshal bytes ≡ err e
        → (Flush.load St codec st).0.rules ≡ st.rules
    unfolding Flush.load
    load_undecoded bytes m e stored failed = ground arith

    load_all :
        (bytes : Str) (m : Metadata) (all : List Rule)
        → St.read st.storage persist_key ≡ ok (ok bytes, m)
        → codec.unmarshal bytes ≡ ok all
        → (Flush.load St codec st).0.rules ≡ load_rules st.rules all
    unfolding Flush.load
    load_all bytes m all stored decoded = ground arith

    load_read-IsGrouped :
        (r : Reader) (m : Metadata)
        → St.read st.storage persist_key ≡ ok (r, m)
        → IsGrouped st.rules
        → IsGrouped (Flush.load St codec st).0.rules
    load_read-IsGrouped (err e) m stored g = subst IsGrouped (sym (load_unread e m stored)) g
    load_read-IsGrouped (ok bytes) m stored g = elim (Result-cases (codec.unmarshal bytes)) [
      | inl (all, decoded) ↦
          subst IsGrouped (sym (load_all bytes m all stored decoded))
            (load_rules-IsGrouped st.rules all g)
      | inr (e, failed) ↦ subst IsGrouped (sym (load_undecoded bytes m e stored failed)) g
    ]

    pub load-IsGrouped : IsGrouped st.rules → IsGrouped (Flush.load St codec st).0.rules
    load-IsGrouped g = elim (Result-cases (St.read st.storage persist_key)) [
      | inl ((r, m), stored) ↦ load_read-IsGrouped r m stored g
      | inr (e, failed) ↦ subst IsGrouped (sym (load_none e failed)) g
    ]

  pub load_storage : (st : Store St.State) → (Flush.load St codec st).0.storage ≡ st.storage
  unfolding Flush.load
  load_storage st = ground arith
