-- ===== src/Admin/Effects.antt =====
-- internal/admin/handler.go: what the management API does to the requests that follow.
use file_server.Prelude.{
  Str, str, str_eq, str_dec_refl, has_prefix, ℤ, after, Option, none, some, true, false, ◌||◌,
  Bool-cases, Option-cases, ◌≡◌, inl, inr, refl, arith, subst, sym,
}
use file_server.Errors.{ok}
use file_server.Storage.{Storage}
use file_server.Http.{Writer, http_error}
use file_server.Config.{DomainConfig}
use file_server.Cache.Lru.{LruCache, Meta}
use file_server.Cache.Lru
use file_server.Cache.Lru.Invariant.{IsValid}
use file_server.Cache.Lru.Writes.{stored-IsValid}
use file_server.Cache.Singleflight
use file_server.Flush.{Store, Codec, rules_at, add_rule, new_rule}
use file_server.Flush
use file_server.Flush.Rules.{IsGrouped, AllBefore, match-add_rule}
use file_server.Pipeline.{Run}
use file_server.Domain.{Handler, Instants, Deps}
use file_server.Domain.Invariant.{IsSound}
use file_server.Domain.Flushed.{key_of, WentToOrigin, flushed_goes_to_origin}
use file_server.Admin.{add_flush, flush_prefix, flush_domain}

module _ (St : Storage) {F P W : Type 0} where
  module _ (codec : Codec) (id_at now : ℤ) (h : Handler St.State F P W) (w : Writer) where
    pub add_flush-IsSound :
        (domain prefix : Str)
        → IsSound h
        → IsSound (add_flush St codec id_at now h domain prefix w).0
    unfolding add_flush
    add_flush-IsSound domain prefix sound = record {
      valid =
          stored-IsValid St h.cache sound.valid
            (add_rule St codec id_at now h.flush domain prefix).0.storage;
      shared = refl;
    }

    -- The ways through `FlushPrefix` and `FlushDomain`.
    module _ (decode : Str → Option (Str × Str)) (body : Str) where
      abbrev prefix_refused : Handler St.State F P W × Writer
      prefix_refused = (h, http_error w (str "bad request: domain and prefix required") 400)

      prefix_malformed :
          decode body ≡ none → flush_prefix St decode codec id_at now h w body ≡ prefix_refused
      unfolding flush_prefix
      prefix_malformed absent = ground arith

      prefix_empty :
          (domain prefix : Str)
          → decode body ≡ some (domain, prefix)
          → str_eq domain (str "") || str_eq prefix (str "") ≡ true
          → flush_prefix St decode codec id_at now h w body ≡ prefix_refused
      unfolding flush_prefix
      prefix_empty domain prefix e empty = ground arith

      pub prefix_accepted :
          (domain prefix : Str)
          → decode body ≡ some (domain, prefix)
          → str_eq domain (str "") || str_eq prefix (str "") ≡ false
          → flush_prefix St decode codec id_at now h w body
            ≡ add_flush St codec id_at now h domain prefix w
      unfolding flush_prefix
      prefix_accepted domain prefix e full = ground arith

      -- `FlushPrefix` leaves the state alone or records a rule.
      pub flush_prefix_cases {ℓ} :
          (Q : Handler St.State F P W × Writer → Type ℓ)
          → ((w' : Writer) → Q (h, w'))
          → ((domain prefix : Str) → Q (add_flush St codec id_at now h domain prefix w))
          → Q (flush_prefix St decode codec id_at now h w body)
      flush_prefix_cases Q same added = elim (Option-cases (decode body)) [
        | inl absent ↦ subst Q (sym (prefix_malformed absent)) (same _)
        | inr ((d, p), e) ↦ elim (Bool-cases (str_eq d (str "") || str_eq p (str ""))) [
          | inl empty ↦ subst Q (sym (prefix_empty d p e empty)) (same _)
          | inr full ↦ subst Q (sym (prefix_accepted d p e full)) (added d p)
        ]
      ]

      -- `FlushPrefix` keeps the index of the cache valid and the rules in the shared storage.
      pub flush_prefix-IsSound :
          IsSound h → IsSound (flush_prefix St decode codec id_at now h w body).0
      flush_prefix-IsSound sound =
          flush_prefix_cases (λ r. IsSound r.0) (λ w'. sound) (λ d p. add_flush-IsSound d p sound)

    module _ (decode : Str → Option Str) (body : Str) where
      abbrev domain_refused : Handler St.State F P W × Writer
      domain_refused = (h, http_error w (str "bad request: domain required") 400)

      domain_malformed :
          decode body ≡ none → flush_domain St decode codec id_at now h w body ≡ domain_refused
      unfolding flush_domain
      domain_malformed absent = ground arith

      domain_empty :
          (domain : Str)
          → decode body ≡ some domain
          → str_eq domain (str "") ≡ true
          → flush_domain St decode codec id_at now h w body ≡ domain_refused
      unfolding flush_domain
      domain_empty domain e empty = ground arith

      domain_accepted :
          (domain : Str)
          → decode body ≡ some domain
          → str_eq domain (str "") ≡ false
          → flush_domain St decode codec id_at now h w body
            ≡ add_flush St codec id_at now h domain (str "/") w
      unfolding flush_domain
      domain_accepted domain e full = ground arith

      -- `FlushDomain` leaves the state alone or records a rule.
      pub flush_domain_cases {ℓ} :
          (Q : Handler St.State F P W × Writer → Type ℓ)
          → ((w' : Writer) → Q (h, w'))
          → ((domain prefix : Str) → Q (add_flush St codec id_at now h domain prefix w))
          → Q (flush_domain St decode codec id_at now h w body)
      flush_domain_cases Q same added = elim (Option-cases (decode body)) [
        | inl absent ↦ subst Q (sym (domain_malformed absent)) (same _)
        | inr (d, e) ↦ elim (Bool-cases (str_eq d (str ""))) [
          | inl empty ↦ subst Q (sym (domain_empty d e empty)) (same _)
          | inr full ↦ subst Q (sym (domain_accepted d e full)) (added d (str "/"))
        ]
      ]

      pub flush_domain-IsSound :
          IsSound h → IsSound (flush_domain St decode codec id_at now h w body).0
      flush_domain-IsSound sound =
          flush_domain_cases (λ r. IsSound r.0) (λ w'. sound) (λ d p. add_flush-IsSound d p sound)

    -- One rule that `AddRule` has recorded is in force at once.
    added_matches :
        (domain prefix path : Str)
        → IsGrouped h.flush.rules
        → AllBefore now (rules_at domain h.flush.rules)
        → has_prefix path prefix ≡ true
        → Flush.match (add_flush St codec id_at now h domain prefix w).0.flush domain path
          ≡ some (new_rule St codec id_at now domain prefix)
    unfolding add_flush
    added_matches domain prefix path g older covers = ground (
      arith,
      (match-add_rule St codec id_at now h.flush domain prefix domain path g older).0,
      str_dec_refl domain true false,
    )

  module _ (deps : Deps F P W) (at : Instants) (cfg : DomainConfig F) (run : Run P) (codec : Codec)
      (id_at now : ℤ) (h : Handler St.State F P W) (w : Writer) (m : Meta) (v : IsValid h.cache)
      (g : IsGrouped h.flush.rules) (older : AllBefore now (rules_at cfg.domain h.flush.rules))
      (held : Singleflight.stat St h.cache (key_of St deps at h cfg run) ≡ ok m)
      (written : after now m.written_at ≡ true) where
    add_flush-origin :
        (prefix : Str)
        → has_prefix run.ctx.rewritten_path prefix ≡ true
        → WentToOrigin St deps at
            (add_flush St codec id_at now h cfg.domain prefix w).0
            cfg
            run
            false
    unfolding Lru.stat
    add_flush-origin prefix covers =
        flushed_goes_to_origin St deps at (add_flush St codec id_at now h cfg.domain prefix w).0 cfg
          run
          (unfold add_flush in
            stored-IsValid St h.cache v
              (add_rule St codec id_at now h.flush cfg.domain prefix).0.storage)
          m (unfold add_flush Singleflight.stat in held)
          (new_rule St codec id_at now cfg.domain prefix)
          (added_matches codec id_at now h w cfg.domain prefix run.ctx.rewritten_path g older
            covers)
          written

    -- After `FlushPrefix` has accepted a prefix, whether or not the rule could be persisted, a
    -- request of the domain that passed the plugins, whose rewritten path has the prefix and whose
    -- entry was written before the flush, goes to the origin and not to the cache, on a valid cache,
    -- if no call of its key is in flight, the rules are grouped by domain and the domain's other
    -- rules are older than the flush.
    pub flush_prefix-origin :
        (decode : Str → Option (Str × Str)) (body prefix : Str)
        → decode body ≡ some (cfg.domain, prefix)
        → str_eq cfg.domain (str "") || str_eq prefix (str "") ≡ false
        → has_prefix run.ctx.rewritten_path prefix ≡ true
        → WentToOrigin St deps at (flush_prefix St decode codec id_at now h w body).0 cfg run false
    flush_prefix-origin decode body prefix e full covers =
        subst (λ r. WentToOrigin St deps at r.0 cfg run false)
          (sym (prefix_accepted codec id_at now h w decode body cfg.domain prefix e full))
          (add_flush-origin prefix covers)

    -- The same of `FlushDomain`, for every path that starts with a slash.
    pub flush_domain-origin :
        (decode : Str → Option Str) (body : Str)
        → decode body ≡ some cfg.domain
        → str_eq cfg.domain (str "") ≡ false
        → has_prefix run.ctx.rewritten_path (str "/") ≡ true
        → WentToOrigin St deps at (flush_domain St decode codec id_at now h w body).0 cfg run false
    flush_domain-origin decode body e full covers =
        subst (λ r. WentToOrigin St deps at r.0 cfg run false)
          (sym (domain_accepted codec id_at now h w decode body cfg.domain e full))
          (add_flush-origin (str "/") covers)
