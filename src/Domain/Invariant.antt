-- ===== src/Domain/Invariant.antt =====
-- internal/domain/router.go: what `ServeHTTP` keeps.
use file_server.Prelude.{
  ℕ, Str, find, Option, none, some, Bool, true, false, Bool-cases, Option-cases, ◌≡◌, ◌⊎◌, inl, inr,
  refl, arith, subst, sym, ap, str,
}
use file_server.Errors.{Result, ok, err}
use file_server.Storage.{Storage, Reader}
use file_server.Http.{Request, Response, Writer, http_error}
use file_server.Config.{DomainConfig}
use file_server.Cache.Lru.{LruCache, Meta}
use file_server.Cache.Lru.Invariant.{IsValid}
use file_server.Cache.Lru.Writes.{delete-refines}
use file_server.Cache.Key.{build}
use file_server.Cache.Singleflight.{SfResult, get_or_fetch}
use file_server.Cache.Singleflight
use file_server.Cache.Singleflight.Invariant.{get_or_fetch-IsValid}
use file_server.Flush.{Store}
use file_server.Pipeline.{Run, execute}
use file_server.Origin.{Outcome, replied, panicked}
use file_server.Domain.{
  calm, Net, Handler, Instants, Deps, response, strip_port, fetched, after_pull, origin_fetch,
  apply_flush, serve_passed, serve_http,
}

-- The index of the cache is valid, and the flush rules are stored where the bodies are.
pub record IsSound {S F P W : Type 0} (h : Handler S F P W) : Type 0 where
  pub valid : IsValid h.cache
  pub shared : h.flush.storage ≡ h.cache.storage

module _ (St : Storage) {F P W : Type 0} (deps : Deps F P W) where
  module _ (at : Instants) (cfg : DomainConfig F) (key : Str) where
    fetched_key :
        (resp : Response) (p : Reader × Meta)
        → fetched St deps at cfg key resp ≡ ok p
        → p.1.key ≡ key
    unfolding fetched
    fetched_key resp p e = ground arith

    after_pull_key :
        (n : ℕ) (w : W) (o : Outcome) (p : Reader × Meta)
        → (after_pull St deps at cfg key n w o).1 ≡ ok p
        → p.1.key ≡ key
    unfolding after_pull
    after_pull_key n w panicked p e = cc
    after_pull_key n w (replied (err x)) p e = cc
    after_pull_key n w (replied (ok resp)) p e = fetched_key resp p e

    -- What is fetched for a key is under that key.
    pub origin_fetch-key :
        (run : Run P) (net : Net W) (p : Reader × Meta)
        → (origin_fetch St deps at cfg run key net).1 ≡ ok p
        → p.1.key ≡ key
    unfolding origin_fetch
    origin_fetch-key run net p e = after_pull_key _ _ _ p e

  module _ (c : LruCache St.State) (flush : Store St.State) (domain path key : Str) where
    pub apply_flush_cases :
        (apply_flush St deps c flush domain path key ≡ c)
        ⊎ (apply_flush St deps c flush domain path key ≡ (Singleflight.delete St c key).0)
    unfolding apply_flush
    apply_flush_cases = ground arith

    pub apply_flush-IsValid : IsValid c → IsValid (apply_flush St deps c flush domain path key)
    unfolding Singleflight.delete
    apply_flush-IsValid v = elim apply_flush_cases [
      | inl kept ↦ subst IsValid (sym kept) v
      | inr dropped ↦ subst IsValid (sym dropped) (delete-refines St c key v).0
    ]

  module _ (at : Instants) (in_flight : Option (Result SfResult)) where
    serve_passed-IsSound :
        (h : Handler St.State F P W) (cfg : DomainConfig F) (run : Run P)
        → IsValid h.cache
        → IsSound (serve_passed St deps at in_flight h cfg run).0
    unfolding serve_passed
    serve_passed-IsSound h cfg run v =
        let path = run.ctx.rewritten_path in
        let key =
          build deps.short_hash deps.key_builder cfg.domain path run.request cfg.key_rules in
        record {
          valid =
              get_or_fetch-IsValid St deps.formats key (calm h.net)
                (origin_fetch St deps at cfg run key) (origin_fetch-key at cfg key run (calm h.net))
                at.first at.second in_flight
                (apply_flush St deps h.cache h.flush cfg.domain path key)
                (apply_flush-IsValid h.cache h.flush cfg.domain path key v);
          shared = refl;
        }

    module _ (h : Handler St.State F P W) (w : Writer) (r : Request) where
      pub serve_unknown :
          find (strip_port r.host) h.domains ≡ none
          → serve_http St deps at in_flight h w r
            ≡ (h, response (http_error w (str "404 page not found") 404))
      unfolding serve_http
      serve_unknown absent = ground arith

      module _ (cfg : DomainConfig F) (found : find (strip_port r.host) h.domains ≡ some cfg) where
        -- The run of the plugins, and the handler after it.
        abbrev pub executed : Run P × Bool
        executed = execute deps.registry cfg.plugins cfg.domain w r h.plugins

        abbrev pub plugged : Handler St.State F P W
        plugged = record h { plugins = executed.0.state }

        pub serve_refused :
            executed.1 ≡ false
            → serve_http St deps at in_flight h w r ≡ (plugged, response executed.0.writer)
        unfolding serve_http
        serve_refused refused = ground arith

        pub serve_on :
            executed.1 ≡ true
            → serve_http St deps at in_flight h w r
              ≡ serve_passed St deps at in_flight plugged cfg executed.0
        unfolding serve_http
        serve_on passed = ground arith

      pub serve_cases :
          ((serve_http St deps at in_flight h w r).0 ≡ h)
          ⊎ ((p : P) × ((serve_http St deps at in_flight h w r).0 ≡ record h { plugins = p }))
          ⊎ ((p : P) × (cfg : DomainConfig F) × (run : Run P) × (serve_http St deps at in_flight h w
                  r
                ≡ serve_passed St deps at in_flight (record h { plugins = p }) cfg run))
      serve_cases = elim (Option-cases (find (strip_port r.host) h.domains)) [
        | inl absent ↦ inl (ap (λ s. s.0) (serve_unknown absent))
        | inr (cfg, found) ↦ elim (Bool-cases (executed cfg found).1) [
          | inl passed ↦ inr (
              inr (
                (executed cfg found).0.state,
                cfg,
                (executed cfg found).0,
                serve_on cfg found passed,
              ))
          | inr refused ↦
              inr (
                inl ((executed cfg found).0.state, ap (λ s. s.0) (serve_refused cfg found refused)))
        ]
      ]

      -- Whatever the request, the plugins, the storage and the origins do, the cache's index stays
      -- valid, the flush rules stay stored where the bodies are, and the request changes neither
      -- the rules nor the configured domains.
      pub serve_http-IsSound :
          IsSound h
          → let h' = (serve_http St deps at in_flight h w r).0 in
            IsSound h' × (h'.flush.rules ≡ h.flush.rules) × (h'.domains ≡ h.domains)
      unfolding serve_passed
      serve_http-IsSound sound = elim serve_cases [
        | inl e ↦ rw e (sound, refl, refl)
        | inr (inl (p, e)) ↦
            rw e (record { valid = sound.valid; shared = sound.shared }, refl, refl)
        | inr (inr (p, cfg, run, e)) ↦
            rw e (serve_passed-IsSound (record h { plugins = p }) cfg run sound.valid, refl, refl)
      ]
