-- ===== src/Domain/Flushed.antt =====
-- internal/domain/router.go: when `ServeHTTP` goes to the origin, and what it says of it.
use file_server.Prelude.{
  ℕ, if◌then◌else◌, refl, Str, str, ◌++◌, find, find-remove, str_dec_refl, ℤ, after, none, some,
  Bool, true, false, ◌≡◌, ◌⊎◌, inl, inr, arith, subst, ◌∙◌, ap,
}
use file_server.Errors.{Error, Result, ok, err, leaf}
use file_server.Storage.{Storage, Reader}
use file_server.Http.{http_error}
use file_server.Origin.{Outcome, panicked, replied, pull}
use file_server.Config.{DomainConfig}
use file_server.Cache.Lru.{LruCache, Meta, expires_at, get}
use file_server.Cache.Lru.Ideal.{ideal_reply}
use file_server.Cache.Lru.Invariant.{IsValid, contents}
use file_server.Cache.Lru.Refinement.{get-refines}
use file_server.Cache.Lru.Writes.{delete-refines, stat-contents}
use file_server.Cache.Key.{build}
use file_server.Cache.Singleflight.{get_or_fetch}
use file_server.Cache.Singleflight
use file_server.Cache.Singleflight.Fetches.{IsFailed, get_or_fetch_miss}
use file_server.Flush.{Store, Rule}
use file_server.Flush
use file_server.Pipeline.{Run}
use file_server.Domain.{
  Net, calm, Handler, Instants, Deps, is_ok, response, crash, answer, respond, after_pull,
  origin_path, origin_fetch, apply_flush, serve_passed,
}
use file_server.Domain.Invariant.{apply_flush-IsValid}

module _ (St : Storage) (c : LruCache St.State) (key : Str) (v : IsValid c) where
  get_absent :
      (now : ℤ)
      → find key (contents c) ≡ none
      → (get St now c key).1 ≡ err (leaf (str "cache: miss: " ++ key))
  unfolding ideal_reply
  get_absent now absent = ground (arith, (get-refines St c now key v).2)

  get_old :
      (now : ℤ) (m : Meta)
      → find key (contents c) ≡ some m
      → after now (expires_at m) ≡ true
      → (get St now c key).1 ≡ err (leaf (str "cache: expired: " ++ key))
  unfolding ideal_reply
  get_old now m present old = ground (arith, (get-refines St c now key v).2)

  pub stat_absent : find key (contents c) ≡ none → is_ok (Singleflight.stat St c key) ≡ false
  unfolding Singleflight.stat
  stat_absent absent = ground (arith, (stat-contents c key v).0)

  stat_present : (m : Meta) → Singleflight.stat St c key ≡ ok m → find key (contents c) ≡ some m
  unfolding Singleflight.stat
  stat_present m e = ground (arith, (stat-contents c key v).0)

  pub deleted_absent : find key (contents (Singleflight.delete St c key).0) ≡ none
  unfolding Singleflight.delete
  deleted_absent =
      ap (find key) (delete-refines St c key v).1
      ∙ find-remove key key (contents c)
      ∙ str_dec_refl key _ _

module _ (St : Storage) {F P W : Type 0} (deps : Deps F P W) (at : Instants)
    (h : Handler St.State F P W) (cfg : DomainConfig F) (run : Run P) where
  abbrev pub key_of : Str
  key_of =
      build deps.short_hash deps.key_builder cfg.domain run.ctx.rewritten_path run.request
        cfg.key_rules

  -- The cache after the flush rules.
  abbrev flushed : LruCache St.State
  flushed = apply_flush St deps h.cache h.flush cfg.domain run.ctx.rewritten_path key_of

  -- What the origin gives for the request.
  abbrev pub pulled : Net W × Result (Reader × Meta)
  pulled = origin_fetch St deps at cfg run key_of (calm h.net)

  -- The request has gone to the origin: the network is as after one pull, and the response has the
  -- body of the pull and says in X-Cache what the flag says; or the pull or the reading of its body
  -- failed, and the response is a 502, or a panic if the pull panicked.
  abbrev pub WentToOrigin : Bool → Type 0
  WentToOrigin hit =
      let (h', served) = serve_passed St deps at none h cfg run in
      (h'.net ≡ pulled.0)
      × (((body : Str) × (m : Meta) × (pulled.1 ≡ ok (ok body, m))
            × (served ≡ response (answer hit run (ok body) m)))
          ⊎ ((e : Error) × IsFailed e pulled.1
              × (served ≡ (
                  if pulled.0.crashed
                  then crash
                  else response (http_error run.writer (str "Bad Gateway") 502)))))

  after_pull-calm :
      (counter : ℕ) (w : W) (outcome : Outcome) (p : Reader × Meta)
      → (after_pull St deps at cfg key_of counter w outcome).1 ≡ ok p
      → (after_pull St deps at cfg key_of counter w outcome).0.crashed ≡ false
  unfolding after_pull
  after_pull-calm counter w panicked p gave = absurd (cc)
  after_pull-calm counter w (replied (err e)) p gave = refl
  after_pull-calm counter w (replied (ok resp)) p gave = refl

  pulled_calm : (p : Reader × Meta) → pulled.1 ≡ ok p → pulled.0.crashed ≡ false
  unfolding origin_fetch
  pulled_calm p gave =
      let (counter, (w, outcome)) =
        pull deps.client deps.show h.net.counter h.net.network cfg.origins cfg.origin_timeout
          cfg.origin_retry (origin_path run.ctx.rewritten_path run.request.raw_query)
          run.request.header in
      after_pull-calm counter w outcome p gave

  respond_failed :
      (crashed hit : Bool) (e : Error)
      → respond St deps hit run crashed (err e)
        ≡ (if crashed then crash else response (http_error run.writer (str "Bad Gateway") 502))
  respond_failed true hit e = refl
  respond_failed false hit e = refl

  module _ (v : IsValid h.cache) where
    flushed-IsValid : IsValid flushed
    flushed-IsValid =
        apply_flush-IsValid St deps h.cache h.flush cfg.domain run.ctx.rewritten_path key_of v

    went :
        (e : Error)
        → (get St at.first flushed key_of).1 ≡ err e
        → WentToOrigin (is_ok (Singleflight.stat St flushed key_of))
    unfolding serve_passed
    went e missed =
        let fetch = origin_fetch St deps at cfg run key_of in
        let hit = is_ok (Singleflight.stat St flushed key_of) in
        let (net, reply) =
          get_or_fetch_miss St deps.formats flushed at.first at.second (calm h.net) key_of fetch e
            flushed-IsValid missed in
        (
          net,
          elim reply [
            | inl (body, m, gave, got) ↦ inl (
              body,
              m,
              gave,
              (λ i. respond St deps hit run (net i).crashed (got i))
                  ∙ ap (λ crashed. respond St deps hit run crashed (ok (ok body, m)))
                      (pulled_calm (ok body, m) gave),
            )
            | inr (e', failed, got, _) ↦ inr (
              e',
              failed,
              (λ i. respond St deps hit run (net i).crashed (got i))
                  ∙ respond_failed pulled.0.crashed hit e',
            )
          ],
        )

    module _ (m : Meta) (held : Singleflight.stat St h.cache key_of ≡ ok m) where
      flushed_dropped :
          (rule : Rule)
          → Flush.match h.flush cfg.domain run.ctx.rewritten_path ≡ some rule
          → after rule.created_at m.written_at ≡ true
          → flushed ≡ (Singleflight.delete St h.cache key_of).0
      unfolding apply_flush
      flushed_dropped rule matched later = ground arith

      flushed_kept :
          Flush.match h.flush cfg.domain run.ctx.rewritten_path ≡ none → flushed ≡ h.cache
      unfolding apply_flush
      flushed_kept unmatched = ground arith

      -- A request that passed the plugins and whose entry, expired or not, was written before a
      -- flush rule for it, is not answered from the cache, on a valid cache and if no call of the
      -- key is in flight: the origin is pulled from once; the response has the body that the pull
      -- gave and `X-Cache: miss`, or, if the pull or the reading of its body failed, it is a 502, or
      -- a panic if the pull panicked.
      pub flushed_goes_to_origin :
          (rule : Rule)
          → Flush.match h.flush cfg.domain run.ctx.rewritten_path ≡ some rule
          → after rule.created_at m.written_at ≡ true
          → WentToOrigin false
      flushed_goes_to_origin rule matched later =
          let dropped = flushed_dropped rule matched later in
          let absent : find key_of (contents flushed) ≡ none =
            ap (λ c. find key_of (contents c)) dropped ∙ deleted_absent St h.cache key_of v in
          subst WentToOrigin (stat_absent St flushed key_of flushed-IsValid absent) (
            went (leaf (str "cache: miss: " ++ key_of))
              (get_absent St flushed key_of flushed-IsValid at.first absent))

      -- For a request that passed the plugins and whose entry has expired, on a valid cache and if
      -- no rule matches and no call of the key is in flight, the origin is pulled from once; the
      -- response has the body that the pull gave, but `X-Cache: hit`, or, if the pull or the reading
      -- of its body failed, it is a 502, or a panic if the pull panicked.
      pub expired_marked_hit :
          Flush.match h.flush cfg.domain run.ctx.rewritten_path ≡ none
          → after at.first (expires_at m) ≡ true
          → WentToOrigin true
      expired_marked_hit unmatched old =
          let kept = flushed_kept unmatched in
          let present : find key_of (contents flushed) ≡ some m =
            ap (λ c. find key_of (contents c)) kept ∙ stat_present St h.cache key_of v m held in
          subst WentToOrigin (ap (λ c. is_ok (Singleflight.stat St c key_of)) kept ∙ ap is_ok held)
            (went (leaf (str "cache: expired: " ++ key_of))
              (get_old St flushed key_of flushed-IsValid at.first m present old))
