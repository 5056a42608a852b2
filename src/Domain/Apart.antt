-- ===== src/Domain/Apart.antt =====
-- internal/domain/router.go, with internal/cache/key.go and internal/flush: the keys of the requests
-- and the key of the flush rules, in the storage that they share.
use file_server.Prelude.{
  Str, str, ◌++◌, Bool, true, false, ◌||◌, ◌==◌, ap, ◌∙◌, [], ◌∷◌, Option, ◌≡◌, ◌≢◌, inl, inr, refl,
  subst, sym, arith,
}
use file_server.Storage.{Storage, StorageLaws, Reader, Metadata}
use file_server.Http.{Request, Writer}
use file_server.Config.{KeyRulesConfig, DomainConfig}
use file_server.Cache.Key.{KeyBuilder, rules_of, build_query, build_header_hash, build}
use file_server.Flush.{persist_key, Store}
use file_server.Cache.Lru.{LruCache}
use file_server.Cache.Lru.Frame.{IsApart, delete-IsApart}
use file_server.Cache.Singleflight.{SfResult}
use file_server.Cache.Singleflight
use file_server.Cache.Singleflight.Invariant.{get_or_fetch-IsApart}
use file_server.Errors.{Result}
use file_server.Pipeline.{Run}
use file_server.Domain.{
  calm, Handler, Instants, Deps, origin_fetch, apply_flush, serve_passed, serve_http,
}
use file_server.Domain.Invariant.{apply_flush_cases, serve_cases, origin_fetch-key}

abbrev has_colon : Str → Bool
has_colon [] = false
has_colon (c ∷ s) = c == b':' || has_colon s

has_colon-append : (s t : Str) → has_colon t ≡ true → has_colon (s ++ t) ≡ true
has_colon-append [] t h = h
has_colon-append (c ∷ s) t h = ground (arith, has_colon-append s t h)

append-has_colon : (s t : Str) → has_colon s ≡ true → has_colon (s ++ t) ≡ true
append-has_colon [] t h = absurd (cc)
append-has_colon (c ∷ s) t h = ground (arith, append-has_colon s t)

-- The form of a key.
has_colon_key :
    (d p q h : Str) → has_colon (d ++ str ":" ++ p ++ str "?" ++ q ++ str "#" ++ h) ≡ true
has_colon_key d p q h =
    let upto_path = append-has_colon (d ++ str ":") p (has_colon-append d (str ":") refl) in
    let upto_mark = append-has_colon (d ++ str ":" ++ p) (str "?") upto_path in
    let upto_query = append-has_colon (d ++ str ":" ++ p ++ str "?") q upto_mark in
    append-has_colon (d ++ str ":" ++ p ++ str "?" ++ q ++ str "#") h
      (append-has_colon (d ++ str ":" ++ p ++ str "?" ++ q) (str "#") upto_query)

module _ (short_hash : Str → Str) (kb : KeyBuilder) (domain path : Str) (r : Request)
    (rules : Option KeyRulesConfig) where
  colon_of_build : has_colon (build short_hash kb domain path r rules) ≡ true
  unfolding build
  colon_of_build =
      has_colon_key domain path (build_query r (rules_of kb rules).include_query_params)
        (build_header_hash short_hash r (rules_of kb rules).include_headers)

  pub build-ne-persist_key : build short_hash kb domain path r rules ≢ persist_key
  build-ne-persist_key e =
      let clash : true ≡ false = sym colon_of_build ∙ ap has_colon e in absurd (cc)

module _ (St : Storage) (laws : StorageLaws St) (b : Result (Reader × Metadata)) {F P W : Type 0}
    (deps : Deps F P W) where
  apply_flush-IsApart :
      (c : LruCache St.State) (flush : Store St.State) (domain path key : Str)
      → key ≢ persist_key
      → IsApart St persist_key b c
      → IsApart St persist_key b (apply_flush St deps c flush domain path key)
  unfolding Singleflight.delete
  apply_flush-IsApart c flush domain path key other apart =
      elim (apply_flush_cases St deps c flush domain path key) [
        | inl kept ↦ subst (IsApart St persist_key b) (sym kept) apart
        | inr dropped ↦
            subst (IsApart St persist_key b) (sym dropped)
              (delete-IsApart St laws persist_key b c key apart other)
      ]

  module _ (at : Instants) (in_flight : Option (Result SfResult)) where
    serve_passed-IsApart :
        (h : Handler St.State F P W) (cfg : DomainConfig F) (run : Run P)
        → IsApart St persist_key b h.cache
        → IsApart St persist_key b (serve_passed St deps at in_flight h cfg run).0.cache
    unfolding serve_passed
    serve_passed-IsApart h cfg run apart =
        let path = run.ctx.rewritten_path in
        let key =
          build deps.short_hash deps.key_builder cfg.domain path run.request cfg.key_rules in
        let other =
          build-ne-persist_key deps.short_hash deps.key_builder cfg.domain path run.request
            cfg.key_rules in
        get_or_fetch-IsApart St deps.formats key (calm h.net) (origin_fetch St deps at cfg run key)
          (origin_fetch-key St deps at cfg key run (calm h.net)) at.first at.second in_flight
          (apply_flush St deps h.cache h.flush cfg.domain path key) laws persist_key b other
          (apply_flush-IsApart h.cache h.flush cfg.domain path key other apart)

    -- From a valid cache with no entry of the flush rules' key, over a storage that keeps its laws:
    -- whatever the domain, the path, the query and the headers of a request are, and whichever
    -- entries it drops, stores or evicts, what is read of the stored flush rules after it is what
    -- was read before, and the cache is valid and still has no entry of their key.
    pub serve_http-IsApart :
        (h : Handler St.State F P W) (w : Writer) (r : Request)
        → IsApart St persist_key b h.cache
        → IsApart St persist_key b (serve_http St deps at in_flight h w r).0.cache
    serve_http-IsApart h w r apart = elim (serve_cases St deps at in_flight h w r) [
      | inl e ↦ rw e apart
      | inr (inl (p, e)) ↦ rw e apart
      | inr (inr (p, cfg, run, e)) ↦
          rw e (serve_passed-IsApart (record h { plugins = p }) cfg run apart)
    ]
