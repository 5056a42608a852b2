-- ===== src/Domain.antt =====
-- internal/domain/router.go: the handler of all requests. Its dependencies are the parameters of
-- the section below; the clock's instants during a request are the record `Instants`. The cache and
-- the flush rules share one storage, so the flush store follows the cache's. Logging and metrics
-- are not modelled.
pub mod Invariant
pub mod Flushed
pub mod Apart
use file_server.Prelude.{
  ℕ, Str, str, ◌++◌, Map, find, put, str_eq, length, ℤ, pos, after, List, [], ◌∷◌, Bool, true,
  false, ◌==◌, if◌then◌else◌, Option, none, some,
}
use file_server.Errors.{leaf, wrap, Result, ok, err}
use file_server.Http.{
  Header, Request, Response, Writer, http_error, header_set, write_header, write_body,
}
use file_server.Config.{DomainConfig}
use file_server.Storage.{Storage, Reader}
use file_server.Cache.Lru.{LruCache, Meta, Formats}
use file_server.Cache.Key.{KeyBuilder, build}
use file_server.Cache.Ttl.{parse_ttl}
use file_server.Cache.Singleflight.{SfResult, Fetch, get_or_fetch}
use file_server.Cache.Singleflight
use file_server.Flush.{Store}
use file_server.Flush
use file_server.Pipeline.{Run, Plugin, execute, apply_response_mutations, set_all}
use file_server.Origin.{Client, Outcome, replied, panicked, pull}

-- The loop of `stripPort`: what stands before the last colon, if there is one.
unfoldable pub before_colon : Str → Option Str
before_colon [] = none
before_colon (c ∷ s) = elim (before_colon s) [
  | some t ↦ some (c ∷ t)
  | none ↦ if c == b':' then some [] else none
]

-- `stripPort`
unfoldable pub strip_port : Str → Str
unfolding before_colon
strip_port host = elim (before_colon host) [ none ↦ host | some t ↦ t ]

-- The loop of `Update`.
unfoldable pub update_domains :
    {F : Type 0} → Map (DomainConfig F) → List (DomainConfig F) → Map (DomainConfig F)
update_domains m [] = m
update_domains m (d ∷ ds) = update_domains (put d.domain d m) ds

-- What a pull changes: the puller's counter and the network. `crashed` says that the pull
-- of the current request panicked.
pub record Net (W : Type 0) : Type 0 where
  pub counter : ℕ
  pub network : W
  pub crashed : Bool

-- At the start of a request nothing has panicked.
abbrev pub calm : {W : Type 0} → Net W → Net W
calm net = record net { crashed = false }

-- `Handler`, with the state of what it is given.
pub record Handler (S F P W : Type 0) : Type 0 where
  pub domains : Map (DomainConfig F)
  pub cache : LruCache S
  pub flush : Store S
  pub plugins : P
  pub net : Net W

-- The instants at which one request reads the clock: in the first `Get`, in the second, in
-- `ParseTTL`, and for `WrittenAt`.
pub record Instants : Type 0 where
  pub first : ℤ
  pub second : ℤ
  pub parsed : ℤ
  pub written : ℤ

-- How a request ends: with a response, or with a panic.
pub data Served : Type 0 where
  response : Writer → Served
  crash : Served

abbrev pub is_ok : {A : Type 0} → Result A → Bool
is_ok (ok a) = true
is_ok (err e) = false

-- `path`, with the query
unfoldable pub origin_path : Str → Str → Str
origin_path path raw_query =
    if str_eq raw_query (str "") then path else path ++ str "?" ++ raw_query

-- The headers of the cached response.
abbrev pub set_cached : Option Header → Header → Header
set_cached none h = h
set_cached (some cached) h = set_all cached h

-- `io.Copy` of the body; of a body that cannot be read to its end nothing is written here.
abbrev pub copy_body : Writer → Reader → Writer
copy_body w (ok body) = write_body w body
copy_body w (err e) = w

-- Step 5 of `ServeHTTP`.
unfoldable pub answer : {P : Type 0} → Bool → Run P → Reader → Meta → Writer
unfolding apply_response_mutations set_all header_set write_header write_body
answer hit run rc meta =
    let w = apply_response_mutations run.writer run.ctx in
    let h = set_cached meta.headers w.header in
    let h = header_set h (str "X-Cache") (if hit then str "hit" else str "miss") in
    copy_body (write_header (record w { header = h }) 200) rc

module _ {F P W : Type 0} {S : Type 0} where
  -- `NewHandler`, over what the handler shares and keeps
  abbrev pub new_handler : LruCache S → Store S → P → W → Handler S F P W
  new_handler cache flush plugins network = record {
    domains = [];
    cache = cache;
    flush = flush;
    plugins = plugins;
    net = record { counter = 0; network = network; crashed = false };
  }

  -- `Update`
  unfoldable pub update : Handler S F P W → List (DomainConfig F) → Handler S F P W
  unfolding update_domains
  update h ds = record h { domains = update_domains [] ds }

-- What `NewHandler` is given and no request changes.
pub record Deps (F P W : Type 0) : Type 0 where
  pub formats : Formats
  pub short_hash : Str → Str
  pub key_builder : KeyBuilder
  pub registry : Map (Plugin F P)
  pub client : Client W
  pub show : ℕ → Str
  pub parse_time : Str → Option ℤ

module _ (St : Storage) {F P W : Type 0} (deps : Deps F P W) where
  -- The end of the closure of `originFetch`, after a pull.
  unfoldable pub fetched : Instants → DomainConfig F → Str → Response → Result (Reader × Meta)
  fetched at cfg key resp = elim resp.body [
    | err e ↦ err (wrap (str "read origin body: ") e)
    | ok body ↦ ok (
      ok body,
      record {
        key = key;
        written_at = at.written;
        ttl = parse_ttl deps.parse_time at.parsed resp cfg.default_ttl;
        size = pos (length body);
        headers = some resp.header;
      },
    )
  ]

  -- What the closure makes of the outcome of the pull.
  unfoldable pub after_pull :
      Instants → DomainConfig F → Str → ℕ → W → Outcome → Net W × Result (Reader × Meta)
  unfolding fetched
  after_pull at cfg key counter w panicked =
      (record { counter = counter; network = w; crashed = true }, err (leaf (str "panic")))
  after_pull at cfg key counter w (replied (err e)) = (
    record { counter = counter; network = w; crashed = false },
    err (wrap (str "origin pull: ") e),
  )
  after_pull at cfg key counter w (replied (ok resp)) =
      (record { counter = counter; network = w; crashed = false }, fetched at cfg key resp)

  -- `originFetch`
  unfoldable pub origin_fetch : Instants → DomainConfig F → Run P → Str → Fetch (Net W)
  unfolding after_pull origin_path
  origin_fetch at cfg run key net =
      let (counter, (w, outcome)) =
        pull deps.client deps.show net.counter net.network cfg.origins cfg.origin_timeout
          cfg.origin_retry (origin_path run.ctx.rewritten_path run.request.raw_query)
          run.request.header in
      after_pull at cfg key counter w outcome

  -- Step 3 of `ServeHTTP`: a flush rule that is later than the entry drops it.
  unfoldable pub apply_flush :
      LruCache St.State → Store St.State → Str → Str → Str → LruCache St.State
  apply_flush c flush domain path key = elim (Singleflight.stat St c key) [
    | err e ↦ c
    | ok meta ↦ elim (Flush.match flush domain path) [
      | none ↦ c
      | some rule ↦
          if after rule.created_at meta.written_at then (Singleflight.delete St c key).0 else c
    ]
  ]

  -- The handler after the cache and the network have changed.
  abbrev pub settle : Handler St.State F P W → LruCache St.State → Net W → Handler St.State F P W
  settle h c net = record h {
    cache = c;
    flush = record (h.flush) { storage = c.storage };
    net = net;
  }

  -- The response to the outcome of `GetOrFetch`.
  abbrev pub respond : Bool → Run P → Bool → Result (Reader × Meta) → Served
  respond hit run true reply = crash
  respond hit run false (err e) = response (http_error run.writer (str "Bad Gateway") 502)
  respond hit run false (ok (rc, meta)) = response (answer hit run rc meta)

  -- Steps 2 to 5 of `ServeHTTP`, for a request that passed the plugins.
  unfoldable pub serve_passed :
      Instants
      → Option (Result SfResult)
      → Handler St.State F P W
      → DomainConfig F
      → Run P
      → Handler St.State F P W × Served
  unfolding apply_flush
  serve_passed at in_flight h cfg run =
      let path = run.ctx.rewritten_path in
      let key = build deps.short_hash deps.key_builder cfg.domain path run.request cfg.key_rules in
      let c = apply_flush h.cache h.flush cfg.domain path key in
      let hit = is_ok (Singleflight.stat St c key) in
      let ((c', net), reply) =
        get_or_fetch St deps.formats at.first at.second in_flight c (calm h.net) key
          (origin_fetch at cfg run key) in
      (settle h c' net, respond hit run net.crashed reply)

  -- `ServeHTTP`; `in_flight` is the call of the same key that a miss would wait for.
  unfoldable pub serve_http :
      Instants
      → Option (Result SfResult)
      → Handler St.State F P W
      → Writer
      → Request
      → Handler St.State F P W × Served
  unfolding serve_passed
  serve_http at in_flight h w r = elim (find (strip_port r.host) h.domains) [
    | none ↦ (h, response (http_error w (str "404 page not found") 404))
    | some cfg ↦
        let (run, passed) = execute deps.registry cfg.plugins cfg.domain w r h.plugins in
        let h' = record h { plugins = run.state } in
        elim passed [
          | false ↦ (h', response run.writer)
          | true ↦ serve_passed at in_flight h' cfg run
        ]
  ]
