-- ===== src/Lib.antt =====
-- A model of the CDN cache service: a reverse proxy that keeps the responses of the origins of its
-- virtual hosts in a storage, under keys built from the requests, and that drops them by age, by
-- use and by flush rules.
--
-- A request passes the plugins of its domain (internal/pipeline), which may rewrite its path,
-- change its headers or refuse it; its key is built (internal/cache/key.go); the flush rules are
-- consulted (internal/flush); the answer comes from the cache (internal/cache) or, on a miss, from
-- the origins (internal/origin), and is stored with its lifetime.
--
-- Where each part stands:
--   Prelude       the library names that are passed on; integers with Go's 64-bit wrap-around,
--                 byte strings with the functions of Go's strings and strconv that the program
--                 calls, and association lists for maps
--   Errors        error values and results
--   Http          header maps, requests and response writers of net/http
--   Storage       internal/storage: the interface Storage and the laws its clients rely on; in
--                 Storage.LocalFs the backend of internal/storage/localfs.go, NewLocalFS excepted,
--                 over the files of one directory and the calls of package os in Storage.Os
--   Config        internal/config/config.go: the structures and Config.Defaults; in Config.Loader
--                 Load and Watch of internal/config/loader.go
--   Cache.Lru     internal/cache/cache.go: LRUCache with Get, Set, Delete, Stat and Len; in
--                 Cache.Lru.Threads the calls of several goroutines, step by step
--   Cache.Ttl     internal/cache/cache.go: ParseTTL
--   Cache.Key     internal/cache/key.go: KeyBuilder.Build
--   Cache.Singleflight  internal/cache/singleflight.go: GetOrFetch; in Cache.Singleflight.Callers the
--                 calls of several goroutines, step by step
--   Flush         internal/flush/store.go: Load, AddRule, Match, Cleanup
--   Pipeline      internal/pipeline/pipeline.go, with the plugins header, rewrite and ratelimit in
--                 the modules HeaderPlugin, RewritePlugin and RateLimit
--   Observe       internal/observe/logger.go: WithLogger and FromContext, with PipelineCtxFrom and the
--                 context that Execute of internal/pipeline/pipeline.go stores
--   Origin        internal/origin/puller.go: Pull and the requests it makes
--   Domain        internal/domain/router.go: NewHandler, ServeHTTP, Update and the closure of originFetch
--   Admin         internal/admin/handler.go: FlushURL, FlushPrefix, FlushDomain and Stat, on the state
--                 that the handler of Domain has
--   Server        internal/server/middleware.go: responseWriter and RequestLogger, over the calls that a
--                 handler makes of its response writer; in Server.Routes the admin server of
--                 internal/server/server.go with Register of internal/admin/handler.go; in
--                 Server.Lifecycle Start and Shutdown, and the end of main
--   Main          cmd/server/main.go: the start, the events that the running service reacts to, the
--                 callback of the watcher, NewLocalFS, the registered plugins, and Recovery of
--                 internal/server/middleware.go
--   Tests         concrete parameters, and a run of each theorem at them
--
-- State is passed explicitly, and a critical section is one step. Instants and durations are
-- integers of nanoseconds; each call of time.Now is an argument of the operation that makes it.
-- Strings are lists of bytes. A reader is what reading it to the end gives.
--
-- The container/list of the cache is a list of element numbers with a heap of their values, so an
-- update of an element is seen through the map and through the list. The loop of the eviction runs
-- on the length of that list as its fuel: each round that goes on removes an element. The loop
-- over the origins counts its rounds down from retry + 1.
--
-- The calls of package os may fail: the directory carries a list that says of each call that
-- creates or changes a file whether it fails and what it leaves, and functions say it of opening
-- and removing. A file of the directory is its bytes and its time.
--
-- Parameters stand for the code that is not in the repository: package os, as far as its calls may
-- fail, SHA-256, YAML, fsnotify, encoding/json, the hash of the keys, http.ParseTime, regexp,
-- floating-point numbers, golang.org/x/time/rate, golang.org/x/sync/singleflight (in
-- Cache.Singleflight.Callers a group with its laws, elsewhere per call whether one of the same key
-- is in flight), the router of chi, the contexts of package context, and the HTTP client and
-- servers. The cache, the flush rules and the handler take any storage. Where a statement needs a
-- property of one of them, it is a hypothesis.
--
-- Not modelled: the metrics of internal/observe/metrics.go and the log lines other than those of
-- RequestLogger, Start and Shutdown; the business server's router, which leads every path to one
-- handler; requests with a method that chi does not know; and the storage that the tests of the
-- repository use (integration/mock). The steps of several goroutines interleave in
-- Cache.Lru.Threads, between the critical sections of the cache, and in
-- Cache.Singleflight.Callers, between its calls; elsewhere one operation runs to its end before
-- the next.
pub mod Prelude
pub mod Errors
pub mod Config
pub mod Http
pub mod Storage
pub mod Cache
pub mod Flush
pub mod Pipeline
pub mod Observe
pub mod Origin
pub mod Domain
pub mod Admin
pub mod Server
pub mod Main
pub mod Tests
