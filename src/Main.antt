-- ===== src/Main.antt =====
-- cmd/server/main.go, with the middleware of internal/server: starting the service, and what happens
-- while it runs: the service is a sequence of events. The servers, the routes of the admin server,
-- `RequestLogger` and the shutdown by a signal stand in Server. An exit has the code 1. That a
-- closed channel ends the watcher is left out: any events may follow one another.
pub mod Loading
pub mod Health
pub mod Launching
pub mod Persisted
pub mod Restart
pub mod Answers
use file_server.Prelude.{
  ℕ, Str, str, str_eq, ℤ, pos, Map, List, [], ◌++◌, ◌∷◌, Bool, true, false, ◌||◌, if◌then◌else◌,
  Option, none, some,
}
use file_server.Errors.{Error, wrap, Result, ok, err, Failure}
use file_server.Http.{Request, Writer, http_error, fresh_writer}
use file_server.Storage.{Storage}
use file_server.Storage.Os.{Directory, Host}
use file_server.Storage.LocalFs.{local_fs}
use file_server.Config.{Config, KeyRulesConfig}
use file_server.Config.Loader.{load}
use file_server.Config.Loader
use file_server.Cache.Lru
use file_server.Cache.Singleflight.{SfResult}
use file_server.Cache.Key.{KeyBuilder}
use file_server.Flush.{Store, Codec}
use file_server.Flush
use file_server.Pipeline.{Plugin}
use file_server.Pipeline.HeaderPlugin.{register_header}
use file_server.Pipeline.RewritePlugin.{Regexp, register_rewrite}
use file_server.Pipeline.RateLimit.{Float, TokenBucket, DomainState, register_rate_limit}
use file_server.Domain.{
  Handler, new_handler, Net, Instants, Deps, Served, response, crash, serve_http, update,
}
use file_server.Admin.{with_flush, flush_prefix, flush_domain, flush_url}

-- `Recovery`: a panic is answered with the status 500.
unfoldable pub recovery : Writer → Served → Writer
unfolding http_error
recovery w (response w') = w'
recovery w crash = http_error w (str "Internal Server Error") 500

-- The registry, once the packages that internal/domain imports for this have registered their
-- plugins, at the instants of one request.
module _ (fl : Float) (tb : TokenBucket fl.F) (split_host_port : Str → Option Str) (re : Regexp)
    (seen now : ℤ) where
  unfoldable pub registry : Map (Plugin fl.F (Map (DomainState fl tb split_host_port)))
  unfolding register_header register_rate_limit register_rewrite
  registry =
      register_rewrite re (register_rate_limit fl tb split_host_port seen now (register_header []))

-- `NewLocalFS` of a directory's name, by the outcome of `os.MkdirAll`; `quote` is `%q`.
unfoldable pub new_local_fs : (Str → Str) → Str → Failure → Directory → Result Directory
new_local_fs quote dir none d = ok d
new_local_fs quote dir (some e) d =
    err (wrap (str "storage: create root dir " ++ quote dir ++ str ": ") e)

-- How `main` begins.
pub data Launch (F P W : Type 0) : Type 0 where
  exited : ℕ → Launch F P W
  running : Config F → Handler Directory F P W → Launch F P W

-- The state of the service over a storage that has been opened, and its flush rules loaded.
unfoldable pub assemble : {S F P W : Type 0} → Config F → Store S → S → P → W → Handler S F P W
unfolding update
assemble cfg flush s plugins network =
    update (new_handler (Lru.new cfg.cache.max_items s) flush plugins network) cfg.domains

module _ (host : Host) (codec : Codec) {F P W : Type 0} where
  -- From the opening of the storage on; `plugins` is the plugins' state at the start.
  unfoldable pub launch_from : Config F → Result Directory → P → W → Launch F P W
  unfolding assemble
  launch_from cfg (err e) plugins network = exited 1
  launch_from cfg (ok d) plugins network =
      let (flush, failure) = Flush.load (local_fs host) codec (Flush.new d) in
      elim failure [ some e ↦ exited 1 | none ↦ running cfg (assemble cfg flush d plugins network) ]

  -- `main`, up to the start of the servers
  unfoldable pub launch :
      (Str → Result (Config F))
      → (Str → Str)
      → Str
      → Result Str
      → Failure
      → Directory
      → P
      → W
      → Launch F P W
  unfolding load new_local_fs launch_from
  launch unmarshal quote path file mkdir d plugins network = elim (load unmarshal quote path file) [
    | err e ↦ exited 1
    | ok cfg ↦
        if str_eq cfg.storage.type (str "localfs") || str_eq cfg.storage.type (str "")
        then launch_from cfg (new_local_fs quote cfg.storage.root_dir mkdir d) plugins network
        else exited 1
  ]

-- What the service reacts to: a request, with the instants at which it reads the clock and the call
-- of the same key in flight, if there is one; the posts of the management API, with the instants
-- and the body; and an event of the watcher, with what reading the file gives.
pub data Event : Type 0 where
  request : Instants → ℤ → ℤ → Option (Result SfResult) → Request → Event
  prefix_posted : ℤ → ℤ → Str → Event
  domain_posted : ℤ → ℤ → Str → Event
  url_posted : Str → Event
  file_event : ℤ → Loader.Event → Result Str → Event

module _ (St : Storage) (codec : Codec) {F P W : Type 0} where
  -- The callback of the watcher. The admin handler and the key builder keep the first configuration.
  unfoldable pub reloaded : ℤ → Config F → Handler St.State F P W → Handler St.State F P W
  unfolding update
  reloaded now cfg h =
      let h' = update h cfg.domains in
      with_flush h' (Flush.cleanup St codec now h'.flush cfg.cache.flush_rule_max_age).0

module _ (St : Storage) {F P W : Type 0} (deps : ℤ → ℤ → Deps F P W) where
  -- A request to the business server, through `Recovery`; `RequestID` and `RequestLogger` are left
  -- out.
  unfoldable pub serve :
      Instants
      → ℤ
      → ℤ
      → Option (Result SfResult)
      → Request
      → Handler St.State F P W
      → Handler St.State F P W × Writer
  unfolding recovery serve_http
  serve at seen now in_flight r h =
      let (h', served) = serve_http St (deps seen now) at in_flight h fresh_writer r in
      (h', recovery fresh_writer served)

module _ (St : Storage) (codec : Codec) {F P W : Type 0} (deps : ℤ → ℤ → Deps F P W)
    (global : Config F) (decode_prefix : Str → Option (Str × Str)) (decode : Str → Option Str)
    (parse : Str → Option (Str × Request)) (unmarshal : Str → Result (Config F)) (quote : Str → Str)
    (path : Str) where
  -- The state after one event.
  unfoldable pub step : Handler St.State F P W → Event → Handler St.State F P W
  unfolding serve flush_prefix flush_domain flush_url Loader.watch_loop reloaded
  step h (request at seen now in_flight r) = (serve St deps at seen now in_flight r h).0
  step h (prefix_posted id_at now body) =
      (flush_prefix St decode_prefix codec id_at now h fresh_writer body).0
  step h (domain_posted id_at now body) =
      (flush_domain St decode codec id_at now h fresh_writer body).0
  step h (url_posted body) =
      (flush_url St (deps (pos 0) (pos 0)).short_hash (deps (pos 0) (pos 0)).key_builder global
        parse decode h fresh_writer body).0
  step h (file_event now event file) =
      (Loader.watch_loop unmarshal quote (reloaded St codec now) path ((event, file) ∷ []) h).0

  unfoldable pub run : Handler St.State F P W → List Event → Handler St.State F P W
  unfolding step
  run h [] = h
  run h (e ∷ es) = run (step h e) es
