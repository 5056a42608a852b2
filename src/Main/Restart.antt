-- ===== src/Main/Restart.antt =====
-- cmd/server/main.go, with internal/admin, internal/flush and internal/storage: the flush rules after
-- a restart of the service from its directory.
use file_server.Prelude.{
  ◌++◌, Str, str, str_eq, ◌||◌, ℤ, false, find, subst, List, [], Option, none, some, some-injective,
  ◌≡◌, refl, sym, ap, ◌∙◌, arith,
}
use file_server.Errors.{Result, ok, text, Failure}
use file_server.Http.{Request, Writer, fresh_writer, write_header, write_body, http_error}
use file_server.Storage.Os.{Directory, Host}
use file_server.Storage.LocalFs.{local_fs}
use file_server.Storage.LocalFs.Names.{IsReliable}
use file_server.Storage.LocalFs.Laws.{local_fs-laws}
use file_server.Config.{Config}
use file_server.Flush.{Codec, match, add_rule}
use file_server.Flush
use file_server.Flush.Persistence.{CodecLaws}
use file_server.Flush.Restoring.{Restores, Restores-match, load-Restores, add_rule-Restores}
use file_server.Cache.Lru
use file_server.Domain.{Handler, Deps, update}
use file_server.Admin.{add_flush, flush_prefix}
use file_server.Admin.Effects.{prefix_accepted}
use file_server.Main.{Launch, exited, running, Event, assemble, launch_from, launch, run}
use file_server.Main.Launching.{loaded_rules, launch_cases, launched-IsHealthy}
use file_server.Main.Health.{IsHealthy}
use file_server.Main.Persisted.{IsStored, ArePersisted, run-IsStored}

module _ (host : Host) (codec : Codec) {F P W : Type 0} (h : Handler Directory F P W) where
  -- The service that starts again from a directory that restores the rules.
  restart :
      (cfg : Config F) (plugins : P) (network : W) (d path : Str)
      → Restores (local_fs host) codec h.cache.storage h.flush.rules
      → (s : Handler Directory F P W) × (launch_from host codec cfg
            (ok h.cache.storage)
            plugins
            network
          ≡ running cfg s)
        × (match s.flush d path ≡ match h.flush d path)
  unfolding assemble update
  restart cfg plugins network d path r =
      let loaded = Flush.load (local_fs host) codec (Flush.new h.cache.storage) in
      (
        assemble cfg loaded.0 h.cache.storage plugins network,
        loaded_rules host codec plugins network cfg h.cache.storage r.fine,
        Restores-match (local_fs host) codec h.cache.storage h.flush d path r,
      )

-- The answer to a flush says whether its rule could be stored.
stored_of_status :
    (failure : Failure)
    → (elim failure as (λ x. Writer) [
      | none ↦ write_header fresh_writer 204
      | some e ↦ http_error fresh_writer (str "failed to add flush rule: " ++ text e) 500
    ]).status
      ≡ some 204
    → failure ≡ none
unfolding http_error write_header write_body
stored_of_status none e = refl
stored_of_status (some x) e = absurd (omega (arith, some-injective 500 204 e))

module _ (host : Host) (codec : Codec) {F P W : Type 0} (id_at now : ℤ)
    (h : Handler Directory F P W) (domain prefix : Str) where
  -- The status 204 says that the rule could be stored.
  add_flush-stored :
      (add_flush (local_fs host) codec id_at now h domain prefix fresh_writer).1.status ≡ some 204
      → (add_rule (local_fs host) codec id_at now h.flush domain prefix).1 ≡ none
  unfolding add_flush
  add_flush-stored accepted = stored_of_status _ accepted

  add_flush-Restores :
      IsReliable host
      → CodecLaws codec
      → IsHealthy h
      → (add_flush (local_fs host) codec id_at now h domain prefix fresh_writer).1.status ≡ some 204
      → let h' = (add_flush (local_fs host) codec id_at now h domain prefix fresh_writer).0 in
        Restores (local_fs host) codec h'.cache.storage h'.flush.rules
  unfolding add_flush
  add_flush-Restores reliable laws healthy accepted =
      add_rule-Restores (local_fs host) codec (local_fs-laws host reliable) laws h.flush
        healthy.grouped id_at now domain prefix (add_flush-stored accepted)

  -- After `FlushPrefix` has answered a prefix with 204, a service that starts again from the
  -- directory, on a reliable host and with rules that JSON round-trips, gets to running, and its
  -- flush rules match every path of every domain as those of the running service do.
  pub restart-match :
      (decode : Str → Option (Str × Str)) (body : Str) (cfg : Config F) (plugins : P) (network : W)
      (d path : Str)
      → IsReliable host
      → CodecLaws codec
      → IsHealthy h
      → decode body ≡ some (domain, prefix)
      → str_eq domain (str "") || str_eq prefix (str "") ≡ false
      → (flush_prefix (local_fs host) decode codec id_at now h fresh_writer body).1.status
        ≡ some 204
      → let h' = (flush_prefix (local_fs host) decode codec id_at now h fresh_writer body).0 in
        (s : Handler Directory F P W) × (launch_from host codec cfg
            (ok h'.cache.storage)
            plugins
            network
          ≡ running cfg s)
        × (match s.flush d path ≡ match h'.flush d path)
  restart-match decode body cfg plugins network d path reliable laws healthy given full accepted =
      let same =
        prefix_accepted (local_fs host) codec id_at now h fresh_writer decode body domain prefix
          given full in
      rw same (
        restart host codec
          (add_flush (local_fs host) codec id_at now h domain prefix fresh_writer).0 cfg plugins
          network d path
          (add_flush-Restores reliable laws healthy (ap (λ r. r.1.status) (sym same) ∙ accepted)))

module _ (host : Host) (codec : Codec) {F P W : Type 0} (plugins : P) (network : W)
    (unmarshal : Str → Result (Config F)) (quote : Str → Str) (path : Str) (file : Result Str)
    (mkdir : Failure) (d : Directory) where
  -- A service that has just started has the rules of its directory.
  launched-IsStored :
      (cfg : Config F) (h : Handler Directory F P W)
      → launch host codec unmarshal quote path file mkdir d plugins network ≡ running cfg h
      → IsStored (local_fs host) codec h
  launched-IsStored cfg h e = subst HasRules e (
      launch_cases host codec plugins network unmarshal quote path file mkdir d HasRules tt
        (λ cfg' d' loaded done.
          unfold assemble update Lru.new find in
          record { free = refl; restores = load-Restores (local_fs host) codec d' done }))
    where
      HasRules : Launch F P W → Type 0
      HasRules (exited code) = Unit
      HasRules (running cfg' h') = IsStored (local_fs host) codec h'

  -- Where `main` has got to running, on a reliable host and with rules that JSON round-trips: after
  -- every sequence of requests, posts to the management API and events of the watcher in which no
  -- post of a rule is answered with 500 and no reload of the configuration fails to store the rules
  -- that are left, a service that starts again from the directory, with any configuration, gets to
  -- running, and its flush rules match every path of every domain as those of the running service
  -- do.
  pub restart-run :
      (deps : ℤ → ℤ → Deps F P W) (decode_prefix : Str → Option (Str × Str))
      (decode : Str → Option Str) (parse : Str → Option (Str × Request)) (cfg cfg' : Config F)
      (h : Handler Directory F P W) (es : List Event) (plugins' : P) (network' : W)
      (domain url_path : Str)
      → IsReliable host
      → CodecLaws codec
      → launch host codec unmarshal quote path file mkdir d plugins network ≡ running cfg h
      → ArePersisted
          (local_fs host)
          codec
          deps
          cfg
          decode_prefix
          decode
          parse
          unmarshal
          quote
          path
          h
          es
      → let h' =
          run (local_fs host) codec deps cfg decode_prefix decode parse unmarshal quote path h es in
        (s : Handler Directory F P W) × (launch_from host codec cfg'
            (ok h'.cache.storage)
            plugins'
            network'
          ≡ running cfg' s)
        × (match s.flush domain url_path ≡ match h'.flush domain url_path)
  restart-run deps decode_prefix decode parse cfg cfg' h es plugins' network' domain url_path
        reliable laws started persisted =
      let healthy =
        (launched-IsHealthy host codec plugins network unmarshal quote path file mkdir d deps
          decode_prefix decode parse cfg h [] started).1 in
      let stored =
        run-IsStored (local_fs host) codec deps cfg decode_prefix decode parse unmarshal quote path
          (local_fs-laws host reliable) laws es h (unfold run in healthy)
          (launched-IsStored cfg h started) persisted in
      restart host codec
        (run (local_fs host) codec deps cfg decode_prefix decode parse unmarshal quote path h es)
        cfg' plugins' network' domain url_path stored.restores
