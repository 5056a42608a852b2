-- ===== src/Main/Persisted.antt =====
-- cmd/server/main.go, with internal/admin, internal/domain, internal/flush and internal/cache: the
-- flush rules in memory and in the storage, event by event.
use file_server.Prelude.{
  Str, str, find, ◌++◌, ℤ, pos, List, [], ◌∷◌, Option, none, some, true, ◌≡◌, ◌≢◌, refl, sym, subst,
}
use file_server.Errors.{Result, ok, text, Failure}
use file_server.Storage.{Storage, StorageLaws}
use file_server.Http.{Request, Writer, fresh_writer, write_header, write_body, http_error}
use file_server.Config.{Config}
use file_server.Config.Loader.{load}
use file_server.Cache.Lru.Invariant.{contents}
use file_server.Cache.Lru.Frame.{IsApart, delete-IsApart}
use file_server.Cache.Singleflight
use file_server.Flush.{Codec, persist_key, add_rule}
use file_server.Flush
use file_server.Flush.Persistence.{CodecLaws}
use file_server.Flush.Restoring.{Restores, Restores-of_read, add_rule-Restores, cleanup-Restores}
use file_server.Domain.{Handler, Deps, serve_http}
use file_server.Domain.Invariant.{serve_http-IsSound}
use file_server.Domain.Apart.{build-ne-persist_key, serve_http-IsApart}
use file_server.Admin.{add_flush, flush_prefix, flush_domain, url_key, domain_key_rules}
use file_server.Admin.Effects.{flush_prefix_cases, flush_domain_cases}
use file_server.Admin.Urls.{flush_url_cases}
use file_server.Main.{
  Event, request, prefix_posted, domain_posted, url_posted, file_event, reloaded, serve, step, run,
}
use file_server.Main.Health.{IsHealthy, step-IsHealthy, watch_one_cases, is_reload}

module _ (St : Storage) (codec : Codec) {F P W : Type 0} where
  -- No entry of the cache is under the rules' key, and the storage has the rules in memory.
  pub record IsStored (h : Handler St.State F P W) : Type 0 where
    pub free : find persist_key (contents h.cache) ≡ none
    pub restores : Restores St codec h.cache.storage h.flush.rules

module _ (St : Storage) (codec : Codec) {F P W : Type 0} (deps : ℤ → ℤ → Deps F P W)
    (global : Config F) (decode_prefix : Str → Option (Str × Str)) (decode : Str → Option Str)
    (parse : Str → Option (Str × Request)) (unmarshal : Str → Result (Config F)) (quote : Str → Str)
    (path : Str) where
  -- The event is no post of a rule that is answered with 500, and no reload of a configuration at
  -- which `Cleanup` returns an error.
  abbrev pub IsPersisted : Handler St.State F P W → Event → Type 0
  IsPersisted h (request at seen now in_flight r) = Unit
  IsPersisted h (prefix_posted id_at now body) =
      (flush_prefix St decode_prefix codec id_at now h fresh_writer body).1.status ≢ some 500
  IsPersisted h (domain_posted id_at now body) =
      (flush_domain St decode codec id_at now h fresh_writer body).1.status ≢ some 500
  IsPersisted h (url_posted body) = Unit
  IsPersisted h (file_event now event file) =
      (cfg : Config F)
      → is_reload event ≡ true
      → load unmarshal quote path file ≡ ok cfg
      → (Flush.cleanup St codec now h.flush cfg.cache.flush_rule_max_age).1 ≡ none

  -- Each event of a run from `h` is such.
  abbrev pub ArePersisted : Handler St.State F P W → List Event → Type 0
  ArePersisted h [] = Unit
  ArePersisted h (e ∷ es) =
      IsPersisted h e
      × ArePersisted (step St codec deps global decode_prefix decode parse unmarshal quote path h e)
          es

  module _ (laws : StorageLaws St) (codec_laws : CodecLaws codec) where
    module _ (h : Handler St.State F P W) (healthy : IsHealthy h)
        (stored : IsStored St codec h) where
      apart : IsApart St persist_key (St.read h.cache.storage persist_key) h.cache
      apart = record { valid = healthy.sound.valid; absent = stored.free; same = refl }

      -- A rule whose post is not answered with 500 is stored.
      not_500 :
          (failure : Failure)
          → (elim failure as (λ x. Writer) [
            | none ↦ write_header fresh_writer 204
            | some e ↦ http_error fresh_writer (str "failed to add flush rule: " ++ text e) 500
          ]).status
            ≢ some 500
          → failure ≡ none
      unfolding http_error write_header write_body
      not_500 none n = refl
      not_500 (some e) n = absurd (n refl)

      add_flush-IsStored :
          (id_at now : ℤ) (domain prefix : Str)
          → (add_flush St codec id_at now h domain prefix fresh_writer).1.status ≢ some 500
          → IsStored St codec (add_flush St codec id_at now h domain prefix fresh_writer).0
      unfolding add_flush
      add_flush-IsStored id_at now domain prefix n = record {
        free = stored.free;
        restores =
            add_rule-Restores St codec laws codec_laws h.flush healthy.grouped id_at now domain
              prefix (not_500 _ n);
      }

      request-IsStored :
          (h' : Handler St.State F P W)
          → IsApart St persist_key (St.read h.cache.storage persist_key) h'.cache
          → h'.flush.rules ≡ h.flush.rules
          → IsStored St codec h'
      request-IsStored h' a e = record {
        free = a.absent;
        restores = subst (Restores St codec h'.cache.storage) (sym e) (
            Restores-of_read St codec h.cache.storage h'.cache.storage h.flush.rules a.same
              stored.restores);
      }

      step-IsStored :
          (e : Event)
          → IsPersisted h e
          → IsStored St codec
              (step St codec deps global decode_prefix decode parse unmarshal quote path h e)
      unfolding step serve Singleflight.delete
      step-IsStored (request at seen now in_flight r) p =
          request-IsStored (serve_http St (deps seen now) at in_flight h fresh_writer r).0
            (serve_http-IsApart St laws (St.read h.cache.storage persist_key) (deps seen now) at
              in_flight h fresh_writer r apart)
            (serve_http-IsSound St (deps seen now) at in_flight h fresh_writer r healthy.sound).1
      step-IsStored (prefix_posted id_at now body) p =
          flush_prefix_cases St codec id_at now h fresh_writer decode_prefix body
            (λ r. r.1.status ≢ some 500 → IsStored St codec r.0) (λ w n. stored)
            (add_flush-IsStored id_at now) p
      step-IsStored (domain_posted id_at now body) p =
          flush_domain_cases St codec id_at now h fresh_writer decode body
            (λ r. r.1.status ≢ some 500 → IsStored St codec r.0) (λ w n. stored)
            (add_flush-IsStored id_at now) p
      step-IsStored (url_posted body) p =
          flush_url_cases St (deps (pos 0) (pos 0)).short_hash (deps (pos 0) (pos 0)).key_builder
            global parse decode h fresh_writer body (IsStored St codec) stored
            (λ domain req.
              let key =
                url_key (deps (pos 0) (pos 0)).short_hash (deps (pos 0) (pos 0)).key_builder global
                  domain req in
              request-IsStored _
                (unfold url_key in
                  delete-IsApart St laws persist_key (St.read h.cache.storage persist_key) h.cache
                    key apart
                    (build-ne-persist_key (deps (pos 0) (pos 0)).short_hash
                      (deps (pos 0) (pos 0)).key_builder domain req.path req
                      (domain_key_rules global domain)))
                refl)
      step-IsStored (file_event now event file) p =
          watch_one_cases unmarshal quote (reloaded St codec now) path file (IsStored St codec) h
            stored event
            (λ cfg reads e.
              unfold reloaded in
              record {
                free = stored.free;
                restores =
                    cleanup-Restores St codec laws codec_laws h.flush healthy.grouped now
                      cfg.cache.flush_rule_max_age (p cfg reads e);
              })

    -- Over a run of such events from a service in order, what is stored stays what is in memory.
    pub run-IsStored :
        (es : List Event) (h : Handler St.State F P W)
        → IsHealthy h
        → IsStored St codec h
        → ArePersisted h es
        → IsStored St codec
            (run St codec deps global decode_prefix decode parse unmarshal quote path h es)
    unfolding run
    run-IsStored [] h healthy stored p = stored
    run-IsStored (e ∷ es) h healthy stored p =
        run-IsStored es
          (step St codec deps global decode_prefix decode parse unmarshal quote path h e)
          (step-IsHealthy St codec deps global decode_prefix decode parse unmarshal quote path h e
            healthy)
          (step-IsStored h healthy stored e p.0) p.1
