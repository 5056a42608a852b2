-- ===== src/Main/Health.antt =====
-- cmd/server/main.go: what holds from the start on, after every sequence of events.
use file_server.Prelude.{
  Str, ℤ, pos, List, [], ◌∷◌, Bool, true, false, ◌||◌, Option, ◌≡◌, Bool-cases, inl, inr, refl, sym,
  subst, ◌+ℤ◌, neg_64,
}
use file_server.Errors.{Result, Result-cases, ok}
use file_server.Storage.{Storage}
use file_server.Http.{Request, Writer, fresh_writer}
use file_server.Config.{Config}
use file_server.Config.Defaults.{IsUsable}
use file_server.Config.Loader.{
  load, reload, watch_loop, changed, events_closed, watch_error, errors_closed, hang_up,
}
use file_server.Config.Loader
use file_server.Cache.Lru.Writes.{stored-IsValid}
use file_server.Cache.Key.{KeyBuilder}
use file_server.Flush.{Codec, new_rule, Store, all_rules, cleanup_rules}
use file_server.Flush
use file_server.Flush.Rules.{IsGrouped, append_rule-IsGrouped, rules-add_rule, rules-persist}
use file_server.Flush.Cleanup.{cleanup_rules-IsGrouped}
use file_server.Domain.{Handler, Deps, update}
use file_server.Domain.Invariant.{IsSound, serve_http-IsSound}
use file_server.Admin.{add_flush, flush_prefix, flush_domain, flush_url, url_key}
use file_server.Admin.Effects.{add_flush-IsSound, flush_prefix_cases, flush_domain_cases}
use file_server.Admin.Urls.{deleted-IsSound, flush_url_cases}
use file_server.Main.{
  Event, request, prefix_posted, domain_posted, url_posted, file_event, reloaded, serve, step, run,
}
use file_server.Main.Loading.{AreUsable, load-IsUsable, update_domains-AreUsable, none-AreUsable}

-- The service is in order: the cache's index is valid, the flush rules are stored with the bodies
-- and grouped by their domains, and the configured domains are usable.
pub record IsHealthy {S F P W : Type 0} (h : Handler S F P W) : Type 0 where
  pub sound : IsSound h
  pub grouped : IsGrouped h.flush.rules
  pub usable : AreUsable h.domains

cleanup-IsGrouped :
    (St : Storage) (codec : Codec) (now max_age : ℤ) (st : Store St.State)
    → IsGrouped st.rules
    → IsGrouped (Flush.cleanup St codec now st max_age).0.rules
unfolding Flush.cleanup
cleanup-IsGrouped St codec now max_age st g =
    let rules = cleanup_rules (now +ℤ neg_64 max_age) st.rules in
    rw (rules-persist St codec (record st { rules = rules }) (all_rules rules))
      (cleanup_rules-IsGrouped (now +ℤ neg_64 max_age) st.rules g)

module _ (St : Storage) (codec : Codec) {F P W : Type 0} where
  module _ (id_at now : ℤ) (h : Handler St.State F P W) (w : Writer) (healthy : IsHealthy h) where
    recorded-IsHealthy :
        (domain prefix : Str) → IsHealthy (add_flush St codec id_at now h domain prefix w).0
    recorded-IsHealthy domain prefix = record {
      sound = add_flush-IsSound St codec id_at now h w domain prefix healthy.sound;
      grouped =
          unfold add_flush in
          subst IsGrouped (sym (rules-add_rule St codec id_at now h.flush domain prefix)) (
            append_rule-IsGrouped (new_rule St codec id_at now domain prefix) h.flush.rules
              healthy.grouped);
      usable = unfold add_flush in healthy.usable;
    }

    prefix-IsHealthy :
        (decode : Str → Option (Str × Str)) (body : Str)
        → IsHealthy (flush_prefix St decode codec id_at now h w body).0
    prefix-IsHealthy decode body =
        flush_prefix_cases St codec id_at now h w decode body (λ r. IsHealthy r.0) (λ w'. healthy)
          (λ d p. recorded-IsHealthy d p)

    domain-IsHealthy :
        (decode : Str → Option Str) (body : Str)
        → IsHealthy (flush_domain St decode codec id_at now h w body).0
    domain-IsHealthy decode body =
        flush_domain_cases St codec id_at now h w decode body (λ r. IsHealthy r.0) (λ w'. healthy)
          (λ d p. recorded-IsHealthy d p)

  reloaded-IsHealthy :
      (now : ℤ) (cfg : Config F) (h : Handler St.State F P W)
      → IsUsable cfg
      → IsHealthy h
      → IsHealthy (reloaded St codec now cfg h)
  unfolding reloaded update
  reloaded-IsHealthy now cfg h usable healthy = record {
    sound = record {
      valid =
          stored-IsValid St h.cache healthy.sound.valid
            (Flush.cleanup St codec now h.flush cfg.cache.flush_rule_max_age).0.storage;
      shared = refl;
    };
    grouped = cleanup-IsGrouped St codec now cfg.cache.flush_rule_max_age h.flush healthy.grouped;
    usable = update_domains-AreUsable [] cfg.domains none-AreUsable usable.domains;
  }

url-IsHealthy :
    (St : Storage) {F P W : Type 0} (short_hash : Str → Str) (kb : KeyBuilder) (global : Config F)
    (parse : Str → Option (Str × Request)) (decode : Str → Option Str) (h : Handler St.State F P W)
    (w : Writer) (body : Str)
    → IsHealthy h
    → IsHealthy (flush_url St short_hash kb global parse decode h w body).0
url-IsHealthy St short_hash kb global parse decode h w body healthy =
    flush_url_cases St short_hash kb global parse decode h w body IsHealthy healthy (λ domain req.
      record {
        sound =
            deleted-IsSound St short_hash kb global parse decode h w body
              (url_key short_hash kb global domain req) healthy.sound;
        grouped = healthy.grouped;
        usable = healthy.usable;
      })

-- The events at which the watcher reads the file.
abbrev pub is_reload : Loader.Event → Bool
is_reload (changed written created) = written || created
is_reload hang_up = true
is_reload _ = false

module _ {F H : Type 0} (unmarshal : Str → Result (Config F)) (quote : Str → Str)
    (on_change : Config F → H → H) (path : Str) (file : Result Str) (Q : H → Type 0) (h : H)
    (q : Q h) where
  reload_cases :
      ((cfg : Config F) → load unmarshal quote path file ≡ ok cfg → Q (on_change cfg h))
      → Q (reload unmarshal quote on_change path file h)
  unfolding reload
  reload_cases changes = elim (Result-cases (load unmarshal quote path file)) [
    | inl (cfg, e) ↦ rw (reload, e) (changes cfg e)
    | inr (e, failed) ↦ rw (reload, failed) q
  ]

  -- On one event `Watch` leaves the state alone or hands on the configuration that loads.
  pub watch_one_cases :
      (event : Loader.Event)
      → ((cfg : Config F)
          → is_reload event ≡ true
          → load unmarshal quote path file ≡ ok cfg
          → Q (on_change cfg h))
      → Q (watch_loop unmarshal quote on_change path ((event, file) ∷ []) h).0
  unfolding watch_loop
  watch_one_cases (changed written created) changes = elim (Bool-cases (written || created)) [
    | inl reads ↦ rw reads (reload_cases (λ cfg e. changes cfg reads e))
    | inr idle ↦ rw idle q
  ]
  watch_one_cases events_closed changes = q
  watch_one_cases (watch_error e) changes = q
  watch_one_cases errors_closed changes = q
  watch_one_cases hang_up changes = reload_cases (λ cfg e. changes cfg refl e)

module _ (St : Storage) (codec : Codec) {F P W : Type 0} (deps : ℤ → ℤ → Deps F P W)
    (global : Config F) (decode_prefix : Str → Option (Str × Str)) (decode : Str → Option Str)
    (parse : Str → Option (Str × Request)) (unmarshal : Str → Result (Config F)) (quote : Str → Str)
    (path : Str) where
  pub step-IsHealthy :
      (h : Handler St.State F P W) (e : Event)
      → IsHealthy h
      → IsHealthy (step St codec deps global decode_prefix decode parse unmarshal quote path h e)
  unfolding step serve
  step-IsHealthy h (request at seen now in_flight r) healthy =
      let kept =
        serve_http-IsSound St (deps seen now) at in_flight h fresh_writer r healthy.sound in
      record {
        sound = kept.0;
        grouped = subst IsGrouped (sym kept.1) healthy.grouped;
        usable = subst AreUsable (sym kept.2) healthy.usable;
      }
  step-IsHealthy h (prefix_posted id_at now body) healthy =
      prefix-IsHealthy St codec id_at now h fresh_writer healthy decode_prefix body
  step-IsHealthy h (domain_posted id_at now body) healthy =
      domain-IsHealthy St codec id_at now h fresh_writer healthy decode body
  step-IsHealthy h (url_posted body) healthy =
      url-IsHealthy St (deps (pos 0) (pos 0)).short_hash (deps (pos 0) (pos 0)).key_builder global
        parse decode h fresh_writer body healthy
  step-IsHealthy h (file_event now event file) healthy =
      watch_one_cases unmarshal quote (reloaded St codec now) path file IsHealthy h healthy event
        (λ cfg _ e.
          reloaded-IsHealthy St codec now cfg h (load-IsUsable unmarshal quote path file cfg e)
            healthy)

  -- Whatever the requests, the posts to the management API and the events of the watcher are, and
  -- however the storage, the origins and the plugins behave, a service in order stays in order: the
  -- cache's index is valid, the flush rules are stored where the bodies are and grouped by their
  -- domains, and each configured domain stands under its name with usable values.
  pub run-IsHealthy :
      (es : List Event) (h : Handler St.State F P W)
      → IsHealthy h
      → IsHealthy (run St codec deps global decode_prefix decode parse unmarshal quote path h es)
  unfolding run
  run-IsHealthy [] h healthy = healthy
  run-IsHealthy (e ∷ es) h healthy = run-IsHealthy es _ (step-IsHealthy h e healthy)
