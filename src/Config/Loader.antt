-- ===== src/Config/Loader.antt =====
-- internal/config/loader.go: reading the configuration, and the loop that reads it again. YAML, the
-- quoting of `%q` and fsnotify are parameters; `select` takes the events in the order of a list. Each
-- event comes with the outcome of reading the file at that moment. Logging is not modelled.
pub mod Reloads
use file_server.Prelude.{
  Str, str, ◌++◌, List, [], ◌∷◌, Bool, true, false, ◌||◌, if◌then◌else◌, Option, none, some,
}
use file_server.Errors.{Error, wrap, Result, ok, err, Failure}
use file_server.Config.{Config, defaults}

-- What `Watch` selects. A closed channel ends the loop.
pub data Event : Type 0 where
  changed : Bool → Bool → Event
  events_closed : Event
  watch_error : Error → Event
  errors_closed : Event
  hang_up : Event

module _ {F : Type 0} (unmarshal : Str → Result (Config F)) (quote : Str → Str) where
  -- `Load`, of what reading the file gives
  unfoldable pub load : Str → Result Str → Result (Config F)
  unfolding defaults
  load path (err e) = err (wrap (str "config: read " ++ quote path ++ str ": ") e)
  load path (ok bytes) = elim (unmarshal bytes) [
    | err e ↦ err (wrap (str "config: parse " ++ quote path ++ str ": ") e)
    | ok cfg ↦ ok (defaults cfg)
  ]

  module _ {H : Type 0} (on_change : Config F → H → H) where
    -- `reload`
    unfoldable pub reload : Str → Result Str → H → H
    unfolding load
    reload path file h = elim (load path file) [ err e ↦ h | ok cfg ↦ on_change cfg h ]

    -- The loop of `Watch`: `true` says that it has returned.
    unfoldable pub watch_loop : Str → List (Event × Result Str) → H → H × Bool
    unfolding reload
    watch_loop path [] h = (h, false)
    watch_loop path ((changed written created, file) ∷ events) h =
        watch_loop path events (if written || created then reload path file h else h)
    watch_loop path ((events_closed, file) ∷ events) h = (h, true)
    watch_loop path ((watch_error e, file) ∷ events) h = watch_loop path events h
    watch_loop path ((errors_closed, file) ∷ events) h = (h, true)
    watch_loop path ((hang_up, file) ∷ events) h = watch_loop path events (reload path file h)

    -- `Watch`, by the outcomes of `fsnotify.NewWatcher` and of adding the file
    unfoldable pub watch :
        Failure → Failure → Str → List (Event × Result Str) → H → (H × Bool) × Failure
    unfolding watch_loop
    watch (some e) adding path events h =
        ((h, true), some (wrap (str "config: create watcher: ") e))
    watch none (some e) path events h =
        ((h, true), some (wrap (str "config: watch " ++ quote path ++ str ": ") e))
    watch none none path events h = (watch_loop path events h, none)
