-- ===== src/Config/Loader/Reloads.antt =====
-- internal/config/loader.go: which configurations `Watch` hands on.
use file_server.Prelude.{
  Str, List, [], ◌∷◌, ◌++◌, Bool, true, false, ◌||◌, if◌then◌else◌, ◌≡◌, refl, sym, ap, ◌∙◌, inl,
  inr,
}
use file_server.Errors.{Result, Result-cases, ok, err}
use file_server.Config.{Config}
use file_server.Config.Loader.{
  Event, changed, events_closed, watch_error, errors_closed, hang_up, load, reload, watch_loop,
}

abbrev pub or_none : {F : Type 0} → Result (Config F) → List (Config F)
or_none (err e) = []
or_none (ok cfg) = cfg ∷ []

-- Does an event ask for the file to be read, and does it end the loop?
abbrev pub asks : Event → Bool
asks (changed written created) = written || created
asks hang_up = true
asks _ = false

abbrev pub ends : Event → Bool
ends events_closed = true
ends errors_closed = true
ends _ = false

module _ {F : Type 0} (unmarshal : Str → Result (Config F)) (quote : Str → Str) (path : Str) where
  -- The configurations that load, in order, up to the event that ends the loop.
  abbrev pub loaded : List (Event × Result Str) → List (Config F)
  loaded [] = []
  loaded ((e, file) ∷ events) =
      let rest = loaded events in
      if ends e
      then []
      else if asks e
      then or_none (load unmarshal quote path file) ++ rest
      else rest

  abbrev pub has_ended : List (Event × Result Str) → Bool
  has_ended [] = false
  has_ended ((e, file) ∷ events) = ends e || has_ended events

  module _ {H : Type 0} (on_change : Config F → H → H) where
    abbrev pub hand_on : List (Config F) → H → H
    hand_on [] h = h
    hand_on (cfg ∷ cfgs) h = hand_on cfgs (on_change cfg h)

    hand_on-append :
        (xs ys : List (Config F)) (h : H) → hand_on (xs ++ ys) h ≡ hand_on ys (hand_on xs h)
    hand_on-append [] ys h = refl
    hand_on-append (x ∷ xs) ys h = hand_on-append xs ys (on_change x h)

    reload-or_none :
        (file : Result Str) (h : H)
        → reload unmarshal quote on_change path file h
          ≡ hand_on (or_none (load unmarshal quote path file)) h
    unfolding reload
    reload-or_none file h = elim (Result-cases (load unmarshal quote path file)) [
      | inl (cfg, e) ↦ rw (reload, e) refl
      | inr (x, e) ↦ rw (reload, e) refl
    ]

    abbrev Agrees : List (Event × Result Str) → H → Type 0
    Agrees events h =
        watch_loop unmarshal quote on_change path events h
        ≡ (hand_on (loaded events) h, has_ended events)

    one :
        (file : Result Str) (events : List (Event × Result Str)) (h : H)
        → Agrees events (reload unmarshal quote on_change path file h)
        → watch_loop unmarshal quote on_change path events
            (reload unmarshal quote on_change path file h)
          ≡ (
            hand_on (or_none (load unmarshal quote path file) ++ loaded events) h,
            has_ended events,
          )
    one file events h rest =
        rest
        ∙ ap (λ x. (x, has_ended events))
            (ap (hand_on (loaded events)) (reload-or_none file h)
              ∙ sym (hand_on-append (or_none (load unmarshal quote path file)) (loaded events) h))

    -- `Watch` hands on, one by one and in order, exactly the configurations that load at a write, a
    -- creation or a hang-up before a channel is closed: a file that cannot be read or parsed
    -- leaves the state as it was. It returns just when a channel is closed.
    pub watch_loop-loaded :
        (events : List (Event × Result Str)) (h : H)
        → watch_loop unmarshal quote on_change path events h
          ≡ (hand_on (loaded events) h, has_ended events)
    unfolding watch_loop
    watch_loop-loaded [] h = refl
    watch_loop-loaded ((changed true created, file) ∷ events) h =
        one file events h (watch_loop-loaded events (reload unmarshal quote on_change path file h))
    watch_loop-loaded ((changed false true, file) ∷ events) h =
        one file events h (watch_loop-loaded events (reload unmarshal quote on_change path file h))
    watch_loop-loaded ((changed false false, file) ∷ events) h = watch_loop-loaded events h
    watch_loop-loaded ((events_closed, file) ∷ events) h = refl
    watch_loop-loaded ((watch_error e, file) ∷ events) h = watch_loop-loaded events h
    watch_loop-loaded ((errors_closed, file) ∷ events) h = refl
    watch_loop-loaded ((hang_up, file) ∷ events) h =
        one file events h (watch_loop-loaded events (reload unmarshal quote on_change path file h))
