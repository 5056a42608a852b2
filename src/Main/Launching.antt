-- ===== src/Main/Launching.antt =====
-- cmd/server/main.go: the start of the service, and the service from its start on.
use file_server.Prelude.{
  Str, str, str_eq, ℤ, pos, negsuc, ◌<ℤ◌, List, [], true, false, Bool-cases, Option-cases, ◌||◌,
  Option, none, some, ◌≡◌, inl, inr, refl, sym, subst, arith,
}
use file_server.Errors.{Error, Result, Result-cases, ok, err, Failure}
use file_server.Storage.Os.{Directory, Host}
use file_server.Storage.LocalFs.{local_fs}
use file_server.Http.{Request}
use file_server.Config.{Config}
use file_server.Config.Defaults.{IsUsable}
use file_server.Config.Loader.{load}
use file_server.Cache.Lru
use file_server.Cache.Lru.Invariant.{IsValid}
use file_server.Cache.Lru.Writes.{new-IsValid}
use file_server.Flush.{Codec, Store}
use file_server.Flush
use file_server.Domain.{Handler, Deps, update}
use file_server.Main.{
  Launch, exited, running, Event, new_local_fs, assemble, launch_from, launch, run,
}
use file_server.Main.Loading.{
  load-IsUsable, update_domains-AreUsable, none-AreUsable, load-IsGrouped, load_storage,
}
use file_server.Main.Health.{IsHealthy, run-IsHealthy}

new_positive : {S : Type 0} (n : ℤ) (s : S) → pos 0 <ℤ n → IsValid (Lru.new n s)
new_positive (pos n) s positive = (new-IsValid n s).0
new_positive (negsuc n) s positive = absurd (omega arith)

-- What a start that runs has got.
abbrev IsStarted : {F P W : Type 0} → Launch F P W → Type 0
IsStarted (exited code) = code ≡ 1
IsStarted (running cfg h) = IsUsable cfg × IsHealthy h

module _ (host : Host) (codec : Codec) {F P W : Type 0} (plugins : P) (network : W) where
  module _ (cfg : Config F) (d : Directory) where
    pub loaded_rules :
        (Flush.load (local_fs host) codec (Flush.new d)).1 ≡ none
        → launch_from host codec cfg (ok d) plugins network
          ≡ running cfg
              (assemble cfg (Flush.load (local_fs host) codec (Flush.new d)).0 d plugins network)
    unfolding launch_from
    loaded_rules e = ground arith

    unloaded_rules :
        (x : Error)
        → (Flush.load (local_fs host) codec (Flush.new d)).1 ≡ some x
        → launch_from host codec cfg (ok d) plugins network ≡ exited 1
    unfolding launch_from
    unloaded_rules x e = ground arith

  module _ (cfg : Config F) (usable : IsUsable cfg) where
    assemble-IsHealthy :
        (d : Directory)
        → IsHealthy
            (assemble cfg (Flush.load (local_fs host) codec (Flush.new d)).0 d plugins network)
    unfolding assemble update Lru.new Flush.new
    assemble-IsHealthy d = record {
      sound = record {
        valid = new_positive cfg.cache.max_items d usable.max_items;
        shared = load_storage (local_fs host) codec (Flush.new d);
      };
      grouped = load-IsGrouped (local_fs host) codec (Flush.new d) tt;
      usable = update_domains-AreUsable [] cfg.domains none-AreUsable usable.domains;
    }

  -- A start from a storage exits, or runs with the rules that could be loaded.
  pub launch_from_cases {ℓ} :
      (Q : Launch F P W → Type ℓ) (cfg : Config F) (opened : Result Directory)
      → Q (exited 1)
      → ((d : Directory)
          → (Flush.load (local_fs host) codec (Flush.new d)).1 ≡ none
          → Q (
              running cfg (
                assemble cfg (Flush.load (local_fs host) codec (Flush.new d)).0 d plugins network)))
      → Q (launch_from host codec cfg opened plugins network)
  unfolding launch_from
  launch_from_cases Q cfg (err e) stop go = stop
  launch_from_cases Q cfg (ok d) stop go =
      elim (Option-cases (Flush.load (local_fs host) codec (Flush.new d)).1) [
        | inl e ↦ subst Q (sym (loaded_rules cfg d e)) (go d e)
        | inr (x, e) ↦ subst Q (sym (unloaded_rules cfg d x e)) stop
      ]

  module _ (unmarshal : Str → Result (Config F)) (quote : Str → Str) (path : Str)
      (file : Result Str) (mkdir : Failure) (d : Directory) where
    unloaded_config :
        (e : Error)
        → load unmarshal quote path file ≡ err e
        → launch host codec unmarshal quote path file mkdir d plugins network ≡ exited 1
    unfolding launch
    unloaded_config e failed = ground arith

    module _ (cfg : Config F) (loaded : load unmarshal quote path file ≡ ok cfg) where
      local_storage :
          str_eq cfg.storage.type (str "localfs") || str_eq cfg.storage.type (str "") ≡ true
          → launch host codec unmarshal quote path file mkdir d plugins network
            ≡ launch_from host codec cfg
                (new_local_fs quote cfg.storage.root_dir mkdir d)
                plugins
                network
      unfolding launch
      local_storage local = ground arith

      other_storage :
          str_eq cfg.storage.type (str "localfs") || str_eq cfg.storage.type (str "") ≡ false
          → launch host codec unmarshal quote path file mkdir d plugins network ≡ exited 1
      unfolding launch
      other_storage other = ground arith

    -- `main` exits, or runs with a configuration that loads and the rules of some directory.
    pub launch_cases {ℓ} :
        (Q : Launch F P W → Type ℓ)
        → Q (exited 1)
        → ((cfg : Config F) (d' : Directory)
            → load unmarshal quote path file ≡ ok cfg
            → (Flush.load (local_fs host) codec (Flush.new d')).1 ≡ none
            → Q (
                running cfg (
                  assemble cfg
                    (Flush.load (local_fs host) codec (Flush.new d')).0
                    d'
                    plugins
                    network)))
        → Q (launch host codec unmarshal quote path file mkdir d plugins network)
    launch_cases Q stop go = elim (Result-cases (load unmarshal quote path file)) [
      | inl (cfg, e) ↦
          elim (Bool-cases
            (str_eq cfg.storage.type (str "localfs") || str_eq cfg.storage.type (str ""))) [
              | inl local ↦ subst Q (sym (local_storage cfg e local)) (
                  launch_from_cases Q cfg (new_local_fs quote cfg.storage.root_dir mkdir d) stop
                    (λ d' done. go cfg d' e done))
              | inr other ↦ subst Q (sym (other_storage cfg e other)) stop
            ]
      | inr (e, failed) ↦ subst Q (sym (unloaded_config e failed)) stop
    ]

    launch-IsStarted :
        IsStarted (launch host codec unmarshal quote path file mkdir d plugins network)
    launch-IsStarted = launch_cases IsStarted refl (λ cfg d' e done.
        let usable = load-IsUsable unmarshal quote path file cfg e in
        (usable, assemble-IsHealthy cfg usable d'))

    -- If `main` gets to running, whatever the configuration file and the directory hold, then the
    -- configuration is one the program can run with, and the service is in order: not only at the
    -- start, but after every sequence of requests, posts to the management API and events of the
    -- watcher.
    pub launched-IsHealthy :
        (deps : ℤ → ℤ → Deps F P W) (decode_prefix : Str → Option (Str × Str))
        (decode : Str → Option Str) (parse : Str → Option (Str × Request)) (cfg : Config F)
        (h : Handler Directory F P W) (es : List Event)
        → launch host codec unmarshal quote path file mkdir d plugins network ≡ running cfg h
        → IsUsable cfg
          × IsHealthy (
              run
                (local_fs host)
                codec
                deps
                cfg
                decode_prefix
                decode
                parse
                unmarshal
                quote
                path
                h
                es)
    launched-IsHealthy deps decode_prefix decode parse cfg h es e =
        let started = subst IsStarted e launch-IsStarted in
        (
          started.0,
          run-IsHealthy (local_fs host) codec deps cfg decode_prefix decode parse unmarshal quote
              path es h started.1,
        )
