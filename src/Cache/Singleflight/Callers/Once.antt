-- ===== src/Cache/Singleflight/Callers/Once.antt =====
-- internal/cache/singleflight.go: the stages of concurrent calls of `GetOrFetch` of one key.
use file_server.Prelude.{
  ℕ, ◌+◌, ◌≤◌, Str, ℤ, Bool, true, false, none, some-injective, ◌≡◌, ◌≢◌, refl, sym, ap, ◌∙◌, inl,
  inr, arith, Bool-cases, ℕ_discrete, subst,
}
use file_server.Errors.{Result, ok, err}
use file_server.Storage.{Storage, StorageLaws, Reader}
use file_server.Cache.Lru.{Meta, LruCache, Formats, get, set}
use file_server.Cache.Lru.Held.{
  IsRoomy, IsHeld, LivesDuring, get-IsRoomy, get_held, get-IsHeld, set-IsHeld,
}
use file_server.Cache.Singleflight.Callers.{
  Group, Phase, starting, entering, leading, fetching, waiting, storing, leaving, returned,
  after_first, after_second, after_fetch, put_phase,
}
use file_server.Cache.Singleflight.Callers.Order.{
  is_running, IsOrdered, put_phase_here, put_phase_there,
}

-- Before `Set`, with what was fetched; and before the fetch or `Set`.
abbrev pub is_storing : Phase → Bool
is_storing (storing body meta) = true
is_storing _ = false

abbrev pub is_pulling : Phase → Bool
is_pulling fetching = true
is_pulling (storing body meta) = true
is_pulling _ = false

pub pulling-after_first : (r : Result (Reader × Meta)) → is_pulling (after_first r) ≡ false
unfolding after_first
pulling-after_first (ok p) = refl
pulling-after_first (err e) = refl

storing-after_second : (r : Result (Reader × Meta)) → is_storing (after_second r) ≡ false
unfolding after_second
storing-after_second (ok p) = refl
storing-after_second (err e) = refl

storing_pulls : (p : Phase) → is_pulling p ≡ false → is_storing p ≡ false
storing_pulls starting e = refl
storing_pulls entering e = refl
storing_pulls leading e = refl
storing_pulls fetching e = refl
storing_pulls waiting e = refl
storing_pulls (storing body meta) e = e
storing_pulls (leaving r) e = refl
storing_pulls (returned r) e = refl

pulling_runs : (p : Phase) → is_pulling p ≡ true → is_running p ≡ true
unfolding is_running
pulling_runs starting e = cc
pulling_runs entering e = cc
pulling_runs leading e = refl
pulling_runs fetching e = refl
pulling_runs waiting e = cc
pulling_runs (storing body meta) e = refl
pulling_runs (leaving r) e = refl
pulling_runs (returned r) e = cc

-- What holds of the phases of all the goroutines, when one goes on.
all_put :
    (Q : Phase → Bool) (ps : ℕ → Phase) (i : ℕ) (p : Phase)
    → ((j : ℕ) → Q (ps j) ≡ false)
    → Q p ≡ false
    → (j : ℕ) → Q (put_phase ps i p j) ≡ false
all_put Q ps i p all e j = elim (ℕ_discrete i j) [
  | yes same ↦ subst (λ x. Q (put_phase ps i p x) ≡ false) same (rw (put_phase_here ps i p) e)
  | no n ↦ rw (put_phase_there ps i p j n) (all j)
]

module _ (key : Str) (during : ℤ → Type 0) where
  -- A successful fetch of the whole body, under the key, with a lifetime that lasts.
  pub record IsGood (r : Result (Reader × Meta)) : Type 0 where
    pub body : Str
    pub meta : Meta
    pub gives : r ≡ ok (ok body, meta)
    pub own : meta.key ≡ key
    pub live : LivesDuring during meta

module _ (St : Storage) (key : Str) (during : ℤ → Type 0) where
  -- Nothing has been fetched; one goroutine has fetched and is about to store; or it is stored.
  pub data IsOnce (n : ℕ) (c : LruCache St.State) (ps : ℕ → Phase) : Type 0 where
    unfetched : n ≡ 0 → IsRoomy c → ((j : ℕ) → is_storing (ps j) ≡ false) → IsOnce n c ps
    fetched :
        (o : ℕ) (body : Str) (m : Meta)
        → n ≡ 1
        → IsRoomy c
        → ps o ≡ storing body m
        → m.key ≡ key
        → LivesDuring during m
        → IsOnce n c ps
    kept : n ≤ 1 → IsHeld St key during c → ((j : ℕ) → is_pulling (ps j) ≡ false) → IsOnce n c ps

module _ (St : Storage) (laws : StorageLaws St) (f : Formats) (G : Group) (key : Str)
    (during : ℤ → Type 0) where
  module _ (n : ℕ) (c : LruCache St.State) (ps : ℕ → Phase) (i : ℕ) where
    -- A step that does not fetch and does not store.
    pub aside-IsOnce :
        (c' : LruCache St.State) (p : Phase)
        → (IsRoomy c → IsRoomy c')
        → (IsHeld St key during c → IsHeld St key during c')
        → is_storing (ps i) ≡ false
        → is_pulling p ≡ false
        → IsOnce St key during n c ps
        → IsOnce St key during n c' (put_phase ps i p)
    aside-IsOnce c' p roomy held calm idle (unfetched e h quiet) =
        unfetched e (roomy h) (all_put is_storing ps i p quiet (storing_pulls p idle))
    aside-IsOnce c' p roomy held calm idle (fetched o body m e h at own live) =
        fetched o body m e (roomy h)
          (put_phase_there ps i p o (λ same. absurd (cc (ap ps same, at, calm))) ∙ at) own live
    aside-IsOnce c' p roomy held calm idle (kept e h quiet) =
        kept e (held h) (all_put is_pulling ps i p quiet idle)

    module _ (g : G.State) (h : IsOrdered G (λ j. key) g ps) where
      -- Two goroutines in the closure are one.
      alone : (j l : ℕ) → is_running (ps j) ≡ true → is_running (ps l) ≡ true → j ≡ l
      alone j l a b = some-injective j l (sym (h.known j a) ∙ h.known l b)

      -- The second `Get`.
      pub second-IsOnce :
          (now : ℤ)
          → during now
          → ps i ≡ leading
          → IsOnce St key during n c ps
          → IsOnce St key during n
              (get St now c key).0
              (put_phase ps i (after_second (get St now c key).1))
      unfolding is_running
      second-IsOnce now t e (unfetched z roomy quiet) =
          unfetched z (get-IsRoomy St key now c roomy) (
            all_put is_storing ps i (after_second (get St now c key).1) quiet
              (storing-after_second (get St now c key).1))
      second-IsOnce now t e (fetched o body m z roomy at own live) =
          let same = alone i o (ap is_running e) (ap is_running at) in absurd (cc (same, e, at))
      second-IsOnce now t e (kept z held quiet) = kept z (get-IsHeld St key now during c held t) (
          all_put is_pulling ps i (after_second (get St now c key).1) quiet
            (unfold after_second in rw (get_held St key now during c held t)))

      pub fetch-IsOnce :
          (r : Result (Reader × Meta))
          → ps i ≡ fetching
          → IsGood key during r
          → IsOnce St key during n c ps
          → IsOnce St key during (n + 1) c (put_phase ps i (after_fetch r))
      unfolding is_running after_fetch
      fetch-IsOnce r e good (unfetched z roomy quiet) =
          fetched i good.body good.meta (omega (arith, z)) roomy
            (put_phase_here ps i (after_fetch r) ∙ ap after_fetch good.gives) good.own good.live
      fetch-IsOnce r e good (fetched o body m z roomy at own live) =
          let same = alone i o (ap is_running e) (ap is_running at) in absurd (cc (same, e, at))
      fetch-IsOnce r e good (kept z held quiet) = absurd (cc (quiet i, e))

      pub store-IsOnce :
          (body : Str) (m : Meta) (p : Phase)
          → ps i ≡ storing body m
          → is_pulling p ≡ false
          → (set St f c key (ok body) m).1 ≡ none
          → IsOnce St key during n c ps
          → IsOnce St key during n (set St f c key (ok body) m).0 (put_phase ps i p)
      unfolding is_running
      store-IsOnce body m p e idle done (unfetched z roomy quiet) = absurd (cc (quiet i, e))
      store-IsOnce body m p e idle done (fetched o body' m' z roomy at own live) =
          let mine = stored_phase i o (alone i o (ap is_running e) (ap is_running at)) in
          let same : m' ≡ m = cc (mine, e, at) in
          kept (omega (arith, z))
            (set-IsHeld St laws f key during c body m roomy (ap (λ x. x.key) (sym same) ∙ own)
              (subst (LivesDuring during) same live) done)
            (λ j. elim (ℕ_discrete i j) [
              | yes here ↦
                  subst (λ x. is_pulling (put_phase ps i p x) ≡ false) here
                    (rw (put_phase_here ps i p) idle)
              | no n' ↦ rw (put_phase_there ps i p j n') (others j n')
            ])
        where
          stored_phase : (j l : ℕ) → j ≡ l → ps j ≡ ps l
          stored_phase j l same = ap ps same

          others : (j : ℕ) → i ≢ j → is_pulling (ps j) ≡ false
          others j other = elim (Bool-cases (is_pulling (ps j))) [
            | inr idle' ↦ idle'
            | inl pulls ↦ absurd (other (alone i j (ap is_running e) (pulling_runs (ps j) pulls)))
          ]
      store-IsOnce body m p e idle done (kept z held quiet) = absurd (cc (quiet i, e))
