-- ===== src/Cache/Singleflight/Callers.antt =====
-- internal/cache/singleflight.go: `GetOrFetch` of several goroutines at once. Each has one call,
-- and the key and the fetch of its own. A step is a call of the wrapped cache, of the group or of
-- the fetch; a schedule names the goroutine that takes the next step, and the instant that its
-- clock shows. The group of golang.org/x/sync is a parameter, with the laws of its documentation.
pub mod Order
pub mod Flights
pub mod Served
pub mod Waiters
pub mod Once
pub mod Stampede
use file_server.Prelude.{
  ℕ, zero, suc, ◌+◌, Str, ℤ, List, [], ◌∷◌, Bool, true, false, ◌==◌, if◌then◌else◌, Option, none,
  some, ◌≡◌, ◌≢◌,
}
use file_server.Errors.{Error, Result, ok, err}
use file_server.Storage.{Storage, Reader}
use file_server.Cache.Lru.{Meta, LruCache, Formats}
use file_server.Cache.Lru
use file_server.Cache.Singleflight.{SfResult, Fetch, read_all, to_reader}

-- What a group keeps: the goroutine that runs the function of a key, the key that a goroutine waits
-- for, and the outcome that it has been given. `Do` is cut in two: `enter` says whether the caller
-- runs its function, `true`, or waits, and `leave` is the end of `Do` for the one that ran it.
pub record Group : Type 1 where
  pub State : Type 0
  pub leader : State → Str → Option ℕ
  pub joined : State → ℕ → Option Str
  pub outcome : State → ℕ → Option (Result SfResult)
  pub enter : State → Str → ℕ → State × Bool
  pub leave : State → Str → Result SfResult → State

-- "Do executes and returns the results of the given function, making sure that only one execution is
-- in-flight for a given key at a time. If a duplicate comes in, the duplicate caller waits for the
-- original to complete and receives the same results."
pub record GroupLaws (G : Group) : Type 0 where
  pub enter_free :
      (g : G.State) (k : Str) (i : ℕ)
      → G.leader g k ≡ none
      → ((G.enter g k i).1 ≡ true) × (G.leader (G.enter g k i).0 k ≡ some i)
  pub enter_taken :
      (g : G.State) (k : Str) (i l : ℕ)
      → G.leader g k ≡ some l
      → ((G.enter g k i).1 ≡ false)
        × (G.leader (G.enter g k i).0 k ≡ some l)
        × (G.joined (G.enter g k i).0 i ≡ some k)
  pub enter_other :
      (g : G.State) (k j : Str) (i : ℕ) → k ≢ j → G.leader (G.enter g k i).0 j ≡ G.leader g j
  pub enter_others :
      (g : G.State) (k : Str) (i j : ℕ)
      → i ≢ j
      → (G.joined (G.enter g k i).0 j ≡ G.joined g j)
        × (G.outcome (G.enter g k i).0 j ≡ G.outcome g j)
  pub leave_key : (g : G.State) (k : Str) (r : Result SfResult) → G.leader (G.leave g k r) k ≡ none
  pub leave_other :
      (g : G.State) (k j : Str) (r : Result SfResult)
      → k ≢ j
      → G.leader (G.leave g k r) j ≡ G.leader g j
  pub leave_joined :
      (g : G.State) (k : Str) (r : Result SfResult) (i : ℕ)
      → G.joined g i ≡ some k
      → (G.joined (G.leave g k r) i ≡ none) × (G.outcome (G.leave g k r) i ≡ some r)
  pub leave_others :
      (g : G.State) (k : Str) (r : Result SfResult) (i : ℕ)
      → G.joined g i ≢ some k
      → (G.joined (G.leave g k r) i ≡ G.joined g i) × (G.outcome (G.leave g k r) i ≡ G.outcome g i)

-- What is left of a call: before its first `Get`, before `Do`; in the closure, before the second
-- `Get`, the fetch and `Set`; at its end; waiting in `Do`; and what it returns.
pub data Phase : Type 0 where
  starting entering leading fetching waiting : Phase
  storing : Str → Meta → Phase
  leaving : Result SfResult → Phase
  returned : Result (Reader × Meta) → Phase

-- After the first `Get`.
unfoldable pub after_first : Result (Reader × Meta) → Phase
after_first (ok p) = returned (ok p)
after_first (err e) = entering

-- After the second `Get`: what was found is read to its end.
unfoldable pub after_second : Result (Reader × Meta) → Phase
unfolding read_all
after_second (ok (rc, meta)) = leaving (read_all rc meta)
after_second (err e) = fetching

-- After the fetch: its body is read to its end.
unfoldable pub after_fetch : Result (Reader × Meta) → Phase
after_fetch (err e) = leaving (err e)
after_fetch (ok (err e, meta)) = leaving (err e)
after_fetch (ok (ok body, meta)) = storing body meta

-- The wrapped cache, the group, the state that the fetches change, and the goroutines; `fetches`
-- counts the calls of a fetch.
pub record Callers (S G W : Type 0) : Type 0 where
  pub cache : LruCache S
  pub group : G
  pub net : W
  pub phases : ℕ → Phase
  pub fetches : ℕ

-- A goroutine goes on.
abbrev pub put_phase : (ℕ → Phase) → ℕ → Phase → ℕ → Phase
put_phase phases i p j = if i == j then p else phases j

abbrev pub move : {S G W : Type 0} → Callers S G W → ℕ → Phase → Callers S G W
move s i p = record s { phases = put_phase s.phases i p }

module _ (St : Storage) (f : Formats) (G : Group) {W : Type 0} (key_of : ℕ → Str)
    (fetch : ℕ → Fetch W) where
  -- The step of the goroutine `i` in a phase.
  unfoldable pub turn_at : Phase → ℤ → ℕ → Callers St.State G.State W → Callers St.State G.State W
  unfolding after_first after_second after_fetch
  turn_at starting now i s =
      let (c, found) = Lru.get St now s.cache (key_of i) in
      move (record s { cache = c }) i (after_first found)
  turn_at entering now i s =
      let (g, leads) = G.enter s.group (key_of i) i in
      move (record s { group = g }) i (if leads then leading else waiting)
  turn_at leading now i s =
      let (c, found) = Lru.get St now s.cache (key_of i) in
      move (record s { cache = c }) i (after_second found)
  turn_at fetching now i s =
      let (w, fetched) = fetch i s.net in
      move (record s { net = w; fetches = s.fetches + 1 }) i (after_fetch fetched)
  turn_at waiting now i s = elim (G.outcome s.group i) [
    | none ↦ s
    | some r ↦ move s i (returned (to_reader r))
  ]
  turn_at (storing body meta) now i s =
      let (c, _) = Lru.set St f s.cache (key_of i) (ok body) meta in
      move (record s { cache = c }) i (leaving (ok (record { bytes = body; meta = meta })))
  turn_at (leaving r) now i s =
      move (record s { group = G.leave s.group (key_of i) r }) i (returned (to_reader r))
  turn_at (returned r) now i s = s

  unfoldable pub turn : ℤ → ℕ → Callers St.State G.State W → Callers St.State G.State W
  unfolding turn_at
  turn now i s = turn_at (s.phases i) now i s

  unfoldable pub run : List (ℤ × ℕ) → Callers St.State G.State W → Callers St.State G.State W
  unfolding turn
  run [] s = s
  run ((now, i) ∷ schedule) s = run schedule (turn now i s)
