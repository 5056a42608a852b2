-- ===== src/Tests/Calling.antt =====
-- Concrete schedules of the callers of the singleflight cache.
use file_server.Prelude.{
  ℕ, suc, ◌≤◌, Str, str, str_dec, ite, find, ℤ, pos, after, ◌+ℤ◌, List, [], ◌∷◌, Bool, true, false,
  ◌==◌, if◌then◌else◌, Option, none, some, some-injective, ◌≡◌, ◌≢◌, refl, sym, subst, arith,
}
use file_server.Errors.{Result, ok}
use file_server.Cache.Lru.{expires_at, new, get}
use file_server.Cache.Lru.Writes.{new-IsValid}
use file_server.Cache.Singleflight.{SfResult, Fetch}
use file_server.Cache.Singleflight.Callers.{
  Group, GroupLaws, starting, waiting, Callers, turn_at, turn, run, after_first, after_second,
  after_fetch,
}
use file_server.Cache.Singleflight.Callers.Order.{is_running}
use file_server.Cache.Singleflight.Callers.Flights.{IsFresh, run-one_leader}
use file_server.Cache.Singleflight.Callers.Waiters.{IsAwaited, run-waiters}
use file_server.Cache.Singleflight.Callers.Once.{IsGood}
use file_server.Cache.Singleflight.Callers.Stampede.{run-fetches_once}
use file_server.Tests.{memory, memory-laws, formats, meta_at}

-- A group that keeps functions.
record Table : Type 0 where
  pub leaders : Str → Option ℕ
  pub joined : ℕ → Option Str
  pub outcomes : ℕ → Option (Result SfResult)

abbrev waits_for : Option Str → Str → Bool
waits_for none k = false
waits_for (some j) k = ite (str_dec j k) true false

abbrev enter : Table → Str → ℕ → Table × Bool
enter t k i = elim (t.leaders k) [
  | none ↦ (record t { leaders = λ j. ite (str_dec k j) (some i) (t.leaders j) }, true)
  | some l ↦ (record t { joined = λ j. if i == j then some k else t.joined j }, false)
]

abbrev leave : Table → Str → Result SfResult → Table
leave t k r = record {
  leaders = λ j. ite (str_dec k j) none (t.leaders j);
  joined = λ i. if waits_for (t.joined i) k then none else t.joined i;
  outcomes = λ i. if waits_for (t.joined i) k then some r else t.outcomes i;
}

abbrev group : Group
group = record {
  State = Table;
  leader = λ t. t.leaders;
  joined = λ t. t.joined;
  outcome = λ t. t.outcomes;
  enter = enter;
  leave = leave;
}

waits_here : (w : Option Str) (k : Str) → w ≡ some k → waits_for w k ≡ true
waits_here none k e = cc
waits_here (some j) k e = let same = some-injective j k e in ground (arith, same)

waits_elsewhere : (w : Option Str) (k : Str) → w ≢ some k → waits_for w k ≡ false
waits_elsewhere none k n = refl
waits_elsewhere (some j) k n = elim (str_dec j k) [
  | yes same ↦ absurd (n (cc))
  | no other ↦ ground (arith, other)
]

module _ (t : Table) (k : Str) (i : ℕ) where
  enter_leads : t.leaders k ≡ none → ((enter t k i).1 ≡ true) × ((enter t k i).0.leaders k ≡ some i)
  enter_leads free = (ground arith, ground (arith, str_dec k k))

  enter_waits :
      (l : ℕ)
      → t.leaders k ≡ some l
      → ((enter t k i).1 ≡ false)
        × ((enter t k i).0.leaders k ≡ some l)
        × ((enter t k i).0.joined i ≡ some k)
  enter_waits l taken = (ground arith, ground arith, ground arith)

  enter_other : (j : Str) → k ≢ j → (enter t k i).0.leaders j ≡ t.leaders j
  enter_other j n = ground arith

  enter_others :
      (j : ℕ)
      → i ≢ j
      → ((enter t k i).0.joined j ≡ t.joined j) × ((enter t k i).0.outcomes j ≡ t.outcomes j)
  enter_others j n = (ground arith, ground arith)

group-laws : GroupLaws group
group-laws = record {
  enter_free = λ t k i free. enter_leads t k i free;
  enter_taken = λ t k i l taken. enter_waits t k i l taken;
  enter_other = λ t k j i n. enter_other t k i j n;
  enter_others = λ t k i j n. enter_others t k i j n;
  leave_key = λ t k r. ground (arith, str_dec k k);
  leave_other = λ t k j r n. ground arith;
  leave_joined =
      λ t k r i e. let h = waits_here (t.joined i) k e in (ground (arith, h), ground (arith, h));
  leave_others = λ t k r i n.
      let h = waits_elsewhere (t.joined i) k n in (ground (arith, h), ground (arith, h));
}

-- Two callers of one key that is not cached, with a fetch that counts.
abbrev fetch : ℕ → Fetch ℕ
fetch i w = (suc w, ok (ok (str "new"), meta_at (str "k") (pos 0)))

abbrev key_of : ℕ → Str
key_of i = str "k"

abbrev callers : Callers memory.State Table ℕ
callers = record {
  cache = new (pos 1) [];
  group = record { leaders = λ k. none; joined = λ i. none; outcomes = λ i. none };
  net = 0;
  phases = λ i. starting;
  fetches = 0;
}

callers-IsFresh : IsFresh group callers
callers-IsFresh = record { unstarted = λ i. refl; idle = λ k. refl }

-- Both miss; the first enters the group and fetches, and the second waits.
abbrev schedule : List (ℤ × ℕ)
schedule = (pos 1, 0) ∷ (pos 1, 1) ∷ (pos 1, 0) ∷ (pos 1, 1) ∷ (pos 1, 0) ∷ (pos 1, 0) ∷ []

first_runs : is_running ((run memory formats group key_of fetch schedule callers).phases 0) ≡ true
unfolding run turn turn_at get find after_first after_second after_fetch str_dec is_running new
first_runs = refl

second_waits : (run memory formats group key_of fetch schedule callers).phases 1 ≡ waiting
unfolding run turn turn_at get find after_first after_second after_fetch str_dec new
second_waits = refl

run-one_leader_example :
    is_running ((run memory formats group key_of fetch schedule callers).phases 1) ≡ false
run-one_leader_example =
    run-one_leader memory formats group group-laws key_of fetch schedule callers 0 1 callers-IsFresh
      (λ e. omega arith) first_runs refl

run-waiters_example :
    IsAwaited memory formats group key_of fetch
      (pos 1)
      1
      (run memory formats group key_of fetch schedule callers)
run-waiters_example =
    run-waiters memory formats group group-laws key_of fetch schedule callers 1 (pos 1)
      callers-IsFresh second_waits

-- The instants of the schedule.
abbrev AtOne : ℤ → Type 0
AtOne now = now ≡ pos 1

fetch-IsGood : (i : ℕ) (w : ℕ) → IsGood (str "k") AtOne (fetch i w).1
unfolding expires_at ◌+ℤ◌
fetch-IsGood i w = record {
  body = str "new";
  meta = meta_at (str "k") (pos 0);
  gives = refl;
  own = refl;
  live =
      λ now e. subst (λ t. after t (expires_at (meta_at (str "k") (pos 0))) ≡ false) (sym e) refl;
}

run-fetches_once_example : (run memory formats group key_of fetch schedule callers).fetches ≤ 1
unfolding new
run-fetches_once_example =
    run-fetches_once memory memory-laws formats group group-laws (str "k") AtOne fetch
      (λ s b m. refl) fetch-IsGood schedule callers
      (refl, (refl, (refl, (refl, (refl, (refl, tt)))))) callers-IsFresh
      (record { valid = (new-IsValid 1 []).0; room = omega arith }) refl
