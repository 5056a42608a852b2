-- ===== src/Pipeline/RateLimit/Isolation.antt =====
-- internal/pipeline/ratelimit/ratelimit.go: the calls of one key among those of the others.
use file_server.Prelude.{
  Str, str_dec, str_eq, find, find-put, if_pos, if_neg, ℤ, keep, List, [], ◌∷◌, Bool, if◌then◌else◌,
  Option, none, some, ◌≡◌, ◌≢◌, refl, sym, ap, ◌∙◌,
}
use file_server.Pipeline.RateLimit.{
  Float, TokenBucket, Limiter, DomainState, allow_limiter, make_limiter, admit,
}

-- A call: the two instants at which it reads the clock, and its key.
pub record Admission : Type 0 where
  pub seen : ℤ
  pub now : ℤ
  pub key : Str

-- The calls of one key.
abbrev pub of_key : Str → List Admission → List Admission
of_key k = keep (λ a. str_eq a.key k)

module _ (fl : Float) (tb : TokenBucket fl.F) (split_host_port : Str → Option Str) where
  abbrev State : Type 0
  State = DomainState fl tb split_host_port

  abbrev admitted : Admission → State → State × Bool
  admitted a s = admit fl tb split_host_port a.seen a.now a.key s

  -- The answers to the calls of the key `k`, in a run of calls.
  abbrev pub answers : Str → List Admission → State → List Bool
  answers k [] s = []
  answers k (a ∷ rest) s =
      if str_eq a.key k
      then (admitted a s).1 ∷ answers k rest (admitted a s).0
      else answers k rest (admitted a s).0

  module _ (k : Str) where
    -- The states have the same limiter for the key, and would make the same.
    record IsAlike (s s' : State) : Type 0 where
      pub limiters : find k s.limiters ≡ find k s'.limiters
      pub makes : make_limiter fl tb split_host_port s ≡ make_limiter fl tb split_host_port s'

    module _ (a : Admission) (s s' : State) (h : IsAlike s s') where
      admit_others-IsAlike : a.key ≢ k → IsAlike (admitted a s).0 s'
      unfolding admit make_limiter
      admit_others-IsAlike n = record {
        limiters = rw (find-put, if_neg _ n) h.limiters;
        makes = h.makes;
      }

      module _ (own : a.key ≡ k) where
        abbrev used : State → Option (Limiter fl.F tb.Bucket) → Limiter fl.F tb.Bucket
        used t found = elim found [ none ↦ make_limiter fl tb split_host_port t | some l ↦ l ]

        same_limiter : used s (find a.key s.limiters) ≡ used s' (find a.key s'.limiters)
        same_limiter =
            ap (λ x. used s (find x s.limiters)) own
            ∙ ap (used s) h.limiters
            ∙ ap
                (λ d. elim (find k s'.limiters) as (λ x. Limiter fl.F tb.Bucket) [
                  | none ↦ d
                  | some l ↦ l
                ])
                h.makes
            ∙ ap (λ x. used s' (find x s'.limiters)) (sym own)

        same_answer : (admitted a s).1 ≡ (admitted a s').1
        unfolding admit
        same_answer = ap (λ l. (allow_limiter fl tb split_host_port a.now l).1) same_limiter

        admit_own-IsAlike : IsAlike (admitted a s).0 (admitted a s').0
        unfolding admit make_limiter
        admit_own-IsAlike = record {
          limiters =
              rw (find-put, find-put, if_pos _ own, if_pos _ own)
                (ap (λ l. some (allow_limiter fl tb split_host_port a.now l).0) same_limiter);
          makes = h.makes;
        }

    answers_alike :
        (calls : List Admission) (s s' : State)
        → IsAlike s s'
        → answers k calls s ≡ answers k (of_key k calls) s'
    answers_alike [] s s' h = refl
    answers_alike (a ∷ rest) s s' h = elim (str_dec a.key k) [
      | yes own ↦
          rw (if_pos _ own, if_pos _ own)
            (cc (
              same_answer a s s' h own,
              answers_alike rest (admitted a s).0 (admitted a s').0
                  (admit_own-IsAlike a s s' h own),
            ))
      | no n ↦
          rw (if_neg _ n) (answers_alike rest (admitted a s).0 s' (admit_others-IsAlike a s s' h n))
    ]

    -- Whatever calls of the other keys stand between them, the calls of a key are answered as they
    -- would be alone: no client uses up the limit of another, under either algorithm.
    pub answers-of_key :
        (calls : List Admission) (s : State) → answers k calls s ≡ answers k (of_key k calls) s
    answers-of_key calls s = answers_alike calls s s (record { limiters = refl; makes = refl })
