-- ===== src/Origin/Rounds.antt =====
-- internal/origin/puller.go: the order in which `Pull` tries the origins.
use native.Mathlib.Nat.{mod-lt}
use file_server.Prelude.{
  ℕ, zero, suc, ◌+◌, ◌-◌, ◌^◌, ◌%◌, ◌<◌, Str, str, ◌++◌, ℤ, pos, ◌+ℤ◌, wrap_64_in_range, length,
  get_elem?, List, [], ◌∷◌, Option, none, some, ◌≡◌, refl, arith, ap, sym, ◌∙◌, inl, inr,
}
use file_server.Errors.{Error, wrap, Result, Result-cases, ok, err}
use file_server.Http.{Header, Response}
use file_server.Origin.{
  Client, do_request, rem, origin_at, Outcome, replied, all_failed, start_of, pull_from, pull,
}

-- An element of a list at an index in range.
at_in_range {ℓ} :
    {A : Type ℓ} (l : List A) (i : ℕ) → i < length l → (a : A) × (get_elem? l i ≡ some a)
at_in_range [] i h = absurd (omega arith)
at_in_range (x ∷ l) zero h = (x, refl)
at_in_range (x ∷ l) (suc i) h = at_in_range l i (omega arith)

counter_kept : (c : ℕ) → c < 2 ^ 64 - 1 → ((c + 1) % 2 ^ 64 + 2 ^ 64 - 1) % 2 ^ 64 ≡ c
counter_kept c h = omega arith

start_of-counter : (c n : ℕ) → c < 2 ^ 63 → start_of c n ≡ pos (c % n)
unfolding start_of rem
start_of-counter c n h = rw (counter_kept c (omega arith), wrap_64_in_range c h)

-- The origins that `k` rounds visit, from the index `i` on, round the list.
abbrev pub rotation : List Str → ℕ → ℕ → List Str
rotation origins i zero = []
rotation origins i (suc k) = elim (get_elem? origins (i % length origins)) [
  | none ↦ []
  | some o ↦ o ∷ rotation origins (i + 1) k
]

rotation_at :
    (origins : List Str) (i k : ℕ) (o : Str)
    → get_elem? origins (i % length origins) ≡ some o
    → rotation origins i (suc k) ≡ o ∷ rotation origins (i + 1) k
rotation_at origins i k o at = ground arith

add_next : (start attempt : ℕ) → start + (attempt + 1) ≡ start + attempt + 1
add_next start attempt = omega arith

module _ {W : Type 0} (client : Client W) (show : ℕ → Str) (timeout : ℤ) (path : Str)
    (header : Header) where
  -- Trying a list of origins: the first reply that is no error, or the error of the last.
  abbrev pub try_all : List Str → Option Error → W → W × Result Response
  try_all [] last_err w = (w, err (all_failed last_err))
  try_all (o ∷ os) last_err w =
      let (w', reply) = do_request client show w o path header timeout in
      elim reply [
        | ok resp ↦ (w', ok resp)
        | err e ↦ try_all os (some (wrap (str "origin " ++ o ++ str ": ") e)) w'
      ]

  -- One round, at an origin and by its reply.
  module _ (origins : List Str) (rounds attempt start : ℕ) (last_err : Option Error) (w : W)
      (o : Str) (at : get_elem? origins ((start + attempt) % length origins) ≡ some o) where
    round_ok :
        (resp : Response)
        → (do_request client show w o path header timeout).1 ≡ ok resp
        → pull_from client show
            (suc rounds)
            attempt
            (pos start)
            last_err
            origins
            timeout
            path
            header
            w
          ≡ ((do_request client show w o path header timeout).0, replied (ok resp))
    unfolding pull_from rem origin_at ◌+ℤ◌
    round_ok resp e = ground arith

    round_err :
        (e : Error)
        → (do_request client show w o path header timeout).1 ≡ err e
        → pull_from client show
            (suc rounds)
            attempt
            (pos start)
            last_err
            origins
            timeout
            path
            header
            w
          ≡ pull_from client show rounds
              (attempt + 1)
              (pos start)
              (some (wrap (str "origin " ++ o ++ str ": ") e))
              origins
              timeout
              path
              header
              (do_request client show w o path header timeout).0
    unfolding pull_from rem origin_at ◌+ℤ◌
    round_err e h = ground arith

  module _ (o : Str) (os : List Str) (last_err : Option Error) (w : W) where
    try_ok :
        (resp : Response)
        → (do_request client show w o path header timeout).1 ≡ ok resp
        → try_all (o ∷ os) last_err w
          ≡ ((do_request client show w o path header timeout).0, ok resp)
    try_ok resp e = ground arith

    try_err :
        (e : Error)
        → (do_request client show w o path header timeout).1 ≡ err e
        → try_all (o ∷ os) last_err w
          ≡ try_all os
              (some (wrap (str "origin " ++ o ++ str ": ") e))
              (do_request client show w o path header timeout).0
    try_err e h = ground arith

  abbrev as_outcome : W × Result Response → W × Outcome
  as_outcome (w, r) = (w, replied r)

  module _ (origins : List Str) (some_origin : 0 < length origins) where
    pull_from-rotation :
        (rounds attempt start : ℕ) (last_err : Option Error) (w : W)
        → pull_from client show rounds attempt (pos start) last_err origins timeout path header w
          ≡ as_outcome (try_all (rotation origins (start + attempt) rounds) last_err w)
    pull_from-rotation zero attempt start last_err w = unfold pull_from in refl
    pull_from-rotation (suc rounds) attempt start last_err w =
        let (o, at) =
          at_in_range origins ((start + attempt) % length origins)
            (mod-lt (start + attempt) some_origin) in
        let turned =
          ap (λ os. as_outcome (try_all os last_err w))
            (rotation_at origins (start + attempt) rounds o at) in
        let os = rotation origins (start + attempt + 1) rounds in
        elim (Result-cases (do_request client show w o path header timeout).1) [
          | inl (resp, e) ↦
              round_ok origins rounds attempt start last_err w o at resp e
              ∙ sym (ap as_outcome (try_ok o os last_err w resp e))
              ∙ sym turned
          | inr (e, failed) ↦
              round_err origins rounds attempt start last_err w o at e failed
              ∙ pull_from-rotation rounds (attempt + 1) start
                  (some (wrap (str "origin " ++ o ++ str ": ") e))
                  (do_request client show w o path header timeout).0
              ∙ ap
                  (λ i. as_outcome (
                    try_all (rotation origins i rounds)
                      (some (wrap (str "origin " ++ o ++ str ": ") e))
                      (do_request client show w o path header timeout).0))
                  (add_next start attempt)
              ∙ sym (ap as_outcome (try_err o os last_err w e failed))
              ∙ sym turned
        ]

-- While the counter is below 2 ^ 63, a `Pull` with some origin does not panic: it tries the origins
-- round the list, from the index `counter % n` on and `retry + 1` of them, and replies with the
-- first reply that is no error, or with the error of the last. The counter goes up by one.
pub pull-rotation :
    {W : Type 0} (client : Client W) (show : ℕ → Str) (counter : ℕ) (w : W) (o : Str)
    (os : List Str) (timeout : ℤ) (retry : ℕ) (path : Str) (header : Header)
    → counter < 2 ^ 63
    → let origins = o ∷ os in
      let tried = rotation origins (counter % length origins) (retry + 1) in
      let (w', reply) = try_all client show timeout path header tried none w in
      pull client show counter w origins timeout (pos retry) path header
      ≡ (counter + 1, (w', replied reply))
unfolding pull
pull-rotation client show counter w o os timeout retry path header small =
    let origins : List Str = o ∷ os in
    let n = length origins in
    let counted : (counter + 1) % 2 ^ 64 ≡ counter + 1 = omega arith in
    let first : counter % n + 0 ≡ counter % n = omega arith in
    let tried =
      ap (λ s. pull_from client show (retry + 1) 0 s none origins timeout path header w)
        (start_of-counter counter n small)
      ∙ pull_from-rotation client show timeout path header origins (omega arith) (retry + 1) 0
          (counter % n) none w
      ∙ ap
          (λ i.
            as_outcome client show timeout path header
              (try_all client show timeout path header (rotation origins i (retry + 1)) none w))
          first in
    λ i. (counted i, tried i)
