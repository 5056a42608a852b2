-- ===== src/Errors.antt =====
-- Go's `error` values and the results of fallible calls.
use file_server.Prelude.{Str, ◌++◌, Option, none, some, ◌≡◌, ◌⊎◌, inl, inr, refl}

-- `leaf` is an error with a text of its own (`fmt.Errorf` with no `%w`, `errors.New`); `wrap` is
-- `fmt.Errorf("...%w")`, whose text is the prefix before the text of the wrapped error.
pub data Error : Type 0 where
  leaf : Str → Error
  wrap : Str → Error → Error

-- `err.Error()`
unfoldable pub text : Error → Str
text (leaf s) = s
text (wrap s e) = s ++ text e

pub data Result {ℓ} (A : Type ℓ) : Type ℓ where
  ok : A → Result A
  err : Error → Result A

pub Result-cases {ℓ} :
    {A : Type ℓ} (r : Result A) → ((a : A) × (r ≡ ok a)) ⊎ ((e : Error) × (r ≡ err e))
Result-cases (ok a) = inl (a, refl)
Result-cases (err e) = inr (e, refl)

-- The error of a call whose result is only an error, `nil` for success.
abbrev pub Failure : Type 0
Failure = Option Error

-- `if err := ...; err != nil { return fmt.Errorf(prefix + "%w", err) }; return nil`
unfoldable pub wrap_failure : Str → Failure → Failure
wrap_failure prefix none = none
wrap_failure prefix (some e) = some (wrap prefix e)
