-- ===== src/Origin/Overflow.antt =====
-- internal/origin/puller.go: the counter once it has passed 2 ^ 63.
use native.Mathlib.Nat.{mod-lt, mod-eq_of_lt}
use file_server.Prelude.{
  ℕ, suc, ◌+◌, ◌-◌, ◌^◌, ◌%◌, ◌<◌, ◌≤◌, Str, ℤ, pos, negsuc, ◌+ℤ◌, wrap_64, length, List, ◌∷◌,
  Option, none, ◌≡◌, arith, ap, ◌∙◌,
}
use file_server.Errors.{Error}
use file_server.Http.{Header}
use file_server.Origin.{Client, rem, origin_at, panicked, start_of, pull_from, pull}

counter_same : (c : ℕ) → c < 2 ^ 64 → ((c + 1) % 2 ^ 64 + 2 ^ 64 - 1) % 2 ^ 64 ≡ c
counter_same c h = omega arith

wrap_64_negative : (c : ℕ) → 2 ^ 63 ≤ c → c < 2 ^ 64 → wrap_64 (pos c) ≡ negsuc (2 ^ 64 - 1 - c)
unfolding wrap_64
wrap_64_negative c low high = ground arith

rem_negative : (a n : ℕ) → 0 < (a + 1) % n → rem (negsuc a) n ≡ negsuc ((a + 1) % n - 1)
unfolding rem
rem_negative a n h = ground arith

complement : (c : ℕ) → c < 2 ^ 64 → 2 ^ 64 - 1 - c + 1 ≡ 2 ^ 64 - c
complement c h = omega arith

start_of_negative :
    (c n : ℕ)
    → 2 ^ 63 ≤ c
    → c < 2 ^ 64
    → 0 < (2 ^ 64 - c) % n
    → start_of c n ≡ negsuc ((2 ^ 64 - c) % n - 1)
unfolding start_of
start_of_negative c n low high uneven =
    let whole = complement c high in
    rw (counter_same c high, wrap_64_negative c low high)
      (rem_negative (2 ^ 64 - 1 - c) n (rw whole uneven) ∙ ap (λ a. negsuc (a % n - 1)) whole)

one_more : (n : ℕ) → n + 1 ≡ suc n
one_more n = omega arith

plus_zero : (a : ℕ) → negsuc a +ℤ pos 0 ≡ negsuc a
unfolding ◌+ℤ◌
plus_zero a = ground arith

index_negative : (r n : ℕ) → 0 < r → r < n → rem (negsuc (r - 1) +ℤ pos 0) n ≡ negsuc (r - 1)
index_negative r n positive fits =
    let back : r - 1 + 1 ≡ r = omega arith in
    let same : (r - 1 + 1) % n ≡ r = ap (λ a. a % n) back ∙ mod-eq_of_lt fits in
    ap (λ a. rem a n) (plus_zero (r - 1))
    ∙ rem_negative (r - 1) n (rw same positive)
    ∙ ap (λ a. negsuc (a - 1)) same

module _ {W : Type 0} (client : Client W) (show : ℕ → Str) (timeout : ℤ) (path : Str)
    (header : Header) (w : W) where
  -- A negative index is out of range.
  pull_from_negative :
      (origins : List Str) (r rounds : ℕ) (last_err : Option Error)
      → 0 < r
      → r < length origins
      → pull_from client show (suc rounds) 0 (negsuc (r - 1)) last_err origins timeout path header w
        ≡ (w, panicked)
  unfolding pull_from origin_at rem ◌+ℤ◌
  pull_from_negative origins r rounds last_err positive fits =
      ground (arith, index_negative r (length origins) positive fits)

-- With a counter from 2 ^ 63 on, whose distance to 2 ^ 64 the number of origins does not divide, a
-- `Pull` panics before it has made any request.
pub pull_panics :
    {W : Type 0} (client : Client W) (show : ℕ → Str) (counter : ℕ) (w : W) (o : Str)
    (os : List Str) (timeout : ℤ) (retry : ℕ) (path : Str) (header : Header)
    → 2 ^ 63 ≤ counter
    → counter < 2 ^ 64
    → 0 < (2 ^ 64 - counter) % length (o ∷ os)
    → pull client show counter w (o ∷ os) timeout (pos retry) path header
      ≡ ((counter + 1) % 2 ^ 64, (w, panicked))
unfolding pull
pull_panics client show counter w o os timeout retry path header low high uneven =
    let n = length (o ∷ os) in
    ap (λ s. ((counter + 1) % 2 ^ 64, s))
      (ap (λ s. pull_from client show (retry + 1) 0 s none (o ∷ os) timeout path header w)
          (start_of_negative counter n low high uneven)
        ∙ ap
            (λ k.
              pull_from client show k 0 (negsuc ((2 ^ 64 - counter) % n - 1)) none (o ∷ os) timeout
                path header w)
            (one_more retry)
        ∙ pull_from_negative client show timeout path header w (o ∷ os) ((2 ^ 64 - counter) % n)
            retry none uneven (mod-lt (2 ^ 64 - counter) (omega arith)))
