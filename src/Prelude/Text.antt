-- ===== src/Prelude/Text.antt =====
-- Go strings as lists of bytes, and what the program uses of the package `strings`.
use Prim.Native.Nat.{ℕ, ◌+◌, ◌-◌, ◌*◌, ◌^◌}
use Prim.Native.Char.{code}
use Prim.Native.String.{String}
use mathlib.Core.Path.{◌≡◌, refl, ap₂}
use mathlib.Core.Bool.{Bool, true, false, ◌&&◌, ◌||◌}
use mathlib.Core.List.{List, [], ◌∷◌, ◌++◌}
use mathlib.Core.Logic.{ite}
use mathlib.Core.Option.{Option, none, some}
use native.Mathlib.Omega.{arith}
use native.Mathlib.Decide.{ℕ_discrete}
use file_server.Prelude.Int.{ℤ, pos, negsuc}
use file_server.Prelude.Tests.{ltb, leb, ◌==◌, if◌then◌else◌}

abbrev pub Str : Type 0
Str = List ℕ

-- A literal: its code points, which are its bytes, for all literals of the program are ASCII.
abbrev pub str : String → Str
str String.[] = []
str (String.◌∷◌ c s) = code c ∷ str s

cons_dec : (c d : ℕ) (s t : Str) → Dec (c ≡ d) → Dec (s ≡ t) → Dec (◌≡◌ {A = Str} (c ∷ s) (d ∷ t))
cons_dec c d s t (yes p) (yes q) = yes (ap₂ ◌∷◌ p q)
cons_dec c d s t (no p) _ = no (λ e. p (ground arith))
cons_dec c d s t (yes _) (no q) = no (λ e. q (ground arith))

unfoldable pub str_dec : Discrete Str
unfolding cons_dec ℕ_discrete
str_dec [] [] = yes refl
str_dec [] (d ∷ t) = no (λ e. cc)
str_dec (c ∷ s) [] = no (λ e. cc)
str_dec (c ∷ s) (d ∷ t) = cons_dec c d s t (ℕ_discrete c d) (str_dec s t)

-- `s == t`
abbrev pub str_eq : Str → Str → Bool
str_eq s t = ite (str_dec s t) true false

-- strings.HasPrefix(s, prefix)
unfoldable pub has_prefix : Str → Str → Bool
has_prefix s [] = true
has_prefix [] (p ∷ ps) = false
has_prefix (c ∷ s) (p ∷ ps) = if c == p then has_prefix s ps else false

-- strings.TrimPrefix(s, prefix), where the prefix is there
unfoldable pub trim_prefix : Str → Str → Str
trim_prefix s [] = s
trim_prefix [] (p ∷ ps) = []
trim_prefix (c ∷ s) (p ∷ ps) = trim_prefix s ps

-- strings.Contains(s, sub)
unfoldable pub contains : Str → Str → Bool
unfolding has_prefix
contains [] sub = has_prefix [] sub
contains (c ∷ s) sub = has_prefix (c ∷ s) sub || contains s sub

-- strings.ToLower, on the bytes of an ASCII text
unfoldable pub lower_byte : ℕ → ℕ
lower_byte c = if leb b'A' c && leb c b'Z' then c + 32 else c

unfoldable pub to_lower : Str → Str
unfolding lower_byte
to_lower [] = []
to_lower (c ∷ s) = lower_byte c ∷ to_lower s

-- The head of a split takes one more byte.
abbrev pub push_byte : ℕ → List Str → List Str
push_byte c [] = (c ∷ []) ∷ []
push_byte c (w ∷ ws) = (c ∷ w) ∷ ws

-- strings.Split(s, sep), of a separator of one byte
unfoldable pub split : Str → ℕ → List Str
split [] sep = [] ∷ []
split (c ∷ s) sep = let rest = split s sep in if c == sep then [] ∷ rest else push_byte c rest

-- White space of strings.TrimSpace, in ASCII.
abbrev pub is_space : ℕ → Bool
is_space c = (leb 9 c && leb c 13) || c == 32

unfoldable pub trim_left : Str → Str
trim_left [] = []
trim_left (c ∷ s) = if is_space c then trim_left s else c ∷ s

unfoldable pub trim_right : Str → Str
trim_right [] = []
trim_right (c ∷ s) =
    let rest = trim_right s in
    elim rest [ [] ↦ if is_space c then [] else c ∷ [] | d ∷ ds ↦ c ∷ d ∷ ds ]

unfoldable pub trim_space : Str → Str
unfolding trim_left trim_right
trim_space s = trim_right (trim_left s)

-- strings.Join(parts, sep)
unfoldable pub join : List Str → Str → Str
join [] sep = []
join (s ∷ []) sep = s
join (s ∷ t ∷ rest) sep = s ++ sep ++ join (t ∷ rest) sep

-- `s <= t`, in the order of bytes
unfoldable pub str_leb : Str → Str → Bool
str_leb [] t = true
str_leb (c ∷ s) [] = false
str_leb (c ∷ s) (d ∷ t) = if c == d then str_leb s t else ltb c d

-- sort.Strings: equal strings cannot be told apart, so every sort gives this list.
unfoldable pub insert_sorted : Str → List Str → List Str
unfolding str_leb
insert_sorted s [] = s ∷ []
insert_sorted s (t ∷ ts) = if str_leb s t then s ∷ t ∷ ts else t ∷ insert_sorted s ts

unfoldable pub sort_strings : List Str → List Str
unfolding insert_sorted
sort_strings [] = []
sort_strings (s ∷ ss) = insert_sorted s (sort_strings ss)

-- strconv.Atoi: an optional sign and decimal digits, within 64 bits.
unfoldable pub digits : ℕ → Str → Option ℕ
digits n [] = some n
digits n (c ∷ s) =
    let rest = digits (n * 10 + (c - 48)) s in if leb b'0' c && leb c b'9' then rest else none

unfoldable pub natural : Str → Option ℕ
unfolding digits
natural [] = none
natural (c ∷ s) = digits 0 (c ∷ s)

abbrev pub as_positive : Option ℕ → Option ℤ
as_positive none = none
as_positive (some n) = if ltb n (2 ^ 63) then some (pos n) else none

abbrev pub as_negative : Option ℕ → Option ℤ
as_negative none = none
as_negative (some n) =
    if n == 0 then some (pos 0) else if leb n (2 ^ 63) then some (negsuc (n - 1)) else none

unfoldable pub atoi : Str → Option ℤ
unfolding natural
atoi [] = none
atoi (c ∷ s) =
    if c == b'-'
    then as_negative (natural s)
    else if c == b'+'
    then as_positive (natural s)
    else as_positive (natural (c ∷ s))

pub has_prefix-append : (p s : Str) → has_prefix (p ++ s) p ≡ true
unfolding has_prefix
has_prefix-append [] s = refl
has_prefix-append (c ∷ p) s = ground (arith, has_prefix-append p s)

pub str_dec_refl {ℓ} : {A : Type ℓ} (s : Str) (x y : A) → ite (str_dec s s) x y ≡ x
str_dec_refl s x y = ground arith
