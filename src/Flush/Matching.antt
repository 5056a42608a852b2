-- ===== src/Flush/Matching.antt =====
-- internal/flush/store.go: `Match` finds the latest rule that covers a path.
use mathlib.Core.List.{Mem, mem-cons_self, mem-append, append-nil, append_assoc}
use mathlib.Core.Logic.Or
use file_server.Prelude.{
  Str, after, has_prefix, All, All-append, subst, List, [], ◌∷◌, ◌++◌, Bool, true, false, Option,
  none, some, ◌≡◌, ◌⊎◌, inl, inr, refl, arith,
}
use file_server.Flush.{Rule, Store, rules_at, later, match_from, match}

-- `latest` is what `Match` is to return for `path` among the rules `rs`: none where no prefix fits,
-- else one of the rules whose prefix fits, such that no other of them is later.
abbrev pub IsLatest : Str → List Rule → Option Rule → Type 0
IsLatest path rs none = All (λ r. has_prefix path r.prefix ≡ false) rs
IsLatest path rs (some l) =
    Mem l rs
    × (has_prefix path l.prefix ≡ true)
    × All (λ r. (has_prefix path r.prefix ≡ false) ⊎ (after r.created_at l.created_at ≡ false)) rs

-- A rule is passed over, or is not later than `l`.
abbrev NotAfter : Str → Rule → Rule → Type 0
NotAfter path l r = (has_prefix path r.prefix ≡ false) ⊎ (after r.created_at l.created_at ≡ false)

NotAfter-weaken :
    (path : Str) (l r : Rule) (seen : List Rule)
    → after r.created_at l.created_at ≡ true
    → All (NotAfter path l) seen
    → All (NotAfter path r) seen
NotAfter-weaken path l r [] newer h = tt
NotAfter-weaken path l r (s ∷ seen) newer h =
    (ground (arith, h.0), NotAfter-weaken path l r seen newer h.1)

NotAfter-misses :
    (path : Str) (r : Rule) (seen : List Rule)
    → All (λ s. has_prefix path s.prefix ≡ false) seen
    → All (NotAfter path r) seen
NotAfter-misses path r [] h = tt
NotAfter-misses path r (s ∷ seen) h = (inl h.0, NotAfter-misses path r seen h.1)

not_after_self : (r : Rule) → after r.created_at r.created_at ≡ false
not_after_self r = ground arith

mem-snoc : (r : Rule) (seen : List Rule) → Mem r (seen ++ r ∷ [])
mem-snoc r seen = mem-append.1 (Or.inr mem-cons_self)

mem-snoc_left : (l r : Rule) (seen : List Rule) → Mem l seen → Mem l (seen ++ r ∷ [])
mem-snoc_left l r seen m = mem-append.1 (Or.inl m)

-- One more rule, after those that the loop has passed.
module _ (path : Str) (r : Rule) (seen : List Rule) where
  later-none :
      (fits : Bool)
      → has_prefix path r.prefix ≡ fits
      → IsLatest path seen none
      → IsLatest path (seen ++ r ∷ []) (later path r none)
  unfolding later
  later-none true fits h = rw fits (
    mem-snoc r seen,
    fits,
    All-append (NotAfter path r) seen (r ∷ []) (NotAfter-misses path r seen h)
        (inr (not_after_self r), tt),
  )
  later-none false misses h =
      rw misses (All-append (λ s. has_prefix path s.prefix ≡ false) seen (r ∷ []) h (misses, tt))

  later-some :
      (l : Rule) (fits newer : Bool)
      → has_prefix path r.prefix ≡ fits
      → after r.created_at l.created_at ≡ newer
      → IsLatest path seen (some l)
      → IsLatest path (seen ++ r ∷ []) (later path r (some l))
  unfolding later
  later-some l false newer misses e h = rw misses (
    mem-snoc_left l r seen h.0,
    h.1,
    All-append (NotAfter path l) seen (r ∷ []) h.2 (inl misses, tt),
  )
  later-some l true true fits e h =
      rw (fits, e)
        (
          mem-snoc r seen,
          fits,
          All-append (NotAfter path r) seen (r ∷ []) (NotAfter-weaken path l r seen e h.2)
              (inr (not_after_self r), tt),
        )
  later-some l true false fits e h =
      rw (fits, e)
        (
          mem-snoc_left l r seen h.0,
          h.1,
          All-append (NotAfter path l) seen (r ∷ []) h.2 (inr e, tt),
        )

  later-IsLatest :
      (latest : Option Rule)
      → IsLatest path seen latest
      → IsLatest path (seen ++ r ∷ []) (later path r latest)
  later-IsLatest none h = later-none (has_prefix path r.prefix) refl h
  later-IsLatest (some l) h =
      later-some l (has_prefix path r.prefix) (after r.created_at l.created_at) refl refl h

match_from-IsLatest :
    (path : Str) (latest : Option Rule) (seen rs : List Rule)
    → IsLatest path seen latest
    → IsLatest path (seen ++ rs) (match_from path latest rs)
unfolding match_from
match_from-IsLatest path latest seen [] h = rw append-nil h
match_from-IsLatest path latest seen (r ∷ rs) h =
    subst (λ l. IsLatest path l (match_from path (later path r latest) rs))
      (append_assoc seen (r ∷ []) rs)
      (match_from-IsLatest path (later path r latest) (seen ++ r ∷ []) rs
        (later-IsLatest path r seen latest h))

-- `Match` returns the most recently created of the domain's rules whose prefix the path has, and
-- none exactly where no rule of the domain fits.
pub match-IsLatest :
    {S : Type 0} (st : Store S) (domain path : Str)
    → IsLatest path (rules_at domain st.rules) (match st domain path)
unfolding match
match-IsLatest st domain path = match_from-IsLatest path none [] (rules_at domain st.rules) tt
