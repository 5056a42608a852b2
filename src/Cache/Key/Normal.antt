-- ===== src/Cache/Key/Normal.antt =====
-- internal/cache/key.go: what a cache key does not depend on.
use mathlib.Core.List.{Perm, Permᴰ}
use file_server.Prelude.{
  Str, str, ◌++◌, List, [], ◌∷◌, join, sort_strings, insert_sorted, str_leb, Option, none, some,
  Map, All, ◌≡◌, ◌∙◌, refl, arith, true, false, find,
}
use native.Mathlib.Nat.{ℕ_set}
use mathlib.Core.Logic.{∥∥₁_elim}
use file_server.Http.{Request, Header, header_get, first_value}
use file_server.Config.{KeyRulesConfig}
use file_server.Cache.Key.{
  KeyBuilder, query_pairs, build_query, header_pairs, build_header_hash, hash_parts, rules_of,
  build,
}

Str-set : IsSet Str
Str-set = hlevel ℕ_set

str_leb_antisym : (s t : Str) → str_leb s t ≡ true → str_leb t s ≡ true → s ≡ t
unfolding str_leb
str_leb_antisym [] [] h k = refl
str_leb_antisym [] (d ∷ t) h k = cc
str_leb_antisym (c ∷ s) [] h k = cc
str_leb_antisym (c ∷ s) (d ∷ t) h k = ground (arith, str_leb_antisym s t)

str_leb_total : (s t : Str) → str_leb s t ≡ false → str_leb t s ≡ true
unfolding str_leb
str_leb_total [] t h = cc
str_leb_total (c ∷ s) [] h = refl
str_leb_total (c ∷ s) (d ∷ t) h = ground (arith, str_leb_total s t)

str_leb_trans : (s t u : Str) → str_leb s t ≡ true → str_leb t u ≡ true → str_leb s u ≡ true
unfolding str_leb
str_leb_trans [] t u h k = refl
str_leb_trans (c ∷ s) [] u h k = cc
str_leb_trans (c ∷ s) (d ∷ t) [] h k = cc
str_leb_trans (c ∷ s) (d ∷ t) (e ∷ u) h k = ground (arith, str_leb_trans s t u)

insert_sorted_comm :
    (a b : Str) (l : List Str)
    → insert_sorted a (insert_sorted b l) ≡ insert_sorted b (insert_sorted a l)
unfolding insert_sorted
insert_sorted_comm a b [] =
    ground (arith, str_leb_antisym a b, str_leb_total a b, str_leb_total b a)
insert_sorted_comm a b (c ∷ l) = ground (
  arith,
  insert_sorted_comm a b l,
  str_leb_antisym a b,
  str_leb_total a b,
  str_leb_total b a,
  str_leb_trans b a c,
  str_leb_trans a b c,
)

-- The sorted pairs do not depend on the order of the names.
module _ (q : Map (List Str)) where
  sorted_query_pairs :
      (l m : List Str) → Permᴰ l m → sort_strings (query_pairs q l) ≡ sort_strings (query_pairs q m)
  unfolding sort_strings query_pairs
  sorted_query_pairs l m (Permᴰ.nil) = refl
  sorted_query_pairs l m (Permᴰ.cons {a = a} {l₁ = l₁} {l₂ = l₂} e p) =
      ground (arith, sorted_query_pairs l₁ l₂ p)
  sorted_query_pairs l m (Permᴰ.swap {a = a} {b = b} {l = r} e e') = ground (
    arith,
    insert_sorted_comm (a ++ str "=" ++ first_value (find a q))
        (b ++ str "=" ++ first_value (find b q)) (sort_strings (query_pairs q r)),
  )
  sorted_query_pairs l m (Permᴰ.trans {l₂ = k} p p') =
      sorted_query_pairs l k p ∙ sorted_query_pairs k m p'

module _ (h : Header) where
  sorted_header_pairs :
      (l m : List Str)
      → Permᴰ l m
      → sort_strings (header_pairs h l) ≡ sort_strings (header_pairs h m)
  unfolding sort_strings header_pairs
  sorted_header_pairs l m (Permᴰ.nil) = refl
  sorted_header_pairs l m (Permᴰ.cons {a = a} {l₁ = l₁} {l₂ = l₂} e p) =
      ground (arith, sorted_header_pairs l₁ l₂ p)
  sorted_header_pairs l m (Permᴰ.swap {a = a} {b = b} {l = r} e e') = ground (
    arith,
    insert_sorted_comm (a ++ str "=" ++ header_get h a) (b ++ str "=" ++ header_get h b)
        (sort_strings (header_pairs h r)),
  )
  sorted_header_pairs l m (Permᴰ.trans {l₂ = k} p p') =
      sorted_header_pairs l k p ∙ sorted_header_pairs k m p'

build_query_sorted :
    (req : Request) (l : List Str)
    → build_query req l ≡ join (sort_strings (query_pairs req.query l)) (str "&")
unfolding build_query query_pairs sort_strings join
build_query_sorted req [] = refl
build_query_sorted req (n ∷ l) = refl

-- The hash of a list that is sorted already.
hash_sorted : (Str → Str) → List Str → Str
hash_sorted short_hash [] = []
hash_sorted short_hash (p ∷ ps) = short_hash (join (p ∷ ps) (str ";"))

hash_insert :
    (f : Str → Str) (p : Str) (ps : List Str)
    → f (join (insert_sorted p ps) (str ";")) ≡ hash_sorted f (insert_sorted p ps)
unfolding hash_sorted insert_sorted
hash_insert f p [] = refl
hash_insert f p (q ∷ ps) = ground arith

hash_parts_sorted :
    (f : Str → Str) (ps : List Str) → hash_parts f ps ≡ hash_sorted f (sort_strings ps)
unfolding hash_parts sort_strings hash_sorted
hash_parts_sorted f [] = refl
hash_parts_sorted f (p ∷ ps) = hash_insert f p (sort_strings ps)

build_header_hash_sorted :
    (f : Str → Str) (req : Request) (l : List Str)
    → build_header_hash f req l ≡ hash_sorted f (sort_strings (header_pairs req.header l))
unfolding build_header_hash header_pairs sort_strings hash_sorted
build_header_hash_sorted f req [] = refl
build_header_hash_sorted f req (n ∷ l) = hash_parts_sorted f (header_pairs req.header (n ∷ l))

-- The key does not change when the lists of parameters and of headers in the rules are permuted.
pub build_permuted :
    (short_hash : Str → Str) (kb : KeyBuilder) (domain path : Str) (req : Request)
    (rules rules' : KeyRulesConfig)
    → Perm rules.include_query_params rules'.include_query_params
    → Perm rules.include_headers rules'.include_headers
    → build short_hash kb domain path req (some rules)
      ≡ build short_hash kb domain path req (some rules')
unfolding build
build_permuted short_hash kb domain path req rules rules' ps hs =
    ∥∥₁_elim ps (λ x y. Str-set _ _ x y)
      λ p.
        ∥∥₁_elim hs (λ x y. Str-set _ _ x y)
          λ h. ground (
            arith,
            build_query_sorted req rules.include_query_params,
            build_query_sorted req rules'.include_query_params,
            build_header_hash_sorted short_hash req rules.include_headers,
            build_header_hash_sorted short_hash req rules'.include_headers,
            sorted_query_pairs req.query rules.include_query_params rules'.include_query_params p,
            sorted_header_pairs req.header rules.include_headers rules'.include_headers h,
          )

abbrev pub first? : Option (List Str) → Option Str
first? none = none
first? (some []) = none
first? (some (v ∷ vs)) = some v

-- Two requests agree on what the rules list: the first value of each parameter, or its absence,
-- and the first value of each header.
pub record SameFor (rules : KeyRulesConfig) (r r' : Request) : Type 0 where
  pub params :
      All
        (λ name. first? (find name r.query) ≡ first? (find name r'.query))
        rules.include_query_params
  pub headers :
      All (λ name. header_get r.header name ≡ header_get r'.header name) rules.include_headers

query_pairs_same :
    (q q' : Map (List Str)) (l : List Str)
    → All (λ name. first? (find name q) ≡ first? (find name q')) l
    → query_pairs q l ≡ query_pairs q' l
unfolding query_pairs
query_pairs_same q q' [] h = refl
query_pairs_same q q' (n ∷ l) h = ground (arith, query_pairs_same q q' l h.1)

header_pairs_same :
    (k k' : Header) (l : List Str)
    → All (λ name. header_get k name ≡ header_get k' name) l
    → header_pairs k l ≡ header_pairs k' l
unfolding header_pairs
header_pairs_same k k' [] h = refl
header_pairs_same k k' (n ∷ l) h = rw h.0 (ground (arith, header_pairs_same k k' l h.1))

-- Requests that agree on the parameters and headers of the rules in force have the same key:
-- no other parameter, no further value of a parameter, and no other header is part of it.
pub build_same :
    (short_hash : Str → Str) (kb : KeyBuilder) (domain path : Str) (r r' : Request)
    (domain_rules : Option KeyRulesConfig)
    → SameFor (rules_of kb domain_rules) r r'
    → build short_hash kb domain path r domain_rules
      ≡ build short_hash kb domain path r' domain_rules
unfolding build
build_same short_hash kb domain path r r' dr same =
    let rules = rules_of kb dr in
    ground (
      arith,
      build_query_sorted r rules.include_query_params,
      build_query_sorted r' rules.include_query_params,
      build_header_hash_sorted short_hash r rules.include_headers,
      build_header_hash_sorted short_hash r' rules.include_headers,
      query_pairs_same r.query r'.query rules.include_query_params same.params,
      header_pairs_same r.header r'.header rules.include_headers same.headers,
    )
