-- ===== src/Cache/Key/Clash.antt =====
-- internal/cache/key.go: different requests with the same cache key.
use file_server.Prelude.{
  Str, str, ◌++◌, List, [], ◌∷◌, str_leb, sort_strings, insert_sorted, join, none, some, ◌≡◌, find,
  arith, true, refl, ap,
}
use mathlib.Core.List.{append_assoc}
use file_server.Http.{Request}
use file_server.Config.{KeyRulesConfig}
use file_server.Cache.Key.{
  KeyBuilder, query_pairs, header_pairs, hash_parts, build_query, build_header_hash, build,
}

header_hash_same :
    (f : Str → Str) (r r' : Request) (l : List Str)
    → r.header ≡ r'.header
    → build_header_hash f r l ≡ build_header_hash f r' l
unfolding build_header_hash
header_hash_same f r r' [] same = refl
header_hash_same f r r' (n ∷ l) same = ap (λ h. hash_parts f (header_pairs h (n ∷ l))) same

module _ (a b v w : Str) (r r' : Request) where
  abbrev joined : Str
  joined = a ++ str "=" ++ v ++ str "&" ++ b ++ str "=" ++ w

  query_of_first :
      find a r.query ≡ some ((v ++ str "&" ++ b ++ str "=" ++ w) ∷ [])
      → find b r.query ≡ none
      → build_query r (a ∷ b ∷ []) ≡ joined
  unfolding build_query query_pairs sort_strings insert_sorted join
  query_of_first ha hb = rw (ha, query_pairs, hb) (simp append_assoc)

  query_of_both :
      str_leb (a ++ str "=" ++ v) (b ++ str "=" ++ w) ≡ true
      → find a r'.query ≡ some (v ∷ [])
      → find b r'.query ≡ some (w ∷ [])
      → build_query r' (a ∷ b ∷ []) ≡ joined
  unfolding build_query query_pairs sort_strings insert_sorted join
  query_of_both order ha hb = rw (ha, query_pairs, hb) (rw order (simp append_assoc))

-- A parameter's value is put into the key as it is. So where the rules list two parameters, a
-- request whose first parameter contains the text of the second, and that lacks the second, has
-- the key of a request that has both, whatever the values (the pairs in the order of the sort).
pub build_clash :
    (short_hash : Str → Str) (kb : KeyBuilder) (domain path a b v w : Str) (r r' : Request)
    (rules : KeyRulesConfig)
    → rules.include_query_params ≡ a ∷ b ∷ []
    → str_leb (a ++ str "=" ++ v) (b ++ str "=" ++ w) ≡ true
    → find a r.query ≡ some ((v ++ str "&" ++ b ++ str "=" ++ w) ∷ [])
    → find b r.query ≡ none
    → find a r'.query ≡ some (v ∷ [])
    → find b r'.query ≡ some (w ∷ [])
    → r.header ≡ r'.header
    → build short_hash kb domain path r (some rules)
      ≡ build short_hash kb domain path r' (some rules)
unfolding build
build_clash f kb domain path a b v w r r' rules names order ra rb ra' rb' same = rw names (
    ground (
      arith,
      query_of_first a b v w r r' ra rb,
      query_of_both a b v w r r' order ra' rb',
      header_hash_same f r r' rules.include_headers same,
    ))
