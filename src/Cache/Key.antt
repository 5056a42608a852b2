-- ===== src/Cache/Key.antt =====
-- internal/cache/key.go: cache keys. `short_hash` stands for the first eight bytes of SHA-1, in
-- hexadecimal.
pub mod Normal
pub mod Clash
use file_server.Prelude.{
  Str, str, ◌++◌, Map, find, List, [], ◌∷◌, str_eq, join, sort_strings, if◌then◌else◌, Option, none,
  some,
}
use file_server.Http.{Request, Header, header_get}
use file_server.Config.{KeyRulesConfig}

-- The loop of `buildQuery`: the first value of each listed parameter that the request has.
unfoldable pub query_pairs : Map (List Str) → List Str → List Str
query_pairs q [] = []
query_pairs q (name ∷ names) = elim (find name q) [
  | none ↦ query_pairs q names
  | some vals ↦ elim vals [
    | [] ↦ query_pairs q names
    | val ∷ _ ↦ (name ++ str "=" ++ val) ∷ query_pairs q names
  ]
]

-- `buildQuery`
unfoldable pub build_query : Request → List Str → Str
unfolding query_pairs join sort_strings
build_query req [] = []
build_query req (p ∷ ps) = join (sort_strings (query_pairs req.query (p ∷ ps))) (str "&")

-- The loop of `buildHeaderHash`: the listed headers whose value is not empty.
unfoldable pub header_pairs : Header → List Str → List Str
unfolding header_get
header_pairs h [] = []
header_pairs h (name ∷ names) =
    if str_eq (header_get h name) (str "")
    then header_pairs h names
    else (name ++ str "=" ++ header_get h name) ∷ header_pairs h names

-- The test of `len(parts)`, and the hash of the joined parts.
unfoldable pub hash_parts : (Str → Str) → List Str → Str
unfolding join sort_strings
hash_parts short_hash [] = []
hash_parts short_hash (p ∷ ps) = short_hash (join (sort_strings (p ∷ ps)) (str ";"))

-- `buildHeaderHash`
unfoldable pub build_header_hash : (Str → Str) → Request → List Str → Str
unfolding header_pairs hash_parts
build_header_hash short_hash req [] = []
build_header_hash short_hash req (h ∷ hs) = hash_parts short_hash (header_pairs req.header (h ∷ hs))

-- `KeyBuilder`
pub record KeyBuilder : Type 0 where
  pub global : KeyRulesConfig

-- The rules of a domain replace the global ones.
unfoldable pub rules_of : KeyBuilder → Option KeyRulesConfig → KeyRulesConfig
rules_of kb none = kb.global
rules_of kb (some rules) = rules

-- `Build`
unfoldable pub build : (Str → Str) → KeyBuilder → Str → Str → Request → Option KeyRulesConfig → Str
unfolding build_query build_header_hash rules_of
build short_hash kb domain rewritten_path req domain_rules =
    let rules = rules_of kb domain_rules in
    domain
    ++ str ":"
    ++ rewritten_path
    ++ str "?"
    ++ build_query req rules.include_query_params
    ++ str "#"
    ++ build_header_hash short_hash req rules.include_headers
