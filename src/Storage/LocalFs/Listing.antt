-- ===== src/Storage/LocalFs/Listing.antt =====
-- internal/storage/localfs.go: what `List` finds.
use file_server.Prelude.{
  Str, str, Map, find, has_prefix, str_dec, insert_sorted, sort_strings, str_leb, map, List, [],
  ◌∷◌, true, false, Bool-cases, none, some, ◌≡◌, ◌⊎◌, Option-cases, ◌∙◌, refl, sym, ap, subst,
  arith, inl, inr, if_neg,
}
use file_server.Errors.{ok}
use file_server.Storage.{IsText, Metadata}
use file_server.Storage.Os.{File, Directory, Host}
use file_server.Storage.LocalFs.{meta_path, has_suffix, read_meta, listed, list_names, list, write}
use file_server.Storage.LocalFs.Names.{IsReliable, IsPlain}
use file_server.Storage.LocalFs.Success.{IsStored}
use file_server.Storage.LocalFs.Laws.{written_stored}

-- A list holds a text.
abbrev pub Holds : Str → List Str → Type 0
Holds x [] = ⊥
Holds x (s ∷ l) = (x ≡ s) ⊎ Holds x l

insert_sorted-Holds_self : (s : Str) (l : List Str) → Holds s (insert_sorted s l)
unfolding insert_sorted
insert_sorted-Holds_self s [] = inl refl
insert_sorted-Holds_self s (t ∷ l) = elim (Bool-cases (str_leb s t)) [
  | inl le ↦ rw le (inl refl)
  | inr gt ↦ rw gt (inr (insert_sorted-Holds_self s l))
]

insert_sorted-Holds : (x s : Str) (l : List Str) → Holds x l → Holds x (insert_sorted s l)
unfolding insert_sorted
insert_sorted-Holds x s [] m = absurd m
insert_sorted-Holds x s (t ∷ l) m = elim (Bool-cases (str_leb s t)) [
  | inl le ↦ rw le (inr m)
  | inr gt ↦ rw gt (elim m [ inl e ↦ inl e | inr m' ↦ inr (insert_sorted-Holds x s l m') ])
]

sort_strings-Holds : (x : Str) (l : List Str) → Holds x l → Holds x (sort_strings l)
unfolding sort_strings
sort_strings-Holds x [] m = m
sort_strings-Holds x (t ∷ l) m = elim m [
  | inl e ↦
      subst (λ y. Holds y (insert_sorted t (sort_strings l))) (sym e)
        (insert_sorted-Holds_self t (sort_strings l))
  | inr m' ↦ insert_sorted-Holds x t (sort_strings l) (sort_strings-Holds x l m')
]

-- A file that is there is among the entries.
names-Holds :
    (x : Str) (f : File) (files : Map File)
    → find x files ≡ some f
    → Holds x (map (λ (e : Str × File). e.0) files)
unfolding find
names-Holds x f [] e = absurd (cc)
names-Holds x f ((y, g) ∷ files) e = elim (str_dec y x) [
  | yes same ↦ inl (sym same)
  | no n ↦ inr (names-Holds x f files (sym (if_neg (str_dec y x) n (some g) (find x files)) ∙ e))
]

-- A text with no dot has no suffix that holds one, and no prefix that starts with one.
plain-has_suffix : (s : Str) → IsPlain s → has_suffix s (str ".meta") ≡ false
unfolding has_suffix str_dec
plain-has_suffix [] h = refl
plain-has_suffix (c ∷ s) h = ground (arith, plain-has_suffix s h.1, h.0)

plain-has_prefix : (s : Str) → IsPlain s → has_prefix s (str ".tmp") ≡ false
unfolding has_prefix
plain-has_prefix [] h = refl
plain-has_prefix (c ∷ s) h = ground (arith, h.0)

module _ (host : Host) where
  list_names-Holds :
      (d : Directory) (prefix name key : Str) (names : List Str)
      → listed host d prefix name ≡ some key
      → Holds name names
      → Holds key (list_names host d prefix names)
  unfolding list_names
  list_names-Holds d prefix name key [] e m = absurd m
  list_names-Holds d prefix name key (n ∷ names) e m = elim m [
    | inl same ↦
        let here : listed host d prefix n ≡ some key = ap (listed host d prefix) (sym same) ∙ e in
        rw (here, Holds, list_names) (inl refl)
    | inr m' ↦
        let rest = list_names-Holds d prefix name key names e m' in
        elim (Option-cases (listed host d prefix n)) [
          | inl skipped ↦ rw (skipped, Holds, list_names) rest
          | inr (other, taken) ↦ rw (taken, Holds, list_names) (inr rest)
        ]
  ]

  listed_stored :
      (reliable : IsReliable host) (d : Directory) (k prefix bytes key : Str) (m : Metadata)
      → IsStored host d (host.digest k) bytes m
      → find (str "key") m.custom_meta ≡ some key
      → has_prefix key prefix ≡ true
      → listed host d prefix (host.digest k) ≡ some key
  unfolding listed read_meta
  listed_stored reliable d k prefix bytes key m (f, g, at, same, meta_at, decoded) named fits =
      ground (
        arith,
        plain-has_suffix (host.digest k) (reliable.plain k),
        plain-has_prefix (host.digest k) (reliable.plain k),
        reliable.opens (meta_path host (host.digest k)),
      )

  list_lem :
      (d : Directory) (prefix : Str)
      → host.open_error [] ≡ none
      → list host d prefix
        ≡ ok (list_names host d prefix (sort_strings (map (λ (e : Str × File). e.0) d.files)))
  unfolding list
  list_lem d prefix opens = ground arith

  -- On a host where the digests of different keys differ and have no dot, opens do not fail and JSON
  -- keeps ASCII metadata: after a `Write` that succeeded with ASCII metadata that hold the original
  -- key, `List` of each prefix of that key succeeds and holds the key.
  pub list-write :
      (d : Directory) (k prefix bytes key : Str) (m : Metadata) (reliable : IsReliable host)
      → (write host d k (ok bytes) (some m)).1 ≡ none
      → IsText m
      → find (str "key") m.custom_meta ≡ some key
      → has_prefix key prefix ≡ true
      → (keys : List Str) × (list host (write host d k (ok bytes) (some m)).0 prefix ≡ ok keys)
        × Holds key keys
  list-write d k prefix bytes key m reliable done text named fits =
      let d' = (write host d k (ok bytes) (some m)).0 in
      let (f, g, at, _, _, _) = written_stored host reliable k bytes m d done in
      let names = map (λ (e : Str × File). e.0) d'.files in
      (
        list_names host d' prefix (sort_strings names),
        list_lem d' prefix (reliable.opens []),
        list_names-Holds d' prefix (host.digest k) key (sort_strings names)
            (listed_stored reliable d' k prefix bytes key (reliable.kept m)
              (written_stored host reliable k bytes m d done)
              ((reliable.kept_text m text).3 (str "key") ∙ named) fits)
            (sort_strings-Holds (host.digest k) names (names-Holds (host.digest k) f d'.files at)),
      )
