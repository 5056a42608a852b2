-- ===== src/Tests/Files.antt =====
-- Concrete runs of the local file storage.
use file_server.Prelude.{
  Bool, ltb, ◌&&◌, ℕ, List, ap, sym, ◌∙◌, zero, suc, ◌+◌, Str, str, str_dec, find, put, remove,
  has_prefix, pos, All, [], ◌∷◌, true, none, some, ◌≡◌, ◌≢◌, ◌⊎◌, ◌++◌, refl, arith, Map,
}
use file_server.Errors.{Error, leaf, wrap, Result, ok, err}
use file_server.Storage.{StorageLaws, IsAscii, IsText, Metadata, empty_metadata}
use file_server.Storage.Os.{Directory, Host, create_temp, write_bytes, close, rename, remove_file}
use file_server.Storage.LocalFs.{local_fs, list, read, write, finish, place, seal, fill, write_meta}
use file_server.Storage.LocalFs.Names.{IsReliable}
use file_server.Storage.LocalFs.Laws.{local_fs-laws}
use file_server.Storage.LocalFs.Listing.{Holds, list-write}
use file_server.Storage.LocalFs.Atomic.{read-write_failed}

-- A digest whose bytes all come after the dot.
abbrev shift : Str → Str
shift [] = []
shift (c ∷ s) = (c + 47) ∷ shift s

shift-injective : (s t : Str) → shift s ≡ shift t → s ≡ t
shift-injective [] [] e = refl
shift-injective [] (c ∷ t) e = absurd (cc)
shift-injective (c ∷ s) [] e = absurd (cc)
shift-injective (c ∷ s) (d ∷ t) e = ground (arith, shift-injective s t)

shift_plain : (s : Str) → All (λ c. c ≢ b'.') (shift s)
shift_plain [] = tt
shift_plain (c ∷ s) = ((λ e. omega arith), shift_plain s)

-- An encoding of any metadata: the fields, the custom ones as a key and a value each, every byte
-- moved up by one, and a zero at the end of each.
abbrev of_key : Str → Metadata
of_key k = record (empty_metadata) {
  content_type = str "text/plain";
  custom_meta = (str "key", k) ∷ (str "written_at", str "0") ∷ (str "ttl", str "10s") ∷ [];
}

abbrev add_field : Str → Str → Str
add_field [] rest = 0 ∷ rest
add_field (c ∷ f) rest = suc c ∷ add_field f rest

abbrev join_fields : List Str → Str
join_fields [] = []
join_fields (f ∷ fs) = add_field f (join_fields fs)

abbrev push : ℕ → List Str → List Str
push c [] = (c ∷ []) ∷ []
push c (f ∷ fs) = (c ∷ f) ∷ fs

abbrev split_fields : Str → List Str
split_fields [] = []
split_fields (zero ∷ s) = [] ∷ split_fields s
split_fields (suc c ∷ s) = push c (split_fields s)

abbrev custom_fields : Map Str → List Str
custom_fields [] = []
custom_fields ((k, v) ∷ m) = k ∷ v ∷ custom_fields m

abbrev custom_of : List Str → Map Str
custom_of (k ∷ v ∷ fs) = (k, v) ∷ custom_of fs
custom_of _ = []

abbrev encode_meta : Metadata → Result Str
encode_meta m =
    ok (join_fields (m.content_type ∷ m.cache_control ∷ m.expires ∷ custom_fields m.custom_meta))

abbrev meta_of : List Str → Result Metadata
meta_of (t ∷ control ∷ exp ∷ custom) = ok (record {
  content_type = t;
  cache_control = control;
  expires = exp;
  custom_meta = custom_of custom;
})
meta_of _ = err (leaf (str "malformed"))

abbrev decode_meta : Str → Result Metadata
decode_meta bytes = meta_of (split_fields bytes)

split-add_field : (f rest : Str) → split_fields (add_field f rest) ≡ f ∷ split_fields rest
split-add_field [] rest = refl
split-add_field (c ∷ f) rest = ap (push c) (split-add_field f rest)

split-join_fields : (fs : List Str) → split_fields (join_fields fs) ≡ fs
split-join_fields [] = refl
split-join_fields (f ∷ fs) =
    split-add_field f (join_fields fs) ∙ ap (λ fs. f ∷ fs) (split-join_fields fs)

custom_of-fields : (m : Map Str) → custom_of (custom_fields m) ≡ m
custom_of-fields [] = refl
custom_of-fields ((k, v) ∷ m) = ap (λ m. (k, v) ∷ m) (custom_of-fields m)

decode-encode_meta :
    (m : Metadata) (bytes : Str) → encode_meta m ≡ ok bytes → decode_meta bytes ≡ ok m
decode-encode_meta m bytes e =
    let fields = m.content_type ∷ m.cache_control ∷ m.expires ∷ custom_fields m.custom_meta in
    let same : join_fields fields ≡ bytes = cc in
    ap decode_meta (sym same)
    ∙ ap meta_of (split-join_fields fields)
    ∙ ap
        (λ custom. ok (record {
          content_type = m.content_type;
          cache_control = m.cache_control;
          expires = m.expires;
          custom_meta = custom;
        }))
        (custom_of-fields m.custom_meta)

abbrev pub host : Host
host = record {
  digest = shift;
  temp_suffix = λ n. n ∷ [];
  open_error = λ name. none;
  remove_error = λ name. none;
  marshal = encode_meta;
  unmarshal = decode_meta;
}

pub host-IsReliable : IsReliable host
host-IsReliable = record {
  injective = λ k j e. shift-injective k j e;
  plain = λ k. shift_plain k;
  opens = λ name. refl;
  kept = λ m. m;
  kept_text = λ m t. (refl, refl, refl, λ key. refl);
  unmarshal-marshal = λ m bytes e. decode-encode_meta m bytes e;
}

local_fs-laws_example : StorageLaws (local_fs host)
local_fs-laws_example = local_fs-laws host host-IsReliable

abbrev full : Error
full = wrap (str "storage: write meta: ") (leaf (str "disk full"))

-- A directory in which the write of the metadata fails midway.
abbrev faulty : Directory
faulty = record {
  files = [];
  faults =
      none
      ∷ none
      ∷ none
      ∷ none
      ∷ some (record { error = leaf (str "disk full"); left = some (str "k") })
      ∷ [];
  temps = 0;
  clock = pos 7;
}

write_fails :
    (write host faulty (str "k") (ok (str "body")) (some (of_key (str "k")))).1 ≡ some full
unfolding write create_temp fill write_bytes seal place finish write_meta rename close find put
    remove str_dec remove_file
write_fails = refl

abbrev calm : Directory
calm = record { files = []; faults = []; temps = 0; clock = pos 7 }

written : (write host calm (str "k") (ok (str "body")) (some (of_key (str "k")))).1 ≡ none
unfolding write create_temp fill write_bytes seal place finish write_meta rename close find put
    remove str_dec remove_file
written = refl

read-write_failed_example :
    (read host (write host faulty (str "k") (ok (str "body")) (some (of_key (str "k")))).0 (str "k")
      ≡ read host faulty (str "k"))
    ⊎ (read host
          (write host faulty (str "k") (ok (str "body")) (some (of_key (str "k")))).0
          (str "k")
        ≡ err (leaf (str "storage: key not found: " ++ str "k")))
read-write_failed_example =
    read-write_failed host faulty (str "k") (ok (str "body")) (some (of_key (str "k"))) full
      (shift_plain (str "k")) refl write_fails

key_fits : has_prefix (str "k") [] ≡ true
unfolding has_prefix
key_fits = refl

key_named : find (str "key") (of_key (str "k")).custom_meta ≡ some (str "k")
unfolding find str_dec
key_named = refl

abbrev is_ascii : Str → Bool
is_ascii [] = true
is_ascii (c ∷ s) = ltb c 128 && is_ascii s

is_ascii-IsAscii : (s : Str) → is_ascii s ≡ true → IsAscii s
is_ascii-IsAscii [] e = tt
is_ascii-IsAscii (c ∷ s) e = (ground arith, is_ascii-IsAscii s (ground arith))

key-IsText : IsText (of_key (str "k"))
key-IsText = (
  is_ascii-IsAscii (str "text/plain") refl,
  tt,
  tt,
  (
    (is_ascii-IsAscii (str "key") refl, is_ascii-IsAscii (str "k") refl),
    (
      (is_ascii-IsAscii (str "written_at") refl, is_ascii-IsAscii (str "0") refl),
      ((is_ascii-IsAscii (str "ttl") refl, is_ascii-IsAscii (str "10s") refl), tt),
    ),
  ),
)

list-write_example :
    (keys : List Str) × (list host
        (write host calm (str "k") (ok (str "body")) (some (of_key (str "k")))).0
        []
      ≡ ok keys)
    × Holds (str "k") keys
list-write_example =
    list-write host calm (str "k") [] (str "body") (str "k") (of_key (str "k")) host-IsReliable
      written key-IsText key_named key_fits
