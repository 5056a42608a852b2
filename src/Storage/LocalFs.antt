-- ===== src/Storage/LocalFs.antt =====
-- internal/storage/localfs.go: the backend on the local file system. The state is the directory
-- `root`: every path of the code is `filepath.Join(fs.root, name)`, and is modelled by its name.
-- SHA-256 in hexadecimal, the suffixes of the temporary names and encoding/json on the metadata are
-- parameters, in `Host`.
pub mod Files
pub mod Atomic
pub mod Names
pub mod Success
pub mod Laws
pub mod Listing
use file_server.Prelude.{
  Str, str, ◌++◌, find, has_prefix, str_eq, sort_strings, pos, length, map, List, [], ◌∷◌, Bool,
  true, false, ◌||◌, if◌then◌else◌, Option, none, some,
}
use file_server.Errors.{leaf, wrap, Result, ok, err, Failure}
use file_server.Storage.{Storage, Metadata, FileInfo, Reader, empty_metadata}
use file_server.Storage.Os.{
  File, Directory, Host, create_temp, write_bytes, close, rename, removed, missing, failed,
  remove_file,
}

-- `strings.HasSuffix`
unfoldable pub has_suffix : Str → Str → Bool
has_suffix [] suffix = str_eq [] suffix
has_suffix (c ∷ s) suffix = str_eq (c ∷ s) suffix || has_suffix s suffix

module _ (host : Host) where
  -- `keyToPath`, without the root
  abbrev pub key_to_path : Str → Str
  key_to_path key = host.digest key

  abbrev pub meta_path : Str → Str
  meta_path p = p ++ str ".meta"

  -- `readMeta`
  unfoldable pub read_meta : Directory → Str → Result Metadata
  read_meta d p = elim (host.open_error (meta_path p)) [
    | some e ↦ err (wrap (str "storage: read meta: ") e)
    | none ↦ elim (find (meta_path p) d.files) [
      | none ↦ ok empty_metadata
      | some file ↦ elim (host.unmarshal file.bytes) [
        | err e ↦ err (wrap (str "storage: decode meta: ") e)
        | ok m ↦ ok m
      ]
    ]
  ]

  abbrev pub meta_or_empty : Option Metadata → Metadata
  meta_or_empty none = empty_metadata
  meta_or_empty (some m) = m

  -- `writeMeta`
  unfoldable pub write_meta : Directory → Str → Option Metadata → Directory × Failure
  unfolding write_bytes
  write_meta d p meta = elim (host.marshal (meta_or_empty meta)) [
    | err e ↦ (d, some (wrap (str "storage: encode meta: ") e))
    | ok bytes ↦
        let (d', failure) = write_bytes d (meta_path p) bytes in
        elim failure [
          | none ↦ (d', none)
          | some e ↦ (d', some (wrap (str "storage: write meta: ") e))
        ]
  ]

  -- `Read`
  unfoldable pub read : Directory → Str → Result (Reader × Metadata)
  unfolding read_meta
  read d key =
      let p = key_to_path key in
      elim (host.open_error p) [
        | some e ↦ err (wrap (str "storage: open " ++ key ++ str ": ") e)
        | none ↦ elim (find p d.files) [
          | none ↦ err (leaf (str "storage: key not found: " ++ key))
          | some file ↦ elim (read_meta d p) [ err e ↦ err e | ok m ↦ ok (ok file.bytes, m) ]
        ]
      ]

  -- The end of `Write`, once the content is at its place.
  unfoldable pub finish : Directory → Str → Option Metadata → Directory × Failure
  unfolding write_meta remove_file
  finish d p meta =
      let (d', failure) = write_meta d p meta in
      elim failure [ none ↦ (d', none) | some e ↦ ((remove_file host d' p).0, some e) ]

  -- From `os.Rename` on.
  unfoldable pub place : Directory → Str → Str → Option Metadata → Directory × Failure
  unfolding rename finish
  place d tmp p meta =
      let (d', failure) = rename d tmp p in
      elim failure [
        | some e ↦ (d', some (wrap (str "storage: rename: ") e))
        | none ↦ finish d' p meta
      ]

  -- From `tmp.Close` on.
  unfoldable pub seal : Directory → Str → Str → Option Metadata → Directory × Failure
  unfolding close place
  seal d tmp p meta =
      let (d', failure) = close d in
      elim failure [
        | some e ↦ (d', some (wrap (str "storage: close temp: ") e))
        | none ↦ place d' tmp p meta
      ]

  -- From `io.Copy` on; of a reader that fails nothing is copied here.
  unfoldable pub fill : Directory → Str → Str → Reader → Option Metadata → Directory × Failure
  unfolding write_bytes seal
  fill d tmp p (err e) meta = (d, some (wrap (str "storage: write content: ") e))
  fill d tmp p (ok bytes) meta =
      let (d', failure) = write_bytes d tmp bytes in
      elim failure [
        | some e ↦ (d', some (wrap (str "storage: write content: ") e))
        | none ↦ seal d' tmp p meta
      ]

  abbrev pub temp_name : Directory → Str
  temp_name d = str ".tmp-" ++ host.temp_suffix d.temps

  -- `Write`, the deferred removal included
  unfoldable pub write : Directory → Str → Reader → Option Metadata → Directory × Failure
  unfolding create_temp fill remove_file
  write d key r meta =
      let tmp = temp_name d in
      let (d', failure) = create_temp d tmp in
      elim failure [
        | some e ↦ (d', some (wrap (str "storage: create temp: ") e))
        | none ↦
            let (d'', outcome) = fill d' tmp (key_to_path key) r meta in
            ((remove_file host d'' tmp).0, outcome)
      ]

  -- `Delete`
  unfoldable pub delete : Directory → Str → Directory × Failure
  unfolding remove_file
  delete d key =
      let p = key_to_path key in
      let (d', outcome) = remove_file host d p in
      elim outcome [
        | failed e ↦ (d', some (wrap (str "storage: delete " ++ key ++ str ": ") e))
        | removed ↦ ((remove_file host d' (meta_path p)).0, none)
        | missing ↦ ((remove_file host d' (meta_path p)).0, none)
      ]

  -- `Exists`, where `os.Stat` fails as opening does
  unfoldable pub exists : Directory → Str → Bool
  exists d key = elim (host.open_error (key_to_path key)) [
    | some e ↦ false
    | none ↦ elim (find (key_to_path key) d.files) [ none ↦ false | some file ↦ true ]
  ]

  -- `Stat`
  unfoldable pub stat : Directory → Str → Result FileInfo
  stat d key = elim (host.open_error (key_to_path key)) [
    | some e ↦ err (wrap (str "storage: stat " ++ key ++ str ": ") e)
    | none ↦ elim (find (key_to_path key) d.files) [
      | none ↦ err (leaf (str "storage: key not found: " ++ key))
      | some file ↦ ok (record { size = pos (length file.bytes); mod_time = file.mod_time })
    ]
  ]

  -- One round of the loop of `List`.
  unfoldable pub listed : Directory → Str → Str → Option Str
  unfolding read_meta has_suffix has_prefix
  listed d prefix name =
      if has_suffix name (str ".meta") || has_prefix name (str ".tmp")
      then none
      else elim (read_meta d name) [
        | err e ↦ none
        | ok m ↦ elim (find (str "key") m.custom_meta) [
          | none ↦ none
          | some key ↦ if has_prefix key prefix then some key else none
        ]
      ]

  -- The loop of `List`.
  unfoldable pub list_names : Directory → Str → List Str → List Str
  unfolding listed
  list_names d prefix [] = []
  list_names d prefix (name ∷ names) =
      let rest = list_names d prefix names in
      elim (listed d prefix name) [ none ↦ rest | some key ↦ key ∷ rest ]

  -- `List`: `os.ReadDir` sorts the entries by name, and fails as opening the root does.
  unfoldable pub list : Directory → Str → Result (List Str)
  unfolding list_names sort_strings
  list d prefix = elim (host.open_error []) [
    | some e ↦ err (wrap (str "storage: list dir: ") e)
    | none ↦ ok (list_names d prefix (sort_strings (map (λ (e : Str × File). e.0) d.files)))
  ]

  -- `LocalFS` as a storage
  abbrev pub local_fs : Storage
  local_fs = record {
    State = Directory;
    read = read;
    write = write;
    delete = delete;
    exists = exists;
    stat = stat;
    list = list;
  }
