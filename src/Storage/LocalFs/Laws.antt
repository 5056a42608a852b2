-- ===== src/Storage/LocalFs/Laws.antt =====
-- internal/storage/localfs.go: `LocalFS` and the laws of a storage.
use file_server.Prelude.{
  Str, str, ◌++◌, find, find-remove_self, ◌⊎◌, ◌≡◌, ◌≢◌, ◌∙◌, sym, ap, subst, arith, Option, none,
  some, Option-cases, inl, inr,
}
use file_server.Errors.{Failure, Error, leaf, wrap, ok, err}
use file_server.Storage.{StorageLaws, Metadata, Reader}
use file_server.Storage.Os.{
  Directory, Host, failed, create_temp, write_bytes, close, rename, remove_file,
}
use file_server.Storage.LocalFs.{
  meta_path, temp_name, read_meta, read, finish, fill, write, delete, local_fs,
}
use file_server.Storage.LocalFs.Files.{
  file_at, file_at-close, file_at-write_bytes, file_at-remove_file, file_at-write, file_at-delete,
}
use file_server.Storage.LocalFs.Names.{
  IsReliable, IsPlain, no_dot, before_dot, temp-ne-plain, temp-ne-meta,
}
use file_server.Storage.LocalFs.Success.{
  written_bytes, renamed, IsStored, HasBytes, read-IsStored, meta_done, finish_done, place_done,
  seal_done, fill_done, write_done,
}

-- The names that `Read` opens determine what it returns.
pub read_same :
    (host : Host) (d d' : Directory) (k : Str)
    → file_at (host.digest k) d ≡ file_at (host.digest k) d'
    → file_at (meta_path host (host.digest k)) d ≡ file_at (meta_path host (host.digest k)) d'
    → read host d k ≡ read host d' k
unfolding read read_meta
read_same host d d' k e m = ground arith

module _ (host : Host) where
  module _ (reliable : IsReliable host) (k bytes : Str) (m : Metadata) where
    abbrev path : Str
    path = host.digest k

    digest-ne-meta : (j : Str) → host.digest j ≢ meta_path host path
    digest-ne-meta j e = no_dot path (str "meta") (subst IsPlain e (reliable.plain j))

    finished :
        (d : Directory)
        → HasBytes host d path bytes
        → (finish host d path (some m)).1 ≡ none
        → IsStored host (finish host d path (some m)).0 path bytes (reliable.kept m)
    finished d (f, at, same) done =
        let (meta_ok, e) = finish_done host d path m done in
        let (encoded, marshalled, wrote, e') = meta_done host d path m meta_ok in
        let (g, meta_at, g_bytes) = written_bytes d (meta_path host path) encoded wrote in
        (
          f,
          g,
          ap (file_at path) (e ∙ e')
              ∙ file_at-write_bytes path d (meta_path host path) encoded
                  (λ q. digest-ne-meta k (sym q))
              ∙ at,
          same,
          ap (file_at (meta_path host path)) (e ∙ e') ∙ meta_at,
          ap host.unmarshal g_bytes ∙ reliable.unmarshal-marshal m encoded marshalled,
        )

    filled :
        (d : Directory) (tmp : Str)
        → (fill host d tmp path (ok bytes) (some m)).1 ≡ none
        → IsStored host (fill host d tmp path (ok bytes) (some m)).0 path bytes (reliable.kept m)
    filled d tmp done =
        let (wrote, e) = fill_done host d path m tmp bytes done in
        let d1 = (write_bytes d tmp bytes).0 in
        let e' = e ∙ seal_done host d1 path m tmp (ap (λ r. r.1) (sym e) ∙ done) in
        let d2 = (close d1).0 in
        let (moved, e'') = place_done host d2 path m tmp (ap (λ r. r.1) (sym e') ∙ done) in
        let all = e' ∙ e'' in
        let (f, at, same) = written_bytes d tmp bytes wrote in
        subst (λ r. IsStored host r path bytes (reliable.kept m)) (sym (ap (λ r. r.0) all))
          (finished (rename d2 tmp path).0
            (f, renamed d2 tmp path moved ∙ file_at-close tmp d1 ∙ at, same)
            (ap (λ r. r.1) (sym all) ∙ done))

    -- Removing the temporary name leaves what is stored.
    kept :
        (d : Directory) (u : Str)
        → IsStored host d path bytes (reliable.kept m)
        → IsStored host (remove_file host d (str ".tmp-" ++ u)).0 path bytes (reliable.kept m)
    kept d u (f, g, at, same, meta_at, decoded) = (
      f,
      g,
      file_at-remove_file path d host (str ".tmp-" ++ u) (temp-ne-plain path u (reliable.plain k))
          ∙ at,
      same,
      file_at-remove_file (meta_path host path) d host (str ".tmp-" ++ u)
            (temp-ne-meta path u (reliable.plain k))
          ∙ meta_at,
      decoded,
    )

    pub written_stored :
        (d : Directory)
        → (write host d k (ok bytes) (some m)).1 ≡ none
        → IsStored host (write host d k (ok bytes) (some m)).0 path bytes (reliable.kept m)
    written_stored d done =
        let (fill_ok, e) = write_done host d k bytes m done in
        let tmp = temp_name host d in
        let d' = (create_temp d tmp).0 in
        subst (λ s. IsStored host s path bytes (reliable.kept m)) (sym e)
          (kept (fill host d' tmp path (ok bytes) (some m)).0 (host.temp_suffix d.temps)
            (filled d' tmp fill_ok))

    written_read :
        (d : Directory)
        → (write host d k (ok bytes) (some m)).1 ≡ none
        → read host (write host d k (ok bytes) (some m)).0 k ≡ ok (ok bytes, reliable.kept m)
    written_read d done =
        read-IsStored host (write host d k (ok bytes) (some m)).0 k bytes (reliable.kept m)
          reliable.opens (written_stored d done)

  module _ (reliable : IsReliable host) (k j : Str) (n : k ≢ j) where
    digest_ne : host.digest k ≢ host.digest j
    digest_ne e = n (reliable.injective k j e)

    meta_ne : meta_path host (host.digest k) ≢ meta_path host (host.digest j)
    meta_ne e = digest_ne (
        before_dot (host.digest k) (host.digest j) (str "meta") (str "meta") (reliable.plain k)
          (reliable.plain j) e)

    digest-ne-other : (i i' : Str) → host.digest i ≢ meta_path host (host.digest i')
    digest-ne-other i i' e =
        no_dot (host.digest i') (str "meta") (subst IsPlain e (reliable.plain i))

    other_written :
        (d : Directory) (r : Reader) (meta : Option Metadata)
        → read host (write host d k r meta).0 j ≡ read host d j
    other_written d r meta =
        read_same host (write host d k r meta).0 d j
          (file_at-write host (host.digest j) d k r meta digest_ne
            (λ e. digest-ne-other j k (sym e))
            (temp-ne-plain (host.digest j) (host.temp_suffix d.temps) (reliable.plain j)))
          (file_at-write host (meta_path host (host.digest j)) d k r meta (digest-ne-other k j)
            meta_ne (temp-ne-meta (host.digest j) (host.temp_suffix d.temps) (reliable.plain j)))

    other_deleted : (d : Directory) → read host (delete host d k).0 j ≡ read host d j
    other_deleted d =
        read_same host (delete host d k).0 d j
          (file_at-delete host (host.digest j) d k digest_ne (λ e. digest-ne-other j k (sym e)))
          (file_at-delete host (meta_path host (host.digest j)) d k (digest-ne-other k j) meta_ne)

  -- Removing a file, unless it fails, leaves none.
  pub gone :
      (d : Directory) (name : Str)
      → (file_at name (remove_file host d name).0 ≡ none)
        ⊎ ((e : Error) × ((remove_file host d name).1 ≡ failed e))
  unfolding remove_file
  gone d name = elim (Option-cases (host.remove_error name)) [
    | inr (e, fails) ↦ inr (e, ground arith)
    | inl fine ↦ elim (Option-cases (find name d.files)) [
      | inl absent ↦ inl (ground arith)
      | inr (f, present) ↦ inl (grind (arith, find-remove_self))
    ]
  ]

  delete_failed :
      (d : Directory) (k : Str) (e : Error)
      → (remove_file host d (host.digest k)).1 ≡ failed e
      → (x : Error) × ((delete host d k).1 ≡ some x)
  unfolding delete
  delete_failed d k e fails = (wrap (str "storage: delete " ++ k ++ str ": ") e, ground arith)

  delete_done :
      (d : Directory) (k : Str)
      → (delete host d k).1 ≡ none
      → (delete host d k).0
        ≡ (remove_file host
            (remove_file host d (host.digest k)).0
            (meta_path host (host.digest k))).0
  unfolding delete
  delete_done d k done = ground arith

  -- A name that cannot be opened is read the same from every directory.
  pub read_unopened :
      (d d' : Directory) (k : Str) (e : Error)
      → host.open_error (host.digest k) ≡ some e
      → read host d k ≡ read host d' k
  unfolding read
  read_unopened d d' k e fails = ground arith

  pub read_absent :
      (d : Directory) (k : Str)
      → host.open_error (host.digest k) ≡ none
      → file_at (host.digest k) d ≡ none
      → read host d k ≡ err (leaf (str "storage: key not found: " ++ k))
  unfolding read
  read_absent d k opens absent = ground arith

  deleted_read :
      (reliable : IsReliable host) (d : Directory) (k : Str)
      → (delete host d k).1 ≡ none
      → read host (delete host d k).0 k ≡ err (leaf (str "storage: key not found: " ++ k))
  deleted_read reliable d k done = elim (gone d (host.digest k)) [
    | inr (e, fails) ↦ let (x, bad) = delete_failed d k e fails in absurd (cc)
    | inl absent ↦ read_absent (delete host d k).0 k (reliable.opens (host.digest k)) (
        ap (file_at (host.digest k)) (delete_done d k done)
        ∙ file_at-remove_file (host.digest k) (remove_file host d (host.digest k)).0 host
            (meta_path host (host.digest k))
            (λ e. no_dot (host.digest k) (str "meta") (subst IsPlain (sym e) (reliable.plain k)))
        ∙ absent)
  ]

  -- The local file system is a storage as its clients expect, on a host where the digests of
  -- different keys differ and have no dot, opens do not fail, and JSON metadata are decoded to what
  -- JSON keeps of them, which is all of them if they are ASCII: what a `Write` that succeeded stored
  -- is read back, with what JSON keeps of its metadata; after a `Delete` that succeeded a `Read` of
  -- the key fails; and neither touches what is read of another key, whether it fails or not.
  pub local_fs-laws : IsReliable host → StorageLaws (local_fs host)
  local_fs-laws reliable = record {
    kept = reliable.kept;
    kept_text = reliable.kept_text;
    read-write = λ d d' k bytes m e.
        ap (λ (r : Directory × Failure). read host r.0 k) (sym e)
        ∙ written_read reliable k bytes m d (ap (λ (r : Directory × Failure). r.1) e);
    read-write_ne = λ d k j r meta n. other_written reliable k j n d r meta;
    read-delete_ne = λ d k j n. other_deleted reliable k j n d;
    read-delete = λ d d' k e. (
      leaf (str "storage: key not found: " ++ k),
      ap (λ (r : Directory × Failure). read host r.0 k) (sym e)
          ∙ deleted_read reliable d k (ap (λ (r : Directory × Failure). r.1) e),
    );
  }
