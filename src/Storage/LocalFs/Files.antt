-- ===== src/Storage/LocalFs/Files.antt =====
-- internal/storage/localfs.go: which files an operation leaves alone.
use file_server.Prelude.{Str, find, find-put_ne, find-remove_ne, ◌≡◌, ◌≢◌, refl, arith, Option}
use file_server.Errors.{ok, err}
use file_server.Storage.{Metadata, Reader}
use file_server.Storage.Os.{
  File, Directory, Host, create_temp, write_bytes, close, rename, remove_file,
}
use file_server.Storage.LocalFs.{
  meta_path, key_to_path, temp_name, write_meta, finish, place, seal, fill, write, delete,
}

-- The file of a name, if there is one.
abbrev pub file_at : Str → Directory → Option File
file_at x d = find x d.files

module _ (x : Str) (d : Directory) where
  pub file_at-create_temp : (name : Str) → name ≢ x → file_at x (create_temp d name).0 ≡ file_at x d
  unfolding create_temp
  file_at-create_temp name n = grind (arith, find-put_ne)

  pub file_at-write_bytes :
      (name bytes : Str) → name ≢ x → file_at x (write_bytes d name bytes).0 ≡ file_at x d
  unfolding write_bytes
  file_at-write_bytes name bytes n = grind (arith, find-put_ne)

  pub file_at-close : file_at x (close d).0 ≡ file_at x d
  unfolding close
  file_at-close = refl

  pub file_at-rename :
      (from to : Str) → from ≢ x → to ≢ x → file_at x (rename d from to).0 ≡ file_at x d
  unfolding rename
  file_at-rename from to n k = grind (arith, find-put_ne, find-remove_ne)

  pub file_at-remove_file :
      (host : Host) (name : Str) → name ≢ x → file_at x (remove_file host d name).0 ≡ file_at x d
  unfolding remove_file
  file_at-remove_file host name n = grind (arith, find-remove_ne)

-- The same of the parts of `Write`, and of `Delete`, for a name that they do not handle.
module _ (host : Host) (x : Str) where
  pub file_at-write_meta :
      (d : Directory) (p : Str) (meta : Option Metadata)
      → meta_path host p ≢ x
      → file_at x (write_meta host d p meta).0 ≡ file_at x d
  unfolding write_meta
  file_at-write_meta d p meta n = grind (arith, file_at-write_bytes)

  module _ (p : Str) (meta : Option Metadata) (n : p ≢ x) (k : meta_path host p ≢ x) where
    file_at-finish : (d : Directory) → file_at x (finish host d p meta).0 ≡ file_at x d
    unfolding finish
    file_at-finish d = ground (
      arith,
      file_at-write_meta d p meta k,
      file_at-remove_file x (write_meta host d p meta).0 host p n,
    )

    module _ (tmp : Str) (t : tmp ≢ x) where
      file_at-place : (d : Directory) → file_at x (place host d tmp p meta).0 ≡ file_at x d
      unfolding place
      file_at-place d =
          ground (arith, file_at-rename x d tmp p t n, file_at-finish (rename d tmp p).0)

      file_at-seal : (d : Directory) → file_at x (seal host d tmp p meta).0 ≡ file_at x d
      unfolding seal
      file_at-seal d = ground (arith, file_at-close x d, file_at-place (close d).0)

      file_at-fill :
          (d : Directory) (r : Reader) → file_at x (fill host d tmp p r meta).0 ≡ file_at x d
      unfolding fill
      file_at-fill d (err e) = refl
      file_at-fill d (ok bytes) =
          ground
            (arith, file_at-write_bytes x d tmp bytes t, file_at-seal (write_bytes d tmp bytes).0)

  pub file_at-write :
      (d : Directory) (key : Str) (r : Reader) (meta : Option Metadata)
      → key_to_path host key ≢ x
      → meta_path host (key_to_path host key) ≢ x
      → temp_name host d ≢ x
      → file_at x (write host d key r meta).0 ≡ file_at x d
  unfolding write
  file_at-write d key r meta n k t =
      let tmp = temp_name host d in
      let d' = (create_temp d tmp).0 in
      ground (
        arith,
        file_at-create_temp x d tmp t,
        file_at-fill (key_to_path host key) meta n k tmp t d' r,
        file_at-remove_file x (fill host d' tmp (key_to_path host key) r meta).0 host tmp t,
      )

  pub file_at-delete :
      (d : Directory) (key : Str)
      → key_to_path host key ≢ x
      → meta_path host (key_to_path host key) ≢ x
      → file_at x (delete host d key).0 ≡ file_at x d
  unfolding delete
  file_at-delete d key n k =
      let p = key_to_path host key in
      ground (
        arith,
        file_at-remove_file x d host p n,
        file_at-remove_file x (remove_file host d p).0 host (meta_path host p) k,
      )
