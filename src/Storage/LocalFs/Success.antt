-- ===== src/Storage/LocalFs/Success.antt =====
-- internal/storage/localfs.go: what the parts of a `Write` that succeeds leave.
use file_server.Prelude.{Str, find-put_self, ◌≡◌, refl, arith, none, some, inl, inr}
use file_server.Errors.{ok, Result-cases}
use file_server.Storage.{Metadata}
use file_server.Storage.Os.{
  File, Directory, Host, create_temp, write_bytes, close, rename, remove_file,
}
use file_server.Storage.LocalFs.{
  meta_path, temp_name, read_meta, read, write_meta, finish, place, seal, fill, write,
}
use file_server.Storage.LocalFs.Files.{file_at}

-- What a call that succeeds leaves at the name that it writes.
pub written_bytes :
    (d : Directory) (name bytes : Str)
    → (write_bytes d name bytes).1 ≡ none
    → (f : File) × (file_at name (write_bytes d name bytes).0 ≡ some f) × (f.bytes ≡ bytes)
unfolding write_bytes
written_bytes d name bytes done =
    (record { bytes = bytes; mod_time = d.clock }, grind (arith, find-put_self), refl)

pub renamed :
    (d : Directory) (from to : Str)
    → (rename d from to).1 ≡ none
    → file_at to (rename d from to).0 ≡ file_at from d
unfolding rename
renamed d from to done = grind (arith, find-put_self)

module _ (host : Host) where
  -- The content and the encoded metadata of a key stand at its names.
  abbrev pub IsStored : Directory → Str → Str → Metadata → Type 0
  IsStored d p bytes m =
      (f : File) × (g : File) × (file_at p d ≡ some f)
      × (f.bytes ≡ bytes)
      × (file_at (meta_path host p) d ≡ some g)
      × (host.unmarshal g.bytes ≡ ok m)

  -- The content stands at the name.
  abbrev pub HasBytes : Directory → Str → Str → Type 0
  HasBytes d name bytes = (f : File) × (file_at name d ≡ some f) × (f.bytes ≡ bytes)

  pub read-IsStored :
      (d : Directory) (k bytes : Str) (m : Metadata)
      → ((name : Str) → host.open_error name ≡ none)
      → IsStored d (host.digest k) bytes m
      → read host d k ≡ ok (ok bytes, m)
  unfolding read read_meta
  read-IsStored d k bytes m opens (f, g, at, same, meta_at, decoded) =
      ground (arith, opens (host.digest k), opens (meta_path host (host.digest k)))

  -- A part of `Write` that succeeds has run the next part with success.
  module _ (d : Directory) (p : Str) (m : Metadata) where
    pub meta_done :
        (write_meta host d p (some m)).1 ≡ none
        → (bytes : Str) × (host.marshal m ≡ ok bytes)
          × ((write_bytes d (meta_path host p) bytes).1 ≡ none)
          × ((write_meta host d p (some m)).0 ≡ (write_bytes d (meta_path host p) bytes).0)
    unfolding write_meta
    meta_done done = elim (Result-cases (host.marshal m)) [
      | inl (bytes, e) ↦ (bytes, e, ground arith, ground arith)
      | inr (x, failed) ↦ absurd (ground arith)
    ]

    pub finish_done :
        (finish host d p (some m)).1 ≡ none
        → ((write_meta host d p (some m)).1 ≡ none)
          × ((finish host d p (some m)).0 ≡ (write_meta host d p (some m)).0)
    unfolding finish
    finish_done done = ground arith

    pub place_done :
        (tmp : Str)
        → (place host d tmp p (some m)).1 ≡ none
        → ((rename d tmp p).1 ≡ none)
          × (place host d tmp p (some m) ≡ finish host (rename d tmp p).0 p (some m))
    unfolding place
    place_done tmp done = ground arith

    pub seal_done :
        (tmp : Str)
        → (seal host d tmp p (some m)).1 ≡ none
        → seal host d tmp p (some m) ≡ place host (close d).0 tmp p (some m)
    unfolding seal
    seal_done tmp done = ground arith

    pub fill_done :
        (tmp bytes : Str)
        → (fill host d tmp p (ok bytes) (some m)).1 ≡ none
        → ((write_bytes d tmp bytes).1 ≡ none)
          × (fill host d tmp p (ok bytes) (some m)
              ≡ seal host (write_bytes d tmp bytes).0 tmp p (some m))
    unfolding fill
    fill_done tmp bytes done = ground arith

  pub write_done :
      (d : Directory) (k bytes : Str) (m : Metadata)
      → (write host d k (ok bytes) (some m)).1 ≡ none
      → let filled =
          fill host
            (create_temp d (temp_name host d)).0
            (temp_name host d)
            (host.digest k)
            (ok bytes)
            (some m) in
        (filled.1 ≡ none)
        × ((write host d k (ok bytes) (some m)).0
            ≡ (remove_file host filled.0 (temp_name host d)).0)
  unfolding write
  write_done d k bytes m done = ground arith
