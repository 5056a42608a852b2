-- ===== src/Storage/LocalFs/Atomic.antt =====
-- internal/storage/localfs.go: what a `Write` that fails leaves.
use file_server.Prelude.{
  Str, str, ◌++◌, find, Option, none, some, Option-cases, ◌≡◌, ◌≢◌, ◌⊎◌, inl, inr, ◌∙◌, refl, sym,
  ap, subst, arith,
}
use file_server.Errors.{Error, leaf, ok, err}
use file_server.Storage.{Metadata, Reader}
use file_server.Storage.Os.{
  Directory, Host, create_temp, write_bytes, close, rename, remove_file, failed,
}
use file_server.Storage.LocalFs.{
  meta_path, temp_name, read, write_meta, finish, place, seal, fill, write,
}
use file_server.Storage.LocalFs.Files.{
  file_at, file_at-write_bytes, file_at-remove_file, file_at-close, file_at-create_temp,
}
use file_server.Storage.LocalFs.Names.{IsPlain, temp-ne-plain, temp-ne-meta}
use file_server.Storage.LocalFs.Laws.{read_same, read_absent, read_unopened, gone}

module _ (host : Host) (p : Str) where
  -- The content and the metadata at a name are as before, or the content is gone.
  abbrev Unharmed : Directory → Directory → Type 0
  Unharmed d d' =
      ((file_at p d' ≡ file_at p d)
        × (file_at (meta_path host p) d' ≡ file_at (meta_path host p) d))
      ⊎ (file_at p d' ≡ none)

  abbrev Same : Directory → Directory → Type 0
  Same d d' =
      (file_at p d' ≡ file_at p d) × (file_at (meta_path host p) d' ≡ file_at (meta_path host p) d)

  after-Same : (d d' d'' : Directory) → Same d d' → Unharmed d' d'' → Unharmed d d''
  after-Same d d' d'' (a, b) (inl (a', b')) = inl (a' ∙ a, b' ∙ b)
  after-Same d d' d'' same (inr none_left) = inr none_left

  before-Same : (d d' d'' : Directory) → Unharmed d d' → Same d' d'' → Unharmed d d''
  before-Same d d' d'' (inl (a, b)) (a', b') = inl (a' ∙ a, b' ∙ b)
  before-Same d d' d'' (inr none_left) (a', b') = inr (a' ∙ none_left)

  module _ (meta : Option Metadata) (removes : host.remove_error p ≡ none) (e : Error) where
    finish_failed :
        (d : Directory)
        → (finish host d p meta).1 ≡ some e
        → (finish host d p meta).0 ≡ (remove_file host (write_meta host d p meta).0 p).0
    unfolding finish
    finish_failed d fails = ground arith

    remove_file-works : (d : Directory) (x : Error) → (remove_file host d p).1 ≡ failed x → ⊥
    unfolding remove_file
    remove_file-works d x fails = ground arith

    finish-Unharmed :
        (d0 d : Directory)
        → (finish host d p meta).1 ≡ some e
        → Unharmed d0 (finish host d p meta).0
    finish-Unharmed d0 d fails = elim (gone host (write_meta host d p meta).0 p) [
      | inl absent ↦ inr (ap (file_at p) (finish_failed d fails) ∙ absent)
      | inr (x, stuck) ↦ absurd (remove_file-works (write_meta host d p meta).0 x stuck)
    ]

    place_failed :
        (d : Directory) (tmp : Str)
        → (place host d tmp p meta).1 ≡ some e
        → ((place host d tmp p meta).0.files ≡ d.files)
          ⊎ (place host d tmp p meta ≡ finish host (rename d tmp p).0 p meta)
    unfolding place rename
    place_failed d tmp fails = ground arith

    place-Unharmed :
        (d : Directory) (tmp : Str)
        → (place host d tmp p meta).1 ≡ some e
        → Unharmed d (place host d tmp p meta).0
    place-Unharmed d tmp fails = elim (place_failed d tmp fails) [
      | inl same ↦ inl (ap (find p) same, ap (find (meta_path host p)) same)
      | inr on ↦
          subst (λ r. Unharmed d r.0) (sym on)
            (finish-Unharmed d (rename d tmp p).0 (ap (λ r. r.1) (sym on) ∙ fails))
    ]

    seal_failed :
        (d : Directory) (tmp : Str)
        → (seal host d tmp p meta).1 ≡ some e
        → ((seal host d tmp p meta).0.files ≡ d.files)
          ⊎ (seal host d tmp p meta ≡ place host (close d).0 tmp p meta)
    unfolding seal close
    seal_failed d tmp fails = ground arith

    seal-Unharmed :
        (d : Directory) (tmp : Str)
        → (seal host d tmp p meta).1 ≡ some e
        → Unharmed d (seal host d tmp p meta).0
    seal-Unharmed d tmp fails = elim (seal_failed d tmp fails) [
      | inl same ↦ inl (ap (find p) same, ap (find (meta_path host p)) same)
      | inr on ↦
          subst (λ r. Unharmed d r.0) (sym on)
            (after-Same d (close d).0 (place host (close d).0 tmp p meta).0
              (file_at-close p d, file_at-close (meta_path host p) d)
              (place-Unharmed (close d).0 tmp (ap (λ r. r.1) (sym on) ∙ fails)))
    ]

    fill_failed :
        (d : Directory) (tmp bytes : Str)
        → (fill host d tmp p (ok bytes) meta).1 ≡ some e
        → ((fill host d tmp p (ok bytes) meta).0 ≡ (write_bytes d tmp bytes).0)
          ⊎ (fill host d tmp p (ok bytes) meta ≡ seal host (write_bytes d tmp bytes).0 tmp p meta)
    unfolding fill
    fill_failed d tmp bytes fails = ground arith

    module _ (tmp : Str) (t : tmp ≢ p) (t' : tmp ≢ meta_path host p) where
      fill-Unharmed :
          (d : Directory) (r : Reader)
          → (fill host d tmp p r meta).1 ≡ some e
          → Unharmed d (fill host d tmp p r meta).0
      fill-Unharmed d (err x) fails = unfold fill in inl (refl, refl)
      fill-Unharmed d (ok bytes) fails =
          let d' = (write_bytes d tmp bytes).0 in
          let same : Same d d' = (
            file_at-write_bytes p d tmp bytes t,
            file_at-write_bytes (meta_path host p) d tmp bytes t',
          ) in
          elim (fill_failed d tmp bytes fails) [
            | inl stops ↦ subst (Unharmed d) (sym stops) (inl same)
            | inr on ↦
                subst (λ r. Unharmed d r.0) (sym on)
                  (after-Same d d' (seal host d' tmp p meta).0 same
                    (seal-Unharmed d' tmp (ap (λ r. r.1) (sym on) ∙ fails)))
          ]

module _ (host : Host) (d : Directory) (k : Str) (r : Reader) (meta : Option Metadata)
    (e : Error) where
  abbrev tmp : Str
  tmp = temp_name host d

  abbrev created : Directory
  created = (create_temp d tmp).0

  write_failed :
      (write host d k r meta).1 ≡ some e
      → ((write host d k r meta).0 ≡ created)
        ⊎ (((fill host created tmp (host.digest k) r meta).1 ≡ some e)
            × ((write host d k r meta).0
                ≡ (remove_file host (fill host created tmp (host.digest k) r meta).0 tmp).0))
  unfolding write
  write_failed fails = ground arith

  write-Unharmed :
      IsPlain (host.digest k)
      → host.remove_error (host.digest k) ≡ none
      → (write host d k r meta).1 ≡ some e
      → Unharmed host (host.digest k) d (write host d k r meta).0
  write-Unharmed plain removes fails =
      let p = host.digest k in
      let t = temp-ne-plain p (host.temp_suffix d.temps) (plain) in
      let t' = temp-ne-meta p (host.temp_suffix d.temps) (plain) in
      let filled = (fill host created tmp p r meta).0 in
      let same : Same host p d created =
        (file_at-create_temp p d tmp t, file_at-create_temp (meta_path host p) d tmp t') in
      elim (write_failed fails) [
        | inl stops ↦ subst (Unharmed host p d) (sym stops) (inl same)
        | inr (inner, on) ↦ subst (Unharmed host p d) (sym on) (
            before-Same host p d filled (remove_file host filled tmp).0
              (after-Same host p d created filled same
                (fill-Unharmed host p meta removes e tmp t t' created r inner))
              (
                file_at-remove_file p filled host tmp t,
                file_at-remove_file (meta_path host p) filled host tmp t',
              ))
      ]

  -- After a `Write` that failed, wherever it failed, if the digest of the key has no dot and the
  -- removal of the content does not fail, a `Read` of the key returns what it returned before, or
  -- that the key is not found.
  pub read-write_failed :
      IsPlain (host.digest k)
      → host.remove_error (host.digest k) ≡ none
      → (write host d k r meta).1 ≡ some e
      → (read host (write host d k r meta).0 k ≡ read host d k)
        ⊎ (read host (write host d k r meta).0 k ≡ err (leaf (str "storage: key not found: " ++ k)))
  read-write_failed plain removes fails = elim (write-Unharmed plain removes fails) [
    | inl (content, metadata) ↦ inl (read_same host (write host d k r meta).0 d k content metadata)
    | inr absent ↦ elim (Option-cases (host.open_error (host.digest k))) [
      | inl opens ↦ inr (read_absent host (write host d k r meta).0 k opens absent)
      | inr (x, fails) ↦ inl (read_unopened host (write host d k r meta).0 d k x fails)
    ]
  ]
