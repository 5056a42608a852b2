-- ===== src/Storage/LocalFs/Names.antt =====
-- internal/storage/localfs.go: the names of contents, metadata and temporary files.
use file_server.Prelude.{Str, str, ◌++◌, All, [], ◌∷◌, ◌≡◌, ◌≢◌, refl, arith, none}
use file_server.Errors.{ok}
use file_server.Storage.{Metadata, IsText, Agrees}
use file_server.Storage.Os.{Host}

-- What the backend relies on: the digests of different keys differ, and have no dot, as hexadecimal
-- numbers have none; opening a file does not fail; decoding what was
-- encoded gives `kept` of it, as encoding/json replaces bytes that are not UTF-8, which loses nothing
-- of ASCII.
pub record IsReliable (host : Host) : Type 0 where
  pub injective : (k j : Str) → host.digest k ≡ host.digest j → k ≡ j
  pub plain : (k : Str) → All (λ c. c ≢ b'.') (host.digest k)
  pub opens : (name : Str) → host.open_error name ≡ none
  pub kept : Metadata → Metadata
  pub kept_text : (m : Metadata) → IsText m → Agrees (kept m) m
  pub unmarshal-marshal :
      (m : Metadata) (bytes : Str) → host.marshal m ≡ ok bytes → host.unmarshal bytes ≡ ok (kept m)

abbrev pub IsPlain : Str → Type 0
IsPlain = All (λ c. c ≢ b'.')

pub no_dot : (s t : Str) → IsPlain (s ++ b'.' ∷ t) → ⊥
no_dot [] t h = h.0 refl
no_dot (c ∷ s) t h = no_dot s t h.1

pub before_dot : (s t u v : Str) → IsPlain s → IsPlain t → s ++ b'.' ∷ u ≡ t ++ b'.' ∷ v → s ≡ t
before_dot [] [] u v h k e = refl
before_dot [] (c ∷ t) u v h k e = absurd (k.0 (cc))
before_dot (c ∷ s) [] u v h k e = absurd (h.0 (cc))
before_dot (c ∷ s) (d ∷ t) u v h k e = ground (arith, before_dot s t u v h.1 k.1)

pub temp-ne-plain : (s u : Str) → IsPlain s → str ".tmp-" ++ u ≢ s
temp-ne-plain [] u h e = cc
temp-ne-plain (c ∷ s) u h e = h.0 (cc)

pub temp-ne-meta : (s u : Str) → IsPlain s → str ".tmp-" ++ u ≢ s ++ str ".meta"
temp-ne-meta [] u h e = ground arith
temp-ne-meta (c ∷ s) u h e = h.0 (cc)
