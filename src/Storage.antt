-- ===== src/Storage.antt =====
-- internal/storage/storage.go and metadata.go: the interface that every storage backend satisfies.
pub mod Os
pub mod LocalFs
use file_server.Prelude.{Str, Map, find, All, ◌<◌, ℤ, List, [], Bool, Option, none, some, ◌≡◌, ◌≢◌}
use file_server.Errors.{Error, Result, ok, err, Failure}

pub record Metadata : Type 0 where
  pub content_type : Str
  pub cache_control : Str
  pub expires : Str
  pub custom_meta : Map Str

abbrev pub empty_metadata : Metadata
empty_metadata = record { content_type = []; cache_control = []; expires = []; custom_meta = [] }

-- Metadata whose strings are ASCII.
abbrev pub IsAscii : Str → Type 0
IsAscii = All (λ c. c < 128)

abbrev pub IsText : Metadata → Type 0
IsText m =
    IsAscii m.content_type
    × IsAscii m.cache_control
    × IsAscii m.expires
    × All (λ p. IsAscii p.0 × IsAscii p.1) m.custom_meta

-- The same fields, the custom ones in any order.
abbrev pub Agrees : Metadata → Metadata → Type 0
Agrees m n =
    (m.content_type ≡ n.content_type)
    × (m.cache_control ≡ n.cache_control)
    × (m.expires ≡ n.expires)
    × ((key : Str) → find key m.custom_meta ≡ find key n.custom_meta)

pub record FileInfo : Type 0 where
  pub size : ℤ
  pub mod_time : ℤ

-- An `io.Reader`, by what reading it to the end gives.
abbrev pub Reader : Type 0
Reader = Result Str

-- The interface `Storage`. `State` is what the backend keeps between calls, and whatever else
-- decides whether a call fails. A metadata pointer may be `nil`.
pub record Storage : Type 1 where
  pub State : Type 0
  pub read : State → Str → Result (Reader × Metadata)
  pub write : State → Str → Reader → Option Metadata → State × Failure
  pub delete : State → Str → State × Failure
  pub exists : State → Str → Bool
  pub stat : State → Str → Result FileInfo
  pub list : State → Str → Result (List Str)

-- What a client may rely on. Of the metadata that it was given the backend gives back what `kept`
-- says: a text encoding replaces bytes that are not text.
pub record StorageLaws (S : Storage) : Type 0 where
  pub kept : Metadata → Metadata
  pub kept_text : (m : Metadata) → IsText m → Agrees (kept m) m
  pub read-write :
      (s s' : S.State) (k b : Str) (m : Metadata)
      → S.write s k (ok b) (some m) ≡ (s', none)
      → S.read s' k ≡ ok (ok b, kept m)
  pub read-write_ne :
      (s : S.State) (k j : Str) (r : Reader) (m : Option Metadata)
      → k ≢ j
      → S.read (S.write s k r m).0 j ≡ S.read s j
  pub read-delete_ne : (s : S.State) (k j : Str) → k ≢ j → S.read (S.delete s k).0 j ≡ S.read s j
  pub read-delete :
      (s s' : S.State) (k : Str) → S.delete s k ≡ (s', none) → (e : Error) × (S.read s' k ≡ err e)
