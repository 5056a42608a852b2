-- ===== src/Cache/Lru/Ideal.antt =====
-- internal/cache/cache.go: what `LRUCache` promises, on one list of entries in the order of use,
-- most recent first, with no elements, no map and no storage.
use file_server.Prelude.{
  ℕ, Str, str, ◌++◌, Map, find, remove, take, ℤ, after, ◌∷◌, Bool, true, false, none, some,
  if◌then◌else◌,
}
use file_server.Errors.{leaf, wrap, Result, ok, err}
use file_server.Storage.{Metadata, Reader}
use file_server.Cache.Lru.{Meta, expires_at}

-- A stored body that can be opened.
unfoldable pub is_readable : Result (Reader × Metadata) → Bool
is_readable (ok p) = true
is_readable (err e) = false

-- An entry that has expired, or whose body cannot be opened, is dropped; any other moves to the
-- front.
unfoldable pub ideal_get : ℤ → Bool → Str → Map Meta → Map Meta
ideal_get now readable key l = elim (find key l) [
  | none ↦ l
  | some m ↦
      if after now (expires_at m)
      then remove key l
      else if readable
      then (key, m) ∷ remove key l
      else remove key l
]

-- The reply of `Get`.
unfoldable pub ideal_reply :
    ℤ → Result (Reader × Metadata) → Str → Map Meta → Result (Reader × Meta)
ideal_reply now stored key l = elim (find key l) [
  | none ↦ err (leaf (str "cache: miss: " ++ key))
  | some m ↦
      if after now (expires_at m)
      then err (leaf (str "cache: expired: " ++ key))
      else (elim stored [
        | ok (rc, _) ↦ ok (rc, m)
        | err e ↦ err (wrap (str "cache: storage read: ") e)
      ])
]

-- The new entry comes first, in place of one of the same key, and what does not fit is dropped at
-- the end.
unfoldable pub ideal_set : ℕ → Str → Meta → Map Meta → Map Meta
ideal_set capacity key m l = take capacity ((key, m) ∷ remove key l)
