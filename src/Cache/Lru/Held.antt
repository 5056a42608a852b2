-- ===== src/Cache/Lru/Held.antt =====
-- internal/cache/cache.go: an entry that `Get` finds, at some instants, and the calls of its key.
use file_server.Prelude.{◌<◌, Str, find, ℤ, after, false, none, some, ◌≡◌, arith, ◌∙◌}
use file_server.Errors.{ok}
use file_server.Storage.{Storage, StorageLaws, Reader, Metadata}
use file_server.Cache.Lru.{LruCache, Meta, Formats, expires_at, get, set, meta_to_storage_meta}
use file_server.Cache.Lru.Invariant.{IsValid, contents}
use file_server.Cache.Lru.Ideal.{ideal_get, ideal_reply, is_readable}
use file_server.Cache.Lru.Steps.{capacity}
use file_server.Cache.Lru.Refinement.{get-refines, storage-get, max_items-get}
use file_server.Cache.Lru.Backing.{
  set-after_set, after_set-IsValid, found_after_set, stored_after_set,
}

-- A valid cache that can hold an entry.
pub record IsRoomy {S : Type 0} (c : LruCache S) : Type 0 where
  pub valid : IsValid c
  pub room : 0 < capacity c

-- An entry with these metadata is not expired at the instants.
abbrev pub LivesDuring : (ℤ → Type 0) → Meta → Type 0
LivesDuring during m = (now : ℤ) → during now → after now (expires_at m) ≡ false

-- The cache has such an entry of the key, and its body can be opened.
pub record IsHeld (St : Storage) (key : Str) (during : ℤ → Type 0) (c : LruCache St.State)
    : Type 0 where
  pub valid : IsValid c
  pub meta : Meta
  pub found : find key (contents c) ≡ some meta
  pub live : LivesDuring during meta
  pub stored : Reader × Metadata
  pub reads : St.read c.storage key ≡ ok stored

module _ (St : Storage) (key : Str) (now : ℤ) where
  pub get-IsRoomy : (c : LruCache St.State) → IsRoomy c → IsRoomy (get St now c key).0
  get-IsRoomy c h = record {
    valid = (get-refines St c now key h.valid).0;
    room = rw (max_items-get St c now key) h.room;
  }

  module _ (during : ℤ → Type 0) (c : LruCache St.State) (h : IsHeld St key during c)
      (t : during now) where
    -- `Get` returns the entry,
    pub get_held : (get St now c key).1 ≡ ok (h.stored.0, h.meta)
    unfolding ideal_reply
    get_held = (get-refines St c now key h.valid).2 ∙ ground (arith, h.found, h.live now t, h.reads)

    -- and keeps it.
    pub get-IsHeld : IsHeld St key during (get St now c key).0
    unfolding ideal_get is_readable find
    get-IsHeld = record {
      valid = (get-refines St c now key h.valid).0;
      meta = h.meta;
      found =
          rw (get-refines St c now key h.valid).1 (ground (arith, h.found, h.live now t, h.reads));
      live = h.live;
      stored = h.stored;
      reads = rw (storage-get St c now key) h.reads;
    }

-- After a `Set` that succeeds the cache has the entry.
pub set-IsHeld :
    (St : Storage) (laws : StorageLaws St) (f : Formats) (key : Str) (during : ℤ → Type 0)
    (c : LruCache St.State) (body : Str) (m : Meta)
    → IsRoomy c
    → m.key ≡ key
    → LivesDuring during m
    → (set St f c key (ok body) m).1 ≡ none
    → IsHeld St key during (set St f c key (ok body) m).0
set-IsHeld St laws f key during c body m h own live done =
    rw (set-after_set St laws f c key body m h.valid own done) (record {
      valid = after_set-IsValid St laws f c key body m h.valid own done;
      meta = m;
      found = found_after_set St laws f c key body m h.valid own done h.room;
      live = live;
      stored = (ok body, laws.kept (meta_to_storage_meta f m));
      reads = stored_after_set St laws f c key body m h.valid own done h.room;
    })
