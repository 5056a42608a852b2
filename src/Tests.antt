-- ===== src/Tests.antt =====
-- Concrete parameters for the tests: a storage in memory that keeps the laws, and formats.
pub mod Caching
pub mod Keys
pub mod Flushing
pub mod Serving
pub mod Sending
pub mod Handling
pub mod Managing
pub mod Files
pub mod Running
pub mod Restarting
pub mod Racing
pub mod Calling
pub mod Routing
pub mod Limits
use file_server.Prelude.{
  ℕ, Str, str, Map, find, put, remove, find-put, find-remove, str_dec_refl, ite, if_neg, str_dec, ℤ,
  pos, List, [], ◌∷◌, Bool, true, false, Option, none, some, ◌≡◌, ◌≢◌, refl, arith,
}
use file_server.Errors.{Error, leaf, Result, ok, err, Failure}
use file_server.Storage.{Storage, StorageLaws, Metadata, Reader, empty_metadata}
use file_server.Cache.Lru.{Formats, Meta}

abbrev File : Type 0
File = Str × Metadata

abbrev metadata_of : Option Metadata → Metadata
metadata_of none = empty_metadata
metadata_of (some m) = m

abbrev reply_of : Option File → Result (Reader × Metadata)
reply_of none = err (leaf (str "not found"))
reply_of (some (b, m)) = ok (ok b, m)

abbrev write_of : Map File → Str → Reader → Option Metadata → Map File × Failure
write_of s k (ok b) m = (put k (b, metadata_of m) s, none)
write_of s k (err e) m = (s, some e)

abbrev delete_of : Map File → Str → Map File × Failure
delete_of s k = (remove k s, none)

-- Files in memory.
abbrev pub memory : Storage
memory = record {
  State = Map File;
  read = λ s k. reply_of (find k s);
  write = write_of;
  delete = delete_of;
  exists = λ s k. elim (find k s) [ none ↦ false | some f ↦ true ];
  stat = λ s k. err (leaf (str "not supported"));
  list = λ s k. ok [];
}

write_ne :
    (s : Map File) (k j : Str) (r : Reader) (m : Option Metadata)
    → k ≢ j
    → reply_of (find j (write_of s k r m).0) ≡ reply_of (find j s)
write_ne s k j (ok b) m n = rw find-put (rw (if_neg _ n) refl)
write_ne s k j (err e) m n = refl

pub memory-laws : StorageLaws memory
memory-laws = record {
  kept = λ m. m;
  kept_text = λ m t. (refl, refl, refl, λ key. refl);
  read-write = λ s s' k b m e. read_written s s' k b m e;
  read-write_ne = λ s k j r m n. write_ne s k j r m n;
  read-delete_ne = λ s k j n. rw find-remove (rw (if_neg _ n) refl);
  read-delete = λ s s' k e. (leaf (str "not found"), read_deleted s s' k e);
}
  where
    read_written :
        (s s' : Map File) (k b : Str) (m : Metadata)
        → write_of s k (ok b) (some m) ≡ (s', none)
        → reply_of (find k s') ≡ ok (ok b, m)
    read_written s s' k b m e = ground (arith, find-put k k (b, m) s, str_dec k k)

    read_deleted :
        (s s' : Map File) (k : Str)
        → delete_of s k ≡ (s', none)
        → reply_of (find k s') ≡ err (leaf (str "not found"))
    read_deleted s s' k e = ground (arith, find-remove k k s, str_dec k k)

abbrev pub formats : Formats
formats = record { time = λ t. str "now"; duration = λ d. str "1h" }

-- Metadata of a key, written at an instant, for the lifetime 10.
abbrev pub meta_at : Str → ℤ → Meta
meta_at k t = record { key = k; written_at = t; ttl = pos 10; size = pos 1; headers = none }
