-- ===== src/Storage/Os.antt =====
-- What internal/storage/localfs.go uses of package os, on the files of one directory by their names
-- in it. Calls may fail: `faults` decides this for the calls that create or change a file, one
-- element for each such call in order, none where it has run out; the functions of `Host` decide it
-- for opening and removing a file. A deferred `Close`, whose error is ignored, is left out.
use file_server.Prelude.{
  ℕ, ◌+◌, Str, str, Map, find, put, remove, ℤ, List, [], ◌∷◌, Option, none, some,
}
use file_server.Errors.{Error, leaf, Result, Failure}
use file_server.Storage.{Metadata}

pub record File : Type 0 where
  pub bytes : Str
  pub mod_time : ℤ

-- A failure of one call, and what a failing `os.WriteFile` leaves of the file, if it was reached.
pub record Fault : Type 0 where
  pub error : Error
  pub left : Option Str

pub record Directory : Type 0 where
  pub files : Map File
  pub faults : List (Option Fault)
  pub temps : ℕ
  pub clock : ℤ

pub record Host : Type 0 where
  pub digest : Str → Str
  pub temp_suffix : ℕ → Str
  pub open_error : Str → Option Error
  pub remove_error : Str → Option Error
  pub marshal : Metadata → Result Str
  pub unmarshal : Str → Result Metadata

-- The next element of `faults`.
abbrev pub next_fault : List (Option Fault) → Option Fault
next_fault [] = none
next_fault (f ∷ fs) = f

abbrev pub later_faults : List (Option Fault) → List (Option Fault)
later_faults [] = []
later_faults (f ∷ fs) = fs

-- The directory after one more call.
abbrev pub called : Directory → Directory
called d = record d { faults = later_faults d.faults }

abbrev pub store : Directory → Str → Str → Directory
store d name bytes = record d {
  files = put name (record { bytes = bytes; mod_time = d.clock }) d.files;
}

abbrev pub error_of : Option Fault → Failure
error_of none = none
error_of (some f) = some f.error

-- Package os. `os.CreateTemp`, of a name that no file has;
unfoldable pub create_temp : Directory → Str → Directory × Failure
create_temp d name = elim (next_fault d.faults) [
  | none ↦ (record (store (called d) name []) { temps = d.temps + 1 }, none)
  | some f ↦ (record (called d) { temps = d.temps + 1 }, some f.error)
]

-- writing the whole of a file that is open for writing; a failing write may leave a part;
unfoldable pub write_bytes : Directory → Str → Str → Directory × Failure
write_bytes d name bytes = elim (next_fault d.faults) [
  | none ↦ (store (called d) name bytes, none)
  | some f ↦ elim f.left [
    | none ↦ (called d, some f.error)
    | some part ↦ (store (called d) name part, some f.error)
  ]
]

-- `Close`;
unfoldable pub close : Directory → Directory × Failure
close d = (called d, error_of (next_fault d.faults))

-- `os.Rename`, of a file that is there;
unfoldable pub rename : Directory → Str → Str → Directory × Failure
rename d from to = elim (next_fault d.faults) [
  | some f ↦ (called d, some f.error)
  | none ↦ elim (find from d.files) [
    | none ↦ (called d, some (leaf (str "no such file or directory")))
    | some file ↦ (record (called d) { files = put to file (remove from d.files) }, none)
  ]
]

-- and `os.Remove`.
pub data Removal : Type 0 where
  removed : Removal
  missing : Removal
  failed : Error → Removal

module _ (host : Host) where
  unfoldable pub remove_file : Directory → Str → Directory × Removal
  remove_file d name = elim (host.remove_error name) [
    | some e ↦ (d, failed e)
    | none ↦ elim (find name d.files) [
      | none ↦ (d, missing)
      | some file ↦ (record d { files = remove name d.files }, removed)
    ]
  ]
