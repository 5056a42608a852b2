-- ===== src/Cache/Lru.antt =====
-- internal/cache/cache.go: `LRUCache`. The elements of the container/list are numbers, in the
-- order of the list, front first; `values` is the heap of their `Value` fields, and `next` is the
-- number of the next element. The map and the list hold the same elements, as pointers do.
-- A critical section under `mu` is one step; no call of another thread stands between the
-- sections of one method here.
pub mod Elements
pub mod Invariant
pub mod Evict
pub mod Ideal
pub mod Steps
pub mod Refinement
pub mod Writes
pub mod Backing
pub mod Frame
pub mod Held
pub mod Threads
use file_server.Prelude.{
  ℕ, zero, suc, ◌+◌, Str, str, ◌++◌, Map, find, put, remove, ℤ, pos, ◌+ℤ◌, after, ltb_ℤ, length,
  List, [], ◌∷◌, Bool, true, false, ◌||◌, ◌==◌, if◌then◌else◌, Option, none, some,
}
use file_server.Errors.{leaf, wrap, Result, ok, err, Failure}
use file_server.Http.{Header, header_get}
use file_server.Storage.{Storage, Metadata, Reader}

-- `Meta`; a nil `Headers` is `none`
pub record Meta : Type 0 where
  pub key : Str
  pub written_at : ℤ
  pub ttl : ℤ
  pub size : ℤ
  pub headers : Option Header

abbrev pub zero_meta : Meta
zero_meta = record { key = []; written_at = pos 0; ttl = pos 0; size = pos 0; headers = none }

unfoldable pub expires_at : Meta → ℤ
unfolding ◌+ℤ◌
expires_at m = m.written_at +ℤ m.ttl

-- container/list on element numbers: `l.Remove(e)`, which ignores a foreign element,
unfoldable pub list_remove : ℕ → List ℕ → List ℕ
list_remove i [] = []
list_remove i (j ∷ l) = if j == i then l else j ∷ list_remove i l

unfoldable pub is_element : ℕ → List ℕ → Bool
is_element i [] = false
is_element i (j ∷ l) = j == i || is_element i l

-- `l.MoveToFront(e)`, which ignores it too,
unfoldable pub move_to_front : ℕ → List ℕ → List ℕ
unfolding list_remove is_element
move_to_front i l = if is_element i l then i ∷ list_remove i l else l

-- and `l.Back()`.
unfoldable pub back : List ℕ → Option ℕ
back [] = none
back (i ∷ []) = some i
back (i ∷ j ∷ l) = back (j ∷ l)

-- A write to the heap of elements.
abbrev pub update : (ℕ → Meta) → ℕ → Meta → ℕ → Meta
update values i m j = if i == j then m else values j

pub record LruCache (S : Type 0) : Type 0 where
  pub items : Map ℕ
  pub lru : List ℕ
  pub values : ℕ → Meta
  pub next : ℕ
  pub max_items : ℤ
  pub storage : S

-- The formatting of instants and durations, for the storage's metadata.
pub record Formats : Type 0 where
  pub time : ℤ → Str
  pub duration : ℤ → Str

-- The three headers, read if there is a header map.
abbrev pub header_or_empty : Option Header → Str → Str
header_or_empty none name = []
header_or_empty (some h) name = header_get h name

-- `metaToStorageMeta`
unfoldable pub meta_to_storage_meta : Formats → Meta → Metadata
meta_to_storage_meta f m = record {
  content_type = header_or_empty m.headers (str "Content-Type");
  cache_control = header_or_empty m.headers (str "Cache-Control");
  expires = header_or_empty m.headers (str "Expires");
  custom_meta =
      (str "key", m.key)
      ∷ (str "written_at", f.time m.written_at)
      ∷ (str "ttl", f.duration m.ttl)
      ∷ [];
}

module _ {S : Type 0} where
  -- `NewLRUCache`
  unfoldable pub new : ℤ → S → LruCache S
  new max_items s = record {
    items = [];
    lru = [];
    values = λ _. zero_meta;
    next = 0;
    max_items = max_items;
    storage = s;
  }

  -- `removeLocked`
  unfoldable pub remove_locked : LruCache S → ℕ → LruCache S
  unfolding list_remove
  remove_locked c el = record c {
    items = remove (c.values el).key c.items;
    lru = list_remove el c.lru;
  }

  -- `Len`
  unfoldable pub len : LruCache S → ℕ
  len c = length c.lru

  -- `Stat`: a copy of the metadata; an expired entry is returned too.
  unfoldable pub stat : LruCache S → Str → Result Meta
  stat c key = elim (find key c.items) [
    | none ↦ err (leaf (str "cache: not found: " ++ key))
    | some el ↦ ok (c.values el)
  ]

module _ (St : Storage) where
  -- The loop of `evictLocked`, with fuel.
  unfoldable pub evict : ℕ → LruCache St.State → LruCache St.State
  unfolding remove_locked back
  evict zero c = c
  evict (suc fuel) c = elim (ltb_ℤ c.max_items (pos (length c.lru))) [
    | true ↦ elim (back c.lru) [
      | none ↦ c
      | some tail ↦
          evict fuel (
            remove_locked (record c { storage = (St.delete c.storage (c.values tail).key).0 }) tail)
    ]
    | false ↦ c
  ]

  -- `evictLocked`: a round shortens the list, so its length is fuel enough.
  unfoldable pub evict_locked : LruCache St.State → LruCache St.State
  unfolding evict
  evict_locked c = evict (length c.lru) c

  -- The second critical section of `Get`, after a failed read.
  unfoldable pub drop_key : LruCache St.State → Str → LruCache St.State
  unfolding remove_locked
  drop_key c key = elim (find key c.items) [ none ↦ c | some el ↦ remove_locked c el ]

  -- `Get` at the instant `now`
  unfoldable pub get : ℤ → LruCache St.State → Str → LruCache St.State × Result (Reader × Meta)
  unfolding remove_locked move_to_front expires_at drop_key
  get now c key = elim (find key c.items) [
    | none ↦ (c, err (leaf (str "cache: miss: " ++ key)))
    | some el ↦
        let meta = c.values el in
        if after now (expires_at meta)
        then (remove_locked c el, err (leaf (str "cache: expired: " ++ key)))
        else (let c' = record c { lru = move_to_front el c.lru } in
            elim (St.read c'.storage key) [
              | ok (rc, _) ↦ (c', ok (rc, meta))
              | err e ↦ (drop_key c' key, err (wrap (str "cache: storage read: ") e))
            ])
  ]

  -- The critical section of `Set`.
  unfoldable pub record_entry : LruCache St.State → Str → Meta → LruCache St.State
  unfolding move_to_front evict_locked
  record_entry c key meta = elim (find key c.items) [
    | some el ↦ record c { values = update c.values el meta; lru = move_to_front el c.lru }
    | none ↦ evict_locked (record c {
      items = put key c.next c.items;
      lru = c.next ∷ c.lru;
      values = update c.values c.next meta;
      next = c.next + 1;
    })
  ]

  -- `Set`
  unfoldable pub set :
      Formats → LruCache St.State → Str → Reader → Meta → LruCache St.State × Failure
  unfolding record_entry meta_to_storage_meta
  set f c key r meta =
      let (s, failure) = St.write c.storage key r (some (meta_to_storage_meta f meta)) in
      let c' = record c { storage = s } in
      elim failure [
        | some e ↦ (c', some (wrap (str "cache: storage write: ") e))
        | none ↦ (record_entry c' key meta, none)
      ]

  -- `Delete`
  unfoldable pub delete : LruCache St.State → Str → LruCache St.State × Failure
  unfolding drop_key
  delete c key =
      let c' = drop_key c key in
      let (s, failure) = St.delete c'.storage key in (record c' { storage = s }, failure)
