-- ===== src/Cache/Lru/Refinement.antt =====
-- internal/cache/cache.go: `Get` implements the list of entries in the order of use.
use file_server.Prelude.{
  ℕ, Str, str, ◌++◌, find, remove, length, ℤ, after, ◌<◌, true, false, none, some, ◌≡◌, Bool-cases,
  Option-cases, inl, inr, arith, ap, ◌∙◌,
}
use file_server.Errors.{Error, Result-cases, leaf, wrap, Result, ok, err}
use file_server.Storage.{Storage, Metadata, Reader}
use file_server.Cache.Lru.{LruCache, Meta, expires_at, move_to_front, remove_locked, drop_key, get}
use file_server.Cache.Lru.Invariant.{
  IsValid, contents, remove_locked-IsIndexed, contents-remove_locked,
}
use file_server.Cache.Lru.Ideal.{is_readable, ideal_get, ideal_reply}
use file_server.Cache.Lru.Steps.{
  in_entries, find-contents, find-contents-none, touch-IsIndexed, contents-touch, capacity,
  IsValid-of_contents, contents_fit, max_items-capacity, drop_key-IsIndexed, contents-drop_key,
  max_items-drop_key, remove-remove, length-remove-lt, remove-cons,
}

module _ (St : Storage) (c : LruCache St.State) (now : ℤ) (key : Str) where
  pub max_items-get : (get St now c key).0.max_items ≡ c.max_items
  unfolding get remove_locked drop_key
  max_items-get = ground arith

  pub storage-get : (get St now c key).0.storage ≡ c.storage
  unfolding get remove_locked drop_key
  storage-get = ground arith

  abbrev pub touched : ℕ → LruCache St.State
  touched i = record c { lru = move_to_front i c.lru }

  -- What `Get` computes, case by case.
  pub get_miss :
      find key c.items ≡ none → get St now c key ≡ (c, err (leaf (str "cache: miss: " ++ key)))
  unfolding get
  get_miss absent = ground arith

  module _ (i : ℕ) (found : find key c.items ≡ some i) where
    pub get_expired :
        after now (expires_at (c.values i)) ≡ true
        → get St now c key ≡ (remove_locked c i, err (leaf (str "cache: expired: " ++ key)))
    unfolding get
    get_expired late = ground arith

    pub get_hit :
        (p : Reader × Metadata)
        → after now (expires_at (c.values i)) ≡ false
        → St.read c.storage key ≡ ok p
        → get St now c key ≡ (touched i, ok (p.0, c.values i))
    unfolding get
    get_hit p live stored = ground arith

    pub get_lost :
        (e : Error)
        → after now (expires_at (c.values i)) ≡ false
        → St.read c.storage key ≡ err e
        → get St now c key
          ≡ (drop_key St (touched i) key, err (wrap (str "cache: storage read: ") e))
    unfolding get
    get_lost e live stored = ground arith

  -- The four ways through `Get`.
  pub data GetCase : Type 0 where
    missing : find key c.items ≡ none → GetCase
    late :
        (i : ℕ) → find key c.items ≡ some i → after now (expires_at (c.values i)) ≡ true → GetCase
    hit :
        (i : ℕ) (p : Reader × Metadata)
        → find key c.items ≡ some i
        → after now (expires_at (c.values i)) ≡ false
        → St.read c.storage key ≡ ok p
        → GetCase
    lost :
        (i : ℕ) (e : Error)
        → find key c.items ≡ some i
        → after now (expires_at (c.values i)) ≡ false
        → St.read c.storage key ≡ err e
        → GetCase

  pub get_cases : GetCase
  get_cases = elim (Option-cases (find key c.items)) [
    | inl absent ↦ missing absent
    | inr (i, found) ↦ elim (Bool-cases (after now (expires_at (c.values i)))) [
      | inl old ↦ late i found old
      | inr live ↦ elim (Result-cases (St.read c.storage key)) [
        | inl (p, stored) ↦ hit i p found live stored
        | inr (e, failed) ↦ lost i e found live failed
      ]
    ]
  ]

  module _ (v : IsValid c) where
    found_fits : (i : ℕ) → find key c.items ≡ some i → length (remove key (contents c)) < capacity c
    found_fits i found = omega (
      arith,
      length-remove-lt key (c.values i) (contents c) (find-contents c v.indexed key i found),
      contents_fit c v,
    )

    pub expired-IsValid : (i : ℕ) → find key c.items ≡ some i → IsValid (remove_locked c i)
    expired-IsValid i found =
        IsValid-of_contents (capacity c) (remove_locked c i)
          (remove_locked-IsIndexed c v.indexed key i (in_entries c v.indexed key i found))
          (unfold remove_locked in max_items-capacity c v)
          (rw (contents-remove_locked c v.indexed key i (in_entries c v.indexed key i found))
            (omega (arith, found_fits i found)))

    pub touched-IsValid : (i : ℕ) → find key c.items ≡ some i → IsValid (touched i)
    touched-IsValid i found =
        IsValid-of_contents (capacity c) (touched i) (touch-IsIndexed c v.indexed key i found)
          (max_items-capacity c v)
          (rw (contents-touch c v.indexed key i found) (found_fits i found))

    dropped_contents :
        (i : ℕ)
        → find key c.items ≡ some i
        → contents (drop_key St (touched i) key) ≡ remove key (contents c)
    dropped_contents i found =
        contents-drop_key St (touched i) (touch-IsIndexed c v.indexed key i found) key
        ∙ ap (remove key) (contents-touch c v.indexed key i found)
        ∙ remove-cons key (c.values i) (remove key (contents c))
        ∙ remove-remove key (contents c)

    -- The invariant and the contents after `Get`, and its reply, are those of the ideal cache.
    abbrev Refines : LruCache St.State × Result (Reader × Meta) → Type 0
    Refines r =
        IsValid r.0
        × (contents r.0 ≡ ideal_get now (is_readable (St.read c.storage key)) key (contents c))
        × (r.1 ≡ ideal_reply now (St.read c.storage key) key (contents c))

    get_by_case : GetCase → Refines (get St now c key)
    unfolding ideal_get ideal_reply is_readable
    get_by_case (missing absent) = rw (get_miss absent) (
      v,
      ground (arith, find-contents-none c v.indexed key absent),
      ground (arith, find-contents-none c v.indexed key absent),
    )
    get_by_case (late i found old) = rw (get_expired i found old) (
      expired-IsValid i found,
      ground (
        arith,
        find-contents c v.indexed key i found,
        contents-remove_locked c v.indexed key i (in_entries c v.indexed key i found),
      ),
      ground (arith, find-contents c v.indexed key i found),
    )
    get_by_case (hit i p found live stored) = rw (get_hit i found p live stored) (
      touched-IsValid i found,
      ground (arith, find-contents c v.indexed key i found, contents-touch c v.indexed key i found),
      ground (arith, find-contents c v.indexed key i found),
    )
    get_by_case (lost i e found live failed) = rw (get_lost i found e live failed) (
      IsValid-of_contents (capacity c) (drop_key St (touched i) key)
          (drop_key-IsIndexed St (touched i) (touch-IsIndexed c v.indexed key i found) key)
          (max_items-drop_key St (touched i) (touch-IsIndexed c v.indexed key i found) key
            ∙ max_items-capacity c v)
          (rw (dropped_contents i found) (omega (arith, found_fits i found))),
      ground (arith, find-contents c v.indexed key i found, dropped_contents i found),
      ground (arith, find-contents c v.indexed key i found),
    )

-- On a valid cache `Get` leaves a valid cache, whose entries and whose reply are those of the
-- ideal list: a miss changes nothing, an expired entry is dropped with an error, an entry whose
-- body cannot be read is dropped with the storage's error, and any other moves to the front and is
-- returned with its body.
pub get-refines :
    (St : Storage) (c : LruCache St.State) (now : ℤ) (key : Str)
    → IsValid c
    → IsValid (get St now c key).0
      × (contents (get St now c key).0
          ≡ ideal_get now (is_readable (St.read c.storage key)) key (contents c))
      × ((get St now c key).1 ≡ ideal_reply now (St.read c.storage key) key (contents c))
get-refines St c now key v = get_by_case St c now key v (get_cases St c now key)
