-- ===== src/Cache/Singleflight/Fetches.antt =====
-- internal/cache/singleflight.go: when `GetOrFetch` fetches, and what it returns.
use file_server.Prelude.{
  ◌<◌, Str, str, ◌++◌, ℤ, after, false, Option, none, ◌≡◌, ◌⊎◌, inl, inr, refl, arith, ◌∙◌, find,
  find-remove,
}
use file_server.Errors.{Error, Result, ok, err, leaf}
use file_server.Storage.{Storage, StorageLaws, Reader}
use file_server.Cache.Lru.{Meta, LruCache, Formats, expires_at, get, set}
use file_server.Cache.Lru.Elements.{find-entries-none}
use file_server.Cache.Lru.Invariant.{IsValid, contents}
use file_server.Cache.Lru.Ideal.{ideal_reply, ideal_get, is_readable}
use file_server.Cache.Lru.Refinement.{get-refines, get_miss, max_items-get}
use file_server.Cache.Lru.Steps.{capacity}
use file_server.Cache.Lru.Backing.{get-set}
use file_server.Cache.Singleflight.{SfResult, Fetch, get_or_fetch}

-- A fetch that gave the error, or a body whose reading gave it.
abbrev pub IsFailed : Error → Result (Reader × Meta) → Type 0
IsFailed e r = (r ≡ err e) ⊎ ((m : Meta) × (r ≡ ok (err e, m)))

module _ (St : Storage) (f : Formats) {W : Type 0} where
  -- `GetOrFetch` runs the fetch at most once: the state of the fetch is left alone, or it is the
  -- state after one fetch. It is left alone if the first `Get` hits, or if a call is in flight.
  pub get_or_fetch_once :
      (now later : ℤ) (in_flight : Option (Result SfResult)) (c : LruCache St.State) (w : W)
      (key : Str) (fetch : Fetch W)
      → ((get_or_fetch St f now later in_flight c w key fetch).0.1 ≡ w)
        ⊎ ((in_flight ≡ none)
            × (get_or_fetch St f now later in_flight c w key fetch).0.1 ≡ (fetch w).0)
  unfolding get_or_fetch
  get_or_fetch_once now later in_flight c w key fetch = ground arith

module _ (St : Storage) (c : LruCache St.State) (now : ℤ) (key : Str) (v : IsValid c) where
  -- A `Get` that fails leaves no entry of the key.
  find-get_failed :
      (e : Error) → (get St now c key).1 ≡ err e → find key (contents (get St now c key).0) ≡ none
  unfolding ideal_reply ideal_get is_readable find
  find-get_failed e failed =
      let r = get-refines St c now key v in
      rw (r.1) (ground (arith, r.2, find-remove key key (contents c)))

  -- So the second `Get` misses, and changes nothing.
  second_get :
      (e : Error) (later : ℤ)
      → (get St now c key).1 ≡ err e
      → get St later (get St now c key).0 key
        ≡ ((get St now c key).0, err (leaf (str "cache: miss: " ++ key)))
  second_get e later failed =
      let c' = (get St now c key).0 in
      let v' = (get-refines St c now key v).0 in
      get_miss St c' later key
        (v'.indexed.agree key ∙ find-entries-none c'.values key c'.lru (find-get_failed e failed))

module _ (St : Storage) (f : Formats) {W : Type 0} (c : LruCache St.State) (now later : ℤ) (w : W)
    (key : Str) (fetch : Fetch W) (v : IsValid c) (e : Error)
    (missed : (get St now c key).1 ≡ err e) where
  -- After a miss, with no call in flight, the outcome is that of the fetch.
  fetched_ok :
      (w' : W) (body : Str) (m : Meta)
      → fetch w ≡ (w', ok (ok body, m))
      → get_or_fetch St f now later none c w key fetch
        ≡ (((set St f (get St now c key).0 key (ok body) m).0, w'), ok (ok body, m))
  unfolding get_or_fetch
  fetched_ok w' body m fetched = ground (arith, second_get St c now key v e later missed, missed)

  fetched_failed :
      (w' : W) (e' : Error)
      → fetch w ≡ (w', err e')
      → get_or_fetch St f now later none c w key fetch ≡ (((get St now c key).0, w'), err e')
  unfolding get_or_fetch
  fetched_failed w' e' fetched = ground (arith, second_get St c now key v e later missed, missed)

  fetched_unread :
      (w' : W) (e' : Error) (m : Meta)
      → fetch w ≡ (w', ok (err e', m))
      → get_or_fetch St f now later none c w key fetch ≡ (((get St now c key).0, w'), err e')
  unfolding get_or_fetch
  fetched_unread w' e' m fetched = ground (arith, second_get St c now key v e later missed, missed)

  outcome_of :
      (r : W × Result (Reader × Meta))
      → fetch w ≡ r
      → ((get_or_fetch St f now later none c w key fetch).0.1 ≡ r.0)
        × (((body : Str) × (m : Meta) × (r.1 ≡ ok (ok body, m))
              × ((get_or_fetch St f now later none c w key fetch).1 ≡ ok (ok body, m)))
            ⊎ ((e' : Error) × IsFailed e' r.1
                × ((get_or_fetch St f now later none c w key fetch).1 ≡ err e')
                × (find key (contents (get_or_fetch St f now later none c w key fetch).0.0)
                    ≡ none)))
  outcome_of (w', ok (ok body, m)) fetched =
      rw (fetched_ok w' body m fetched) (refl, inl (body, m, refl, refl))
  outcome_of (w', ok (err e', m)) fetched =
      rw (fetched_unread w' e' m fetched)
        (refl, inr (e', inr (m, refl), refl, find-get_failed St c now key v e missed))
  outcome_of (w', err e') fetched =
      rw (fetched_failed w' e' fetched)
        (refl, inr (e', inl refl, refl, find-get_failed St c now key v e missed))

get_or_fetch_hit :
    (St : Storage) (f : Formats) {W : Type 0} (c : LruCache St.State) (now later : ℤ)
    (in_flight : Option (Result SfResult)) (w : W) (key : Str) (fetch : Fetch W) (p : Reader × Meta)
    → (get St now c key).1 ≡ ok p
    → get_or_fetch St f now later in_flight c w key fetch ≡ (((get St now c key).0, w), ok p)
unfolding get_or_fetch
get_or_fetch_hit St f c now later in_flight w key fetch p hit = ground (arith, hit)

-- On a valid cache, after a miss and with no call in flight, the reply is the fetched body and
-- metadata, or the error of the fetch or of reading its body; the fetch has run once; and after an
-- error the entries are those that the failed `Get` left, none of them of this key.
pub get_or_fetch_miss :
    (St : Storage) (f : Formats) {W : Type 0} (c : LruCache St.State) (now later : ℤ) (w : W)
    (key : Str) (fetch : Fetch W) (e : Error)
    → IsValid c
    → (get St now c key).1 ≡ err e
    → let r = get_or_fetch St f now later none c w key fetch in
      (r.0.1 ≡ (fetch w).0)
      × (((body : Str) × (m : Meta) × ((fetch w).1 ≡ ok (ok body, m)) × (r.1 ≡ ok (ok body, m)))
          ⊎ ((e' : Error) × IsFailed e' (fetch w).1
              × (r.1 ≡ err e')
              × (find key (contents r.0.0) ≡ none)))
get_or_fetch_miss St f c now later w key fetch e v missed =
    outcome_of St f c now later w key fetch v e missed (fetch w) refl

-- What was fetched is not fetched again: on a valid cache of a capacity that is not zero, over a
-- storage that keeps its laws, after a miss, a fetch under the key, and a `Set` that succeeded, the
-- next `GetOrFetch` of the key before the expiry returns the same body and metadata, and does not
-- run its fetch, whether or not a call is in flight.
pub get_or_fetch_again :
    (St : Storage) (laws : StorageLaws St) (f : Formats) {W : Type 0} (c : LruCache St.State)
    (now later then' after_then : ℤ) (w w' : W) (key body : Str) (m : Meta) (e : Error)
    (fetch fetch' : Fetch W) (in_flight : Option (Result SfResult))
    → IsValid c
    → 0 < capacity c
    → (get St now c key).1 ≡ err e
    → fetch w ≡ (w', ok (ok body, m))
    → m.key ≡ key
    → (set St f (get St now c key).0 key (ok body) m).1 ≡ none
    → after then' (expires_at m) ≡ false
    → let r = get_or_fetch St f now later none c w key fetch in
      let r' = get_or_fetch St f then' after_then in_flight r.0.0 r.0.1 key fetch' in
      (r'.1 ≡ ok (ok body, m)) × (r'.0.1 ≡ w')
get_or_fetch_again St laws f c now later then' after_then w w' key body m e fetch fetch' in_flight v
      room missed fetched same done live =
    let c' = (get St now c key).0 in
    let v' = (get-refines St c now key v).0 in
    let again =
      get-set St laws f c' key body m then' v' same (rw (max_items-get St c now key) room) done
        live in
    rw (fetched_ok St f c now later w key fetch v e missed w' body m fetched) (
      rw
        (get_or_fetch_hit St f (set St f c' key (ok body) m).0 then' after_then in_flight w' key
          fetch' (ok body, m) again)
        (refl, refl))
