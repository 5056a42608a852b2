-- ===== src/Cache/Singleflight/Invariant.antt =====
-- internal/cache/singleflight.go: the states of the cache after `GetOrFetch`, on every way through.
use file_server.Prelude.{Str, ℤ, Option, none, some, ◌≡◌, ◌≢◌, inl, inr, arith, subst, sym}
use file_server.Errors.{Error, Result, Result-cases, ok, err}
use file_server.Storage.{Storage, StorageLaws, Reader, Metadata}
use file_server.Cache.Lru.{Meta, LruCache, Formats, get, set}
use file_server.Cache.Lru.Invariant.{IsValid}
use file_server.Cache.Lru.Refinement.{get-refines}
use file_server.Cache.Lru.Writes.{set-refines}
use file_server.Cache.Lru.Frame.{IsApart, get-IsApart, set-IsApart}
use file_server.Cache.Singleflight.{
  SfResult, Fetch, store_fetched, run_fetch, closure, do_group, get_or_fetch,
}

module _ (St : Storage) (f : Formats) (key : Str) (Q : LruCache St.State → Type 0)
    (on_get : (now : ℤ) (c : LruCache St.State) → Q c → Q (get St now c key).0)
    (on_set : (c : LruCache St.State) (r : Reader) (m : Meta)
      → m.key ≡ key
      → Q c
      → Q (set St f c key r m).0) where
  store_fetched-keeps :
      (c : LruCache St.State) (r : Reader) (m : Meta)
      → Q c
      → m.key ≡ key
      → Q (store_fetched St f c key r m).0
  unfolding store_fetched
  store_fetched-keeps c (ok body) m q own = on_set c (ok body) m own q
  store_fetched-keeps c (err e) m q own = q

  module _ {W : Type 0} (w : W) (fetch : Fetch W)
      (own : (p : Reader × Meta) → (fetch w).1 ≡ ok p → p.1.key ≡ key) where
    run_ok :
        (c : LruCache St.State) (p : Reader × Meta)
        → (fetch w).1 ≡ ok p
        → (run_fetch St f c w key fetch).0.0 ≡ (store_fetched St f c key p.0 p.1).0
    unfolding run_fetch
    run_ok c p e = ground arith

    run_err :
        (c : LruCache St.State) (e : Error)
        → (fetch w).1 ≡ err e
        → (run_fetch St f c w key fetch).0.0 ≡ c
    unfolding run_fetch
    run_err c e failed = ground arith

    run_fetch-keeps : (c : LruCache St.State) → Q c → Q (run_fetch St f c w key fetch).0.0
    run_fetch-keeps c v = elim (Result-cases (fetch w).1) [
      | inl (p, e) ↦ subst Q (sym (run_ok c p e)) (store_fetched-keeps c p.0 p.1 v (own p e))
      | inr (e, failed) ↦ subst Q (sym (run_err c e failed)) v
    ]

    module _ (now : ℤ) (c : LruCache St.State) where
      closure_hit :
          (p : Reader × Meta)
          → (get St now c key).1 ≡ ok p
          → (closure St f now c w key fetch).0.0 ≡ (get St now c key).0
      unfolding closure
      closure_hit p e = ground arith

      closure_miss :
          (e : Error)
          → (get St now c key).1 ≡ err e
          → (closure St f now c w key fetch).0.0
            ≡ (run_fetch St f (get St now c key).0 w key fetch).0.0
      unfolding closure
      closure_miss e failed = ground arith

      do_group-keeps :
          (in_flight : Option (Result SfResult))
          → Q c
          → Q (do_group St f in_flight now c w key fetch).0.0
      unfolding do_group
      do_group-keeps (some r) v = v
      do_group-keeps none v =
          let v' = on_get now c v in
          elim (Result-cases (get St now c key).1) [
            | inl (p, e) ↦ subst Q (sym (closure_hit p e)) v'
            | inr (e, failed) ↦
                subst Q (sym (closure_miss e failed)) (run_fetch-keeps (get St now c key).0 v')
          ]

    module _ (now later : ℤ) (in_flight : Option (Result SfResult)) (c : LruCache St.State) where
      fast :
          (p : Reader × Meta)
          → (get St now c key).1 ≡ ok p
          → (get_or_fetch St f now later in_flight c w key fetch).0.0 ≡ (get St now c key).0
      unfolding get_or_fetch
      fast p e = ground arith

      slow :
          (e : Error)
          → (get St now c key).1 ≡ err e
          → (get_or_fetch St f now later in_flight c w key fetch).0.0
            ≡ (do_group St f in_flight later (get St now c key).0 w key fetch).0.0
      unfolding get_or_fetch
      slow e failed = ground arith

      -- If what is fetched is under the key, `GetOrFetch` keeps, on every way through, what `Get` and
      -- `Set` of the key keep.
      pub get_or_fetch-keeps : Q c → Q (get_or_fetch St f now later in_flight c w key fetch).0.0
      get_or_fetch-keeps v =
          let v' = on_get now c v in
          elim (Result-cases (get St now c key).1) [
            | inl (p, e) ↦ subst Q (sym (fast p e)) v'
            | inr (e, failed) ↦
                subst Q (sym (slow e failed))
                  (do_group-keeps later (get St now c key).0 in_flight v')
          ]

module _ (St : Storage) (f : Formats) (key : Str) {W : Type 0} (w : W) (fetch : Fetch W)
    (own : (p : Reader × Meta) → (fetch w).1 ≡ ok p → p.1.key ≡ key) (now later : ℤ)
    (in_flight : Option (Result SfResult)) (c : LruCache St.State) where
  -- If what is fetched is under the key, a valid cache stays valid, on every way through.
  pub get_or_fetch-IsValid :
      IsValid c → IsValid (get_or_fetch St f now later in_flight c w key fetch).0.0
  get_or_fetch-IsValid =
      get_or_fetch-keeps St f key IsValid (λ now c v. (get-refines St c now key v).0)
        (λ c r m same v. (set-refines St f c key r m v same).0) w fetch own now later in_flight c

  -- If, besides, the key is another one than `k`, what is stored under `k` stays, and the cache has
  -- no entry of `k`.
  pub get_or_fetch-IsApart :
      (laws : StorageLaws St) (k : Str) (b : Result (Reader × Metadata))
      → key ≢ k
      → IsApart St k b c
      → IsApart St k b (get_or_fetch St f now later in_flight c w key fetch).0.0
  get_or_fetch-IsApart laws k b other =
      get_or_fetch-keeps St f key (IsApart St k b)
        (λ now c apart. get-IsApart St laws k b c key apart now)
        (λ c r m same apart. set-IsApart St laws k b c key apart other f r m same) w fetch own now
        later in_flight c
