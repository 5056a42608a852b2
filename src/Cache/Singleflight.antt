-- ===== src/Cache/Singleflight.antt =====
-- internal/cache/singleflight.go: `SingleflightCache` over the LRU cache. The group of
-- golang.org/x/sync is a parameter of each call: `none` where no call of the same key is in flight,
-- so that `Do` runs the closure, and `some r` where one is, so that `Do` waits for it and returns
-- its outcome `r`. `W` is the state that a fetch changes.
pub mod Fetches
pub mod Callers
pub mod Invariant
use file_server.Prelude.{Str, ℤ, Bool, true, false, Option, none, some}
use file_server.Errors.{Error, Result, ok, err, Failure}
use file_server.Storage.{Storage, Reader}
use file_server.Cache.Lru.{Meta, LruCache, Formats}
use file_server.Cache.Lru

-- `sfResult`
pub record SfResult : Type 0 where
  pub bytes : Str
  pub meta : Meta

-- A fetch may change the state `W`; its reader gives the full body.
abbrev pub Fetch : Type 0 → Type 0
Fetch W = W → W × Result (Reader × Meta)

-- `io.ReadAll` of what the second `Get` returned.
unfoldable pub read_all : Reader → Meta → Result SfResult
read_all (ok body) meta = ok (record { bytes = body; meta = meta })
read_all (err e) meta = err e

-- Each caller has a reader of its own over the shared bytes.
abbrev pub to_reader : Result SfResult → Result (Reader × Meta)
to_reader (ok r) = ok (ok r.bytes, r.meta)
to_reader (err e) = err e

module _ (St : Storage) where
  -- `Delete` and `Stat` of the wrapped cache
  unfoldable pub delete : LruCache St.State → Str → LruCache St.State × Failure
  delete c key = Lru.delete St c key

  unfoldable pub stat : LruCache St.State → Str → Result Meta
  stat c key = Lru.stat c key

module _ (St : Storage) (f : Formats) where
  -- The body of the closure after a successful fetch: the body is read to the end, and `Set` is
  -- tried; its failure is ignored.
  unfoldable pub store_fetched :
      LruCache St.State → Str → Reader → Meta → LruCache St.State × Result SfResult
  store_fetched c key (err e) meta = (c, err e)
  store_fetched c key (ok body) meta =
      ((Lru.set St f c key (ok body) meta).0, ok (record { bytes = body; meta = meta }))

  module _ {W : Type 0} where
    -- The closure after a second miss.
    unfoldable pub run_fetch :
        LruCache St.State → W → Str → Fetch W → (LruCache St.State × W) × Result SfResult
    unfolding store_fetched
    run_fetch c w key fetch =
        let (w', fetched) = fetch w in
        elim fetched [
          | err e ↦ ((c, w'), err e)
          | ok (r, meta) ↦ let (c', result) = store_fetched c key r meta in ((c', w'), result)
        ]

    -- The closure that `Do` runs, at the instant `now`.
    unfoldable pub closure :
        ℤ → LruCache St.State → W → Str → Fetch W → (LruCache St.State × W) × Result SfResult
    unfolding run_fetch read_all
    closure now c w key fetch =
        let (c', found) = Lru.get St now c key in
        elim found [
          | ok (rc, meta) ↦ ((c', w), read_all rc meta)
          | err _ ↦ run_fetch c' w key fetch
        ]

    -- `group.Do`
    unfoldable pub do_group :
        Option (Result SfResult)
        → ℤ
        → LruCache St.State
        → W
        → Str
        → Fetch W
        → (LruCache St.State × W) × Result SfResult
    unfolding closure
    do_group (some r) now c w key fetch = ((c, w), r)
    do_group none now c w key fetch = closure now c w key fetch

    -- `GetOrFetch`, whose first `Get` is at the instant `now` and whose closure runs at `later`.
    unfoldable pub get_or_fetch :
        ℤ
        → ℤ
        → Option (Result SfResult)
        → LruCache St.State
        → W
        → Str
        → Fetch W
        → (LruCache St.State × W) × Result (Reader × Meta)
    unfolding do_group
    get_or_fetch now later in_flight c w key fetch =
        let (c', found) = Lru.get St now c key in
        elim found [
          | ok p ↦ ((c', w), ok p)
          | err _ ↦
              let (state, result) = do_group in_flight later c' w key fetch in
              (state, to_reader result)
        ]
