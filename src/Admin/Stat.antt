-- ===== src/Admin/Stat.antt =====
-- internal/admin/handler.go: the answer of `Stat` and the handler's X-Cache flag.
use file_server.Prelude.{
  Str, ℤ, after, none, some, true, false, Bool-cases, Option-cases, ◌≡◌, inl, inr, arith,
}
use file_server.Errors.{Error, Result-cases, ok, err}
use file_server.Storage.{Storage}
use file_server.Cache.Lru.{LruCache, Meta}
use file_server.Cache.Lru.Invariant.{IsValid}
use file_server.Cache.Lru.Writes.{delete-refines}
use file_server.Cache.Singleflight
use file_server.Flush.{Store, Rule}
use file_server.Flush
use file_server.Domain.{Deps, is_ok, apply_flush}
use file_server.Domain.Flushed.{stat_absent, deleted_absent}
use file_server.Admin.{stat_response}

module _ (St : Storage) {F P W : Type 0} (deps : Deps F P W) (whole_seconds : ℤ → ℤ) (now : ℤ)
    (c : LruCache St.State) (flush : Store St.State) (domain path key : Str) where
  missing :
      (e : Error)
      → Singleflight.stat St c key ≡ err e
      → (stat_response St whole_seconds now c flush domain path key).hit
        ≡ is_ok (Singleflight.stat St (apply_flush St deps c flush domain path key) key)
  unfolding stat_response apply_flush
  missing e absent = ground arith

  module _ (m : Meta) (held : Singleflight.stat St c key ≡ ok m) where
    unmatched :
        Flush.match flush domain path ≡ none
        → (stat_response St whole_seconds now c flush domain path key).hit
          ≡ is_ok (Singleflight.stat St (apply_flush St deps c flush domain path key) key)
    unfolding stat_response apply_flush
    unmatched h = ground arith

    module _ (rule : Rule) (matched : Flush.match flush domain path ≡ some rule) where
      earlier :
          after rule.created_at m.written_at ≡ false
          → (stat_response St whole_seconds now c flush domain path key).hit
            ≡ is_ok (Singleflight.stat St (apply_flush St deps c flush domain path key) key)
      unfolding stat_response apply_flush
      earlier h = ground arith

      later :
          IsValid c
          → after rule.created_at m.written_at ≡ true
          → (stat_response St whole_seconds now c flush domain path key).hit
            ≡ is_ok (Singleflight.stat St (apply_flush St deps c flush domain path key) key)
      unfolding stat_response apply_flush Singleflight.delete
      later v h = ground (
        arith,
        stat_absent St (Singleflight.delete St c key).0 key (delete-refines St c key v).0
            (deleted_absent St c key v),
      )

  -- On a valid cache the `hit` that the API answers for a domain, path and key is the flag that the
  -- domain handler would report for them, after it has applied the flush rules.
  pub stat_response-hit :
      IsValid c
      → (stat_response St whole_seconds now c flush domain path key).hit
        ≡ is_ok (Singleflight.stat St (apply_flush St deps c flush domain path key) key)
  stat_response-hit v = elim (Result-cases (Singleflight.stat St c key)) [
    | inr (e, absent) ↦ missing e absent
    | inl (m, held) ↦ elim (Option-cases (Flush.match flush domain path)) [
      | inl none_matches ↦ unmatched m held none_matches
      | inr (rule, matched) ↦ elim (Bool-cases (after rule.created_at m.written_at)) [
        | inl newer ↦ later m held rule matched v newer
        | inr older ↦ earlier m held rule matched older
      ]
    ]
  ]
