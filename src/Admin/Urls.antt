-- ===== src/Admin/Urls.antt =====
-- internal/admin/handler.go: `FlushURL`, and what all the flushes keep.
use file_server.Prelude.{
  Str, str, str_eq, remove, ℤ, Option, none, some, true, false, Bool-cases, Option-cases, ◌≡◌, inl,
  inr, refl, arith, subst, sym,
}
use file_server.Storage.{Storage}
use file_server.Http.{Request, Writer, write_header}
use file_server.Config.{Config}
use file_server.Cache.Lru.Invariant.{IsValid, contents}
use file_server.Cache.Lru.Writes.{delete-refines}
use file_server.Cache.Key.{KeyBuilder}
use file_server.Cache.Singleflight
use file_server.Flush.{Codec}
use file_server.Domain.{Handler}
use file_server.Domain.Invariant.{IsSound}
use file_server.Admin.{with_cache, url_key, flush_prefix, flush_domain, flush_url}
use file_server.Admin.Effects.{flush_prefix-IsSound, flush_domain-IsSound}

module _ (St : Storage) {F P W : Type 0} (short_hash : Str → Str) (kb : KeyBuilder)
    (global : Config F) (parse : Str → Option (Str × Request)) (decode : Str → Option Str)
    (h : Handler St.State F P W) (w : Writer) (body : Str) where
  url_malformed :
      decode body ≡ none → (flush_url St short_hash kb global parse decode h w body).0 ≡ h
  unfolding flush_url
  url_malformed absent = ground arith

  module _ (url : Str) (given : decode body ≡ some url) where
    url_empty :
        str_eq url (str "") ≡ true → (flush_url St short_hash kb global parse decode h w body).0 ≡ h
    unfolding flush_url
    url_empty empty = ground arith

    module _ (full : str_eq url (str "") ≡ false) where
      url_invalid :
          parse url ≡ none → (flush_url St short_hash kb global parse decode h w body).0 ≡ h
      unfolding flush_url
      url_invalid invalid = ground arith

      url_deleted :
          (domain : Str) (req : Request)
          → parse url ≡ some (domain, req)
          → flush_url St short_hash kb global parse decode h w body ≡ (
            with_cache h
                (Singleflight.delete St h.cache (url_key short_hash kb global domain req)).0,
            write_header w 204,
          )
      unfolding flush_url
      url_deleted domain req e = ground arith

      -- `FlushURL` of a URL that parses drops the entry of its key, computed from the path as it is
      -- in the URL, and no other entry; the cache stays valid, and the answer is 204, whether or
      -- not the body could be deleted.
      pub flush_url-refines :
          (domain : Str) (req : Request)
          → parse url ≡ some (domain, req)
          → IsValid h.cache
          → let (h', w') = flush_url St short_hash kb global parse decode h w body in
            IsValid h'.cache
            × (contents h'.cache
                ≡ remove (url_key short_hash kb global domain req) (contents h.cache))
            × (w' ≡ write_header w 204)
      unfolding Singleflight.delete
      flush_url-refines domain req e v =
          let deleted = delete-refines St h.cache (url_key short_hash kb global domain req) v in
          rw (url_deleted domain req e) (deleted.0, deleted.1, refl)

  -- `FlushURL` leaves the state alone or drops one key.
  pub flush_url_cases {ℓ} :
      (Q : Handler St.State F P W → Type ℓ)
      → Q h
      → ((domain : Str) (req : Request)
          → Q (
              with_cache h
                (Singleflight.delete St h.cache (url_key short_hash kb global domain req)).0))
      → Q (flush_url St short_hash kb global parse decode h w body).0
  flush_url_cases Q same deleted = elim (Option-cases (decode body)) [
    | inl absent ↦ subst Q (sym (url_malformed absent)) same
    | inr (url, given) ↦ elim (Bool-cases (str_eq url (str ""))) [
      | inl empty ↦ subst Q (sym (url_empty url given empty)) same
      | inr full ↦ elim (Option-cases (parse url)) [
        | inl invalid ↦ subst Q (sym (url_invalid url given full invalid)) same
        | inr ((domain, req), e) ↦ rw (url_deleted url given full domain req e) (deleted domain req)
      ]
    ]
  ]

  pub deleted-IsSound :
      (key : Str) → IsSound h → IsSound (with_cache h (Singleflight.delete St h.cache key).0)
  unfolding Singleflight.delete
  deleted-IsSound key sound = record {
    valid = (delete-refines St h.cache key sound.valid).0;
    shared = refl;
  }

  pub flush_url-IsSound :
      IsSound h → IsSound (flush_url St short_hash kb global parse decode h w body).0
  flush_url-IsSound sound =
      flush_url_cases IsSound sound
        (λ domain req. deleted-IsSound (url_key short_hash kb global domain req) sound)

  -- Whatever the bodies of the requests hold, the three flushes of the API keep the cache's index
  -- valid and the flush rules in the storage of the bodies.
  pub flushes-IsSound :
      (codec : Codec) (id_at now : ℤ) (decode_prefix : Str → Option (Str × Str))
      → IsSound h
      → IsSound (flush_prefix St decode_prefix codec id_at now h w body).0
        × IsSound (flush_domain St decode codec id_at now h w body).0
        × IsSound (flush_url St short_hash kb global parse decode h w body).0
  flushes-IsSound codec id_at now decode_prefix sound = (
    flush_prefix-IsSound St codec id_at now h w decode_prefix body sound,
    flush_domain-IsSound St codec id_at now h w decode body sound,
    flush_url-IsSound sound,
  )
