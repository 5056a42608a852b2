-- ===== src/Admin.antt =====
-- internal/admin/handler.go: the management API, on the state of the domain handler, which it shares.
-- Parameters: the decoding of each request's JSON body, `http.NewRequest` on a URL, which gives the
-- host name and the request, the encoding of the answer, and `int64(d.Seconds())`. Its configuration
-- is the one of the start-up. Logging and metrics are not modelled.
pub mod Effects
pub mod Stat
pub mod Urls
use file_server.Prelude.{
  ℕ, Str, str, ◌++◌, str_eq, find, ℤ, pos, after, ltb_ℤ, sub_time, List, [], ◌∷◌, Bool, true, false,
  ◌||◌, if◌then◌else◌, Option, none, some,
}
use file_server.Errors.{text, ok, err}
use file_server.Http.{
  Request, Writer, http_error, header_set, header_get, first_value, write_header, write_body,
}
use file_server.Config.{Config, DomainConfig, KeyRulesConfig}
use file_server.Storage.{Storage}
use file_server.Cache.Lru.{LruCache, expires_at}
use file_server.Cache.Key.{KeyBuilder, build}
use file_server.Cache.Singleflight
use file_server.Flush.{Store, Codec}
use file_server.Flush
use file_server.Domain.{Handler}

-- `statResponse`; `none` is the zero time.
pub record StatResponse : Type 0 where
  pub hit : Bool
  pub written_at : Option ℤ
  pub expires_at : Option ℤ
  pub ttl_remaining : ℤ
  pub size : ℤ
  pub flush_rule_match : Bool

abbrev pub empty_response : StatResponse
empty_response = record {
  hit = false;
  written_at = none;
  expires_at = none;
  ttl_remaining = pos 0;
  size = pos 0;
  flush_rule_match = false;
}

-- The loop of `domainKeyRules`.
unfoldable pub rules_among : {F : Type 0} → List (DomainConfig F) → Str → Option KeyRulesConfig
rules_among [] domain = none
rules_among (d ∷ ds) domain = if str_eq d.domain domain then d.key_rules else rules_among ds domain

-- `domainKeyRules`
unfoldable pub domain_key_rules : {F : Type 0} → Config F → Str → Option KeyRulesConfig
unfolding rules_among
domain_key_rules global domain = rules_among global.domains domain

-- The storage is shared, so what one of the two writes the other reads.
module _ {S F P W : Type 0} where
  abbrev pub with_cache : Handler S F P W → LruCache S → Handler S F P W
  with_cache h c = record h { cache = c; flush = record (h.flush) { storage = c.storage } }

  abbrev pub with_flush : Handler S F P W → Store S → Handler S F P W
  with_flush h st = record h { flush = st; cache = record (h.cache) { storage = st.storage } }

module _ {F : Type 0} (short_hash : Str → Str) (kb : KeyBuilder) (global : Config F) where
  -- The key of a parsed URL: its path is not rewritten.
  unfoldable pub url_key : Str → Request → Str
  unfolding domain_key_rules
  url_key domain req = build short_hash kb domain req.path req (domain_key_rules global domain)

module _ (St : Storage) (whole_seconds : ℤ → ℤ) where
  -- What `Stat` answers for a key at the instant `now`.
  unfoldable pub stat_response :
      ℤ → LruCache St.State → Store St.State → Str → Str → Str → StatResponse
  unfolding sub_time
  stat_response now c flush domain path key = elim (Singleflight.stat St c key) [
    | err e ↦ empty_response
    | ok meta ↦
        let remaining = sub_time (expires_at meta) now in
        let resp : StatResponse = record {
          hit = true;
          written_at = some meta.written_at;
          expires_at = some (expires_at meta);
          ttl_remaining = if ltb_ℤ (pos 0) remaining then whole_seconds remaining else pos 0;
          size = meta.size;
          flush_rule_match = false;
        } in
        elim (Flush.match flush domain path) [
          | none ↦ resp
          | some rule ↦
              if after rule.created_at meta.written_at
              then record resp { flush_rule_match = true; hit = false }
              else resp
        ]
  ]

module _ (St : Storage) {F P W : Type 0} where
  -- `AddRule` and the response to its outcome, in `FlushPrefix` and `FlushDomain`.
  unfoldable pub add_flush :
      Codec → ℤ → ℤ → Handler St.State F P W → Str → Str → Writer → Handler St.State F P W × Writer
  unfolding http_error write_header text
  add_flush codec id_at now h domain prefix w =
      let (st, failure) = Flush.add_rule St codec id_at now h.flush domain prefix in
      (
        with_flush h st,
        (elim failure [
          | none ↦ write_header w 204
          | some e ↦ http_error w (str "failed to add flush rule: " ++ text e) 500
        ]),
      )

  -- `FlushPrefix`
  unfoldable pub flush_prefix :
      (Str → Option (Str × Str))
      → Codec
      → ℤ
      → ℤ
      → Handler St.State F P W
      → Writer
      → Str
      → Handler St.State F P W × Writer
  unfolding add_flush http_error
  flush_prefix decode codec id_at now h w body =
      let refused : Handler St.State F P W × Writer =
        (h, http_error w (str "bad request: domain and prefix required") 400) in
      elim (decode body) [
        | none ↦ refused
        | some (domain, prefix) ↦
            if str_eq domain (str "") || str_eq prefix (str "")
            then refused
            else add_flush codec id_at now h domain prefix w
      ]

  -- `FlushDomain`
  unfoldable pub flush_domain :
      (Str → Option Str)
      → Codec
      → ℤ
      → ℤ
      → Handler St.State F P W
      → Writer
      → Str
      → Handler St.State F P W × Writer
  unfolding add_flush http_error
  flush_domain decode codec id_at now h w body =
      let refused : Handler St.State F P W × Writer =
        (h, http_error w (str "bad request: domain required") 400) in
      elim (decode body) [
        | none ↦ refused
        | some domain ↦
            if str_eq domain (str "")
            then refused
            else add_flush codec id_at now h domain (str "/") w
      ]

  module _ (short_hash : Str → Str) (kb : KeyBuilder) (global : Config F)
      (parse : Str → Option (Str × Request)) where
    -- `FlushURL`: an error of the deletion is logged only.
    unfoldable pub flush_url :
        (Str → Option Str) → Handler St.State F P W → Writer → Str → Handler St.State F P W × Writer
    unfolding url_key http_error write_header
    flush_url decode h w body = elim (decode body) [
      | none ↦ (h, http_error w (str "bad request: url required") 400)
      | some url ↦
          if str_eq url (str "")
          then (h, http_error w (str "bad request: url required") 400)
          else elim (parse url) [
            | none ↦ (h, http_error w (str "bad request: invalid url") 400)
            | some (domain, req) ↦ (
              with_cache h
                  (Singleflight.delete St h.cache (url_key short_hash kb global domain req)).0,
              write_header w 204,
            )
          ]
    ]

    -- `Stat`
    unfoldable pub stat :
        (StatResponse → Str) → (ℤ → ℤ) → ℤ → Handler St.State F P W → Writer → Request → Writer
    unfolding stat_response url_key http_error header_set write_body
    stat encode whole_seconds now h w r =
        let raw_url = first_value (find (str "url") r.query) in
        if str_eq raw_url (str "")
        then http_error w (str "url query param required") 400
        else elim (parse raw_url) [
          | none ↦ http_error w (str "invalid url") 400
          | some (domain, req) ↦
              write_body
                (record w {
                  header = header_set w.header (str "Content-Type") (str "application/json");
                })
                (encode (
                  stat_response St whole_seconds now h.cache h.flush domain req.path
                    (url_key short_hash kb global domain req)))
        ]
