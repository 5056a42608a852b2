-- ===== src/Server/AdminEffects.antt =====
-- internal/server/server.go with internal/admin/handler.go: what the requests to the admin server do
-- to the state.
use file_server.Prelude.{
  Str, str, str_eq, ◌≡◌, ◌||◌, ◌&&◌, Bool, true, false, if◌then◌else◌, refl, ap, ◌∙◌, arith, inl,
  inr, Bool-cases,
}
use file_server.Storage.{Storage}
use file_server.Http.{Writer}
use file_server.Config.{Config}
use file_server.Cache.Key.{KeyBuilder}
use file_server.Flush.{Codec}
use file_server.Domain.{Handler}
use file_server.Domain.Invariant.{IsSound}
use file_server.Admin.Effects.{flush_prefix-IsSound, flush_domain-IsSound}
use file_server.Admin.Urls.{flush_url-IsSound}
use file_server.Server.Routes.{
  Dispatch, found, not_found, wrong_method, Method, Router, RouterLaws, Endpoint, metrics, healthz,
  flushing_url, flushing_prefix, flushing_domain, stating, admin_router, AdminRequest, AdminDeps,
  serve_endpoint, serve_admin,
}
use file_server.Server.Routing.{is_post, is_get, only, endpoint_at, admin_router-routes}

-- The paths of the flushes.
abbrev pub is_flush_path : Str → Bool
is_flush_path p =
    str_eq (str "/admin/flush/url") p
    || str_eq (str "/admin/flush/prefix") p
    || str_eq (str "/admin/flush/domain") p

-- The handlers that change the state.
abbrev changes : Dispatch Endpoint → Bool
changes (found flushing_url) = true
changes (found flushing_prefix) = true
changes (found flushing_domain) = true
changes _ = false

changes-only : (b : Bool) → (changes (only b stating) ≡ false) × (changes (only b healthz) ≡ false)
changes-only true = (refl, refl)
changes-only false = (refl, refl)

changes_line :
    (b : Bool) (x y : Dispatch Endpoint)
    → (b ≡ true → changes x ≡ false)
    → changes y ≡ false
    → changes (if b then x else y) ≡ false
changes_line true x y here there = here refl
changes_line false x y here there = there

module _ (m : Method) (p : Str) (e : is_post m && is_flush_path p ≡ false) where
  -- A flush path is reached with another method than POST.
  changes_flush : (x : Endpoint) → is_flush_path p ≡ true → changes (only (is_post m) x) ≡ false
  changes_flush x flushes = elim (Bool-cases (is_post m)) [
    | inl posts ↦ absurd (cc (e, posts, flushes))
    | inr other ↦ rw other
  ]

  changes-endpoint_at : changes (endpoint_at m p) ≡ false
  changes-endpoint_at =
      changes_line (str_eq (str "/admin/stat") p) _ _ (λ _. (changes-only (is_get m)).0)
        (changes_line (str_eq (str "/admin/flush/domain") p) _ _
          (λ here. changes_flush flushing_domain (ground (arith, here)))
          (changes_line (str_eq (str "/admin/flush/prefix") p) _ _
            (λ here. changes_flush flushing_prefix (ground (arith, here)))
            (changes_line (str_eq (str "/admin/flush/url") p) _ _
              (λ here. changes_flush flushing_url (ground (arith, here)))
              (changes_line (str_eq (str "/healthz") p) _ _ (λ _. (changes-only (is_get m)).1)
                (changes_line (str_eq (str "/metrics") p) _ _ (λ _. refl) refl)))))

module _ (St : Storage) (codec : Codec) {F P W : Type 0} (short_hash : Str → Str) (kb : KeyBuilder)
    (global : Config F) (deps : AdminDeps) (r : AdminRequest) (h : Handler St.State F P W)
    (w : Writer) where
  endpoint_reads :
      (d : Dispatch Endpoint)
      → changes d ≡ false
      → (serve_endpoint St codec short_hash kb global deps d r h w).0 ≡ h
  unfolding serve_endpoint
  endpoint_reads not_found e = refl
  endpoint_reads wrong_method e = refl
  endpoint_reads (found metrics) e = refl
  endpoint_reads (found healthz) e = refl
  endpoint_reads (found flushing_url) e = absurd (cc)
  endpoint_reads (found flushing_prefix) e = absurd (cc)
  endpoint_reads (found flushing_domain) e = absurd (cc)
  endpoint_reads (found stating) e = refl

  endpoint-IsSound :
      (d : Dispatch Endpoint)
      → IsSound h
      → IsSound (serve_endpoint St codec short_hash kb global deps d r h w).0
  unfolding serve_endpoint
  endpoint-IsSound not_found sound = sound
  endpoint-IsSound wrong_method sound = sound
  endpoint-IsSound (found metrics) sound = sound
  endpoint-IsSound (found healthz) sound = sound
  endpoint-IsSound (found flushing_url) sound =
      flush_url-IsSound St short_hash kb global deps.parse deps.decode h w r.body sound
  endpoint-IsSound (found flushing_prefix) sound =
      flush_prefix-IsSound St codec r.id_at r.now h w deps.decode_prefix r.body sound
  endpoint-IsSound (found flushing_domain) sound =
      flush_domain-IsSound St codec r.id_at r.now h w deps.decode r.body sound
  endpoint-IsSound (found stating) sound = sound

  -- Whatever a request to the admin server holds, and wherever its method and path lead, the cache's
  -- index stays valid and the flush rules stay in the storage of the bodies.
  pub serve_admin-IsSound :
      (R : Router Endpoint)
      → IsSound h
      → IsSound (serve_admin St codec short_hash kb global deps R r h w).0
  unfolding serve_admin
  serve_admin-IsSound R sound =
      endpoint-IsSound (R.dispatch (admin_router R) r.method r.request.path) sound

  -- A request to the admin server that is no POST to the path of a flush changes nothing of the
  -- cache, the flush rules and the storage.
  pub serve_admin-reads :
      (R : Router Endpoint)
      → RouterLaws R
      → is_post r.method && is_flush_path r.request.path ≡ false
      → (serve_admin St codec short_hash kb global deps R r h w).0 ≡ h
  unfolding serve_admin
  serve_admin-reads R laws e =
      endpoint_reads (R.dispatch (admin_router R) r.method r.request.path) (
        ap changes (admin_router-routes R laws r.method r.request.path)
        ∙ changes-endpoint_at r.method r.request.path e)
