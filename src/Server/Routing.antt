-- ===== src/Server/Routing.antt =====
-- internal/server/server.go with internal/admin/handler.go: what a request to the admin server reaches.
use file_server.Prelude.{
  Str, str, str_eq, str_dec, ◌≡◌, ◌≢◌, Bool, true, false, if◌then◌else◌, refl, ◌∙◌, subst, inl, inr,
  Bool-cases, if_neg, if_pos,
}
use file_server.Server.Routes.{
  Dispatch, found, not_found, wrong_method, Method, connect, delete, get, head, options, patch,
  post, put, trace, is_plain, Router, RouterLaws, Endpoint, metrics, healthz, flushing_url,
  flushing_prefix, flushing_domain, stating, register, admin_router,
}

abbrev pub is_post : Method → Bool
is_post post = true
is_post _ = false

abbrev pub is_get : Method → Bool
is_get get = true
is_get _ = false

-- A path that one method alone reaches.
abbrev pub only : Bool → Endpoint → Dispatch Endpoint
only true e = found e
only false e = wrong_method

-- The table of the admin server, line by line from the last.
abbrev Table : Type 0
Table = Method → Str → Dispatch Endpoint

abbrev pub upto_metrics : Table
upto_metrics m p = if str_eq (str "/metrics") p then found metrics else not_found

abbrev pub upto_healthz : Table
upto_healthz m p = if str_eq (str "/healthz") p then only (is_get m) healthz else upto_metrics m p

abbrev pub upto_url : Table
upto_url m p =
    if str_eq (str "/admin/flush/url") p then only (is_post m) flushing_url else upto_healthz m p

abbrev pub upto_prefix : Table
upto_prefix m p =
    if str_eq (str "/admin/flush/prefix") p then only (is_post m) flushing_prefix else upto_url m p

abbrev pub upto_domain : Table
upto_domain m p =
    if str_eq (str "/admin/flush/domain") p
    then only (is_post m) flushing_domain
    else upto_prefix m p

abbrev pub endpoint_at : Table
endpoint_at m p = if str_eq (str "/admin/stat") p then only (is_get m) stating else upto_domain m p

module _ (R : Router Endpoint) (laws : RouterLaws R) where
  -- A router by its table.
  abbrev IsTable : R.State → Table → Type 0
  IsTable r t = (m : Method) (p : Str) → R.dispatch r m p ≡ t m p

  module _ (r : R.State) (t : Table) (table : IsTable r t) (q : Str) (e : Endpoint)
      (plain : is_plain q ≡ true) where
    -- A new route of one method puts a line in front of the table.
    module _ (k : Method) (is_k : Method → Bool) (here : (m : Method) → is_k m ≡ true → k ≡ m)
        (there : (m : Method) → is_k m ≡ false → k ≢ m)
        (free : (m : Method) → t m q ≡ not_found) where
      line_here : (m : Method) → R.dispatch (R.method r k q e) m q ≡ only (is_k m) e
      line_here m = elim (Bool-cases (is_k m)) [
        | inl own ↦ rw own (
            subst (λ x. R.dispatch (R.method r k q e) x q ≡ found e) (here m own)
              (laws.dispatch-method r k q e plain))
        | inr other ↦
            rw other
              (laws.dispatch-method_wrong r k m q e plain (there m other) (table m q ∙ free m))
      ]

      method_line :
          IsTable (R.method r k q e) (λ m p. if str_eq q p then only (is_k m) e else t m p)
      method_line m p = elim (str_dec q p) [
        | yes same ↦
            rw (if_pos _ same)
              (subst (λ x. R.dispatch (R.method r k q e) m x ≡ only (is_k m) e) same (line_here m))
        | no n ↦ rw (if_neg _ n) (laws.dispatch-method_path r k m q p e plain n ∙ table m p)
      ]

    -- A route of all methods does so too.
    handle_line : IsTable (R.handle r q e) (λ m p. if str_eq q p then found e else t m p)
    handle_line m p = elim (str_dec q p) [
      | yes same ↦ rw (if_pos _ same) (
          subst (λ x. R.dispatch (R.handle r q e) m x ≡ found e) same
            (laws.dispatch-handle r m q e plain))
      | no n ↦ rw (if_neg _ n) (laws.dispatch-handle_path r m q p e plain n ∙ table m p)
    ]

post_here : (m : Method) → is_post m ≡ true → post ≡ m
post_here connect e = cc
post_here delete e = cc
post_here get e = cc
post_here head e = cc
post_here options e = cc
post_here patch e = cc
post_here post e = refl
post_here put e = cc
post_here trace e = cc

post_there : (m : Method) → is_post m ≡ false → post ≢ m
post_there m e same = cc

get_here : (m : Method) → is_get m ≡ true → get ≡ m
get_here connect e = cc
get_here delete e = cc
get_here get e = refl
get_here head e = cc
get_here options e = cc
get_here patch e = cc
get_here post e = cc
get_here put e = cc
get_here trace e = cc

get_there : (m : Method) → is_get m ≡ false → get ≢ m
get_there m e same = cc

module _ (R : Router Endpoint) (laws : RouterLaws R) where
  -- Every request to the admin server reaches what the table says: a registered path with its
  -- method reaches its handler, `/metrics` with every method its page, a registered path with
  -- another method is refused as such, and every other path is not found.
  pub admin_router-routes :
      (m : Method) (p : Str) → R.dispatch (admin_router R) m p ≡ endpoint_at m p
  unfolding admin_router register str_dec
  admin_router-routes =
      let r0 = R.new in
      let r1 = R.handle r0 (str "/metrics") metrics in
      let r2 = R.method r1 get (str "/healthz") healthz in
      let r3 = R.method r2 post (str "/admin/flush/url") flushing_url in
      let r4 = R.method r3 post (str "/admin/flush/prefix") flushing_prefix in
      let r5 = R.method r4 post (str "/admin/flush/domain") flushing_domain in
      let t1 =
        handle_line R laws r0 (λ m p. not_found) laws.dispatch-new (str "/metrics") metrics refl in
      let t2 =
        method_line R laws r1 upto_metrics t1 (str "/healthz") healthz refl get is_get get_here
          get_there (λ m. refl) in
      let t3 =
        method_line R laws r2 upto_healthz t2 (str "/admin/flush/url") flushing_url refl post
          is_post post_here post_there (λ m. refl) in
      let t4 =
        method_line R laws r3 upto_url t3 (str "/admin/flush/prefix") flushing_prefix refl post
          is_post post_here post_there (λ m. refl) in
      let t5 =
        method_line R laws r4 upto_prefix t4 (str "/admin/flush/domain") flushing_domain refl post
          is_post post_here post_there (λ m. refl) in
      method_line R laws r5 upto_domain t5 (str "/admin/stat") stating refl get is_get get_here
        get_there (λ m. refl)
