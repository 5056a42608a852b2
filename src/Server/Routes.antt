-- ===== src/Server/Routes.antt =====
-- internal/server/server.go with internal/admin/handler.go: the routes of the admin server. The
-- router of chi is a parameter, with the laws of its documentation for patterns that have no
-- parameter and no wildcard; the page of the metrics and the answers to what is not routed are
-- parameters too.
use file_server.Prelude.{
  Str, str, ◌≡◌, ◌≢◌, ◌==◌, ◌||◌, ◌&&◌, not, ℤ, [], ◌∷◌, Bool, true, false, Option,
}
use file_server.Storage.{Storage}
use file_server.Http.{Request, Writer, write_header, write_body}
use file_server.Config.{Config}
use file_server.Cache.Key.{KeyBuilder}
use file_server.Flush.{Codec}
use file_server.Domain.{Handler}
use file_server.Admin.{StatResponse, flush_url, flush_prefix, flush_domain, stat}

-- What a router makes of a method and a path.
pub data Dispatch (H : Type 0) : Type 0 where
  found : H → Dispatch H
  not_found wrong_method : Dispatch H

-- The methods that chi knows; requests with another one are not modelled.
pub data Method : Type 0 where
  connect delete get head options patch post put trace : Method

-- A pattern that stands for one path: it starts with a slash, and no byte of it is `{` or `*`.
abbrev is_static : Str → Bool
is_static [] = true
is_static (c ∷ s) = not (c == b'{' || c == b'*') && is_static s

abbrev pub is_plain : Str → Bool
is_plain [] = false
is_plain (c ∷ s) = c == b'/' && is_static s

-- `chi.Router` with handlers `H`: `NewRouter`, `Method`, of which `Get` and `Post` are cases,
-- `Handle`, which routes all methods, and the routing of a request.
pub record Router (H : Type 0) : Type 1 where
  pub State : Type 0
  pub new : State
  pub method : State → Method → Str → H → State
  pub handle : State → Str → H → State
  pub dispatch : State → Method → Str → Dispatch H

pub record RouterLaws {H : Type 0} (R : Router H) : Type 0 where
  pub dispatch-new : (m : Method) (p : Str) → R.dispatch R.new m p ≡ not_found
  pub dispatch-method :
      (r : R.State) (m : Method) (p : Str) (h : H)
      → is_plain p ≡ true
      → R.dispatch (R.method r m p h) m p ≡ found h
  pub dispatch-method_path :
      (r : R.State) (m m' : Method) (p q : Str) (h : H)
      → is_plain p ≡ true
      → p ≢ q
      → R.dispatch (R.method r m p h) m' q ≡ R.dispatch r m' q
  pub dispatch-method_wrong :
      (r : R.State) (m m' : Method) (p : Str) (h : H)
      → is_plain p ≡ true
      → m ≢ m'
      → R.dispatch r m' p ≡ not_found
      → R.dispatch (R.method r m p h) m' p ≡ wrong_method
  pub dispatch-handle :
      (r : R.State) (m : Method) (p : Str) (h : H)
      → is_plain p ≡ true
      → R.dispatch (R.handle r p h) m p ≡ found h
  pub dispatch-handle_path :
      (r : R.State) (m : Method) (p q : Str) (h : H)
      → is_plain p ≡ true
      → p ≢ q
      → R.dispatch (R.handle r p h) m q ≡ R.dispatch r m q

-- The handlers of the admin server.
pub data Endpoint : Type 0 where
  metrics healthz flushing_url flushing_prefix flushing_domain stating : Endpoint

module _ (R : Router Endpoint) where
  -- `Register`
  unfoldable pub register : R.State → R.State
  register r =
      let r = R.method r post (str "/admin/flush/url") flushing_url in
      let r = R.method r post (str "/admin/flush/prefix") flushing_prefix in
      let r = R.method r post (str "/admin/flush/domain") flushing_domain in
      R.method r get (str "/admin/stat") stating

  -- The router of the admin server, in `New`.
  unfoldable pub admin_router : R.State
  unfolding register
  admin_router =
      let r = R.handle R.new (str "/metrics") metrics in
      let r = R.method r get (str "/healthz") healthz in register r

-- A request to the admin server: the body is what reading it gives, and the instants are those at
-- which its handler reads the clock.
pub record AdminRequest : Type 0 where
  pub method : Method
  pub body : Str
  pub request : Request
  pub id_at : ℤ
  pub now : ℤ

-- What the admin server is given: the pages of other code, the decoding of JSON, and the parsing of
-- URLs.
pub record AdminDeps : Type 0 where
  pub metrics_page : Writer → Writer
  pub no_route : Writer → Writer
  pub no_method : Writer → Writer
  pub decode_prefix : Str → Option (Str × Str)
  pub decode : Str → Option Str
  pub encode : StatResponse → Str
  pub whole_seconds : ℤ → ℤ
  pub parse : Str → Option (Str × Request)

-- The handler of `/healthz`
unfoldable pub answer_healthz : Writer → Writer
unfolding write_header write_body
answer_healthz w = write_body (write_header w 200) (str "ok")

module _ (St : Storage) (codec : Codec) {F P W : Type 0} (short_hash : Str → Str) (kb : KeyBuilder)
    (global : Config F) (deps : AdminDeps) where
  -- The handler that the router has found, or its answer to a request with no route.
  unfoldable pub serve_endpoint :
      Dispatch Endpoint
      → AdminRequest
      → Handler St.State F P W
      → Writer
      → Handler St.State F P W × Writer
  unfolding answer_healthz flush_url flush_prefix flush_domain stat
  serve_endpoint not_found r h w = (h, deps.no_route w)
  serve_endpoint wrong_method r h w = (h, deps.no_method w)
  serve_endpoint (found metrics) r h w = (h, deps.metrics_page w)
  serve_endpoint (found healthz) r h w = (h, answer_healthz w)
  serve_endpoint (found flushing_url) r h w =
      flush_url St short_hash kb global deps.parse deps.decode h w r.body
  serve_endpoint (found flushing_prefix) r h w =
      flush_prefix St deps.decode_prefix codec r.id_at r.now h w r.body
  serve_endpoint (found flushing_domain) r h w =
      flush_domain St deps.decode codec r.id_at r.now h w r.body
  serve_endpoint (found stating) r h w = (
    h,
    stat St short_hash kb global deps.parse deps.encode deps.whole_seconds r.now h w r.request,
  )

  -- A request to the admin server.
  unfoldable pub serve_admin :
      (R : Router Endpoint)
      → AdminRequest
      → Handler St.State F P W
      → Writer
      → Handler St.State F P W × Writer
  unfolding admin_router serve_endpoint
  serve_admin R r h w = serve_endpoint (R.dispatch (admin_router R) r.method r.request.path) r h w
