-- ===== src/Tests/Routing.antt =====
-- Concrete requests to the admin server, and contexts.
use file_server.Prelude.{
  ℕ, ◌+◌, Str, str, str_dec, ite, Map, ℤ, pos, List, [], ◌∷◌, Bool, true, if◌then◌else◌, Option,
  none, some, ◌≡◌, ◌≢◌, refl, if_pos, if_neg,
}
use file_server.Http.{fresh_writer}
use file_server.Server.Routes.{
  Dispatch, found, not_found, wrong_method, Method, get, put, Router, RouterLaws, Endpoint,
  AdminRequest, AdminDeps, admin_router, serve_admin,
}
use file_server.Server.Routing.{endpoint_at, admin_router-routes}
use file_server.Server.AdminEffects.{serve_admin-reads}
use file_server.Observe.{
  ContextKey, ContextValue, logger, logger_key, Contexts, ContextLaws, from_context,
  pipeline_ctx_from, execute_in, logged_context,
}
use file_server.Observe.Requests.{execute_in-contexts}
use file_server.Config.{PluginConfig, end}
use file_server.Pipeline.{Plugin, Run}
use file_server.Tests.{memory}
use file_server.Tests.Flushing.{codec}
use file_server.Tests.Handling.{deps, request, flushing}
use file_server.Tests.Managing.{decode_prefix, decode, parse, global}

same_method : Discrete Method
same_method = hlevel

-- A router that keeps a function.
abbrev Routes : Type 0
Routes = Method → Str → Dispatch Endpoint

-- A path that other methods reach.
abbrev refused : Dispatch Endpoint → Dispatch Endpoint
refused not_found = wrong_method
refused d = d

abbrev on_method : Routes → Method → Str → Endpoint → Routes
on_method r m p e m' q =
    ite (str_dec p q) (ite (same_method m m') (found e) (refused (r m' q))) (r m' q)

abbrev on_all : Routes → Str → Endpoint → Routes
on_all r p e m q = ite (str_dec p q) (found e) (r m q)

abbrev router : Router Endpoint
router = record {
  State = Routes;
  new = λ m p. not_found;
  method = on_method;
  handle = on_all;
  dispatch = λ r. r;
}

module _ (r : Routes) (p : Str) (e : Endpoint) where
  method_here : (m : Method) → on_method r m p e m p ≡ found e
  method_here m = rw (if_pos (str_dec p p) refl, if_pos (same_method m m) refl)

  method_path : (m m' : Method) (q : Str) → p ≢ q → on_method r m p e m' q ≡ r m' q
  method_path m m' q n = rw (if_neg (str_dec p q) n)

  method_wrong :
      (m m' : Method) → m ≢ m' → r m' p ≡ not_found → on_method r m p e m' p ≡ wrong_method
  method_wrong m m' n free = rw (if_pos (str_dec p p) refl, if_neg (same_method m m') n, free)

  all_here : (m : Method) → on_all r p e m p ≡ found e
  all_here m = rw (if_pos (str_dec p p) refl)

  all_path : (m : Method) (q : Str) → p ≢ q → on_all r p e m q ≡ r m q
  all_path m q n = rw (if_neg (str_dec p q) n)

router-laws : RouterLaws router
router-laws = record {
  dispatch-new = λ m p. refl;
  dispatch-method = λ r m p e plain. method_here r p e m;
  dispatch-method_path = λ r m m' p q e plain n. method_path r p e m m' q n;
  dispatch-method_wrong = λ r m m' p e plain n free. method_wrong r p e m m' n free;
  dispatch-handle = λ r m p e plain. all_here r p e m;
  dispatch-handle_path = λ r m p q e plain n. all_path r p e m q n;
}

admin_router-routes_example :
    router.dispatch (admin_router router) put (str "/admin/stat")
    ≡ endpoint_at put (str "/admin/stat")
admin_router-routes_example = admin_router-routes router router-laws put (str "/admin/stat")

abbrev admin_deps : AdminDeps
admin_deps = record {
  metrics_page = λ w. w;
  no_route = λ w. w;
  no_method = λ w. w;
  decode_prefix = decode_prefix;
  decode = decode;
  encode = λ r. [];
  whole_seconds = λ d. d;
  parse = parse;
}

-- A GET of a flush.
abbrev reading : AdminRequest
reading = record {
  method = get;
  body = str "/p";
  request = record request { path = str "/admin/flush/prefix" };
  id_at = pos 8;
  now = pos 8;
}

serve_admin-reads_example :
    (serve_admin memory codec deps.short_hash deps.key_builder global admin_deps router reading
      flushing fresh_writer).0
    ≡ flushing
serve_admin-reads_example =
    serve_admin-reads memory codec deps.short_hash deps.key_builder global admin_deps reading
      flushing fresh_writer router router-laws refl

same_key : Discrete ContextKey
same_key = hlevel

-- Contexts as functions.
abbrev contexts : Contexts ℕ
contexts = record {
  Context = ContextKey → Option (ContextValue ℕ);
  with_value = λ c k v j. ite (same_key k j) (some v) (c j);
  value = λ c. c;
}

context-laws : ContextLaws contexts
context-laws = record {
  value-with_value = λ c k v. rw (if_pos (same_key k k) refl);
  value-with_value_ne = λ c k j v n. rw (if_neg (same_key k j) n);
}

-- A chain with one plugin, and a request that comes with the logger 3, of which 4 is the child.
abbrev with_three : contexts.Context
with_three = contexts.with_value (λ k. none) logger_key (logger (some 3))

abbrev child : ℕ → ℕ
child l = l + 1

abbrev plugins : Map (Plugin ℤ ℕ)
plugins = (str "p", λ fields domain run. (run, true)) ∷ []

abbrev configs : List (PluginConfig ℤ)
configs = record { type = str "p"; config = end } ∷ []

abbrev entered : (Run ℕ × contexts.Context) × Bool
entered =
    execute_in contexts plugins configs (str "d") fresh_writer request 0
      (logged_context contexts 1 child with_three)

execute_in-contexts_example :
    (from_context contexts 1 entered.0.1 ≡ child (from_context contexts 1 with_three))
    × (pipeline_ctx_from contexts entered.0.1
        ≡ (if entered.1 then some entered.0.0.ctx else pipeline_ctx_from contexts with_three))
execute_in-contexts_example =
    execute_in-contexts contexts context-laws 1 plugins configs (str "d") fresh_writer request 0
      child with_three
