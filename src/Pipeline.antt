-- ===== src/Pipeline.antt =====
-- internal/pipeline/pipeline.go: the chain of plugins that a request passes. The request's context
-- stands in Observe. `F` stands for `float64`, and `P` for the state that the plugins keep between
-- requests.
pub mod Chain
pub mod HeaderPlugin
pub mod RewritePlugin
pub mod RateLimit
use file_server.Prelude.{
  Str, str, Map, find, put, str_eq, List, [], ◌∷◌, ◌++◌, Bool, true, false, if◌then◌else◌, Option,
  none, some,
}
use file_server.Http.{Header, Request, Writer, header_set, header_del}
use file_server.Config.{Value, Fields, PluginConfig, end, field}

pub record PipelineContext : Type 0 where
  pub rewritten_path : Str
  pub set_response_headers : Header
  pub delete_response_headers : List Str

-- What a plugin may change: the context, the request's headers, the response, and its own state.
pub record Run (P : Type 0) : Type 0 where
  pub ctx : PipelineContext
  pub request : Request
  pub writer : Writer
  pub state : P

-- The interface `Plugin`: `true` passes the request on.
abbrev pub Plugin : Type 0 → Type 0 → Type 0
Plugin F P = Fields F → Str → Run P → Run P × Bool

-- `cfg[key]`
unfoldable pub find_field : {F : Type 0} → Str → Fields F → Option (Value F)
find_field key end = none
find_field key (field k v fs) = if str_eq k key then some v else find_field key fs

module _ {F P : Type 0} where
  -- `RegisterPlugin`: the registry is `reg` here and below.
  unfoldable pub register_plugin : Map (Plugin F P) → Str → Plugin F P → Map (Plugin F P)
  unfolding put
  register_plugin reg type_name p = put type_name p reg

  -- The loop of `Execute`: an unknown plugin is skipped, and a plugin that does not pass ends the chain.
  unfoldable pub execute_from :
      Map (Plugin F P) → Str → List (PluginConfig F) → Run P → Run P × Bool
  execute_from reg domain [] run = (run, true)
  execute_from reg domain (pcfg ∷ rest) run = elim (find pcfg.type reg) [
    | none ↦ execute_from reg domain rest run
    | some pl ↦
        let (run', passed) = pl pcfg.config domain run in
        elim passed [ true ↦ execute_from reg domain rest run' | false ↦ (run', false) ]
  ]

  -- `Execute`
  unfoldable pub execute :
      Map (Plugin F P) → List (PluginConfig F) → Str → Writer → Request → P → Run P × Bool
  unfolding execute_from
  execute reg configs domain w r state = execute_from reg domain configs (record {
    ctx = record {
      rewritten_path = r.path;
      set_response_headers = [];
      delete_response_headers = [];
    };
    request = r;
    writer = w;
    state = state;
  })

-- `for _, v := range vs { w.Header().Set(k, v) }`
unfoldable pub set_values : Str → List Str → Header → Header
unfolding header_set
set_values k [] h = h
set_values k (v ∷ vs) h = set_values k vs (header_set h k v)

-- `for k, vs := range m { for _, v := range vs { w.Header().Set(k, v) } }`
unfoldable pub set_all : Header → Header → Header
unfolding set_values
set_all [] h = h
set_all ((k, vs) ∷ m) h = set_all m (set_values k vs h)

-- `for _, k := range names { w.Header().Del(k) }`
unfoldable pub delete_all : List Str → Header → Header
unfolding header_del
delete_all [] h = h
delete_all (k ∷ ks) h = delete_all ks (header_del h k)

-- `ApplyResponseMutations`
unfoldable pub apply_response_mutations : Writer → PipelineContext → Writer
unfolding set_all delete_all
apply_response_mutations w ctx = record w {
  header = delete_all ctx.delete_response_headers (set_all ctx.set_response_headers w.header);
}
