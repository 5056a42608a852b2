-- ===== src/Observe.antt =====
-- internal/observe/logger.go, with the uses of a request's context in internal/server/middleware.go
-- and internal/pipeline/pipeline.go. The contexts of package context are a parameter, with the laws
-- of their documentation; `L` stands for `*slog.Logger`, whose nil is `none` where the code tests it.
pub mod Requests
use file_server.Prelude.{Str, Map, List, Bool, true, false, Option, none, some, ◌≡◌, ◌≢◌}
use file_server.Http.{Request, Writer}
use file_server.Config.{PluginConfig}
use file_server.Pipeline.{PipelineContext, Plugin, Run, execute}

-- The two key types, which no other package can name.
pub data ContextKey : Type 0 where
  logger_key pipeline_key : ContextKey

-- What is stored under them.
pub data ContextValue (L : Type 0) : Type 0 where
  logger : Option L → ContextValue L
  staged : PipelineContext → ContextValue L

pub record Contexts (L : Type 0) : Type 1 where
  pub Context : Type 0
  pub with_value : Context → ContextKey → ContextValue L → Context
  pub value : Context → ContextKey → Option (ContextValue L)

pub record ContextLaws {L : Type 0} (C : Contexts L) : Type 0 where
  pub value-with_value :
      (c : C.Context) (k : ContextKey) (v : ContextValue L)
      → C.value (C.with_value c k v) k ≡ some v
  pub value-with_value_ne :
      (c : C.Context) (k j : ContextKey) (v : ContextValue L)
      → k ≢ j
      → C.value (C.with_value c k v) j ≡ C.value c j

module _ {L : Type 0} (C : Contexts L) where
  -- `WithLogger`
  unfoldable pub with_logger : C.Context → Option L → C.Context
  with_logger c l = C.with_value c logger_key (logger l)

  -- The type assertion and the test of `FromContext`.
  abbrev pub stored_logger : L → Option (ContextValue L) → L
  stored_logger standard (some (logger (some l))) = l
  stored_logger standard _ = standard

  -- `FromContext`; `standard` is `slog.Default()`.
  unfoldable pub from_context : L → C.Context → L
  from_context standard c = stored_logger standard (C.value c logger_key)

  -- The type assertion of `PipelineCtxFrom`.
  abbrev pub staged_context : Option (ContextValue L) → Option PipelineContext
  staged_context (some (staged ctx)) = some ctx
  staged_context _ = none

  -- `PipelineCtxFrom`: `none` is `(nil, false)`.
  unfoldable pub pipeline_ctx_from : C.Context → Option PipelineContext
  pipeline_ctx_from c = staged_context (C.value c pipeline_key)

  -- The context that `RequestLogger` hands on; `child` is `With` of the request's id.
  unfoldable pub logged_context : L → (L → L) → C.Context → C.Context
  unfolding with_logger from_context
  logged_context standard child c = with_logger c (some (child (from_context standard c)))

  -- `Execute`, with the request's context: it is stored if the chain was passed.
  unfoldable pub execute_in :
      {F P : Type 0}
      → Map (Plugin F P)
      → List (PluginConfig F)
      → Str
      → Writer
      → Request
      → P
      → C.Context
      → (Run P × C.Context) × Bool
  unfolding execute
  execute_in reg configs domain w r state c =
      let (run, passed) = execute reg configs domain w r state in
      elim passed [
        | true ↦ ((run, C.with_value c pipeline_key (staged run.ctx)), true)
        | false ↦ ((run, c), false)
      ]
