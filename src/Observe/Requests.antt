-- ===== src/Observe/Requests.antt =====
-- internal/observe/logger.go: the logger and the pipeline's context on the way of a request.
use file_server.Prelude.{
  Str, Map, List, Bool, true, false, Option, none, some, ◌≡◌, ap, ◌∙◌, if◌then◌else◌, arith, inl,
  inr, Bool-cases,
}
use file_server.Http.{Request, Writer}
use file_server.Config.{PluginConfig}
use file_server.Pipeline.{PipelineContext, Plugin, Run, execute}
use file_server.Observe.{
  logger_key, pipeline_key, logger, staged, Contexts, ContextLaws, with_logger, stored_logger,
  from_context, staged_context, pipeline_ctx_from, logged_context, execute_in,
}

module _ {L : Type 0} (C : Contexts L) (laws : ContextLaws C) (standard : L) where
  -- `FromContext` gives what `WithLogger` has stored, or the default logger where that is nil.
  pub from_context-with_logger :
      (c : C.Context) (l : Option L)
      → from_context C standard (with_logger C c l) ≡ (elim l [ none ↦ standard | some x ↦ x ])
  unfolding from_context with_logger
  from_context-with_logger c none =
      ap (stored_logger C standard) (laws.value-with_value c logger_key (logger none))
  from_context-with_logger c (some l) =
      ap (stored_logger C standard) (laws.value-with_value c logger_key (logger (some l)))

  -- The pipeline's context is stored beside the logger.
  from_context-staged :
      (c : C.Context) (ctx : PipelineContext)
      → from_context C standard (C.with_value c pipeline_key (staged ctx))
        ≡ from_context C standard c
  unfolding from_context
  from_context-staged c ctx =
      ap (stored_logger C standard)
        (laws.value-with_value_ne c pipeline_key logger_key (staged ctx) (λ e. cc))

  module _ {F P : Type 0} (reg : Map (Plugin F P)) (configs : List (PluginConfig F)) (domain : Str)
      (w : Writer) (r : Request) (state : P) (child : L → L) (c : C.Context) where
    abbrev entered : (Run P × C.Context) × Bool
    entered = execute_in C reg configs domain w r state (logged_context C standard child c)

    abbrev run : Run P × Bool
    run = execute reg configs domain w r state

    entered_passed :
        run.1 ≡ true
        → entered ≡ (
          (run.0, C.with_value (logged_context C standard child c) pipeline_key (staged run.0.ctx)),
          true,
        )
    unfolding execute_in
    entered_passed passed = ground arith

    entered_refused : run.1 ≡ false → entered ≡ ((run.0, logged_context C standard child c), false)
    unfolding execute_in
    entered_refused refused = ground arith

    logged :
        from_context C standard (logged_context C standard child c)
        ≡ child (from_context C standard c)
    unfolding logged_context
    logged = from_context-with_logger c (some (child (from_context C standard c)))

    -- After `RequestLogger` and the plugins, whatever they do, the request's logger is the child of
    -- the logger that the request came with; and the context of the pipeline is the one that the
    -- plugins have filled, where the chain was passed, and else what the request came with.
    pub execute_in-contexts :
        (from_context C standard entered.0.1 ≡ child (from_context C standard c))
        × (pipeline_ctx_from C entered.0.1
            ≡ (if entered.1 then some entered.0.0.ctx else pipeline_ctx_from C c))
    unfolding pipeline_ctx_from logged_context with_logger
    execute_in-contexts = elim (Bool-cases run.1) [
      | inl passed ↦
          let c' = logged_context C standard child c in
          rw (entered_passed passed) (
            from_context-staged c' run.0.ctx ∙ logged,
            ap (staged_context C) (laws.value-with_value c' pipeline_key (staged run.0.ctx)),
          )
      | inr refused ↦ rw (entered_refused refused) (
        logged,
        ap (staged_context C) (
            laws.value-with_value_ne c logger_key pipeline_key
              (logger (some (child (from_context C standard c)))) (λ e. cc)),
      )
    ]
