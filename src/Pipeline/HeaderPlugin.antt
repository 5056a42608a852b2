-- ===== src/Pipeline/HeaderPlugin.antt =====
-- internal/pipeline/header/header.go: the header plugin. Its metric is not modelled.
pub mod Operations
use file_server.Prelude.{
  ℕ, suc, Str, str, str_eq, to_lower, Map, List, [], ◌∷◌, ◌++◌, Bool, true, false, not, ◌&&◌,
  if◌then◌else◌, Option, none, some,
}
use file_server.Http.{Header, header_set, header_add, header_del}
use file_server.Config.{Value, Items, Fields, nil, cons, dict, slice, string}
use file_server.Pipeline.{Plugin, register_plugin, Run, PipelineContext, find_field}

pub record HeaderOp : Type 0 where
  pub op : Str
  pub key : Str
  pub value : Str

-- The errors of `parseOps`, with the item's index.
pub data OpError : Type 0 where
  expected_map : ℕ → OpError
  unknown_op : ℕ → Str → OpError
  key_required : ℕ → OpError

pub data OpResult : Type 0 where
  ops : List HeaderOp → OpResult
  failed : OpError → OpResult

abbrev pub is_op : Str → Bool
is_op op =
    if str_eq op (str "set")
    then true
    else if str_eq op (str "add")
    then true
    else str_eq op (str "del")

module _ {F : Type 0} where
  -- `v, _ := m[key].(string)`
  abbrev pub as_string : Option (Value F) → Str
  as_string none = []
  as_string (some (string s)) = s
  as_string (some _) = []

  -- `raw, _ := cfg[section].([]any)`
  abbrev pub as_slice : Option (Value F) → Items F
  as_slice none = nil
  as_slice (some (slice l)) = l
  as_slice (some _) = nil

  -- One round of the loop of `parseOps`, on an item that is a map.
  abbrev pub parse_item : ℕ → Fields F → List HeaderOp → OpResult
  parse_item i m parsed =
      let op = to_lower (as_string (find_field (str "op") m)) in
      let key = as_string (find_field (str "key") m) in
      if not (is_op op)
      then failed (unknown_op i op)
      else if str_eq key (str "")
      then failed (key_required i)
      else ops (
          parsed
          ++ record { op = op; key = key; value = as_string (find_field (str "value") m) } ∷ [])

  -- The loop of `parseOps`, from the item of index `i`: the first error ends it.
  unfoldable pub parse_from : ℕ → Items F → List HeaderOp → OpResult
  unfolding to_lower find_field
  parse_from i nil parsed = ops parsed
  parse_from i (cons (dict m) items) parsed = elim (parse_item i m parsed) [
    | failed e ↦ failed e
    | ops more ↦ parse_from (suc i) items more
  ]
  parse_from i (cons item items) parsed = failed (expected_map i)

  -- `parseOps`
  unfoldable pub parse_ops : Fields F → Str → OpResult
  unfolding parse_from
  parse_ops cfg section = parse_from 0 (as_slice (find_field section cfg)) []

-- `ops, _ := parseOps(...)`: none after an error.
abbrev pub ops_or_none : OpResult → List HeaderOp
ops_or_none (ops l) = l
ops_or_none (failed e) = []

-- `applyOp`
unfoldable pub apply_op : Header → HeaderOp → Header
unfolding header_set header_add header_del
apply_op h op =
    if str_eq op.op (str "set")
    then header_set h op.key op.value
    else if str_eq op.op (str "add")
    then header_add h op.key op.value
    else if str_eq op.op (str "del")
    then header_del h op.key
    else h

-- The loop over the request's operations.
unfoldable pub apply_ops : Header → List HeaderOp → Header
unfolding apply_op
apply_ops h [] = h
apply_ops h (op ∷ l) = apply_ops (apply_op h op) l

-- The body of the loop over the response's operations.
unfoldable pub stage_op : PipelineContext → HeaderOp → PipelineContext
unfolding header_set
stage_op ctx op =
    if str_eq op.op (str "set")
    then record ctx { set_response_headers = header_set ctx.set_response_headers op.key op.value }
    else if str_eq op.op (str "add")
    then record ctx { set_response_headers = header_set ctx.set_response_headers op.key op.value }
    else if str_eq op.op (str "del")
    then record ctx { delete_response_headers = ctx.delete_response_headers ++ op.key ∷ [] }
    else ctx

unfoldable pub stage_ops : PipelineContext → List HeaderOp → PipelineContext
unfolding stage_op
stage_ops ctx [] = ctx
stage_ops ctx (op ∷ l) = stage_ops (stage_op ctx op) l

-- `Plugin.Execute`
unfoldable pub header_plugin : {F P : Type 0} → Plugin F P
unfolding parse_ops apply_ops stage_ops
header_plugin cfg domain run = (
  record run {
    request = record (run.request) {
      header = apply_ops run.request.header (ops_or_none (parse_ops cfg (str "request")));
    };
    ctx = stage_ops run.ctx (ops_or_none (parse_ops cfg (str "response")));
  },
  true,
)

-- `init`
unfoldable pub register_header : {F P : Type 0} → Map (Plugin F P) → Map (Plugin F P)
unfolding header_plugin register_plugin
register_header reg = register_plugin reg (str "header") header_plugin
