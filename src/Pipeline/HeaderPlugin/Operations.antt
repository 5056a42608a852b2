-- ===== src/Pipeline/HeaderPlugin/Operations.antt =====
-- internal/pipeline/header/header.go: what the operations do.
use mathlib.Core.List.{append-nil, append_assoc}
use file_server.Prelude.{
  ℕ, suc, Str, str, str_eq, str_dec, find, find-put, List, [], ◌∷◌, ◌++◌, Bool, true, false, some,
  ◌≡◌, refl, arith, sym, if◌then◌else◌, not, ◌&&◌, to_lower, str_dec_refl,
}
use file_server.Http.{Header, header_set, header_add, values_of, canonical}
use file_server.Config.{Value, Items, Fields, nil, cons, dict}
use file_server.Pipeline.{Run, PipelineContext}
use file_server.Pipeline.HeaderPlugin.{
  HeaderOp, as_slice, as_string, is_op, parse_from, parse_ops, ops_or_none, apply_op, apply_ops,
  stage_op, stage_ops, header_plugin,
}
use file_server.Pipeline.{find_field}

abbrev pub add_op : Str → Str → HeaderOp
add_op key value = record { op = str "add"; key = key; value = value }

-- On the request an `add` appends its value to those of the key; on the response it replaces them
-- all, so of several values that a configuration adds to one response header only the last stays.
pub add_appends_or_replaces :
    (h : Header) (ctx : PipelineContext) (key value : Str)
    → (find (canonical key) (apply_op h (add_op key value))
        ≡ some (values_of (find (canonical key) h) ++ value ∷ []))
      × (find (canonical key) (stage_op ctx (add_op key value)).set_response_headers
          ≡ some (value ∷ []))
unfolding apply_op stage_op header_add header_set str_dec
add_appends_or_replaces h ctx key value = (
  rw find-put (
      str_dec_refl (canonical key) (some (values_of (find (canonical key) h) ++ value ∷ []))
        (find (canonical key) h)),
  rw find-put (
      str_dec_refl (canonical key) (some (value ∷ []))
        (find (canonical key) ctx.set_response_headers)),
)

-- A map whose operation is one of the three, in any case, and whose key is not empty.
abbrev pub is_acceptable : {F : Type 0} → Value F → Bool
is_acceptable (dict m) =
    is_op (to_lower (as_string (find_field (str "op") m)))
    && not (str_eq (as_string (find_field (str "key") m)) (str ""))
is_acceptable _ = false

abbrev pub all_acceptable : {F : Type 0} → Items F → Bool
all_acceptable nil = true
all_acceptable (cons item items) = is_acceptable item && all_acceptable items

-- The operations of the items that are maps.
abbrev pub operations : {F : Type 0} → Items F → List HeaderOp
operations nil = []
operations (cons (dict m) items) =
    record {
      op = to_lower (as_string (find_field (str "op") m));
      key = as_string (find_field (str "key") m);
      value = as_string (find_field (str "value") m);
    }
    ∷ operations items
operations (cons _ items) = operations items

abbrev pub accepted : {F : Type 0} → Items F → List HeaderOp
accepted items = if all_acceptable items then operations items else []

module _ {F : Type 0} where
  parse_from-accepted :
      (i : ℕ) (items : Items F) (l : List HeaderOp)
      → ops_or_none (parse_from i items l)
        ≡ (if all_acceptable items then l ++ operations items else [])
  unfolding parse_from
  parse_from-accepted i nil l = sym (append-nil l)
  parse_from-accepted i (cons (dict m) items) l =
      let op : HeaderOp = record {
        op = to_lower (as_string (find_field (str "op") m));
        key = as_string (find_field (str "key") m);
        value = as_string (find_field (str "value") m);
      } in
      let more : List HeaderOp = l ++ op ∷ [] in
      ground
        (arith, parse_from-accepted (suc i) items more, append_assoc l (op ∷ []) (operations items))
  parse_from-accepted i (cons _ items) l = refl

  -- The plugin applies the operations of a section all or not at all: all of them, in order, where
  -- every item of the section is acceptable, and none of them where one item is not. It passes the
  -- request on in either case, and changes nothing but the request's headers and the staged ones.
  pub header_plugin_all_or_nothing :
      {P : Type 0} (cfg : Fields F) (domain : Str) (run : Run P)
      → let requested = accepted (as_slice (find_field (str "request") cfg)) in
        let staged = accepted (as_slice (find_field (str "response") cfg)) in
        header_plugin cfg domain run ≡ (
          record run {
            request = record (run.request) { header = apply_ops run.request.header requested };
            ctx = stage_ops run.ctx staged;
          },
          true,
        )
  unfolding header_plugin parse_ops
  header_plugin_all_or_nothing cfg domain run = rw (parse_from-accepted, parse_from-accepted)
