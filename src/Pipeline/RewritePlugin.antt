-- ===== src/Pipeline/RewritePlugin.antt =====
-- internal/pipeline/rewrite/rewrite.go: the rewrite plugin. The regular expressions of package
-- regexp are a parameter; the metric is not modelled.
use file_server.Prelude.{
  Str, str, str_eq, Map, List, [], ◌∷◌, Bool, true, if◌then◌else◌, Option, none, some,
}
use file_server.Config.{Value, Items, nil, cons, dict}
use file_server.Pipeline.{Plugin, register_plugin, find_field}
use file_server.Pipeline.HeaderPlugin.{as_slice, as_string}

-- `regexp.Compile`, `MatchString` and `ReplaceAllString`
pub record Regexp : Type 1 where
  pub Pattern : Type 0
  pub compile : Str → Option Pattern
  pub matches : Pattern → Str → Bool
  pub replace_all : Pattern → Str → Str → Str

abbrev pub first_hit : (re : Regexp) → Str → List (re.Pattern × Str) → Str
first_hit re path [] = path
first_hit re path ((p, replace) ∷ _) = re.replace_all p path replace

module _ (re : Regexp) {F : Type 0} where
  -- One round of the loop: the new path, if the rule applies.
  unfoldable pub try_rule : Str → Value F → Option Str
  unfolding find_field
  try_rule path (dict m) =
      let match = as_string (find_field (str "match") m) in
      let replace = as_string (find_field (str "replace") m) in
      if str_eq match (str "") then none else elim (re.compile match) [
        | none ↦ none
        | some p ↦ if re.matches p path then some (re.replace_all p path replace) else none
      ]
  try_rule path _ = none

  -- The loop: the first rule that applies ends it.
  unfoldable pub rewrite_path : Str → Items F → Str
  unfolding try_rule
  rewrite_path path nil = path
  rewrite_path path (cons rule rules) = elim (try_rule path rule) [
    | none ↦ rewrite_path path rules
    | some path' ↦ path'
  ]

  -- `Plugin.Execute`
  unfoldable pub rewrite_plugin : {P : Type 0} → Plugin F P
  unfolding rewrite_path
  rewrite_plugin cfg domain run = (
    record run {
      ctx = record (run.ctx) {
        rewritten_path =
            rewrite_path run.ctx.rewritten_path (as_slice (find_field (str "rules") cfg));
      };
    },
    true,
  )

  -- `init`
  unfoldable pub register_rewrite : {P : Type 0} → Map (Plugin F P) → Map (Plugin F P)
  unfolding rewrite_plugin register_plugin
  register_rewrite reg = register_plugin reg (str "url_rewrite") rewrite_plugin

  -- The rules that a path reaches: those with a pattern that compiles and matches it, with their
  -- replacements.
  abbrev pub hits_of : Str → Items F → List (re.Pattern × Str)
  hits_of path nil = []
  hits_of path (cons (dict m) rules) =
      let match = as_string (find_field (str "match") m) in
      if str_eq match (str "") then hits_of path rules else elim (re.compile match) [
        | none ↦ hits_of path rules
        | some p ↦
            if re.matches p path
            then (p, as_string (find_field (str "replace") m)) ∷ hits_of path rules
            else hits_of path rules
      ]
  hits_of path (cons _ rules) = hits_of path rules
