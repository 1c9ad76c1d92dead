-- ===== src/Compiler/Codegen/Styles.antt =====
-- Expressions, and the lists that `:class` and `:style` are merged into,
-- crates/vue-rs-compiler/src/codegen.rs.
use vue_rs.Base.{
  true, false, not, Option, none, some, List, [], ◌∷◌, ◌++◌, map, maybe, and_then, is_empty,
}
use vue_rs.Text.{Text, chars, trim}
use vue_rs.Compiler.Codegen.Names.{
  split_top_level, find_object_colon, unquote, css_prop_name, strip_pair, object, array, plain,
  class_syntax, style_syntax,
}
use vue_rs.Compiler.Codegen.Tokens.{Stream, Syn}
use vue_rs.Compiler.Codegen.Sugar.{expand_value_sugar}
use vue_rs.Compiler.Codegen.Code.{
  Fragment, push_text, push, push_if, push_prop, classes, Call, dyn_attr, invalid_expr,
  invalid_array, invalid_object, entry_without_colon, entry_without_value, Result, ok, ◌>>=◌, ◌>>◌,
  require, check, collect,
}

-- One entry of an object literal, with what its name is turned into.
unfoldable pub parse_entry : (Text → Text) → Text → Result (List (Text × Text))
unfolding trim find_object_colon
parse_entry to_name raw = elim (is_empty (trim raw)) [
  | true ↦ ok []
  | false ↦ do
    parts ← require (entry_without_colon (trim raw)) (find_object_colon (trim raw))
    check (not (is_empty (trim parts.1))) (entry_without_value (trim raw))
    ok ((to_name (trim parts.0), trim parts.1) ∷ [])
]

abbrev pub flatten : {A : Type 0} → List (List A) → List A
flatten [] = []
flatten (xs ∷ xss) = xs ++ flatten xss

-- The body of `parse_class_object` and `parse_style_object`.
unfoldable pub parse_object : (Text → Text) → Text → Result (List (Text × Text))
unfolding trim strip_pair split_top_level parse_entry collect
parse_object to_name expr = do
  inner ← require (invalid_object expr) (strip_pair b'{' b'}' (trim expr))
  entries ← collect (parse_entry to_name) (split_top_level inner b',')
  ok (flatten entries)

unfoldable pub parse_class_object : Text → Result (List (Text × Text))
unfolding parse_object
parse_class_object expr = parse_object unquote expr

unfoldable pub parse_style_object : Text → Result (List (Text × Text))
unfolding parse_object
parse_style_object expr = parse_object css_prop_name expr

module _ (syn : Syn) where
  unfoldable pub parse_expr : Text → Result Stream
  unfolding expand_value_sugar
  parse_expr src =
      require (invalid_expr src)
        (and_then (and_then (syn.lex src) expand_value_sugar) (λ t. syn.parse2 t))

  -- One entry with its value parsed.
  unfoldable pub entry_fragment : (Text → Stream → Fragment) → Text × Text → Result Fragment
  unfolding parse_expr
  entry_fragment make (name, value) = parse_expr value >>= (λ e. ok (make name e))

  abbrev pub array_fragments : Text → Result (List Fragment)
  array_fragments expr =
      require (invalid_array expr) (syn.parse_array expr) >>= (λ es. ok (map push es))

  abbrev pub plain_fragments : Text → Result (List Fragment)
  plain_fragments expr = parse_expr expr >>= (λ e. ok (push e ∷ []))

  abbrev pub text_fragments : Option Text → List Fragment
  text_fragments o = maybe [] (λ value. push_text value ∷ []) o

  abbrev pub class_fragments : Text → Result (List Fragment)
  class_fragments expr = elim (class_syntax expr) [
    | object ↦ parse_class_object expr >>= (λ es. collect (entry_fragment push_if) es)
    | array ↦ array_fragments expr
    | plain ↦ plain_fragments expr
  ]

  unfoldable pub gen_class : Option Text → Text → Result Call
  unfolding class_syntax parse_class_object entry_fragment collect parse_expr
  gen_class static_class expr = do
    fragments ← class_fragments expr
    ok (dyn_attr (chars "class") (classes (text_fragments static_class ++ fragments)))

  abbrev pub style_fragments : Text → Result (List Fragment)
  style_fragments expr = elim (style_syntax expr) [
    | object ↦ parse_style_object expr >>= (λ es. collect (entry_fragment push_prop) es)
    | array ↦ array_fragments expr
    | plain ↦ plain_fragments expr
  ]

  unfoldable pub style_value : Option Text → Option Text → Result (Option (List Fragment))
  unfolding style_syntax parse_style_object entry_fragment collect parse_expr
  style_value static_style none =
      ok (maybe none (λ value. some (push_text value ∷ [])) static_style)
  style_value static_style (some expr) = do
    fragments ← style_fragments expr
    ok (some (text_fragments static_style ++ fragments))
