-- ===== src/Compiler/Template/Attrs.antt =====
-- Attributes, `parse_attr` and `read_bracketed` of crates/vue-rs-compiler/src/parser.rs.
use vue_rs.Base.{
  ℕ, zero, suc, true, false, not, ◌&&◌, ◌||◌, Option, none, some, [], ◌∷◌, ◌++◌, ◌==◌,
  if◌then◌else◌, maybe, front, is_empty, is_none,
}
use vue_rs.Text.{Text, chars, trim_start, trim, same_text, strip_prefix}
use vue_rs.Compiler.Template.Syntax.{
  Attr, fixed, dyn, event, unterminated_argument, expected_value, unquoted_value, unexpected_char,
  ok, err, Parser, pure, fail, ◌>>=◌, ◌>>◌, peek, bump, is_char, skip_ws, expect, push_char,
  read_name,
}

-- The loop of `read_bracketed`, inside `depth` brackets beyond the first.
unfoldable pub read_group : ℕ → Text → Parser Text
unfolding trim
read_group depth inner [] = err unterminated_argument
read_group depth inner (c ∷ cs) = elim (c == b'[') [
  | true ↦ read_group (suc depth) (inner ++ c ∷ []) cs
  | false ↦ elim (c == b']') [
    | true ↦ elim depth [ zero ↦ ok (trim inner) cs | suc d ↦ read_group d (inner ++ c ∷ []) cs ]
    | false ↦ read_group depth (inner ++ c ∷ []) cs
  ]
]

unfoldable pub read_bracketed : Parser Text
unfolding expect read_group
read_bracketed = expect b'[' >> read_group 0 []

-- The loop over a quoted value, up to the closing quote or the end of the text.
unfoldable pub split_value : ℕ → Text → Text × Text
split_value quote [] = ([], [])
split_value quote (c ∷ []) =
    if c == b'\\' then (c ∷ [], []) else if c == quote then ([], c ∷ []) else (c ∷ [], [])
split_value quote (c ∷ d ∷ cs) = elim (c == b'\\') [
  | true ↦ elim (d == quote) [
    | true ↦ push_char d (split_value quote cs)
    | false ↦ push_char c (push_char d (split_value quote cs))
  ]
  | false ↦ elim (c == quote) [
    | true ↦ ([], c ∷ d ∷ cs)
    | false ↦ push_char c (split_value quote (d ∷ cs))
  ]
]

unfoldable pub read_value : ℕ → Parser Text
unfolding split_value
read_value quote cs = ok (split_value quote cs).0 (split_value quote cs).1

-- The value behind `=`.
unfoldable pub quoted_value : Parser Text
unfolding skip_ws read_value expect
quoted_value = do
  bump
  skip_ws
  opening ← bump
  maybe (fail expected_value)
      (λ quote.
        if not (quote == b'"') && not (quote == b'\'')
        then fail unquoted_value
        else do v ← read_value quote; expect quote; pure v)
      opening

-- `value` of `parse_attr`: the text behind `=`, or nothing, with the position put back.
unfoldable pub attr_value : Parser (Option Text)
unfolding skip_ws quoted_value
attr_value cs =
    if is_char b'=' (front (trim_start cs))
    then (skip_ws >> (do v ← quoted_value; pure (some v))) cs
    else ok none cs

-- The brackets of a dynamic argument stay in the name: `[expr]modifiers`.
unfoldable pub dynamic_arg : Text → Parser (Option Text)
unfolding read_bracketed read_name same_text
dynamic_arg raw cs =
    if (same_text raw (chars ":") || same_text raw (chars "@")) && is_char b'[' (front cs)
    then (do
      inner ← read_bracketed
      modifiers ← read_name
      pure (some (b'[' ∷ inner ++ b']' ∷ modifiers)))
        cs
    else ok none cs

-- The attribute that a name stands for.
unfoldable pub classify : Text → Option Text → Text → Attr
unfolding same_text strip_prefix
classify raw dynamic value =
    maybe
      (maybe (maybe (fixed raw value) (λ name. event name value) (strip_prefix (chars "@") raw))
        (λ name. dyn name value) (strip_prefix (chars ":") raw))
      (λ name. if same_text raw (chars "@") then event name value else dyn name value) dynamic

-- `parse_attr` behind the name.
unfoldable pub attr_named : Text → Parser Attr
unfolding dynamic_arg attr_value classify
attr_named raw = do
  dynamic ← dynamic_arg raw
  if is_empty raw && is_none dynamic
      then (do c ← peek; fail (unexpected_char c))
      else do value ← attr_value; pure (classify raw dynamic (maybe [] (λ v. v) value))

unfoldable pub parse_attr : Parser Attr
unfolding read_name attr_named
parse_attr = do raw ← read_name; attr_named raw
