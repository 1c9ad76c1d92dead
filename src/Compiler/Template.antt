-- ===== src/Compiler/Template.antt =====
-- The template parser, crates/vue-rs-compiler/src/parser.rs: elements and lists of nodes.
pub mod Syntax
pub mod Segments
pub mod Attrs
pub mod Ends
use vue_rs.Base.{
  ℕ, zero, suc, ◌+◌, Bool, true, false, not, ◌&&◌, ◌||◌, Option, none, some, List, [], ◌∷◌, ◌++◌,
  reverse, ◌==◌, if◌then◌else◌, maybe, front, rest, length, is_empty, is_none,
}
use Prim.Native.String.{String}
use vue_rs.Text.{
  Text, chars, is_whitespace, is_alphanumeric, trim_start, trim_end, trim, same_text, strip_prefix,
  starts_with,
}
use vue_rs.Compiler.Template.Syntax.{
  Attr, fixed, dyn, event, Node, Nodes, element, static_text, dyn_text, nil, cons, ParseError,
  trailing_input, unterminated_comment, unterminated_interpolation, expected_tag_name,
  unterminated_argument, expected_value, unquoted_value, expected_char, unexpected_char,
  unterminated_tag, expected_closing_tag, mismatched_closing_tag, Outcome, ok, err, starved, Parser,
  pure, fail, followed_by, ◌>>=◌, ◌>>◌, peek, bump, looking_at, advance, is_char, skip_ws, expect,
  is_name_char, push_char, split_name, read_name, find_comment_end, skip_comment, read_expr,
}
use vue_rs.Compiler.Template.Segments.{
  is_blank_text, is_empty_text, all_nodes, append_nodes, map_text, map_first, map_last, drop_empty,
  normalize_text, flush_buffer, read_segments, parse_text,
}
use vue_rs.Compiler.Template.Attrs.{
  read_group, read_bracketed, split_value, read_value, quoted_value, attr_value, dynamic_arg,
  classify, attr_named, parse_attr,
}

-- One more attribute in front of those behind it.
abbrev pub add_attr : Attr → List Attr × Bool → List Attr × Bool
add_attr attr (attrs, closed) = (attr ∷ attrs, closed)

-- The ends of a tag, `/>` and `>`.
unfoldable pub close_tag : Parser (List Attr × Bool)
unfolding expect
close_tag = do bump; expect b'>'; pure ([], true)

unfoldable pub open_tag : Parser (List Attr × Bool)
open_tag = do bump; pure ([], false)

-- One attribute and what follows it.
unfoldable pub attr_then : Parser (List Attr × Bool) → Parser (List Attr × Bool)
unfolding parse_attr
attr_then more = do attr ← parse_attr; others ← more; pure (add_attr attr others)

-- The attributes of a tag, and whether it closes itself.
unfoldable pub parse_attrs : ℕ → Text → Parser (List Attr × Bool)
unfolding skip_ws close_tag open_tag attr_then
parse_attrs zero tag = λ cs. starved
parse_attrs (suc n) tag = do
  skip_ws
  next ← peek
  maybe (fail (unterminated_tag tag))
      (λ c.
        if c == b'/'
        then close_tag
        else if c == b'>'
        then open_tag
        else attr_then (parse_attrs n tag))
      next

-- From the children on, with the parser of the children.
unfoldable pub parse_body : Parser Nodes → Text → List Attr → Parser Node
unfolding skip_ws expect read_name same_text starts_with
parse_body children tag attrs = do
  nodes ← children
  closing ← looking_at "</"
  if not closing then fail (expected_closing_tag tag) else do
    advance 2
    close ← read_name
    skip_ws
    expect b'>'
    if same_text close tag
        then pure (element tag attrs nodes)
        else fail (mismatched_closing_tag tag close)

unfoldable pub parse_element : ℕ → Parser Nodes → Parser Node
unfolding expect read_name parse_attrs parse_body
parse_element n children = do
  expect b'<'
  tag ← read_name
  if is_empty tag then fail expected_tag_name else do
    found ← parse_attrs n tag
    if found.1 then pure (element tag found.0 nil) else parse_body children tag found.0

unfoldable pub parse_nodes : ℕ → Parser Nodes
unfolding skip_comment parse_element parse_text starts_with
parse_nodes zero cs = starved
parse_nodes (suc n) [] = ok nil []
parse_nodes (suc n) (c ∷ cs) = elim (c == b'<') [
  | true ↦ elim (starts_with (chars "<!--") (c ∷ cs)) [
    | true ↦ (skip_comment >> parse_nodes n) (c ∷ cs)
    | false ↦ elim (starts_with (chars "</") (c ∷ cs)) [
      | true ↦ ok nil (c ∷ cs)
      | false ↦
          (do x ← parse_element n (parse_nodes n); xs ← parse_nodes n; pure (cons x xs)) (c ∷ cs)
    ]
  ]
  | false ↦
      (do segments ← parse_text n; xs ← parse_nodes n; pure (append_nodes segments xs)) (c ∷ cs)
]

-- Two rounds more than the text is long are enough fuel.
unfoldable pub parse : Text → Outcome Nodes
unfolding parse_nodes
parse input =
    (do
      nodes ← parse_nodes (suc (suc (length input)))
      λ cs. if is_empty cs then ok nodes cs else err trailing_input)
      input
