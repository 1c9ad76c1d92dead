-- ===== src/Compiler/Template/Segments.antt =====
-- Text and interpolations, `parse_text` and `normalize_text` of crates/vue-rs-compiler/src/parser.rs.
use vue_rs.Base.{
  ℕ, zero, suc, Bool, true, false, ◌&&◌, [], ◌∷◌, ◌++◌, ◌==◌, if◌then◌else◌, is_empty,
}
use vue_rs.Text.{Text, chars, trim_start, trim_end, trim, starts_with}
use vue_rs.Compiler.Template.Syntax.{
  Node, Nodes, static_text, dyn_text, nil, cons, ok, starved, Parser, pure, ◌>>=◌, ◌>>◌, advance,
  skip_comment, read_expr,
}

abbrev pub is_blank_text : Node → Bool
is_blank_text (static_text s) = is_empty (trim s)
is_blank_text _ = false

abbrev pub is_empty_text : Node → Bool
is_empty_text (static_text s) = is_empty s
is_empty_text _ = false

abbrev pub all_nodes : (Node → Bool) → Nodes → Bool
all_nodes p nil = true
all_nodes p (cons x xs) = p x && all_nodes p xs

abbrev pub append_nodes : Nodes → Nodes → Nodes
append_nodes nil ys = ys
append_nodes (cons x xs) ys = cons x (append_nodes xs ys)

abbrev pub map_text : (Text → Text) → Node → Node
map_text f (static_text s) = static_text (f s)
map_text f x = x

abbrev pub map_first : (Node → Node) → Nodes → Nodes
map_first f nil = nil
map_first f (cons x xs) = cons (f x) xs

abbrev pub map_last : (Node → Node) → Nodes → Nodes
map_last f nil = nil
map_last f (cons x nil) = cons (f x) nil
map_last f (cons x (cons y ys)) = cons x (map_last f (cons y ys))

abbrev pub drop_empty : Nodes → Nodes
drop_empty nil = nil
drop_empty (cons x xs) = if is_empty_text x then drop_empty xs else cons x (drop_empty xs)

unfoldable pub normalize_text : Nodes → Nodes
unfolding trim_start trim_end trim
normalize_text segments =
    if all_nodes is_blank_text segments
    then nil
    else drop_empty (map_last (map_text trim_end) (map_first (map_text trim_start) segments))

-- `if !buf.is_empty() { segments.push(StaticText(buf)) }` in front of what follows.
abbrev pub flush_buffer : Text → Nodes → Nodes
flush_buffer buf after = if is_empty buf then after else cons (static_text buf) after

-- The loop of `parse_text`, with `buf` read since the last segment; it returns the segments to come.
unfoldable pub read_segments : ℕ → Text → Parser Nodes
unfolding skip_comment read_expr trim
read_segments zero buf cs = starved
read_segments (suc n) buf [] = ok (flush_buffer buf nil) []
read_segments (suc n) buf (c ∷ cs) = elim (c == b'<') [
  | true ↦ elim (starts_with (chars "<!--") (c ∷ cs)) [
    | true ↦ (skip_comment >> read_segments n buf) (c ∷ cs)
    | false ↦ ok (flush_buffer buf nil) (c ∷ cs)
  ]
  | false ↦ elim (starts_with (chars "{{") (c ∷ cs)) [
    | true ↦
        (do
          advance 2
          expr ← read_expr []
          after ← read_segments n []
          pure (flush_buffer buf (cons (dyn_text (trim expr)) after)))
          (c ∷ cs)
    | false ↦ read_segments n (buf ++ c ∷ []) cs
  ]
]

unfoldable pub parse_text : ℕ → Parser Nodes
unfolding read_segments normalize_text
parse_text n = do segments ← read_segments n []; pure (normalize_text segments)
