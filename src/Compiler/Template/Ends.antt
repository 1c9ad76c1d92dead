-- ===== src/Compiler/Template/Ends.antt =====
-- How much text the loops of the template parser consume, and its fuel.
pub mod Lexer
pub mod Attrs
use vue_rs.Base.{
  ℕ, zero, suc, ◌+◌, ◌≤◌, ◌<◌, ◌≡◌, ◌≢◌, Bool, true, false, Option, none, some, List, [], ◌∷◌, ◌++◌,
  ◌==◌, if◌then◌else◌, maybe, rest, length, is_empty, arith, Bool-cases, inl, inr,
}
use Prim.Native.String.{String}
use vue_rs.Text.{Text, trim, chars, trim_start, starts_with}
use vue_rs.Compiler.Template.Syntax.{
  Attr, fixed, dyn, event, Node, Nodes, element, static_text, dyn_text, nil, cons, ParseError,
  trailing_input, unterminated_comment, unterminated_interpolation, expected_tag_name,
  unterminated_argument, expected_value, unquoted_value, expected_char, unexpected_char,
  unterminated_tag, expected_closing_tag, mismatched_closing_tag, Outcome, ok, err, starved, Parser,
  pure, fail, followed_by, ◌>>=◌, ◌>>◌, peek, bump, looking_at, advance, is_char, skip_ws, expect,
  is_name_char, push_char, split_name, read_name, find_comment_end, skip_comment, read_expr,
}
use vue_rs.Compiler.Template.Segments.{
  is_blank_text, is_empty_text, all_nodes, append_nodes, map_text, map_first, map_last, drop_empty,
  normalize_text, flush_buffer, read_segments, parse_text,
}
use vue_rs.Compiler.Template.Attrs.{
  read_group, read_bracketed, split_value, read_value, quoted_value, attr_value, dynamic_arg,
  classify, attr_named, parse_attr,
}
use vue_rs.Compiler.Template.{
  add_attr, close_tag, open_tag, attr_then, parse_attrs, parse_body, parse_element, parse_nodes,
  parse,
}
use vue_rs.Compiler.Template.Ends.Lexer.{
  Eats, Eats-ne-starved, Eats-from, Eats-bind, length-trim_start, skip_ws-Eats, expect-Eats,
  length-split_name, length-split_value, read_name-Eats, length-rest, advance-Eats,
  advance-Eats_one, find_comment_end-Eats, skip_comment-Eats, read_expr-Eats, read_segments-Eats,
  read_segments-Eats_one, parse_text-Eats, read_group-Eats, read_bracketed-Eats, read_value-Eats,
  eats, fails,
}
use vue_rs.Compiler.Template.Ends.Attrs.{
  Answers, answering, Answers-bind, Answers-then, Answers-pure, Answers-fail, Answers-if,
  Answers-if_at, Answers-maybe, Answers-skip_ws, Answers-expect, Answers-read_name,
  Answers-read_value, Answers-read_bracketed, Answers-bump, Answers-peek, Answers-looking_at,
  Answers-advance, Answers-quoted_value, Answers-attr_value, Answers-dynamic_arg,
  Answers-attr_named, attr_named-Eats, parse_attr-Eats,
}

-- A parser that answers on every text shorter than `n`, and consumes `k` characters.
record Within {A : Type 0} (n k : ℕ) (m : Parser A) : Type 0 where
  at : (cs : Text) → length cs < n → Eats k cs (m cs)

module _ {A : Type 0} where
  Within-Answers : {m : Parser A} (n : ℕ) → Answers m → Within n 0 m
  Within-Answers n h = record { at = λ cs _. h.at cs }

  Within-weaken : {m : Parser A} {n k : ℕ} → Within n k m → Within n 0 m
  Within-weaken h = record { at = λ cs l. Eats-from 0 (h.at cs l) (omega arith) (omega arith) }

  Within-mono : {m : Parser A} {n l k : ℕ} → l ≤ n → Within n k m → Within l k m
  Within-mono le h = record { at = λ cs l. h.at cs (omega arith) }

  Within-bind :
      {B : Type 0} {m : Parser A} {f : A → Parser B} {n : ℕ}
      → Within n 0 m
      → ((a : A) → Within n 0 (f a))
      → Within n 0 (m >>= f)
  Within-bind h k = record {
    at = λ cs l.
        Eats-bind (h.at cs l) λ a ds p. Eats-from 0 ((k a).at ds (omega arith)) p (omega arith);
  }

  -- What follows a parser that consumes gets a shorter text.
  Within-step :
      {B : Type 0} {m : Parser A} {f : A → Parser B} {n : ℕ}
      → Within (suc n) 1 m
      → ((a : A) → Within n 0 (f a))
      → Within (suc n) 1 (m >>= f)
  Within-step h k = record {
    at = λ cs l.
        Eats-bind (h.at cs l) λ a ds p. Eats-from 1 ((k a).at ds (omega arith)) p (omega arith);
  }

  Within-if :
      {m k : Parser A} {n i : ℕ} (b : Bool)
      → Within n i m
      → Within n i k
      → Within n i (if b then m else k)
  Within-if true h k = h
  Within-if false h k = k

  Within-maybe :
      {B : Type 0} {m : Parser B} {f : A → Parser B} {n i : ℕ} (o : Option A)
      → Within n i m
      → ((a : A) → Within n i (f a))
      → Within n i (maybe m f o)
  Within-maybe none h k = h
  Within-maybe (some a) h k = k a

Within-parse_attr : (n : ℕ) → Within n 1 parse_attr
Within-parse_attr n = record { at = λ cs _. parse_attr-Eats cs }

Answers-close_tag : Answers close_tag
unfolding close_tag
Answers-close_tag = search answering depth 20

Answers-open_tag : Answers open_tag
unfolding open_tag
Answers-open_tag = search answering depth 20

Within-attr_then :
    (n : ℕ) (more : Parser (List Attr × Bool)) → Within n 0 more → Within (suc n) 0 (attr_then more)
unfolding attr_then
Within-attr_then n more h = Within-weaken (
    Within-step (Within-parse_attr (suc n))
      λ attr. Within-bind h λ others. Within-Answers n (Answers-pure (add_attr attr others)))

Within-parse_attrs : (n : ℕ) (tag : Text) → Within n 0 (parse_attrs n tag)
unfolding parse_attrs
Within-parse_attrs zero tag = record { at = λ cs h. elim h [ ] }
Within-parse_attrs (suc n) tag = Within-bind (Within-Answers (suc n) Answers-skip_ws) λ _.
    Within-bind (Within-Answers (suc n) Answers-peek) λ next.
      Within-maybe next (Within-Answers (suc n) (Answers-fail (unterminated_tag tag))) λ c.
        Within-if (c == b'/') (Within-Answers (suc n) Answers-close_tag) (
          Within-if (c == b'>') (Within-Answers (suc n) Answers-open_tag)
            (Within-attr_then n (parse_attrs n tag) (Within-parse_attrs n tag)))

module _ (n k : ℕ) (children : Parser Nodes) (answers : Within n 0 children) (room : n ≤ k) where
  Within-parse_body : (tag : Text) (attrs : List Attr) → Within n 0 (parse_body children tag attrs)
  unfolding parse_body
  Within-parse_body tag attrs =
      Within-bind answers λ nodes. Within-Answers n (search answering depth 20)

  -- An element consumes, if the parser of its children answers on every shorter text.
  Within-parse_element : Within (suc n) 1 (parse_element k children)
  unfolding parse_element
  Within-parse_element =
      Within-step (record { at = λ cs _. expect-Eats b'<' cs })
        λ _. Within-bind (Within-Answers n Answers-read_name) λ tag.
          Within-if (is_empty tag) (Within-Answers n (Answers-fail expected_tag_name)) (
            Within-bind (Within-mono room (Within-parse_attrs k tag)) λ found.
              Within-if found.1 (Within-Answers n (Answers-pure (element tag found.0 nil)))
                (Within-parse_body tag found.0))

-- One round of the loop, where the rounds to come answer on every shorter text.
module _ (n : ℕ) (later : Within n 0 (parse_nodes (suc n))) where
  Eats-comment :
      (c : ℕ) (cs : Text)
      → length cs < n
      → Eats 0 (c ∷ cs) ((skip_comment >> parse_nodes (suc n)) (c ∷ cs))
  Eats-comment c cs h =
      Eats-bind (skip_comment-Eats c cs)
        λ _ ds k. Eats-from 1 (later.at ds (omega arith)) k (omega arith)

  Eats-element :
      (cs : Text)
      → length cs < suc n
      → Eats 0 cs (
          (do
            x ← parse_element (suc n) (parse_nodes (suc n))
            xs ← parse_nodes (suc n)
            pure (cons x xs))
            cs)
  Eats-element cs h =
      (Within-weaken (
          Within-step (Within-parse_element n (suc n) (parse_nodes (suc n)) later (omega arith))
            λ x. Within-bind later λ xs. Within-Answers n (Answers-pure (cons x xs)))).at
        cs h

  Eats-text :
      (c : ℕ) (cs : Text)
      → (c == b'<') ≡ false
      → length cs < n
      → Eats 0 (c ∷ cs) (
          (do
            segments ← parse_text (suc n)
            xs ← parse_nodes (suc n)
            pure (append_nodes segments xs))
            (c ∷ cs))
  Eats-text c cs plain h = Eats-bind (parse_text-Eats n c cs plain h) λ segments ds k.
      Eats-bind (Eats-from 1 {i = 0} (later.at ds (omega arith)) k (omega arith))
        λ xs es l. eats {ds = es} (omega arith)

parse_nodes-Eats : (n : ℕ) (cs : Text) → length cs < n → Eats 0 cs (parse_nodes (suc n) cs)
unfolding parse_nodes
parse_nodes-Eats n [] h = eats (omega arith)
parse_nodes-Eats zero (c ∷ cs) h = elim h [ ]
parse_nodes-Eats (suc n) (c ∷ cs) h =
    let later : Within n 0 (parse_nodes (suc n)) = record {
      at = λ ds k. parse_nodes-Eats n ds k;
    } in
    elim (Bool-cases (c == b'<')) [
      | inl tag ↦ elim (Bool-cases (starts_with (chars "<!--") (c ∷ cs))) [
        | inl e ↦ rw (tag, e, parse_nodes) (Eats-comment n later c cs (omega arith))
        | inr e ↦ elim (Bool-cases (starts_with (chars "</") (c ∷ cs))) [
          | inl f ↦ rw (tag, e, f, parse_nodes) (eats (omega arith))
          | inr f ↦ rw (tag, e, f, parse_nodes) (Eats-element n later (c ∷ cs) h)
        ]
      ]
      | inr plain ↦ rw (plain, parse_nodes) (Eats-text n later c cs plain (omega arith))
    ]

-- The fuel that `parse` gives its loops never runs out: on every text the parser returns nodes or
-- an error.
pub parse-ne-starved : (input : Text) → parse input ≢ starved
unfolding parse
parse-ne-starved input =
    Eats-ne-starved (Eats-bind (parse_nodes-Eats (suc (length input)) input (omega arith)) whole)
  where
    whole :
        (nodes : Nodes) (ds : Text)
        → length ds + 0 ≤ length input
        → Eats 0 input (if is_empty ds then ok nodes ds else err trailing_input)
    whole nodes [] h = eats (omega arith)
    whole nodes (d ∷ ds) h = fails
