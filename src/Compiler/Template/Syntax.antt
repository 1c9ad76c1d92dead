-- ===== src/Compiler/Template/Syntax.antt =====
-- The parsed template and the lexical part of its parser, crates/vue-rs-compiler/src/parser.rs. The
-- state `chars`, `pos` of `Parser` is the text that is left, so a saved position is a saved text.
-- `starved` means that the fuel of the model ran out, which the source does not do.
use vue_rs.Base.{
  ℕ, zero, suc, Bool, true, false, ◌||◌, Option, List, [], ◌∷◌, ◌++◌, ◌==◌, if◌then◌else◌, maybe,
  front, rest,
}
use Prim.Native.String.{String}
use vue_rs.Text.{Text, chars, is_alphanumeric, trim_start, starts_with}

pub data Attr : Type 0 where
  fixed : Text → Text → Attr
  dyn : Text → Text → Attr
  event : Text → Text → Attr

mutual
  pub data Node : Type 0 where
    element : Text → List Attr → Nodes → Node
    static_text : Text → Node
    dyn_text : Text → Node

  pub data Nodes : Type 0 where
    nil : Nodes
    cons : Node → Nodes → Nodes

pub data ParseError : Type 0 where
  trailing_input unterminated_comment unterminated_interpolation expected_tag_name : ParseError
  unterminated_argument expected_value unquoted_value : ParseError
  expected_char : ℕ → Option ℕ → ParseError
  unexpected_char : Option ℕ → ParseError
  unterminated_tag expected_closing_tag : Text → ParseError
  mismatched_closing_tag : Text → Text → ParseError

pub data Outcome (A : Type 0) : Type 0 where
  ok : A → Text → Outcome A
  err : ParseError → Outcome A
  starved : Outcome A

abbrev pub Parser : Type 0 → Type 0
Parser A = Text → Outcome A

abbrev pub pure : {A : Type 0} → A → Parser A
pure a cs = ok a cs

abbrev pub fail : {A : Type 0} → ParseError → Parser A
fail e cs = err e

abbrev pub followed_by : {A B : Type 0} → Outcome A → (A → Parser B) → Outcome B
followed_by (ok a cs) f = f a cs
followed_by (err e) f = err e
followed_by starved f = starved

infixl 5 ◌>>=◌ ◌>>◌
abbrev pub ◌>>=◌ : {A B : Type 0} → Parser A → (A → Parser B) → Parser B
m >>= f = λ cs. followed_by (m cs) f

abbrev pub ◌>>◌ : {A B : Type 0} → Parser A → Parser B → Parser B
m >> k = m >>= λ _. k

unfoldable pub peek : Parser (Option ℕ)
peek cs = ok (front cs) cs

unfoldable pub bump : Parser (Option ℕ)
bump cs = ok (front cs) (rest cs)

unfoldable pub looking_at : String → Parser Bool
looking_at s cs = ok (starts_with (chars s) cs) cs

-- `self.pos += n`, where the text is known to be that long
unfoldable pub advance : ℕ → Parser (Unit {0})
advance zero cs = ok tt cs
advance (suc n) cs = advance n (rest cs)

abbrev pub is_char : ℕ → Option ℕ → Bool
is_char c o = maybe false (λ d. d == c) o

unfoldable pub skip_ws : Parser (Unit {0})
unfolding trim_start
skip_ws cs = ok tt (trim_start cs)

unfoldable pub expect : ℕ → Parser (Unit {0})
expect c cs = if is_char c (front cs) then ok tt (rest cs) else err (expected_char c (front cs))

unfoldable pub is_name_char : ℕ → Bool
is_name_char c = is_alphanumeric c || c == b'-' || c == b'_' || c == b':' || c == b'@' || c == b'.'

abbrev pub push_char : ℕ → Text × Text → Text × Text
push_char c (name, cs) = (c ∷ name, cs)

unfoldable pub split_name : Text → Text × Text
unfolding is_name_char
split_name [] = ([], [])
split_name (c ∷ cs) = elim (is_name_char c) [
  | true ↦ push_char c (split_name cs)
  | false ↦ ([], c ∷ cs)
]

unfoldable pub read_name : Parser Text
unfolding split_name
read_name cs = ok (split_name cs).0 (split_name cs).1

-- The loop of `skip_comment`.
unfoldable pub find_comment_end : Parser (Unit {0})
unfolding starts_with
find_comment_end [] = err unterminated_comment
find_comment_end (c ∷ cs) = elim (starts_with (chars "-->") (c ∷ cs)) [
  | true ↦ advance 3 (c ∷ cs)
  | false ↦ find_comment_end cs
]

unfoldable pub skip_comment : Parser (Unit {0})
unfolding find_comment_end
skip_comment = advance 4 >> find_comment_end

-- The loop that reads `expr` up to `}}`.
unfoldable pub read_expr : Text → Parser Text
unfolding starts_with
read_expr expr [] = err unterminated_interpolation
read_expr expr (c ∷ cs) = elim (starts_with (chars "}}") (c ∷ cs)) [
  | true ↦ (advance 2 >> pure expr) (c ∷ cs)
  | false ↦ read_expr (expr ++ c ∷ []) cs
]
