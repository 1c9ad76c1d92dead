-- ===== src/Compiler/Codegen/Tokens.antt =====
-- Rust tokens as the code generator sees them: the token trees of proc_macro2, spans left out.
use vue_rs.Base.{ℕ, suc, ◌+◌, Bool, Option, List}
use vue_rs.Text.{Text}

pub data Delimiter : Type 0 where
  parenthesis brace bracket no_delimiter : Delimiter

-- Whether the next character is an operator that follows at once.
pub data Spacing : Type 0 where
  alone joint : Spacing

mutual
  pub data Tree : Type 0 where
    ident : Text → Tree
    punct : ℕ → Spacing → Tree
    literal : Text → Tree
    group : Delimiter → Stream → Tree

  pub data Stream : Type 0 where
    nil : Stream
    cons : Tree → Stream → Stream

unfoldable pub append : Stream → Stream → Stream
append nil s = s
append (cons t ts) s = cons t (append ts s)

unfoldable mutual
  -- Every tree counts, also inside of groups.
  pub size : Stream → ℕ
  size nil = 0
  size (cons t ts) = suc (size_tree t + size ts)

  pub size_tree : Tree → ℕ
  size_tree (group d s) = suc (size s)
  size_tree _ = 0

-- What the code generator calls of proc_macro2, syn and the tables of `char`.
-- An expression is given by the tokens that it prints.
pub record Syn : Type 0 where
  -- `str::parse::<TokenStream>`
  pub lex : Text → Option Stream
  -- `syn::parse2::<Expr>`
  pub parse2 : Stream → Option Stream
  -- whether `syn::parse_str::<Ident>` accepts
  pub parses_ident : Text → Bool
  -- whether `Ident::new` accepts; it panics otherwise
  pub makes_ident : Text → Bool
  -- the elements of `syn::parse_str::<ExprArray>`
  pub parse_array : Text → Option (List Stream)
  -- `char::to_uppercase`
  pub to_uppercase : ℕ → Text
