-- ===== src/Compiler/Script.antt =====
-- The rewriting of Vue spellings in a script, crates/vue-rs-compiler/src/script.rs. The token trees of
-- proc_macro2 are data here; the spans of tokens and the lexer that makes them are not modelled.
pub mod Renames
use vue_rs.Base.{
  ℕ, Bool, true, false, not, ◌&&◌, ◌||◌, Option, none, some, List, [], ◌∷◌, ◌==◌, if◌then◌else◌,
  maybe,
}
use vue_rs.Text.{Text, chars, same_text}

pub data Delimiter : Type 0 where
  parenthesis brace bracket no_delimiter : Delimiter

mutual
  pub data Tree : Type 0 where
    ident : Text → Tree
    punct : ℕ → Tree
    literal : Text → Tree
    group : Delimiter → Stream → Tree

  pub data Stream : Type 0 where
    nil : Stream
    cons : Tree → Stream → Stream

-- `NAME_MAP`, as the function that looks a spelling up.
unfoldable pub mapped_name : Text → Option Text
unfolding same_text
mapped_name name =
    if same_text name (chars "ref")
    then some (chars "signal")
    else if same_text name (chars "watchEffect")
    then some (chars "effect")
    else none

abbrev pub is_colon : Option Tree → Bool
is_colon (some (punct c)) = c == b':'
is_colon _ = false

-- The token behind the identifier is a parenthesised group.
abbrev pub is_call : Stream → Bool
is_call (cons (group parenthesis _) _) = true
is_call _ = false

-- The two tokens in front of the identifier, the nearer one first.
abbrev pub is_path_segment : Option Tree → Option Tree → Bool
is_path_segment last before = is_colon last && is_colon before

unfoldable pub rewrite_ident : Bool → Text → Tree
unfolding mapped_name
rewrite_ident acts name =
    if acts then maybe (ident name) (λ to. ident to) (mapped_name name) else ident name

-- The walk keeps the two trees in front of the current one, as they stand in the input.
unfoldable mutual
  unfolding rewrite_ident

  pub rewrite_stream : Stream → Option Tree → Option Tree → Stream
  rewrite_stream nil last before = nil
  rewrite_stream (cons t ts) last before =
      cons (rewrite_tree t (is_call ts || is_path_segment last before))
        (rewrite_stream ts (some t) last)

  pub rewrite_tree : Tree → Bool → Tree
  rewrite_tree (ident name) acts = rewrite_ident acts name
  rewrite_tree (punct c) acts = punct c
  rewrite_tree (literal t) acts = literal t
  rewrite_tree (group d ts) acts = group d (rewrite_stream ts none none)
