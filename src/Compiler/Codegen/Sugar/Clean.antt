-- ===== src/Compiler/Codegen/Sugar/Clean.antt =====
-- Streams without `$name`, crates/vue-rs-compiler/src/codegen.rs.
use vue_rs.Base.{
  ℕ, zero, suc, ◌<◌, ◌≤◌, ◌≡◌, refl, Bool, true, ◌&&◌, none, some, is_none, arith, &&-left,
  &&-right, Option-cases, inl, inr,
}
use vue_rs.Compiler.Codegen.Tokens.{
  Tree, Stream, ident, punct, literal, group, nil, cons, size, size_tree,
}
use vue_rs.Compiler.Codegen.Sugar.{sugar_at, expand_tree, expand_step, expand, expand_value_sugar}
use vue_rs.Compiler.Codegen.Sugar.Finishes.{expand-cons}

unfoldable mutual
  unfolding sugar_at

  -- No `$` stands in front of an identifier, in no group either.
  pub sugar_free : Stream → Bool
  sugar_free nil = true
  sugar_free (cons t ts) = is_none (sugar_at (cons t ts)) && (sugar_free_tree t && sugar_free ts)

  pub sugar_free_tree : Tree → Bool
  sugar_free_tree (group d s) = sugar_free s
  sugar_free_tree _ = true

free-head : (t : Tree) (ts : Stream) → sugar_free (cons t ts) ≡ true → sugar_at (cons t ts) ≡ none
unfolding sugar_free
free-head t ts h = elim (Option-cases (sugar_at (cons t ts))) [
  | inl e ↦ e
  | inr (x, e) ↦ absurd (ground (arith, e))
]

free-tree : (t : Tree) (ts : Stream) → sugar_free (cons t ts) ≡ true → sugar_free_tree t ≡ true
unfolding sugar_free
free-tree t ts h = &&-left _ (sugar_free ts) (&&-right (is_none (sugar_at (cons t ts))) _ h)

free-tail : (t : Tree) (ts : Stream) → sugar_free (cons t ts) ≡ true → sugar_free ts ≡ true
unfolding sugar_free
free-tail t ts h = &&-right (sugar_free_tree t) _ (&&-right (is_none (sugar_at (cons t ts))) _ h)

expand_nil : (n : ℕ) → expand (suc n) nil ≡ some nil
unfolding expand expand_step
expand_nil n = refl

mutual
  unfolding expand expand_tree size sugar_free

  expand-free : (n : ℕ) (s : Stream) → size s < n → sugar_free s ≡ true → expand n s ≡ some s
  expand-free zero s l h = absurd (omega arith)
  expand-free (suc n) nil l h = expand_nil n
  expand-free (suc n) (cons t ts) l h =
      expand-cons (expand n) t t ts ts (free-head t ts h)
        (tree-free n t (omega arith) (free-tree t ts h))
        (expand-free n ts (omega arith) (free-tail t ts h))

  tree-free :
      (n : ℕ) (t : Tree)
      → size_tree t ≤ n
      → sugar_free_tree t ≡ true
      → expand_tree (expand n) t ≡ some t
  tree-free n (group d s) l h = rw (expand-free n s (omega arith) h) refl
  tree-free n (ident x) l h = refl
  tree-free n (punct c k) l h = refl
  tree-free n (literal x) l h = refl

-- A stream of tokens in which no `$` stands in front of an identifier, in its groups either, is kept
-- as it is: a lone `$` stays.
pub expand_value_sugar-keeps : (s : Stream) → sugar_free s ≡ true → expand_value_sugar s ≡ some s
unfolding expand_value_sugar
expand_value_sugar-keeps s h = expand-free (suc (size s)) s (omega arith) h
