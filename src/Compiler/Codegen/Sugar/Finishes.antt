-- ===== src/Compiler/Codegen/Sugar/Finishes.antt =====
-- The fuel of `expand_value_sugar`, crates/vue-rs-compiler/src/codegen.rs.
use vue_rs.Base.{
  ℕ, zero, suc, ◌<◌, ◌≤◌, ◌≡◌, refl, ap, Bool, true, false, Option, none, some, ◌==◌, if◌then◌else◌,
  maybe, arith, Option-cases, inl, inr,
}
use vue_rs.Text.{Text}
use vue_rs.Compiler.Codegen.Tokens.{
  alone, joint, Tree, Stream, ident, punct, literal, group, nil, cons, append, size, size_tree,
}
use vue_rs.Compiler.Codegen.Sugar.{
  behind_eq, assignment_at, is_compound_op, before_semicolon, from_semicolon, get_call, set_call,
  sugar_at, expand_name, expand_tree, expand_step, expand, expand_value_sugar,
}

if-some : {A : Type 0} (b : Bool) {x y : A} → (if b then some x else none) ≡ some y → x ≡ y
if-some true h = cc
if-some false h = absurd cc

size-before : (s : Stream) → size (before_semicolon s) ≤ size s
unfolding size before_semicolon
size-before nil = omega arith
size-before (cons t ts) = ground (arith, size-before ts)

size-from : (s : Stream) → size (from_semicolon s) ≤ size s
unfolding size from_semicolon
size-from nil = omega arith
size-from (cons t ts) = ground (arith, size-from ts)

size-behind_eq : (s rhs : Stream) → behind_eq s ≡ some rhs → size rhs < size s
unfolding size behind_eq
size-behind_eq nil rhs h = absurd cc
size-behind_eq (cons (punct c k) ts) rhs h = rw (← if-some (c == b'=') h) (omega arith)
size-behind_eq (cons (ident x) ts) rhs h = absurd cc
size-behind_eq (cons (literal x) ts) rhs h = absurd cc
size-behind_eq (cons (group d x) ts) rhs h = absurd cc

compound :
    (c : ℕ) {op : Option ℕ} {rhs : Stream} (b : Bool) (o : Option Stream)
    → (if b then maybe {B = Option (Option ℕ × Stream)} none (λ r. some (some c, r)) o else none)
      ≡ some (op, rhs)
    → o ≡ some rhs
compound c true none h = absurd cc
compound c true (some r) h = cc
compound c false o h = absurd cc

size-assignment_at :
    (s rhs : Stream) (op : Option ℕ) → assignment_at s ≡ some (op, rhs) → size rhs < size s
unfolding size assignment_at
size-assignment_at nil rhs op h = absurd cc
size-assignment_at (cons (punct c alone) ts) rhs op h =
    rw (← ap (λ p. p.1) (if-some (c == b'=') h)) (omega arith)
size-assignment_at (cons (punct c joint) ts) rhs op h =
    omega (arith, size-behind_eq ts rhs (compound c (is_compound_op c) (behind_eq ts) h))
size-assignment_at (cons (ident x) ts) rhs op h = absurd cc
size-assignment_at (cons (literal x) ts) rhs op h = absurd cc
size-assignment_at (cons (group d x) ts) rhs op h = absurd cc

size-sugar_at : (s ts : Stream) (name : Text) → sugar_at s ≡ some (name, ts) → size ts < size s
unfolding size sugar_at
size-sugar_at nil ts name h = absurd cc
size-sugar_at (cons (punct c k) nil) ts name h = absurd cc
size-sugar_at (cons (punct c k) (cons (ident x) us)) ts name h =
    rw (← ap (λ p. p.1) (if-some (c == b'$') h)) (omega arith)
size-sugar_at (cons (punct c k) (cons (punct x l) us)) ts name h = absurd cc
size-sugar_at (cons (punct c k) (cons (literal x) us)) ts name h = absurd cc
size-sugar_at (cons (punct c k) (cons (group d x) us)) ts name h = absurd cc
size-sugar_at (cons (ident x) us) ts name h = absurd cc
size-sugar_at (cons (literal x) us) ts name h = absurd cc
size-sugar_at (cons (group d x) us) ts name h = absurd cc

-- The run on enough fuel.
abbrev pub Finishes : ℕ → Stream → Type 0
Finishes n s = (o : Stream) × (expand n s ≡ some o)

expand_tree-Finishes :
    (n : ℕ) (t : Tree)
    → ((s : Stream) → size s < n → Finishes n s)
    → size_tree t ≤ n
    → (u : Tree) × (expand_tree (expand n) t ≡ some u)
unfolding expand_tree size
expand_tree-Finishes n (group d s) rec h =
    let (o, e) = rec s (omega arith) in (group d o, rw e refl)
expand_tree-Finishes n (ident x) rec h = (ident x, refl)
expand_tree-Finishes n (punct c k) rec h = (punct c k, refl)
expand_tree-Finishes n (literal x) rec h = (literal x, refl)

read :
    (n : ℕ) (name : Text) (ts o : Stream)
    → assignment_at ts ≡ none
    → expand n ts ≡ some o
    → expand_name (expand n) name ts ≡ some (append (get_call name) o)
unfolding expand_name
read n name ts o e k = rw (expand_name, e, k) refl

write :
    (n : ℕ) (name : Text) (ts rhs r o : Stream) (op : Option ℕ)
    → assignment_at ts ≡ some (op, rhs)
    → expand n (before_semicolon rhs) ≡ some r
    → expand n (from_semicolon rhs) ≡ some o
    → expand_name (expand n) name ts ≡ some (append (set_call name op r) o)
unfolding expand_name
write n name ts rhs r o op e k j = rw (expand_name, e, k, j) refl

expand_name-Finishes :
    (n : ℕ) (name : Text) (ts : Stream)
    → ((s : Stream) → size s < n → Finishes n s)
    → size ts < n
    → (o : Stream) × (expand_name (expand n) name ts ≡ some o)
unfolding expand_name
expand_name-Finishes n name ts rec h = elim (Option-cases (assignment_at ts)) [
  | inl e ↦ let (o, k) = rec ts h in (append (get_call name) o, read n name ts o e k)
  | inr ((op, rhs), e) ↦
      let l = size-assignment_at ts rhs op e in
      let (r, k) = rec (before_semicolon rhs) (omega (arith, size-before rhs)) in
      let (o, j) = rec (from_semicolon rhs) (omega (arith, size-from rhs)) in
      (append (set_call name op r) o, write n name ts rhs r o op e k j)
]

pub expand-cons :
    (rec : Stream → Option Stream) (t u : Tree) (ts o : Stream)
    → sugar_at (cons t ts) ≡ none
    → expand_tree rec t ≡ some u
    → rec ts ≡ some o
    → expand_step rec (cons t ts) ≡ some (cons u o)
unfolding expand_step
expand-cons rec t u ts o e k j = rw (expand_step, e, k, j) refl

expand-name :
    (rec : Stream → Option Stream) (t : Tree) (ts behind o : Stream) (name : Text)
    → sugar_at (cons t ts) ≡ some (name, behind)
    → expand_name rec name behind ≡ some o
    → expand_step rec (cons t ts) ≡ some o
unfolding expand_step
expand-name rec t ts behind o name e k = rw (expand_step, e, k) refl

pub expand-Finishes : (n : ℕ) (s : Stream) → size s < n → Finishes n s
unfolding expand expand_step size
expand-Finishes zero s h = absurd (omega arith)
expand-Finishes (suc n) nil h = (nil, refl)
expand-Finishes (suc n) (cons t ts) h = elim (Option-cases (sugar_at (cons t ts))) [
  | inl e ↦
      let (u, k) = expand_tree-Finishes n t (expand-Finishes n) (omega arith) in
      let (o, j) = expand-Finishes n ts (omega arith) in
      (cons u o, expand-cons (expand n) t u ts o e k j)
  | inr ((name, behind), e) ↦
      let l = size-sugar_at (cons t ts) behind name e in
      let (o, k) = expand_name-Finishes n name behind (expand-Finishes n) (omega arith) in
      (o, expand-name (expand n) t ts behind o name e k)
]

-- On every stream of tokens the rewriting of `$name` comes to its end.
pub expand_value_sugar-ends : (s : Stream) → (o : Stream) × (expand_value_sugar s ≡ some o)
unfolding expand_value_sugar
expand_value_sugar-ends s = expand-Finishes (suc (size s)) s (omega arith)
