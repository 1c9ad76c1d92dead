-- ===== src/Compiler/Codegen/Sugar.antt =====
-- The sugar `$name` for reads and writes of signals, `expand_value_sugar` of
-- crates/vue-rs-compiler/src/codegen.rs.
pub mod Finishes
pub mod Clean
use vue_rs.Base.{
  ℕ, zero, suc, Bool, true, false, ◌&&◌, ◌||◌, Option, none, some, ◌==◌, if◌then◌else◌, maybe,
}
use vue_rs.Text.{Text, chars}
use vue_rs.Compiler.Codegen.Tokens.{
  Spacing, alone, joint, Tree, Stream, ident, punct, literal, group, parenthesis, nil, cons, append,
  size,
}

infixl 5 ◌>>=◌
abbrev pub ◌>>=◌ : {A B : Type 0} → Option A → (A → Option B) → Option B
m >>= f = maybe none f m

abbrev pub is_compound_op : ℕ → Bool
is_compound_op c =
    c == b'+'
    || c == b'-'
    || c == b'*'
    || c == b'/'
    || c == b'%'
    || c == b'&'
    || c == b'|'
    || c == b'^'

abbrev pub is_alone : Spacing → Bool
is_alone alone = true
is_alone joint = false

-- The trees behind an `=`.
unfoldable pub behind_eq : Stream → Option Stream
behind_eq (cons (punct c k) ts) = if c == b'=' then some ts else none
behind_eq _ = none

-- The operator of an assignment that begins here, and the trees behind it.
unfoldable pub assignment_at : Stream → Option (Option ℕ × Stream)
unfolding behind_eq
assignment_at (cons (punct c alone) ts) = if c == b'=' then some (none, ts) else none
assignment_at (cons (punct c joint) ts) =
    if is_compound_op c then maybe none (λ rhs. some (some c, rhs)) (behind_eq ts) else none
assignment_at _ = none

abbrev pub is_semicolon : Tree → Bool
is_semicolon (punct c k) = c == b';'
is_semicolon _ = false

-- `trees[rhs_start..rhs_end]`
unfoldable pub before_semicolon : Stream → Stream
before_semicolon nil = nil
before_semicolon (cons t ts) =
    let r = before_semicolon ts in if is_semicolon t then nil else cons t r

-- `trees[rhs_end..]`
unfoldable pub from_semicolon : Stream → Stream
from_semicolon nil = nil
from_semicolon (cons t ts) = let r = from_semicolon ts in if is_semicolon t then cons t ts else r

abbrev pub one : Tree → Stream
one t = cons t nil

-- `.method(args)` behind a name.
abbrev pub method_call : Text → Text → Stream → Stream
method_call name method args =
    cons (ident name) (cons (punct b'.' alone) (cons (ident method) (one (group parenthesis args))))

unfoldable pub get_call : Text → Stream
get_call name = method_call name (chars "get") nil

unfoldable pub set_arg : Text → Option ℕ → Stream → Stream
unfolding get_call append
set_arg name none rhs = rhs
set_arg name (some op) rhs =
    append (get_call name) (cons (punct op alone) (one (group parenthesis rhs)))

unfoldable pub set_call : Text → Option ℕ → Stream → Stream
unfolding set_arg
set_call name op rhs = method_call name (chars "set") (set_arg name op rhs)

-- The name and the trees behind it, where `$name` begins here.
unfoldable pub sugar_at : Stream → Option (Text × Stream)
sugar_at (cons (punct c k) (cons (ident name) ts)) = if c == b'$' then some (name, ts) else none
sugar_at _ = none

-- `$name` and what follows it, given the expansion of the shorter streams.
unfoldable pub expand_name : (Stream → Option Stream) → Text → Stream → Option Stream
unfolding assignment_at before_semicolon from_semicolon get_call set_call append
expand_name rec name ts = elim (assignment_at ts) [
  | none ↦ rec ts >>= (λ o. some (append (get_call name) o))
  | some (op, rhs) ↦
      rec (before_semicolon rhs)
      >>= (λ r. rec (from_semicolon rhs) >>= (λ o. some (append (set_call name op r) o)))
]

unfoldable pub expand_tree : (Stream → Option Stream) → Tree → Option Tree
expand_tree rec (group d s) = rec s >>= (λ g. some (group d g))
expand_tree rec t = some t

unfoldable pub expand_step : (Stream → Option Stream) → Stream → Option Stream
unfolding sugar_at expand_name expand_tree
expand_step rec nil = some nil
expand_step rec (cons t ts) = elim (sugar_at (cons t ts)) [
  | some (name, behind) ↦ expand_name rec name behind
  | none ↦ expand_tree rec t >>= (λ u. rec ts >>= (λ o. some (cons u o)))
]

unfoldable pub expand : ℕ → Stream → Option Stream
unfolding expand_step
expand zero s = none
expand (suc n) s = expand_step (expand n) s

-- On the fuel of the number of trees; `none` is the end of the fuel.
unfoldable pub expand_value_sugar : Stream → Option Stream
unfolding expand size
expand_value_sugar s = expand (suc (size s)) s
