-- ===== src/Dom/Control.antt =====
-- Control flow in elements, crates/vue-rs-dom/src/element.rs. The effect of a builder is a function of
-- the value that it reads and of what its cells hold; the calls it makes of the backend and of the
-- scopes are recorded in order. A branch (its node and the disposer of its root) is a number that is
-- new with every build. The builds are user code: what they do inside a branch is not recorded.
pub mod Shown
pub mod Cond
pub mod Switch
pub mod Keyed
use vue_rs.Base.{
  ℕ, suc, ◌+◌, Bool, true, false, Option, none, some, List, [], ◌∷◌, ◌++◌, retain, not, ◌==◌, ltb,
  if◌then◌else◌, maybe, and_then,
}
use vue_rs.Text.{Text, same_text}

-- The calls: `built` is `build_branch` of a view, the others go to the backend and the disposer.
pub data Action (V : Type 0) : Type 0 where
  built : V → ℕ → Action V
  inserted removed disposed : ℕ → Action V

-- The cells of an effect: `current` or `shown`, and `mounted`.
pub record Mount (C V : Type 0) : Type 0 where
  pub current : C
  pub mounted : Option ℕ
  pub next : ℕ
  pub actions : List (Action V)

module _ {C V : Type 0} where
  abbrev pub idle : C → Mount C V
  idle c = record { current = c; mounted = none; next = 0; actions = [] }

  abbrev pub set_current : C → Mount C V → Mount C V
  set_current c m = record { current = c; mounted = m.mounted; next = m.next; actions = m.actions }

  -- `if let Some((node, disposer)) = mounted.take() { remove_child; dispose }`
  abbrev pub unmount : Mount C V → Mount C V
  unmount m = record {
    current = m.current;
    mounted = none;
    next = m.next;
    actions = m.actions ++ maybe [] (λ b. removed b ∷ disposed b ∷ []) m.mounted;
  }

  -- `build_branch`, `insert_before` and the write of `mounted`
  abbrev pub mount : V → Mount C V → Mount C V
  mount v m = record {
    current = m.current;
    mounted = some m.next;
    next = suc m.next;
    actions = m.actions ++ built v m.next ∷ inserted m.next ∷ [];
  }

  -- `dispose_branches_on_cleanup`: the node is left to the scope that goes away.
  unfoldable pub cleanup : Mount C V → Mount C V
  cleanup m = record {
    current = m.current;
    mounted = none;
    next = m.next;
    actions = m.actions ++ maybe [] (λ b. disposed b ∷ []) m.mounted;
  }

abbrev pub same_bool : Bool → Bool → Bool
same_bool a b = if a then b else not b

-- The effect of `dyn_if`.
unfoldable pub dyn_if : Bool → Mount Bool (Unit {0}) → Mount Bool (Unit {0})
dyn_if show m =
    if same_bool show m.current
    then m
    else if show
    then mount tt (set_current show m)
    else unmount (set_current show m)

-- The effect of `dyn_if_else`; the view is told by the condition.
unfoldable pub dyn_if_else : Bool → Mount (Option Bool) Bool → Mount (Option Bool) Bool
dyn_if_else show m =
    if maybe false (same_bool show) m.current
    then m
    else mount show (unmount (set_current (some show) m))

-- `==` of `Option<usize>`
abbrev pub same_index : Option ℕ → Option ℕ → Bool
same_index none none = true
same_index (some i) (some j) = i == j
same_index _ _ = false

-- The effect of `dyn_switch` over that many views; `none` is an index out of bounds, a panic.
unfoldable pub dyn_switch :
    ℕ → Option ℕ → Mount (Option (Option ℕ)) ℕ → Option (Mount (Option (Option ℕ)) ℕ)
dyn_switch views which m =
    if maybe false (same_index which) m.current
    then some m
    else maybe (some (unmount (set_current (some which) m)))
        (λ i. if ltb i views then some (mount i (unmount (set_current (some which) m))) else none)
        which

-- The effect of `dyn_element`; the view is told by the tag.
unfoldable pub dyn_element : Text → Mount (Option Text) Text → Mount (Option Text) Text
unfolding same_text
dyn_element tag m =
    if maybe false (same_text tag) m.current
    then m
    else mount tag (unmount (set_current (some tag) m))

-- The runs of an effect for the values that its source yields in turn.
abbrev pub runs : {A S : Type 0} → (A → S → S) → List A → S → S
runs f [] s = s
runs f (a ∷ xs) s = runs f xs (f a s)

abbrev pub runs? : {A S : Type 0} → (A → S → Option S) → List A → S → Option S
runs? f [] s = some s
runs? f (a ∷ xs) s = and_then (f a s) (λ t. runs? f xs t)
