-- ===== src/Compiler/Codegen/Children/Arms.antt =====
-- The arms of a chain and the closure of a `dyn_switch`, `gen_if_chain` of
-- crates/vue-rs-compiler/src/codegen.rs.
use vue_rs.Base.{
  ℕ, suc, ◌+◌, ◌<◌, ◌≡◌, refl, ap, Bool, true, false, Option, none, some, List, [], ◌∷◌, ◌++◌,
  arith, Option-cases, Bool-cases, inl, inr, if◌then◌else◌, is_some, length,
}
use vue_rs.Text.{Text, chars}
use vue_rs.Compiler.Template.Syntax.{Nodes, element, static_text, dyn_text, nil, cons}
use vue_rs.Compiler.Codegen.Tokens.{Stream, Syn}
use vue_rs.Compiler.Codegen.Code.{
  Selector, Code, Codes, no_codes, codes, Part, dyn_switch, to_codes, Result,
}
use vue_rs.Compiler.Codegen.Code
use vue_rs.Compiler.Codegen.Styles.{parse_expr}
use vue_rs.Compiler.Codegen.Attrs.{find_static}
use vue_rs.Compiler.Codegen.Children.{Arm, else_arms, Switch}

-- What the closure of `dyn_switch` returns, if its conditions hold as told.
abbrev pub returned : (Stream → Bool) → List (Stream × ℕ) → Option ℕ → Option ℕ
returned holds [] tail = tail
returned holds ((c, i) ∷ arms) tail = if holds c then some i else returned holds arms tail

-- The index of the first arm whose condition holds, where the `v-else` always does.
abbrev pub first_arm : (Text → Bool) → ℕ → List Arm → Option ℕ
first_arm holds i [] = none
first_arm holds i ((none, el) ∷ arms) = some i
first_arm holds i ((some cond, el) ∷ arms) =
    if holds cond then some i else first_arm holds (suc i) arms

-- A condition in the source holds as its expression does.
abbrev pub holds_of : (Stream → Bool) → Result Stream → Bool
holds_of holds (Code.ok e) = holds e
holds_of holds (Code.err x) = false

abbrev pub holds_in : Syn → (Stream → Bool) → Text → Bool
holds_in syn holds cond = holds_of holds (parse_expr syn cond)

abbrev pub count : Codes → ℕ
count no_codes = 0
count (codes c cs) = suc (count cs)

abbrev pub or_else : Option ℕ → Option ℕ → Option ℕ
or_else (some i) o = some i
or_else none o = o

-- A `v-else` is the last arm.
abbrev pub else_last : List Arm → Bool
else_last [] = true
else_last ((some cond, el) ∷ arms) = else_last arms
else_last ((none, el) ∷ []) = true
else_last ((none, el) ∷ _ ∷ _) = false

pub else_arms-last : (ns : Nodes) → else_last (else_arms ns) ≡ true
unfolding else_arms
else_arms-last nil = refl
else_arms-last (cons (static_text t) ns) = refl
else_arms-last (cons (dyn_text t) ns) = refl
else_arms-last (cons (element tag attrs nodes) ns) =
    elim (Option-cases (find_static attrs (chars "v-else-if"))) [
      | inl e ↦ elim (Bool-cases (is_some (find_static attrs (chars "v-else")))) [
        | inl k ↦ rw (else_arms, e, k) refl
        | inr k ↦ rw (else_arms, e, k) refl
      ]
      | inr (cond, e) ↦ rw (else_arms, e) (else_arms-last ns)
    ]

pub returned-push :
    (holds : Stream → Bool) (arms : List (Stream × ℕ)) (c : Stream) (i : ℕ)
    → returned holds (arms ++ (c, i) ∷ []) none
      ≡ or_else (returned holds arms none) (if holds c then some i else none)
returned-push holds [] c i = refl
returned-push holds ((d, j) ∷ arms) c i = elim (Bool-cases (holds d)) [
  | inl e ↦ rw e refl
  | inr e ↦ rw e (returned-push holds arms c i)
]

pub returned-tail :
    (holds : Stream → Bool) (arms : List (Stream × ℕ)) (tail : Option ℕ)
    → returned holds arms tail ≡ or_else (returned holds arms none) tail
returned-tail holds [] tail = refl
returned-tail holds ((d, j) ∷ arms) tail = elim (Bool-cases (holds d)) [
  | inl e ↦ rw e refl
  | inr e ↦ rw e (returned-tail holds arms tail)
]

pub or_else_assoc : (a b c : Option ℕ) → or_else (or_else a b) c ≡ or_else a (or_else b c)
or_else_assoc none b c = refl
or_else_assoc (some x) b c = refl

pub or_else_if :
    (b : Bool) (i : ℕ) (o : Option ℕ)
    → or_else (if b then some i else none) o ≡ (if b then some i else o)
or_else_if true i o = refl
or_else_if false i o = refl

pub ok-inj : {x y : Switch} → Code.ok x ≡ Code.ok y → x ≡ y
ok-inj h = cc

pub or_else-none : (a : Option ℕ) → or_else a none ≡ a
or_else-none none = refl
or_else-none (some x) = refl

-- The state behind an arm with a condition, and behind `v-else`.
abbrev pub with_arm : Stream → ℕ → Code → Switch → Switch
with_arm c i view s = record {
  arms = s.arms ++ (c, i) ∷ [];
  tail = s.tail;
  views = s.views ++ view ∷ [];
}

abbrev pub with_tail : ℕ → Code → Switch → Switch
with_tail i view s = record { arms = s.arms; tail = some i; views = s.views ++ view ∷ [] }

pub bind_arm :
    (c : Result Stream) (i : ℕ) (view : Code) (s : Switch) {t : Switch}
    → (Code.◌>>=◌ c (λ x. Code.ok (with_arm x i view s))) ≡ Code.ok t
    → (x : Stream) × (c ≡ Code.ok x) × (with_arm x i view s ≡ t)
bind_arm (Code.ok x) i view s h = (x, refl, cc)
bind_arm (Code.err e) i view s h = absurd cc

pub count-to_codes : (cs : List Code) → count (to_codes cs) ≡ length cs
count-to_codes [] = refl
count-to_codes (c ∷ cs) = ap suc (count-to_codes cs)

pub first_arm-lt :
    (holds : Text → Bool) (i : ℕ) (arms : List Arm) {j : ℕ}
    → first_arm holds i arms ≡ some j
    → j < i + length arms
first_arm-lt holds i [] h = absurd cc
first_arm-lt holds i ((none, el) ∷ arms) h = ground arith
first_arm-lt holds i ((some cond, el) ∷ arms) h = elim (Bool-cases (holds cond)) [
  | inl e ↦ ground arith
  | inr e ↦ omega (arith, first_arm-lt holds (suc i) arms (rw e at h))
]

pub switch-inj :
    {a b : Selector} {x y : Codes} → dyn_switch a x ≡ dyn_switch b y → (a ≡ b) × (x ≡ y)
switch-inj h = (cc, cc)
