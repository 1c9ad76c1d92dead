-- ===== src/Compiler/Codegen/Children/Runs.antt =====
-- Runs of the generator on the children of an element, crates/vue-rs-compiler/src/codegen.rs.
use vue_rs.Base.{
  ℕ, zero, suc, ◌≤◌, Option, none, some, List, [], ◌∷◌, arith, Option-cases, Bool-cases, inl, inr,
  if◌then◌else◌, is_some,
}
use vue_rs.Text.{Text, chars}
use vue_rs.Compiler.Template.Syntax.{Node, Nodes, element, static_text, dyn_text, nil, cons}
use vue_rs.Compiler.Codegen.Tokens.{Stream, Syn}
use vue_rs.Compiler.Codegen.Code.{Code, else_if_alone, else_alone}
use vue_rs.Compiler.Codegen.Attrs.{is, find_static, find_dyn}
use vue_rs.Compiler.Codegen.Monad.{M, Element}
use vue_rs.Compiler.Codegen.Monad.Good.{Good, Good-bind, Good-pure, Good-fail, Good-lift, Good-if}
use vue_rs.Compiler.Codegen.Children.{
  Job, whole, built, Arm, else_arms, Switch, add_arm, add_arms, gen_if_chain, gen_dyn_component,
  for_part, gen_for, weight_nodes, weight, child_part, plain_part, element_part, node_part, taken,
  children, has,
}

-- Every arm is this light.
abbrev pub LightArms : ℕ → List Arm → Type 0
LightArms w [] = Unit
LightArms w ((cond, el) ∷ arms) = (weight (whole el) ≤ w) × LightArms w arms

-- The recursive calls on jobs this light.
abbrev pub GoodTo : (Job → M Code) → ℕ → Type 0
GoodTo rec w = (j : Job) → weight j ≤ w → Good (rec j)

LightArms-mono : (v w : ℕ) (arms : List Arm) → v ≤ w → LightArms v arms → LightArms w arms
LightArms-mono v w [] h l = tt
LightArms-mono v w ((cond, el) ∷ arms) h l = (omega (arith, l.0), LightArms-mono v w arms h l.1)

else_arms-Light : (w : ℕ) (ns : Nodes) → weight_nodes ns ≤ w → LightArms w (else_arms ns)
unfolding else_arms weight_nodes weight
else_arms-Light w nil h = tt
else_arms-Light w (cons (static_text t) ns) h = tt
else_arms-Light w (cons (dyn_text t) ns) h = tt
else_arms-Light w (cons (element tag attrs nodes) ns) h =
    elim (Option-cases (find_static attrs (chars "v-else-if"))) [
      | inl e ↦ elim (Bool-cases (is_some (find_static attrs (chars "v-else")))) [
        | inl k ↦ rw (else_arms, e, k) (omega arith, tt)
        | inr k ↦ rw (else_arms, e, k) tt
      ]
      | inr (cond, e) ↦ rw (else_arms, e) (omega arith, else_arms-Light w ns (omega arith))
    ]

weight-tail : (w : ℕ) (n : Node) (ns : Nodes) → weight_nodes (cons n ns) ≤ w → weight_nodes ns ≤ w
unfolding weight_nodes
weight-tail w (static_text t) ns l = l
weight-tail w (dyn_text e) ns l = l
weight-tail w (element tag attrs nodes) ns l = omega arith

module _ (syn : Syn) (rec : Job → M Code) (w : ℕ) (good : GoodTo rec w) where
  add_arms-Good :
      (i : ℕ) (arms : List Arm) (s : Switch) → LightArms w arms → Good (add_arms syn rec i arms s)
  unfolding add_arms
  add_arms-Good i [] s l = Good-pure s
  add_arms-Good i ((cond, el) ∷ arms) s l = Good-bind (good (whole el) l.0) (λ view.
      Good-bind (Good-lift (add_arm syn cond i view s)) (λ t. add_arms-Good (suc i) arms t l.1))

  gen_if_chain-Good : (arms : List Arm) → LightArms w arms → Good (gen_if_chain syn rec arms)
  unfolding gen_if_chain
  gen_if_chain-Good arms l = Good-bind (add_arms-Good 0 arms _ l) (λ s. Good-pure _)

  gen_dyn_component-Good :
      (el : Element) (expr : Text)
      → weight (whole el) ≤ w
      → Good (gen_dyn_component syn rec el expr)
  unfolding gen_dyn_component weight
  gen_dyn_component-Good el expr l =
      Good-bind (Good-lift _)
        (λ e. Good-bind (good (built el _ _) (omega arith)) (λ c. Good-pure _))

  for_part-Good :
      (b : Text) (i k : Stream) (view : Code) (o : Option (Stream × Stream))
      → Good (for_part syn b i k view o)
  unfolding for_part
  for_part-Good b i k view (some p) = Good-pure _
  for_part-Good b i k view none = Good-bind (Good-lift _) (λ x. Good-pure _)

  gen_for-Good : (el : Element) (e : Text) → weight (whole el) ≤ w → Good (gen_for syn rec el e)
  unfolding gen_for
  gen_for-Good el e l = Good-bind (Good-lift _) (λ sides. Good-bind (Good-lift _) (λ iterable.
      Good-bind (Good-lift _) (λ key_expr. Good-bind (Good-lift _) (λ key.
        Good-bind (good (whole el) l)
          (λ view. Good-bind (Good-lift _) (λ form. for_part-Good _ iterable key view form))))))

  child_part-Good :
      (el : Element) (o : Option Text) → weight (whole el) ≤ w → Good (child_part syn rec el o)
  unfolding child_part
  child_part-Good el (some e) l = gen_dyn_component-Good el e l
  child_part-Good el none l = Good-bind (good (whole el) l) (λ c. Good-pure _)

  plain_part-Good : (el : Element) → weight (whole el) ≤ w → Good (plain_part syn rec el)
  unfolding plain_part
  plain_part-Good el l = Good-if (has el.attrs (chars "v-else-if")) (Good-fail else_if_alone) (
      Good-if (has el.attrs (chars "v-else")) (Good-fail else_alone) (
        child_part-Good el (if is "component" el.tag then find_dyn el.attrs (chars "is") else none)
          l))

  element_part-Good :
      (el : Element) (ns : Nodes)
      → weight (whole el) ≤ w
      → weight_nodes ns ≤ w
      → Good (element_part syn rec el ns)
  unfolding element_part
  element_part-Good el ns l k = elim (Option-cases (find_static el.attrs (chars "v-for"))) [
    | inr (e, a) ↦ rw (element_part, a) (gen_for-Good el e l)
    | inl a ↦ elim (Option-cases (find_static el.attrs (chars "v-if"))) [
      | inr (c, b) ↦
          rw (element_part, a, b)
            (gen_if_chain-Good ((some c, el) ∷ else_arms ns) (l, else_arms-Light w ns k))
      | inl b ↦ rw (element_part, a, b) (plain_part-Good el l)
    ]
  ]

  node_part-Good :
      (n : Node) (ns : Nodes) → weight_nodes (cons n ns) ≤ w → Good (node_part syn rec n ns)
  unfolding node_part weight_nodes weight
  node_part-Good (static_text t) ns l = Good-pure _
  node_part-Good (dyn_text e) ns l = Good-bind (Good-lift _) (λ x. Good-pure _)
  node_part-Good (element tag attrs nodes) ns l =
      element_part-Good (record { tag = tag; attrs = attrs; children = nodes }) ns (omega arith)
        (omega arith)

  pub children-Good : (k : ℕ) (ns : Nodes) → weight_nodes ns ≤ w → Good (children syn rec k ns)
  unfolding children
  children-Good k nil l = Good-pure _
  children-Good (suc k) (cons n ns) l = children-Good k ns (weight-tail w n ns l)
  children-Good zero (cons n ns) l = Good-bind (node_part-Good n ns l) (λ p.
      Good-bind (children-Good (taken syn n ns) ns (weight-tail w n ns l)) (λ ps. Good-pure _))
