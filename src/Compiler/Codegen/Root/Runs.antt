-- ===== src/Compiler/Codegen/Root/Runs.antt =====
-- Runs of the generator on whole templates, crates/vue-rs-compiler/src/codegen.rs.
use vue_rs.Base.{
  ℕ, zero, suc, ◌≤◌, ◌≡◌, ◌≢◌, refl, true, Option, none, [], ◌&&◌, arith, Option-cases, inl, inr,
  is_some,
}
use vue_rs.Text.{Text, chars}
use vue_rs.Compiler.Template.Syntax.{Node, Nodes, element, static_text, dyn_text, nil, cons}
use vue_rs.Compiler.Codegen.Names.{is_component}
use vue_rs.Compiler.Codegen.Tokens.{Syn}
use vue_rs.Compiler.Codegen.Code.{Open, static_tag, Code, component_is_placement, empty_template}
use vue_rs.Compiler.Codegen.Attrs.{is, find_dyn}
use vue_rs.Compiler.Codegen.Monad.{M, Run, ok, err, panic, starved, Slots, Codegen, Element}
use vue_rs.Compiler.Codegen.Monad.Good.{
  Kept, distinct, Good, Good-bind, Good-pure, Good-fail, Good-lift, Good-if,
}
use vue_rs.Compiler.Codegen.Children.{Job, whole, built, weight, weight_nodes}
use vue_rs.Compiler.Codegen.Children.Runs.{GoodTo, children-Good}
use vue_rs.Compiler.Codegen.Component.Runs.{gen_slot-Good, gen_component-Good}
use vue_rs.Compiler.Codegen.Root.{
  owns_content, build_element, element_step, generate, root_element, directives, root_directive,
  root_member, root_members, root,
}

module _ (syn : Syn) (cfg : Codegen) where
  build_element-Good :
      (rec : Job → M Code) (w : ℕ) (e : Element) (tag : Open) (ignore : Option Text)
      → GoodTo rec w
      → weight_nodes e.children ≤ w
      → Good (build_element syn cfg rec e tag ignore)
  unfolding build_element
  build_element-Good rec w e tag ignore g l = Good-bind (Good-lift _) (λ plan.
      Good-bind (Good-lift _) (λ calls.
        Good-bind
          (Good-if (owns_content e.attrs) (Good-pure []) (children-Good syn rec w g 0 e.children l))
          (λ parts. Good-pure _)))

  element_step-Good :
      (rec : Job → M Code) (w : ℕ) (e : Element)
      → GoodTo rec w
      → weight (built e (static_tag e.tag) none) ≤ w
      → Good (element_step syn cfg rec e)
  unfolding element_step weight
  element_step-Good rec w e g l =
      Good-if (is "slot" e.tag) (gen_slot-Good rec w g syn cfg e (omega arith)) (
        Good-if (is_component e.tag) (gen_component-Good rec w g syn e (omega arith)) (
          Good-if (is "component" e.tag && is_some (find_dyn e.attrs (chars "is")))
            (Good-fail component_is_placement) (g (built e (static_tag e.tag) none) l)))

  generate-Good : (n : ℕ) (j : Job) → weight j ≤ n → Good (generate syn cfg n j)
  unfolding generate weight
  generate-Good zero (whole e) l = absurd (omega arith)
  generate-Good zero (built e tag ignore) l = absurd (omega arith)
  generate-Good (suc n) (whole e) l =
      element_step-Good (generate syn cfg n) n e (generate-Good n) (omega arith)
  generate-Good (suc n) (built e tag ignore) l =
      build_element-Good (generate syn cfg n) n e tag ignore (generate-Good n) (omega arith)

  root_element-Good : (e : Element) → Good (root_element syn cfg e)
  unfolding root_element
  root_element-Good e = generate-Good (weight (whole e)) (whole e) (omega arith)

  root_member-Good : (n : Node) → Good (root_member syn cfg n)
  unfolding root_member
  root_member-Good (static_text t) = Good-pure _
  root_member-Good (dyn_text e) = Good-bind (Good-lift _) (λ x. Good-pure _)
  root_member-Good (element tag attrs nodes) =
      elim (Option-cases (root_directive attrs directives)) [
        | inl e ↦
            rw (root_member, e)
              (root_element-Good (record { tag = tag; attrs = attrs; children = nodes }))
        | inr (d, e) ↦ rw (root_member, e) (Good-fail _)
      ]

  root_members-Good : (ns : Nodes) → Good (root_members syn cfg ns)
  unfolding root_members
  root_members-Good nil = Good-pure _
  root_members-Good (cons n ns) =
      Good-bind (root_member-Good n) (λ c. Good-bind (root_members-Good ns) (λ cs. Good-pure _))

  root-Good : (ns : Nodes) → Good (root syn cfg ns)
  unfolding root
  root-Good nil = Good-fail empty_template
  root-Good (cons (element tag attrs nodes) nil) =
      root_element-Good (record { tag = tag; attrs = attrs; children = nodes })
  root-Good (cons (element tag attrs nodes) (cons m ns)) =
      Good-bind (root_members-Good (cons (element tag attrs nodes) (cons m ns))) (λ cs. Good-pure _)
  root-Good (cons (static_text t) ns) =
      Good-bind (root_members-Good (cons (static_text t) ns)) (λ cs. Good-pure _)
  root-Good (cons (dyn_text t) ns) =
      Good-bind (root_members-Good (cons (dyn_text t) ns)) (λ cs. Good-pure _)

  Kept-ends : {A : Type 0} (r : Run A) → Kept r → r ≢ starved
  Kept-ends (ok a s) h e = absurd cc
  Kept-ends (err x) h e = absurd cc
  Kept-ends panic h e = absurd cc
  Kept-ends starved h e = h

  Kept-ok : {A : Type 0} (r : Run A) {a : A} {s : Slots} → Kept r → r ≡ ok a s → distinct s ≡ true
  Kept-ok r h e = rw e at h

  -- Whatever the parsers of Rust code accept, the code generator comes to its end on every template:
  -- with code, with an error, or with a panic.
  pub root-ne-starved : (ns : Nodes) → root syn cfg ns [] ≢ starved
  unfolding distinct
  root-ne-starved ns = Kept-ends _ ((root-Good ns).at [] refl)

  -- The slots that are recorded for a template have distinct names.
  pub root-distinct :
      (ns : Nodes) {code : Code} {slots : Slots}
      → root syn cfg ns [] ≡ ok code slots
      → distinct slots ≡ true
  unfolding distinct
  root-distinct ns h = Kept-ok _ ((root-Good ns).at [] refl) h
