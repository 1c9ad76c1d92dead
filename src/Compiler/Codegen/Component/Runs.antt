-- ===== src/Compiler/Codegen/Component/Runs.antt =====
-- Runs of the generator on components and slots, crates/vue-rs-compiler/src/codegen.rs.
use vue_rs.Base.{
  ℕ, ◌≤◌, true, false, List, [], ◌∷◌, arith, Option-cases, Bool-cases, inl, inr, is_some, is_empty,
}
use vue_rs.Text.{Text}
use vue_rs.Compiler.Template.Syntax.{Nodes, element, static_text, dyn_text, nil, cons}
use vue_rs.Compiler.Codegen.Names.{dynamic_arg}
use vue_rs.Compiler.Codegen.Tokens.{Syn}
use vue_rs.Compiler.Codegen.Code.{
  Code, GenError, create_anchor, several_default, several_fallback, single_slot_root,
}
use vue_rs.Compiler.Codegen.Monad.{M, pure, fail, Codegen, Element, elements_of}
use vue_rs.Compiler.Codegen.Monad.Good.{
  Good, Good-bind, Good-then, Good-pure, Good-fail, Good-lift, Good-if, Good-new_ident,
  Good-record_slot,
}
use vue_rs.Compiler.Codegen.Children.{Job, whole, weight, weight_nodes}
use vue_rs.Compiler.Codegen.Children.Runs.{GoodTo}
use vue_rs.Compiler.Codegen.Component.{
  only_element, slot_fallback, single_root, provided_slot, default_content, named_setter,
  named_setters, default_setter, all_attr_fields, gen_component, payload_fields, slot_payload,
  gen_slot,
}

-- Every element is this light.
abbrev pub Light : ℕ → List Element → Type 0
Light w [] = Unit
Light w (el ∷ els) = (weight (whole el) ≤ w) × Light w els

elements_of-Light : (w : ℕ) (ns : Nodes) → weight_nodes ns ≤ w → Light w (elements_of ns)
unfolding elements_of weight_nodes weight
elements_of-Light w nil h = tt
elements_of-Light w (cons (static_text t) ns) h = elements_of-Light w ns h
elements_of-Light w (cons (dyn_text t) ns) h = elements_of-Light w ns h
elements_of-Light w (cons (element tag attrs nodes) ns) h =
    (omega arith, elements_of-Light w ns (omega arith))

default_content-Light : (w : ℕ) (els : List Element) → Light w els → Light w (default_content els)
unfolding default_content
default_content-Light w [] l = tt
default_content-Light w (el ∷ els) l = elim (Bool-cases (is_some (provided_slot el))) [
  | inl e ↦ rw (default_content, e) (default_content-Light w els l.1)
  | inr e ↦ rw (default_content, e) (l.0, default_content-Light w els l.1)
]

weight-children : (w : ℕ) (el : Element) → weight (whole el) ≤ w → weight_nodes el.children ≤ w
unfolding weight
weight-children w el l = omega arith

module _ (rec : Job → M Code) (w : ℕ) (good : GoodTo rec w) where
  only_element-Good :
      (m : M Code) (e : GenError) (els : List Element)
      → Good m
      → Light w els
      → Good (only_element rec m e els)
  unfolding only_element
  only_element-Good m e [] g l = g
  only_element-Good m e (el ∷ []) g l = good (whole el) l.0
  only_element-Good m e (el ∷ _ ∷ _) g l = Good-fail e

  slot_fallback-Good : (ns : Nodes) → weight_nodes ns ≤ w → Good (slot_fallback rec ns)
  unfolding slot_fallback
  slot_fallback-Good ns h =
      only_element-Good (pure create_anchor) several_fallback (elements_of ns) (Good-pure _)
        (elements_of-Light w ns h)

  single_root-Good : (ns : Nodes) → weight_nodes ns ≤ w → Good (single_root rec ns)
  unfolding single_root
  single_root-Good ns h =
      only_element-Good (fail single_slot_root) single_slot_root (elements_of ns) (Good-fail _)
        (elements_of-Light w ns h)

  module _ (syn : Syn) where
    named_setter-Good :
        (el : Element) (slot : Text × Text)
        → weight (whole el) ≤ w
        → Good (named_setter syn rec el slot)
    unfolding named_setter
    named_setter-Good el (name, binding) l =
        Good-bind (single_root-Good el.children (weight-children w el l))
          (λ c. Good-bind (Good-lift _) (λ f. Good-bind (Good-lift _) (λ p. Good-pure _)))

    named_setters-Good : (els : List Element) → Light w els → Good (named_setters syn rec els)
    unfolding named_setters
    named_setters-Good [] l = Good-pure _
    named_setters-Good (el ∷ els) l = elim (Option-cases (provided_slot el)) [
      | inl e ↦ rw (named_setters, e) (named_setters-Good els l.1)
      | inr (slot, e) ↦
          rw (named_setters, e)
            (Good-bind (named_setter-Good el slot l.0)
              (λ s. Good-bind (named_setters-Good els l.1) (λ ss. Good-pure _)))
    ]

    default_setter-Good : (els : List Element) → Light w els → Good (default_setter syn rec els)
    unfolding default_setter
    default_setter-Good [] l = Good-pure _
    default_setter-Good (el ∷ els) l =
        Good-bind
          (only_element-Good (pure create_anchor) several_default (el ∷ els) (Good-pure _) l)
          (λ c. Good-pure _)

    pub gen_component-Good :
        (el : Element) → weight_nodes el.children ≤ w → Good (gen_component syn rec el)
    unfolding gen_component
    gen_component-Good el l =
        let ls = elements_of-Light w el.children l in
        Good-then (Good-new_ident syn el.tag) (
          Good-bind (Good-lift (all_attr_fields syn el.attrs)) (λ fields.
            Good-bind (named_setters-Good (elements_of el.children) ls) (λ named.
              Good-bind (default_setter-Good _ (default_content-Light w _ ls)) (λ default.
                Good-then (Good-if (is_empty fields) (Good-pure tt) (Good-new_ident syn _))
                  (Good-then (Good-new_ident syn _) (Good-pure _))))))

    payload_fields-Good : (pairs : List (Text × Text)) → Good (payload_fields syn pairs)
    unfolding payload_fields
    payload_fields-Good [] = Good-pure _
    payload_fields-Good ((name, e) ∷ pairs) = elim (Bool-cases (is_some (dynamic_arg name))) [
      | inl k ↦ rw (payload_fields, k) (Good-fail _)
      | inr k ↦
          rw (payload_fields, k)
            (Good-then (Good-new_ident syn name) (
              Good-bind (Good-lift _)
                (λ x. Good-bind (payload_fields-Good pairs) (λ fs. Good-pure _))))
    ]

    slot_payload-Good :
        (cfg : Codegen) (name : Text) (pairs : List (Text × Text))
        → Good (slot_payload syn cfg name pairs)
    unfolding slot_payload
    slot_payload-Good cfg name [] = Good-then (Good-record_slot name false) (Good-pure _)
    slot_payload-Good cfg name (p ∷ pairs) = Good-then (Good-record_slot name true) (
        Good-bind (Good-lift _)
          (λ ty. Good-bind (payload_fields-Good (p ∷ pairs)) (λ fs. Good-pure _)))

    pub gen_slot-Good :
        (cfg : Codegen) (el : Element)
        → weight_nodes el.children ≤ w
        → Good (gen_slot syn cfg rec el)
    unfolding gen_slot
    gen_slot-Good cfg el l = Good-bind (slot_fallback-Good el.children l) (λ fallback.
        Good-then (Good-new_ident syn _) (Good-bind (slot_payload-Good cfg _ _) (λ p. Good-pure _)))
