-- ===== src/Compiler/Codegen/Component.antt =====
-- Uses of components and slots, `component`, `slot_fallback`, `single_root` and the slot case of
-- `element` of crates/vue-rs-compiler/src/codegen.rs.
pub mod Runs
use vue_rs.Base.{
  ℕ, Bool, true, false, not, ◌&&◌, ◌||◌, Option, none, some, List, [], ◌∷◌, ◌++◌, if◌then◌else◌,
  maybe, is_some, is_none, is_empty,
}
use vue_rs.Text.{Text, chars, same_text, strip_prefix, starts_with}
use vue_rs.Compiler.Template.Syntax.{Attr, fixed, dyn, event, Nodes}
use vue_rs.Compiler.Codegen.Names.{split_once, dynamic_arg}
use vue_rs.Compiler.Codegen.Tokens.{Stream, Syn}
use vue_rs.Compiler.Codegen.Options.{find_name}
use vue_rs.Compiler.Codegen.Styles.{parse_expr}
use vue_rs.Compiler.Codegen.Attrs.{is, find_static, is_structural}
use vue_rs.Compiler.Codegen.Children.{Job, whole}
use vue_rs.Compiler.Codegen.Code.{
  FieldValue, into, callback, set_callback, literal_text, Payload, unit_payload, payload, Code,
  component, slot_match, create_anchor, GenError, dynamic_component_arg, invalid_event_name,
  invalid_name, invalid_slot_name, invalid_slot_binding, invalid_model_arg, model_modifiers,
  empty_model_arg, ref_on_component, several_default, several_fallback, single_slot_root,
  missing_slot_field, dynamic_slot_arg, Result, require, check, to_setters,
}
use vue_rs.Compiler.Codegen.Code
use vue_rs.Compiler.Codegen.Monad.{
  M, ◌>>=◌, ◌>>◌, pure, fail, lift, new_ident, record_slot, Codegen, Element, elements_of,
}

unfoldable pub is_component_v_model : Text → Bool
unfolding same_text starts_with
is_component_v_model name =
    is "v-model" name || starts_with (chars "v-model:") name || starts_with (chars "v-model.") name

-- The name and the pattern of the first `v-slot:name`.
unfoldable pub slot_directive : List Attr → Option (Text × Text)
unfolding strip_prefix
slot_directive [] = none
slot_directive (fixed name value ∷ attrs) =
    let r = slot_directive attrs in
    maybe r (λ n. some (n, value)) (strip_prefix (chars "v-slot:") name)
slot_directive (dyn name expr ∷ attrs) = slot_directive attrs
slot_directive (event name handler ∷ attrs) = slot_directive attrs

-- The dynamic attributes, with their expressions.
unfoldable pub dyn_pairs : List Attr → List (Text × Text)
dyn_pairs [] = []
dyn_pairs (dyn name expr ∷ attrs) = (name, expr) ∷ dyn_pairs attrs
dyn_pairs (fixed name value ∷ attrs) = dyn_pairs attrs
dyn_pairs (event name handler ∷ attrs) = dyn_pairs attrs

-- The property that `v-model`, `v-model:arg` binds, from the part behind `v-model`.
unfoldable pub model_prop : Text → Result Text
unfolding strip_prefix
model_prop arg_part = elim (strip_prefix (b':' ∷ []) arg_part) [
  | none ↦ Code.ok (chars "model_value")
  | some arg ↦ if is_empty arg then Code.err empty_model_arg else Code.ok arg
]

-- The elements are at most one; what is generated from it, or else from none.
unfoldable pub only_element : (Job → M Code) → M Code → GenError → List Element → M Code
only_element rec otherwise e [] = otherwise
only_element rec otherwise e (el ∷ []) = rec (whole el)
only_element rec otherwise e (el ∷ _ ∷ _) = fail e

unfoldable pub slot_fallback : (Job → M Code) → Nodes → M Code
unfolding only_element elements_of
slot_fallback rec nodes = only_element rec (pure create_anchor) several_fallback (elements_of nodes)

unfoldable pub single_root : (Job → M Code) → Nodes → M Code
unfolding only_element elements_of
single_root rec nodes =
    only_element rec (fail single_slot_root) single_slot_root (elements_of nodes)

-- A `with_<name>` call: its name, the pattern, and the content.
abbrev pub SetterCall : Type 0
SetterCall = Text × (Option Stream × Code)

-- The slot that a child provides, where it is a `<template v-slot:name>`.
abbrev pub provided_slot : Element → Option (Text × Text)
provided_slot el = if is "template" el.tag then slot_directive el.attrs else none

-- What the loop over the children of a component pushes to `default_content`.
unfoldable pub default_content : List Element → List Element
unfolding slot_directive same_text
default_content [] = []
default_content (el ∷ els) =
    let more = default_content els in if is_some (provided_slot el) then more else el ∷ more

module _ (syn : Syn) where
  unfoldable pub ident_from_name : Text → GenError → Result Text
  ident_from_name name e = elim (syn.parses_ident name) [ true ↦ Code.ok name | false ↦ Code.err e ]

  unfoldable pub component_model_fields : Text → Result (Text × Text)
  unfolding strip_prefix split_once model_prop ident_from_name
  component_model_fields name =
      let rest = maybe name (λ r. r) (strip_prefix (chars "v-model") name) in
      Code.◌>>=◌ (check (is_none (split_once b'.' rest)) (model_modifiers name)) (λ _.
        Code.◌>>=◌ (model_prop rest) (λ prop.
          Code.◌>>=◌ (ident_from_name prop (invalid_name prop (chars "v-model argument"))) (λ value.
            Code.◌>>=◌ (ident_from_name (chars "on_update_" ++ prop) (invalid_model_arg prop))
              (λ update. Code.ok (value, update)))))

  -- A field whose value is an expression.
  abbrev pub expr_field :
      Result Text → (Stream → FieldValue) → Text → Result (List (Text × FieldValue))
  expr_field field make src =
      Code.◌>>=◌ field (λ f. Code.◌>>=◌ (parse_expr syn src) (λ e. Code.ok ((f, make e) ∷ [])))

  abbrev pub prop_name : Text → Result Text
  prop_name name = ident_from_name name (invalid_name name (chars "prop"))

  -- The fields of one attribute on a component.
  unfoldable pub attr_fields : Attr → Result (List (Text × FieldValue))
  unfolding is_structural dynamic_arg ident_from_name component_model_fields parse_expr
      is_component_v_model same_text
  attr_fields (dyn name expr) =
      if is_structural (dyn name expr)
      then Code.ok []
      else if is_some (dynamic_arg name)
      then Code.err (dynamic_component_arg name)
      else expr_field (prop_name name) into expr
  attr_fields (event name handler) =
      if is_some (dynamic_arg name)
      then Code.err (dynamic_component_arg name)
      else expr_field (ident_from_name (chars "on_" ++ name) (invalid_event_name name)) callback
          handler
  attr_fields (fixed name value) =
      if is_structural (fixed name value)
      then Code.ok []
      else if is_component_v_model name
      then Code.◌>>=◌ (component_model_fields name) (λ fields.
        Code.◌>>=◌ (parse_expr syn value)
          (λ e. Code.ok ((fields.0, into e) ∷ (fields.1, set_callback e) ∷ [])))
      else if is "ref" name
      then Code.err ref_on_component
      else Code.◌>>=◌ (prop_name name) (λ f. Code.ok ((f, literal_text value) ∷ []))

  unfoldable pub all_attr_fields : List Attr → Result (List (Text × FieldValue))
  unfolding attr_fields
  all_attr_fields [] = Code.ok []
  all_attr_fields (a ∷ attrs) =
      Code.◌>>=◌ (attr_fields a)
        (λ fs. Code.◌>>=◌ (all_attr_fields attrs) (λ gs. Code.ok (fs ++ gs)))

  -- The pattern of a slot binding; an empty one binds `()`.
  unfoldable pub slot_pattern : Text → Result (Option Stream)
  slot_pattern binding =
      if is_empty binding
      then Code.ok none
      else Code.◌>>=◌ (require (invalid_slot_binding binding) (syn.lex binding))
          (λ p. Code.ok (some p))

  -- The setter of one named slot.
  unfoldable pub named_setter : (Job → M Code) → Element → Text × Text → M SetterCall
  unfolding single_root ident_from_name slot_pattern
  named_setter rec el (name, binding) = do
    content ← single_root rec el.children
    field ← lift (ident_from_name (chars "with_" ++ name) (invalid_slot_name name))
    pat ← lift (slot_pattern binding)
    pure (field, (pat, content))

  -- What the loop over the children of a component pushes to `setters`.
  unfoldable pub named_setters : (Job → M Code) → List Element → M (List SetterCall)
  unfolding slot_directive named_setter same_text
  named_setters rec [] = pure []
  named_setters rec (el ∷ els) = elim (provided_slot el) [
    | none ↦ named_setters rec els
    | some slot ↦ do s ← named_setter rec el slot; ss ← named_setters rec els; pure (s ∷ ss)
  ]

  -- The setter of the default slot, if there is content for it.
  unfoldable pub default_setter : (Job → M Code) → List Element → M (List SetterCall)
  unfolding only_element
  default_setter rec [] = pure []
  default_setter rec (el ∷ els) = do
    content ← only_element rec (pure create_anchor) several_default (el ∷ els)
    pure ((chars "with_default", (none, content)) ∷ [])

  unfoldable pub gen_component : (Job → M Code) → Element → M Code
  unfolding all_attr_fields named_setters default_setter default_content elements_of
  gen_component rec el = do
    new_ident syn el.tag
    fields ← lift (all_attr_fields el.attrs)
    named ← named_setters rec (elements_of el.children)
    default ← default_setter rec (default_content (elements_of el.children))
    if is_empty fields then pure tt else new_ident syn (el.tag ++ chars "Props")
    new_ident syn (el.tag ++ chars "Slots")
    pure (
        component el.tag (if is_empty fields then none else some fields)
          (to_setters (named ++ default)))

  -- The fields of the payload of a scoped slot.
  unfoldable pub payload_fields : List (Text × Text) → M (List (Text × Stream))
  unfolding dynamic_arg parse_expr
  payload_fields [] = pure []
  payload_fields ((name, expr) ∷ pairs) = elim (is_some (dynamic_arg name)) [
    | true ↦ fail (dynamic_slot_arg name)
    | false ↦ do
      new_ident syn name
      e ← lift (parse_expr syn expr)
      fields ← payload_fields pairs
      pure ((name, e) ∷ fields)
  ]

  unfoldable pub slot_payload : Codegen → Text → List (Text × Text) → M Payload
  unfolding find_name payload_fields
  slot_payload cfg name [] = record_slot name false >> pure unit_payload
  slot_payload cfg name (pair ∷ pairs) = do
    record_slot name true
    ty ← lift (require (missing_slot_field name) (find_name cfg.slot_payloads name))
    fields ← payload_fields (pair ∷ pairs)
    pure (payload ty fields)

  abbrev pub slot_name : List Attr → Text
  slot_name attrs = maybe (chars "default") (λ n. n) (find_static attrs (chars "name"))

  -- `<slot>`
  unfoldable pub gen_slot : Codegen → (Job → M Code) → Element → M Code
  unfolding find_static dyn_pairs slot_fallback slot_payload
  gen_slot cfg rec el = do
    fallback ← slot_fallback rec el.children
    new_ident syn (slot_name el.attrs)
    p ← slot_payload cfg (slot_name el.attrs) (dyn_pairs el.attrs)
    pure (slot_match (slot_name el.attrs) p fallback)
