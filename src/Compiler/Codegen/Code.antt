-- ===== src/Compiler/Codegen/Code.antt =====
-- The quoted code as data, and the errors, of crates/vue-rs-compiler/src/codegen.rs. A constructor
-- stands for one `quote!` template; its arguments are what the template interpolates.
use vue_rs.Base.{ℕ, Bool, true, false, Option, List, [], ◌∷◌, maybe}
use vue_rs.Text.{Text}
use vue_rs.Compiler.Codegen.Tokens.{Stream}

-- The entries of a `ClassList` or `StyleList` chain.
pub data Fragment : Type 0 where
  push_text : Text → Fragment
  push : Stream → Fragment
  push_if push_prop : Text → Stream → Fragment

-- The bodies of the closures that a builder call reads a value from.
pub data Value : Type 0 where
  -- `(#expr).to_string()`, `(#model).get()` and `((#model).get()).to_string()`
  shown model shown_model : Stream → Value
  -- `(#model).get() == #s` and `(#model).get() == (#expr)`
  equals_text : Stream → Text → Value
  equals : Stream → Stream → Value
  -- the block of `v-show`, with its base style
  display : Option (List Fragment) → Stream → Value
  classes styles : List Fragment → Value

-- The bodies of the closures that write a model back.
pub data Update : Type 0 where
  -- `(#model).set(__value == "true")`
  set_checked : Stream → Update
  set_choice_text : Stream → Text → Update
  set_choice : Stream → Stream → Update
  -- as text, or parsed as a number; the flag is `.trim`
  set_text set_parsed : Stream → Bool → Update

-- The fields of the `EventOptions` literal.
pub data OptionField : Type 0 where
  prevent_default stop_propagation once capture passive self_only : OptionField
  ctrl alt shift meta exact : OptionField
  keys : List Text → OptionField
  buttons : List ℕ → OptionField

-- The builder calls without a nested view.
pub data Call : Type 0 where
  attr : Text → Text → Call
  dyn_attr dyn_prop dyn_bool_prop : Text → Value → Call
  on : Text → Stream → Call
  on_opts : Text → List OptionField → Stream → Call
  on_value : Text → Update → Call
  on_named dyn_attr_named : Stream → Stream → Call
  dyn_attrs dyn_inner_html dyn_text : Stream → Call
  text node_ref : Text → Call

-- The closure of a `dyn_switch`: the conditions with the indices they return, and the tail.
pub record Selector : Type 0 where
  pub arms : List (Stream × ℕ)
  pub tail : Option ℕ

-- The tag in `El::new(..)`: a literal, or `__tag`.
pub data Open : Type 0 where
  static_tag : Text → Open
  current_tag : Open

-- The value of a field in the props builder.
pub data FieldValue : Type 0 where
  -- `Into::into(#expr)`, `Callback::new(#handler)`, `Callback::new(move |__v| (#expr).set(__v))`
  into callback set_callback : Stream → FieldValue
  literal_text : Text → FieldValue

-- What a slot is rendered with: `()`, or the payload struct of that type.
pub data Payload : Type 0 where
  unit_payload : Payload
  payload : Stream → List (Text × Stream) → Payload

mutual
  pub data Code : Type 0 where
    -- `El::new(..)`, the calls, `.finish()`
    el : Open → Parts → Code
    component : Text → Option (List (Text × FieldValue)) → Setters → Code
    slot_match : Text → Payload → Code → Code
    create_anchor : Code
    create_text : Text → Code
    dyn_text_node : Stream → Code
    create_fragment : Codes → Code

  pub data Codes : Type 0 where
    no_codes : Codes
    codes : Code → Codes → Codes

  -- A setter without a pattern binds `()`.
  pub data Setters : Type 0 where
    no_setters : Setters
    setter : Text → Option Stream → Code → Setters → Setters

  pub data Part : Type 0 where
    call : Call → Part
    child : Code → Part
    dyn_switch : Selector → Codes → Part
    dyn_for : Stream → Stream → Stream → Code → Part
    dyn_for_indexed : Stream → Stream → Stream → Stream → Code → Part
    dyn_element : Stream → Code → Part

  pub data Parts : Type 0 where
    finish : Parts
    part : Part → Parts → Parts

pub data GenError : Type 0 where
  empty_template else_if_alone else_alone component_is_placement ref_on_component : GenError
  several_default several_fallback single_slot_root for_without_key empty_model_arg : GenError
  radio_without_value : GenError
  unsupported_at_root missing_slot_field dynamic_slot_arg dynamic_component_arg : Text → GenError
  invalid_event_name invalid_slot_name invalid_slot_binding invalid_model_arg : Text → GenError
  for_syntax for_tuple invalid_for_item invalid_for_index invalid_for_binding : Text → GenError
  model_modifiers checkbox_modifier radio_modifier unknown_model_modifier : Text → GenError
  invalid_ref attr_arg_modifiers event_arg_modifiers prop_and_attr invalid_expr : Text → GenError
  invalid_array invalid_object entry_without_colon entry_without_value : Text → GenError
  -- the name and its role, or the modifier and the whole name
  invalid_name unknown_bind_modifier unknown_event_modifier : Text → Text → GenError

pub data Result (A : Type 0) : Type 0 where
  ok : A → Result A
  err : GenError → Result A

infixl 5 ◌>>=◌ ◌>>◌
abbrev pub ◌>>=◌ : {A B : Type 0} → Result A → (A → Result B) → Result B
ok a >>= f = f a
err e >>= f = err e

abbrev pub ◌>>◌ : {A B : Type 0} → Result A → Result B → Result B
m >> k = m >>= λ _. k

-- `ok_or(..)?`
abbrev pub require : {A : Type 0} → GenError → Option A → Result A
require e o = maybe (err e) ok o

abbrev pub check : Bool → GenError → Result (Unit {0})
check b e = elim b [ true ↦ ok tt | false ↦ err e ]

-- `.map(f).collect::<Result<Vec<_>, _>>()`
unfoldable pub collect : {A B : Type 0} → (A → Result B) → List A → Result (List B)
collect f [] = ok []
collect f (x ∷ xs) = f x >>= (λ y. collect f xs >>= (λ ys. ok (y ∷ ys)))

abbrev pub to_codes : List Code → Codes
to_codes [] = no_codes
to_codes (c ∷ cs) = codes c (to_codes cs)

abbrev pub to_parts : List Part → Parts
to_parts [] = finish
to_parts (p ∷ ps) = part p (to_parts ps)

abbrev pub to_setters : List (Text × (Option Stream × Code)) → Setters
to_setters [] = no_setters
to_setters ((name, (pat, c)) ∷ ss) = setter name pat c (to_setters ss)
