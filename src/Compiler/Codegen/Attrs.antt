-- ===== src/Compiler/Codegen/Attrs.antt =====
-- The builder calls of one attribute, `gen_attr` of crates/vue-rs-compiler/src/codegen.rs.
use vue_rs.Base.{
  Bool, true, false, not, ◌&&◌, ◌||◌, Option, none, some, List, [], ◌∷◌, if◌then◌else◌, maybe,
  is_empty,
}
use Prim.Native.String.{String}
use vue_rs.Text.{Text, chars, same_text, starts_with}
use vue_rs.Compiler.Template.Syntax.{Attr, fixed, dyn, event}
use vue_rs.Compiler.Codegen.Names.{split_modifiers, dynamic_arg, camelize}
use vue_rs.Compiler.Codegen.Tokens.{Stream, Syn}
use vue_rs.Compiler.Codegen.Options.{build_event_options}
use vue_rs.Compiler.Codegen.Styles.{parse_expr}
use vue_rs.Compiler.Codegen.Code.{
  Fragment, shown, model, shown_model, equals_text, equals, display, set_checked, set_choice_text,
  set_choice, set_text, set_parsed, Call, attr, dyn_attr, dyn_prop, dyn_bool_prop, on, on_opts,
  on_value, on_named, dyn_attr_named, dyn_attrs, dyn_inner_html, dyn_text, node_ref,
  checkbox_modifier, radio_modifier, radio_without_value, unknown_model_modifier, invalid_ref,
  attr_arg_modifiers, event_arg_modifiers, unknown_bind_modifier, prop_and_attr, GenError, Result,
  ok, err, ◌>>=◌, ◌>>◌, require, check,
}

abbrev pub is : String → Text → Bool
is s name = same_text name (chars s)

unfoldable pub is_class_attr : Attr → Bool
unfolding same_text
is_class_attr (fixed name value) = is "class" name
is_class_attr (dyn name expr) = is "class" name
is_class_attr (event name handler) = false

unfoldable pub is_style_attr : Attr → Bool
unfolding same_text
is_style_attr (fixed name value) = is "style" name
is_style_attr (dyn name expr) = is "style" name
is_style_attr (event name handler) = false

unfoldable pub is_structural : Attr → Bool
unfolding same_text
is_structural (fixed name value) =
    is "v-if" name || is "v-else-if" name || is "v-else" name || is "v-for" name
is_structural (dyn name expr) = is "key" name
is_structural (event name handler) = false

unfoldable pub find_static : List Attr → Text → Option Text
unfolding same_text
find_static [] name = none
find_static (fixed n value ∷ attrs) name =
    let r = find_static attrs name in if same_text n name then some value else r
find_static (dyn n expr ∷ attrs) name = find_static attrs name
find_static (event n handler ∷ attrs) name = find_static attrs name

unfoldable pub find_dyn : List Attr → Text → Option Text
unfolding same_text
find_dyn [] name = none
find_dyn (dyn n expr ∷ attrs) name =
    let r = find_dyn attrs name in if same_text n name then some expr else r
find_dyn (fixed n value ∷ attrs) name = find_dyn attrs name
find_dyn (event n handler ∷ attrs) name = find_dyn attrs name

pub data RadioValue : Type 0 where
  static : Text → RadioValue
  dynamic : Stream → RadioValue

pub record ModelFlags : Type 0 where
  pub lazy : Bool
  pub trim : Bool
  pub number : Bool

-- One round of the loop over the modifiers of a text `v-model`.
unfoldable pub model_flag : Text → ModelFlags → Result ModelFlags
unfolding same_text
model_flag m f =
    if is "lazy" m
    then ok (record { lazy = true; trim = f.trim; number = f.number })
    else if is "trim" m
    then ok (record { lazy = f.lazy; trim = true; number = f.number })
    else if is "number" m
    then ok (record { lazy = f.lazy; trim = f.trim; number = true })
    else err (unknown_model_modifier m)

-- `for m in modifiers { .. }` over the flags.
unfoldable pub fold_flags : {F : Type 0} → (Text → F → Result F) → List Text → F → Result F
fold_flags flag [] f = ok f
fold_flags flag (m ∷ ms) f = flag m f >>= (λ g. fold_flags flag ms g)

abbrev pub no_modifier : (Text → GenError) → List Text → Result (Unit {0})
no_modifier e [] = ok tt
no_modifier e (m ∷ ms) = err (e m)

unfoldable pub checkbox_model : Stream → List Text → Result (List Call)
checkbox_model e modifiers = do
  no_modifier checkbox_modifier modifiers
  ok (dyn_bool_prop (chars "checked") (model e) ∷ on_value (chars "change") (set_checked e) ∷ [])

abbrev pub radio_calls : Stream → RadioValue → List Call
radio_calls e (static s) =
    dyn_bool_prop (chars "checked") (equals_text e s)
    ∷ on_value (chars "change") (set_choice_text e s)
    ∷ []
radio_calls e (dynamic v) =
    dyn_bool_prop (chars "checked") (equals e v) ∷ on_value (chars "change") (set_choice e v) ∷ []

unfoldable pub radio_model : Stream → Option RadioValue → List Text → Result (List Call)
radio_model e radio_value modifiers = do
  no_modifier radio_modifier modifiers
  value ← require radio_without_value radio_value
  ok (radio_calls e value)

unfoldable pub text_model : Text → Stream → List Text → Result (List Call)
unfolding model_flag fold_flags same_text
text_model tag e modifiers = do
  f ← fold_flags model_flag modifiers (record { lazy = false; trim = false; number = false })
  let is_textarea = is "textarea" tag
  let is_select = is "select" tag
  let name = if f.lazy || is_select then chars "change" else chars "input"
  let bind = if is_textarea || is_select then dyn_prop else dyn_attr
  let set_arg = if f.number then set_parsed e f.trim else set_text e f.trim
  ok (bind (chars "value") (shown_model e) ∷ on_value name set_arg ∷ [])

abbrev pub has_text : String → Option Text → Bool
has_text s o = maybe false (λ t. is s t) o

pub record BindFlags : Type 0 where
  pub prop : Bool
  pub force_attr : Bool
  pub camel : Bool

-- One round of the loop over the modifiers of a bound attribute.
unfoldable pub bind_flag : Text → Text → BindFlags → Result BindFlags
unfolding same_text
bind_flag name m f =
    if is "prop" m
    then ok (record { prop = true; force_attr = f.force_attr; camel = f.camel })
    else if is "attr" m
    then ok (record { prop = f.prop; force_attr = true; camel = f.camel })
    else if is "camel" m
    then ok (record { prop = f.prop; force_attr = f.force_attr; camel = true })
    else err (unknown_bind_modifier m name)

module _ (syn : Syn) where
  unfoldable pub gen_model :
      Text → Text → Text → Option Text → Option RadioValue → Result (List Call)
  unfolding parse_expr split_modifiers checkbox_model radio_model text_model same_text
  gen_model name value tag input_type radio_value = do
    e ← parse_expr syn value
    if has_text "checkbox" input_type
        then checkbox_model e (split_modifiers name).1
        else if has_text "radio" input_type
        then radio_model e radio_value (split_modifiers name).1
        else text_model tag e (split_modifiers name).1

  -- A call that takes the parsed expression.
  abbrev pub call_of : (Stream → Call) → Text → Result (List Call)
  call_of make src = parse_expr syn src >>= (λ e. ok (make e ∷ []))

  unfoldable pub gen_static :
      Text
      → Text
      → Option (List Fragment)
      → Text
      → Option Text
      → Option RadioValue
      → Result (List Call)
  unfolding gen_model same_text starts_with parse_expr
  gen_static name value base tag input_type radio_value =
      if is "v-model" name || starts_with (chars "v-model.") name
      then gen_model name value tag input_type radio_value
      else if is "v-show" name
      then call_of (λ e. dyn_attr (chars "style") (display base e)) value
      else if is "v-bind" name
      then call_of dyn_attrs value
      else if is "v-html" name
      then call_of dyn_inner_html value
      else if is "v-text" name
      then call_of dyn_text value
      else if is "ref" name
      then check (syn.parses_ident value) (invalid_ref value) >>= (λ _. ok (node_ref value ∷ []))
      else ok (attr name value ∷ [])

  -- The two expressions of a dynamic argument.
  abbrev pub named_call :
      (Stream → Stream → Call) → GenError → Text × Text → Text → Result (List Call)
  named_call make e (arg, modifiers) src = do
    check (is_empty modifiers) e
    a ← parse_expr syn arg
    v ← parse_expr syn src
    ok (make a v ∷ [])

  unfoldable pub gen_bound : Text → Text → Result (List Call)
  unfolding split_modifiers bind_flag fold_flags camelize parse_expr
  gen_bound name expr = do
    let base = (split_modifiers name).0
    f ←
        fold_flags (bind_flag name) (split_modifiers name).1
          (record { prop = false; force_attr = false; camel = false })
    check (not (f.prop && f.force_attr)) (prop_and_attr name)
    let bound = if f.camel then camelize syn.to_uppercase base else base
    call_of (λ e. if f.prop then dyn_prop bound (shown e) else dyn_attr bound (shown e)) expr

  unfoldable pub gen_event : Text → Text → Result (List Call)
  unfolding split_modifiers build_event_options parse_expr
  gen_event name handler = do
    h ← parse_expr syn handler
    let name_event = (split_modifiers name).0
    let modifiers = (split_modifiers name).1
    if is_empty modifiers then ok (on name_event h ∷ []) else do
      opts ← build_event_options name_event modifiers name
      ok (on_opts name_event opts h ∷ [])

  unfoldable pub gen_attr :
      Attr → Option (List Fragment) → Text → Option Text → Option RadioValue → Result (List Call)
  unfolding gen_static gen_bound gen_event dynamic_arg parse_expr
  gen_attr (fixed name value) base tag input_type radio_value =
      gen_static name value base tag input_type radio_value
  gen_attr (dyn name expr) base tag input_type radio_value = elim (dynamic_arg name) [
    | some arg ↦ named_call dyn_attr_named (attr_arg_modifiers name) arg expr
    | none ↦ gen_bound name expr
  ]
  gen_attr (event name handler) base tag input_type radio_value = elim (dynamic_arg name) [
    | some arg ↦ named_call on_named (event_arg_modifiers name) arg handler
    | none ↦ gen_event name handler
  ]
