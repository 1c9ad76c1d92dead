-- ===== src/Compiler/Codegen/Chain.antt =====
-- The builder calls of an element's attributes, `build_element` of
-- crates/vue-rs-compiler/src/codegen.rs.
use vue_rs.Base.{
  Bool, true, false, not, ◌&&◌, ◌||◌, Option, none, some, List, [], ◌∷◌, ◌++◌, if◌then◌else◌, maybe,
  and_then, is_some,
}
use vue_rs.Text.{Text, chars, same_text}
use vue_rs.Compiler.Template.Syntax.{Attr, dyn}
use vue_rs.Compiler.Codegen.Names.{BindingSyntax, plain, class_syntax, style_syntax}
use vue_rs.Compiler.Codegen.Tokens.{Syn}
use vue_rs.Compiler.Codegen.Code.{Fragment, styles, Call, attr, dyn_attr, Result, ok, ◌>>=◌}
use vue_rs.Compiler.Codegen.Styles.{parse_expr, gen_class, style_value}
use vue_rs.Compiler.Codegen.Attrs.{
  is, is_class_attr, is_style_attr, is_structural, find_static, find_dyn, has_text, RadioValue,
  static, dynamic, gen_attr,
}

-- The locals of `build_element` that its loop over the attributes reads. The base style is the
-- list that `v-show` folds in; it is an empty `String` where there is none.
pub record Plan : Type 0 where
  pub tag : Text
  pub ignore : Option Text
  pub base_style : Option (Option (List Fragment))
  pub merged_class : Option Call
  pub merged_style : Option Call
  pub input_type : Option Text
  pub radio_value : Option RadioValue

abbrev pub is_plain : BindingSyntax → Bool
is_plain plain = true
is_plain _ = false

-- The attribute is the one that the caller consumed.
abbrev pub is_ignored : Option Text → Attr → Bool
is_ignored (some name) (dyn n expr) = same_text n name
is_ignored _ _ = false

-- What an attribute that was merged contributes, the first time.
abbrev pub emit_once : Bool → Call → List Call
emit_once true c = []
emit_once false c = c ∷ []

abbrev pub Emitted : Type 0
Emitted = List Call × (Bool × Bool)

module _ (syn : Syn) where
  unfoldable pub base_style : List Attr → Result (Option (Option (List Fragment)))
  unfolding find_static find_dyn style_value
  base_style attrs = elim (is_some (find_static attrs (chars "v-show"))) [
    | true ↦ do
      v ← style_value syn (find_static attrs (chars "style")) (find_dyn attrs (chars "style"))
      ok (some v)
    | false ↦ ok none
  ]

  unfoldable pub merged_class : List Attr → Result (Option Call)
  unfolding find_static find_dyn gen_class class_syntax
  merged_class attrs = elim (find_dyn attrs (chars "class")) [
    | none ↦ ok none
    | some expr ↦
        let s = find_static attrs (chars "class") in
        if is_some s || not (is_plain (class_syntax expr))
        then gen_class syn s expr >>= (λ c. ok (some c))
        else ok none
  ]

  unfoldable pub merged_style : List Attr → Result (Option Call)
  unfolding find_static find_dyn style_value style_syntax
  merged_style attrs = elim (find_dyn attrs (chars "style")) [
    | none ↦ ok none
    | some expr ↦
        let s = find_static attrs (chars "style") in
        if is_some s || not (is_plain (style_syntax expr))
        then style_value syn s (some expr)
          >>= (λ v. ok (maybe none (λ fs. some (dyn_attr (chars "style") (styles fs))) v))
        else ok none
  ]

  -- The `value` of a radio input.
  unfoldable pub radio_value : Option Text → List Attr → Result (Option RadioValue)
  unfolding find_static find_dyn parse_expr same_text
  radio_value input_type attrs =
      if not (has_text "radio" input_type)
      then ok none
      else elim (find_static attrs (chars "value")) [
        | some s ↦ ok (some (static s))
        | none ↦ elim (find_dyn attrs (chars "value")) [
          | some expr ↦ parse_expr syn expr >>= (λ e. ok (some (dynamic e)))
          | none ↦ ok none
        ]
      ]

  unfoldable pub make_plan : Text → List Attr → Option Text → Result Plan
  unfolding base_style merged_class merged_style radio_value find_static same_text
  make_plan tag attrs ignore = do
    base ← base_style attrs
    class ← merged_class attrs
    style ← (if is_some base then ok none else merged_style attrs)
    let input_type = if is "input" tag then find_static attrs (chars "type") else none
    radio ← radio_value input_type attrs
    ok (record {
      tag = tag;
      ignore = ignore;
      base_style = base;
      merged_class = class;
      merged_style = style;
      input_type = input_type;
      radio_value = radio;
    })

  -- One round of the loop over the attributes, with `class_emitted` and `style_emitted`.
  unfoldable pub attr_step : Plan → Attr → Bool → Bool → Result Emitted
  unfolding is_structural is_style_attr is_class_attr gen_attr same_text
  attr_step p a class_emitted style_emitted =
      if is_structural a || is_ignored p.ignore a || (is_some p.base_style && is_style_attr a)
      then ok ([], (class_emitted, style_emitted))
      else elim (if is_style_attr a then p.merged_style else none) [
        | some c ↦ ok (emit_once style_emitted c, (class_emitted, true))
        | none ↦ elim (if is_class_attr a then p.merged_class else none) [
          | some c ↦ ok (emit_once class_emitted c, (true, style_emitted))
          | none ↦
              gen_attr syn a (and_then p.base_style (λ b. b)) p.tag p.input_type p.radio_value
              >>= (λ cs. ok (cs, (class_emitted, style_emitted)))
        ]
      ]

  unfoldable pub attr_calls : Plan → List Attr → Bool → Bool → Result (List Call)
  unfolding attr_step
  attr_calls p [] class_emitted style_emitted = ok []
  attr_calls p (a ∷ attrs) class_emitted style_emitted = do
    step ← attr_step p a class_emitted style_emitted
    calls ← attr_calls p attrs step.1.0 step.1.1
    ok (step.0 ++ calls)

-- The marker of a scoped style.
unfoldable pub scope_calls : Option Text → List Call
scope_calls none = []
scope_calls (some scope) = attr (chars "data-v-" ++ scope) [] ∷ []
