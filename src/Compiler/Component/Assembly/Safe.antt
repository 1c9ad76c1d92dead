-- ===== src/Compiler/Component/Assembly/Safe.antt =====
-- Components that compile, crates/vue-rs-compiler/src/component.rs: what they went through.
use vue_rs.Base.{
  true, ◌≡◌, ◌≢◌, refl, ap, ◌∙◌, Option, none, some, List, [], ◌∷◌, maybe, Bool-cases, Option-cases,
  inl, inr,
}
use vue_rs.Text.{Text, chars, same_text}
use vue_rs.Compiler.Props.{Field, named, check_prop_fields}
use vue_rs.Compiler.Props.ReadOnly.{Occurs, is_plain, Member, check_prop_fields-accepts}
use vue_rs.Compiler.Sfc.{Sfc, split_sfc}
use vue_rs.Compiler.Sfc
use vue_rs.Compiler.Sfc.Blocks.{split_sfc-ne-starved}
use vue_rs.Compiler.Script.{rewrite_stream}
use vue_rs.Compiler.Codegen.Tokens.{Syn}
use vue_rs.Compiler.Component.{Attribute, StructField, ItemStruct}
use vue_rs.Compiler.Component.Builder.{PropDefault}
use vue_rs.Compiler.Component.Template.{Compiled, ok, starved, template_and_slots}
use vue_rs.Compiler.Component.Template.Whole.{
  bind-ends, bind-ok, ok-inj, template_and_slots-ne-starved,
}
use vue_rs.Compiler.Component.Assembly.{
  Rust, parse_default, parse_prop_default, classify, made_ident, named_fields, gen_props_builder,
  Component, split, each, or_invalid, read_script, prop_fields, check_props, style_const,
  compile_component,
}

split-ends : (r : Sfc.Result Sfc) → r ≢ Sfc.starved → split r ≢ starved
split-ends (Sfc.ok sfc) h z = absurd cc
split-ends (Sfc.err e) h z = absurd cc
split-ends Sfc.starved h z = h refl

ok-ends : {A : Type 0} {a : A} → ok a ≢ starved
ok-ends z = absurd cc

each-ends :
    {A B : Type 0} (f : A → Compiled B) (o : Option A)
    → ((a : A) → f a ≢ starved)
    → each f o ≢ starved
each-ends f none h = λ z. absurd cc
each-ends f (some a) h = bind-ends (f a) _ (h a) (λ b z. absurd cc)

or_invalid-ends : {A : Type 0} (o : Option A) → or_invalid o ≢ starved
or_invalid-ends none z = absurd cc
or_invalid-ends (some a) z = absurd cc

made_ident-ends : (syn : Syn) (t : Text) → made_ident syn t ≢ starved
made_ident-ends syn t = elim (Bool-cases (syn.makes_ident t)) [
  | inl e ↦ rw e (λ z. absurd cc)
  | inr e ↦ rw e (λ z. absurd cc)
]

parse_prop_default-ends :
    (syn : Syn) (name : Text) (attrs : List Attribute) (found : Option PropDefault)
    → parse_prop_default syn name attrs found ≢ starved
unfolding parse_prop_default
parse_prop_default-ends syn name [] found = λ z. absurd cc
parse_prop_default-ends syn name (attr ∷ attrs) found =
    elim (Bool-cases (same_text attr.path (chars "prop"))) [
      | inr e ↦ rw (parse_prop_default, e) (parse_prop_default-ends syn name attrs found)
      | inl e ↦ elim (Option-cases (maybe none (parse_default syn) attr.args)) [
        | inl k ↦ rw (parse_prop_default, e, k) (λ z. absurd cc)
        | inr (p, k) ↦
            rw (parse_prop_default, e, k) (parse_prop_default-ends syn name attrs (some p))
      ]
    ]

classify-ends : (syn : Syn) (fs : List StructField) → classify syn fs ≢ starved
unfolding classify
classify-ends syn [] = λ z. absurd cc
classify-ends syn (f ∷ fs) =
    bind-ends (parse_prop_default syn f.ident f.attrs none) _
      (parse_prop_default-ends syn f.ident f.attrs none)
      (λ d. bind-ends (classify syn fs) _ (classify-ends syn fs) (λ infos z. absurd cc))

named_fields-ends : (item : ItemStruct) → named_fields item ≢ starved
named_fields-ends item = elim (Bool-cases item.is_generic) [
  | inl e ↦ rw e (λ z. absurd cc)
  | inr e ↦ elim (Option-cases item.fields) [
    | inl k ↦ rw (e, k) (λ z. absurd cc)
    | inr (fs, k) ↦ rw (e, k) (λ z. absurd cc)
  ]
]

gen_props_builder-ends : (syn : Syn) (item : ItemStruct) → gen_props_builder syn item ≢ starved
unfolding gen_props_builder
gen_props_builder-ends syn item =
    bind-ends (named_fields item) _ (named_fields-ends item) (λ fields.
      bind-ends (made_ident syn _) _ (made_ident-ends syn _)
        (λ ty. bind-ends (classify syn fields) _ (classify-ends syn fields) (λ infos z. absurd cc)))

read_script-ends :
    (rust : Rust) (name : Text) (script : Option Text) → read_script rust name script ≢ starved
unfolding read_script
read_script-ends rust name none = λ z. absurd cc
read_script-ends rust name (some []) = λ z. absurd cc
read_script-ends rust name (some (c ∷ cs)) =
    bind-ends (or_invalid (rust.lex_script (c ∷ cs))) _ (or_invalid-ends _) (λ tokens.
      bind-ends (or_invalid (rust.parse_block (rewrite_stream tokens none none))) _
        (or_invalid-ends _) (λ stmts z. absurd cc))

check_props-ends : (item : ItemStruct) → check_props item ≢ starved
unfolding check_props
check_props-ends item = elim (Option-cases (check_prop_fields (prop_fields item))) [
  | inl e ↦ rw (check_props, e) (λ z. absurd cc)
  | inr (r, e) ↦ rw (check_props, e) (λ z. absurd cc)
]

style_const-ends : (syn : Syn) (name scope css : Text) → style_const syn name scope css ≢ starved
unfolding style_const
style_const-ends syn name scope css =
    bind-ends (made_ident syn _) _ (made_ident-ends syn _) (λ n z. absurd cc)

-- A whole component, compiled from its source, comes to its end: with a component, with an error, or with
-- a panic, whatever the parsers of Rust code accept.
pub compile_component-ne-starved :
    (rust : Rust) (name source scope_seed : Text) (rerun_path : Option Text)
    → compile_component rust name source scope_seed rerun_path ≢ starved
unfolding compile_component
compile_component-ne-starved rust name source scope_seed rerun_path =
    bind-ends (split (split_sfc source)) _ (split-ends _ (split_sfc-ne-starved source)) λ sfc.
      bind-ends (read_script rust name sfc.script) _ (read_script-ends rust name sfc.script)
        λ script.
          bind-ends (each check_props script.props_struct) _
            (each-ends check_props script.props_struct check_props-ends)
            λ props_struct.
              bind-ends (made_ident rust.syn _) _ (made_ident-ends rust.syn _) λ slots_ty.
                bind-ends (template_and_slots rust.syn _ _ _) _
                  (template_and_slots-ne-starved rust.syn _ _ _)
                  λ compiled.
                    bind-ends (each (gen_props_builder rust.syn) props_struct) _
                      (each-ends (gen_props_builder rust.syn) props_struct
                        (gen_props_builder-ends rust.syn))
                      λ props.
                        bind-ends (each (style_const rust.syn name _) sfc.style) _
                          (each-ends (style_const rust.syn name _) sfc.style
                            (style_const-ends rust.syn name _))
                          λ style. ok-ends

some-inj : {A : Type 0} {a b : A} → some a ≡ some b → a ≡ b
some-inj h = cc

check_props-ok :
    (item : ItemStruct) {kept : ItemStruct}
    → check_props item ≡ ok kept
    → check_prop_fields (prop_fields kept) ≡ none
unfolding check_props
check_props-ok item h = elim (Option-cases (check_prop_fields (prop_fields item))) [
  | inl e ↦ let z = rw (check_props, e) at h in rw (← ok-inj z) e
  | inr (r, e) ↦ let z = rw (check_props, e) at h in absurd cc
]

checked :
    (o : Option ItemStruct) {kept : Option ItemStruct}
    → each check_props o ≡ ok kept
    → (item : ItemStruct) → kept ≡ some item
    → check_prop_fields (prop_fields item) ≡ none
checked none h item k = absurd cc
checked (some a) h item k =
    let (b, m, e) = bind-ok (check_props a) _ h in
    rw (← some-inj (ok-inj e ∙ k)) (check_props-ok a m)

-- Of a component that compiles, with a struct of props that has named fields, no field of the props has a
-- plain type in which a writable handle occurs anywhere: one without function types, trait objects, `impl`
-- types, raw pointers, associated types, or types in front of the last segment of a path.
pub compile_component-ReadOnly :
    (rust : Rust) (name source scope_seed : Text) (rerun_path : Option Text) {c : Component}
    {item : ItemStruct} {fields : List Field}
    → compile_component rust name source scope_seed rerun_path ≡ ok c
    → c.props_struct ≡ some item
    → prop_fields item ≡ named fields
    → (f : Field) → Member f fields
    → is_plain f.ty ≡ true
    → ¬ Occurs f.ty
unfolding compile_component
compile_component-ReadOnly rust name source scope_seed rerun_path {item} {fields} h k l =
    let (sfc, a1, b1) = bind-ok (split (split_sfc source)) _ h in
    let (script, a2, b2) = bind-ok (read_script rust name sfc.script) _ b1 in
    let (props_struct, a3, b3) = bind-ok (each check_props script.props_struct) _ b2 in
    let (slots_ty, a4, b4) = bind-ok (made_ident rust.syn _) _ b3 in
    let (compiled, a5, b5) = bind-ok (template_and_slots rust.syn _ _ _) _ b4 in
    let (props, a6, b6) = bind-ok (each (gen_props_builder rust.syn) props_struct) _ b5 in
    let (style, a7, b7) = bind-ok (each (style_const rust.syn name _) sfc.style) _ b6 in
    let e = checked script.props_struct a3 item (ap (λ c. c.props_struct) (ok-inj b7) ∙ k) in
    check_prop_fields-accepts fields (rw l at e)
