-- ===== src/Compiler/Component/Assembly.antt =====
-- A whole component compiled, `compile_component` of crates/vue-rs-compiler/src/component.rs: the
-- splitter, the script, the check of the props, the template with its slots, the builder of the props
-- and the style in their order. The generated item is data: its parts, not the tokens around them.
pub mod Safe
use vue_rs.Base.{
  ℕ, zero, suc, Bool, true, false, Option, none, some, List, [], ◌∷◌, ◌++◌, map, maybe,
  if◌then◌else◌, ◌==◌,
}
use vue_rs.Text.{Text, chars, same_text, concat}
use vue_rs.Compiler.Props.{Fields, Field, named, unnamed, Handle, check_prop_fields}
use vue_rs.Compiler.Sfc.{Sfc, split_sfc}
use vue_rs.Compiler.Sfc
use vue_rs.Compiler.Script.{rewrite_stream}
use vue_rs.Compiler.Script
use vue_rs.Compiler.Style.{scope_css}
use vue_rs.Compiler.Codegen.Tokens.{Stream, Syn, ident, punct, nil, cons}
use vue_rs.Compiler.Codegen.Code.{Code}
use vue_rs.Compiler.Component.{
  Attribute, StructField, ItemStruct, Stmt, Script, empty_script, sort_stmts, slot_fields,
  SlotsStruct, gen_slots_struct,
}
use vue_rs.Compiler.Component.Builder.{
  PropDefault, auto, expr, FieldInfo, Setter, required, gen_setters,
}
use vue_rs.Compiler.Component.Template.{
  Compiled, ok, err, panic, starved, ◌>>=◌, sfc_error, invalid_script, writable_prop, invalid_prop,
  generic_props, unnamed_props, template_and_slots,
}

-- What the compiler calls of proc_macro2, syn and the standard library.
pub record Rust : Type 0 where
  pub syn : Syn
  -- `str::parse::<TokenStream>` on a script
  pub lex_script : Text → Option Script.Stream
  -- the statements of `syn::parse2::<Block>` on the tokens in braces
  pub parse_block : Script.Stream → Option (List Stmt)
  -- the hash of a seed, printed
  pub hash : Text → Text

-- What `parse_args_with` reads: `default`, or `default = expr`.
unfoldable pub parse_default : Syn → Stream → Option PropDefault
unfolding same_text
parse_default syn (cons (ident kw) (cons (punct c spacing) rest)) =
    if same_text kw (chars "default")
    then (if c == b'=' then maybe none (λ e. some (expr e)) (syn.parse2 rest) else none)
    else none
parse_default syn (cons (ident kw) nil) = if same_text kw (chars "default") then some auto else none
parse_default syn _ = none

-- The loop over the attributes of the field `name`, with `found`.
unfoldable pub parse_prop_default :
    Syn → Text → List Attribute → Option PropDefault → Compiled (Option PropDefault)
unfolding parse_default same_text
parse_prop_default syn name [] found = ok found
parse_prop_default syn name (attr ∷ attrs) found =
    let rest = parse_prop_default syn name attrs in
    if same_text attr.path (chars "prop")
    then maybe (err (invalid_prop name)) (λ parsed. rest (some parsed))
        (maybe none (parse_default syn) attr.args)
    else rest found

unfoldable pub classify : Syn → List StructField → Compiled (List FieldInfo)
unfolding parse_prop_default
classify syn [] = ok []
classify syn (f ∷ fs) = do
  default ← parse_prop_default syn f.ident f.attrs none
  infos ← classify syn fs
  ok (record { ident = f.ident; ty = f.ty_tokens; default = default } ∷ infos)

-- `Ident::new`
abbrev pub made_ident : Syn → Text → Compiled Text
made_ident syn t = if syn.makes_ident t then ok t else panic

-- The props struct with its builder: their names, the fields, and the setters.
pub record PropsBuilder : Type 0 where
  pub ty : Text
  pub builder_ty : Text
  pub fields : List FieldInfo
  pub setters : List Setter

abbrev pub named_fields : ItemStruct → Compiled (List StructField)
named_fields item =
    if item.is_generic
    then err (generic_props item.ident)
    else maybe (err (unnamed_props item.ident)) ok item.fields

unfoldable pub gen_props_builder : Syn → ItemStruct → Compiled PropsBuilder
unfolding classify required gen_setters
gen_props_builder syn item = do
  fields ← named_fields item
  builder_ty ← made_ident syn (item.ident ++ chars "Builder")
  infos ← classify syn fields
  ok (record {
    ty = item.ident;
    builder_ty = builder_ty;
    fields = infos;
    setters = gen_setters (required infos) 0 0 infos;
  })

-- The generated component: the `use` items and structs, the props, the slots, the constant of the style
-- with its text, the path that triggers a rebuild, and the body with the template behind it.
pub record Component : Type 0 where
  pub name : Text
  pub uses : List Stream
  pub structs : List ItemStruct
  pub props_struct : Option ItemStruct
  pub props : Option PropsBuilder
  pub slots : SlotsStruct
  pub style : Option (Text × Text)
  pub rerun : Option Text
  pub body : List Stream
  pub template : Code

abbrev pub split : Sfc.Result Sfc → Compiled Sfc
split (Sfc.ok sfc) = ok sfc
split (Sfc.err e) = err (sfc_error e)
split Sfc.starved = starved

-- An option is traversed.
abbrev pub each : {A B : Type 0} → (A → Compiled B) → Option A → Compiled (Option B)
each f none = ok none
each f (some a) = f a >>= λ b. ok (some b)

abbrev pub or_invalid : {A : Type 0} → Option A → Compiled A
or_invalid o = maybe (err invalid_script) ok o

-- The statements of a script that is not empty.
unfoldable pub read_script : Rust → Text → Option Text → Compiled Script
unfolding rewrite_stream sort_stmts
read_script rust name none = ok empty_script
read_script rust name (some []) = ok empty_script
read_script rust name (some (c ∷ cs)) = do
  tokens ← or_invalid (rust.lex_script (c ∷ cs))
  stmts ← or_invalid (rust.parse_block (rewrite_stream tokens none none))
  ok (sort_stmts name stmts empty_script)

-- The fields of a struct as the check of the props reads them.
abbrev pub prop_fields : ItemStruct → Fields
prop_fields item =
    maybe unnamed (λ fields. named (map (λ f. record { name = f.ident; ty = f.ty }) fields))
      item.fields

unfoldable pub check_props : ItemStruct → Compiled ItemStruct
unfolding check_prop_fields
check_props item =
    maybe (ok item) (λ refused. err (writable_prop refused.0 refused.1))
      (check_prop_fields (prop_fields item))

abbrev pub uppercase : Syn → Text → Text
uppercase syn t = concat (map syn.to_uppercase t)

unfoldable pub style_const : Syn → Text → Text → Text → Compiled (Text × Text)
unfolding scope_css
style_const syn name scope css = do
  const_name ← made_ident syn (uppercase syn (name ++ chars "_STYLE"))
  ok (const_name, scope_css css scope)

unfoldable pub compile_component : Rust → Text → Text → Text → Option Text → Compiled Component
compile_component rust name source scope_seed rerun_path = do
  sfc ← split (split_sfc source)
  script ← read_script rust name sfc.script
  props_struct ← each check_props script.props_struct
  slots_ty ← made_ident rust.syn (name ++ chars "Slots")
  compiled ←
      template_and_slots rust.syn sfc.template
        (maybe none (λ s. some (rust.hash scope_seed)) sfc.style)
        (maybe [] slot_fields script.slots_struct)
  props ← each (gen_props_builder rust.syn) props_struct
  style ← each (style_const rust.syn name (rust.hash scope_seed)) sfc.style
  ok (record {
    name = name;
    uses = script.uses;
    structs = script.structs;
    props_struct = props_struct;
    props = props;
    slots = gen_slots_struct slots_ty compiled.1;
    style = style;
    rerun = rerun_path;
    body = script.body;
    template = compiled.0;
  })
