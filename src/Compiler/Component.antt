-- ===== src/Compiler/Component.antt =====
-- The parts of a component around its template, crates/vue-rs-compiler/src/component.rs: the partition
-- of the script, the payloads of its slots, and the generated struct of slots. An item of syn is data
-- with what is read of it.
pub mod Assembly
pub mod Builder
pub mod Template
use vue_rs.Base.{
  ℕ, Bool, true, false, Option, none, some, List, [], ◌∷◌, ◌++◌, if◌then◌else◌, maybe, ltb, ◌==◌,
  is_empty, map,
}
use vue_rs.Text.{Text, chars, same_text}
use vue_rs.Compiler.Codegen.Tokens.{Stream, nil}
use vue_rs.Compiler.Props.{Ty}

-- An attribute: its path, where that is one identifier, and the tokens of its arguments in parentheses.
pub record Attribute : Type 0 where
  pub path : Text
  pub args : Option Stream

-- A named field: its attributes, its name, and its type as syntax and as tokens.
pub record StructField : Type 0 where
  pub attrs : List Attribute
  pub ident : Text
  pub ty : Ty
  pub ty_tokens : Stream

-- A struct item: its name, whether it has generic parameters, its fields where they are named, and its
-- tokens.
pub record ItemStruct : Type 0 where
  pub ident : Text
  pub is_generic : Bool
  pub fields : Option (List StructField)
  pub tokens : Stream

pub data Stmt : Type 0 where
  use_item : Stream → Stmt
  struct_item : ItemStruct → Stmt
  other : Stream → Stmt

-- What the script of a component is divided into.
pub record Script : Type 0 where
  pub uses : List Stream
  pub props_struct : Option ItemStruct
  pub slots_struct : Option ItemStruct
  pub structs : List ItemStruct
  pub body : List Stream

abbrev pub empty_script : Script
empty_script = record {
  uses = [];
  props_struct = none;
  slots_struct = none;
  structs = [];
  body = [];
}

-- One round of the loop over the statements.
unfoldable pub sort_stmt : Text → Stmt → Script → Script
unfolding same_text
sort_stmt name (use_item t) s = record s { uses = s.uses ++ t ∷ [] }
sort_stmt name (struct_item item) s =
    if same_text item.ident (name ++ chars "Props")
    then record s { props_struct = some item }
    else if same_text item.ident (name ++ chars "Slots")
    then record s { slots_struct = some item }
    else record s { structs = s.structs ++ item ∷ [] }
sort_stmt name (other t) s = record s { body = s.body ++ t ∷ [] }

unfoldable pub sort_stmts : Text → List Stmt → Script → Script
unfolding sort_stmt
sort_stmts name [] s = s
sort_stmts name (stmt ∷ stmts) s = sort_stmts name stmts (sort_stmt name stmt s)

-- `str::cmp`: the first text comes later.
unfoldable pub is_later : Text → Text → Bool
is_later [] ys = false
is_later (x ∷ xs) [] = true
is_later (x ∷ xs) (y ∷ ys) =
    let r = is_later xs ys in if ltb y x then true else if ltb x y then false else r

-- `sort_by` on the names, which is stable.
unfoldable pub insert_field : Text × Stream → List (Text × Stream) → List (Text × Stream)
unfolding is_later
insert_field f [] = f ∷ []
insert_field f (g ∷ gs) =
    let r = insert_field f gs in if is_later f.0 g.0 then g ∷ r else f ∷ g ∷ gs

unfoldable pub sort_fields : List (Text × Stream) → List (Text × Stream)
unfolding insert_field
sort_fields [] = []
sort_fields (f ∷ fs) = insert_field f (sort_fields fs)

unfoldable pub slot_fields : ItemStruct → List (Text × Stream)
unfolding sort_fields
slot_fields item =
    maybe [] (λ fields. sort_fields (map (λ f. (f.ident, f.ty_tokens)) fields)) item.fields

-- The generated struct: no field at all, or a field and a builder `with_<name>` for every slot with its
-- payload, `none` for `()`.
pub data SlotsStruct : Type 0 where
  unit_struct : Text → SlotsStruct
  slots_struct_of : Text → List (Text × Option Stream) → SlotsStruct

unfoldable pub gen_slots_struct : Text → List (Text × Option Stream) → SlotsStruct
gen_slots_struct slots_ty defs =
    if is_empty defs then unit_struct slots_ty else slots_struct_of slots_ty defs
