-- ===== src/Compiler/Component/Template.antt =====
-- The template of a component, crates/vue-rs-compiler/src/lib.rs, and the slots that it gives to the
-- component, crates/vue-rs-compiler/src/component.rs: the parser and the code generator composed.
pub mod Whole
use vue_rs.Base.{Bool, true, false, Option, none, some, List, [], ◌∷◌, reverse}
use vue_rs.Text.{Text}
use vue_rs.Compiler.Props.{Handle}
use vue_rs.Compiler.Sfc.{SfcError}
use vue_rs.Compiler.Template.Syntax.{Nodes, ParseError}
use vue_rs.Compiler.Template.Syntax
use vue_rs.Compiler.Template.{parse}
use vue_rs.Compiler.Codegen.Tokens.{Stream, Syn}
use vue_rs.Compiler.Codegen.Code.{Code, GenError}
use vue_rs.Compiler.Codegen.Options.{find_name}
use vue_rs.Compiler.Codegen.Monad.{Slots, Run, Codegen}
use vue_rs.Compiler.Codegen.Monad
use vue_rs.Compiler.Codegen.Root.{root}

-- What the parts of the compiler refuse, with what the message is made of.
pub data CompileError : Type 0 where
  sfc_error : SfcError → CompileError
  invalid_script : CompileError
  writable_prop : Text → Handle → CompileError
  invalid_prop generic_props unnamed_props : Text → CompileError
  parse_error : ParseError → CompileError
  gen_error : GenError → CompileError
  undeclared_slot : Text → CompileError

pub data Compiled (A : Type 0) : Type 0 where
  ok : A → Compiled A
  err : CompileError → Compiled A
  panic starved : Compiled A

infixl 5 ◌>>=◌
abbrev pub ◌>>=◌ : {A B : Type 0} → Compiled A → (A → Compiled B) → Compiled B
ok a >>= f = f a
err e >>= f = err e
panic >>= f = panic
starved >>= f = starved

-- The nodes of a template, and what the generator gives with its slots.
abbrev pub parsed : Syntax.Outcome Nodes → Compiled Nodes
parsed (Syntax.ok nodes cs) = ok nodes
parsed (Syntax.err e) = err (parse_error e)
parsed Syntax.starved = starved

abbrev pub generated : Run Code → Compiled (Code × Slots)
generated (Monad.ok code slots) = ok (code, slots)
generated (Monad.err e) = err (gen_error e)
generated Monad.panic = panic
generated Monad.starved = starved

-- A map that is collected from pairs: of two pairs of one name, the later one counts.
abbrev pub collected : {A : Type 0} → List (Text × A) → List (Text × A)
collected pairs = reverse pairs

module _ (syn : Syn) where
  unfoldable pub compile_component_template :
      Text → Option Text → List (Text × Stream) → Compiled (Code × Slots)
  unfolding parse root
  compile_component_template template scope_id slot_payloads = do
    nodes ← parsed (parse template)
    generated
        (root syn (record { scope = scope_id; slot_payloads = collected slot_payloads }) nodes [])

  unfoldable pub compile_template : Text → Compiled Code
  unfolding compile_component_template
  compile_template template = do
    compiled ← compile_component_template template none []
    ok compiled.0

  unfoldable pub compile_template_scoped : Text → Text → Compiled Code
  unfolding compile_component_template
  compile_template_scoped template scope_id = do
    compiled ← compile_component_template template (some scope_id) []
    ok compiled.0

  -- The payload of a slot: that of the declared struct, or `()`.
  unfoldable pub slot_type : List (Text × Stream) → Text → Bool → Compiled (Option Stream)
  unfolding find_name
  slot_type declared slot false = ok none
  slot_type declared slot true = elim (find_name declared slot) [
    | some payload ↦ ok (some payload)
    | none ↦ err (undeclared_slot slot)
  ]

  -- The fields of the struct of slots, one for each slot of the template.
  unfoldable pub slot_defs : List (Text × Stream) → Slots → Compiled (List (Text × Option Stream))
  unfolding slot_type
  slot_defs declared [] = ok []
  slot_defs declared ((slot, scoped) ∷ slots) = elim (syn.makes_ident slot) [
    | false ↦ panic
    | true ↦ do
      payload ← slot_type declared slot scoped
      defs ← slot_defs declared slots
      ok ((slot, payload) ∷ defs)
  ]

  -- The template of a component with its declared slots, and the fields of its struct of slots.
  unfoldable pub template_and_slots :
      Text → Option Text → List (Text × Stream) → Compiled (Code × List (Text × Option Stream))
  unfolding compile_component_template slot_defs
  template_and_slots template scope declared = do
    compiled ← compile_component_template template scope declared
    defs ← slot_defs (collected declared) compiled.1
    ok (compiled.0, defs)
