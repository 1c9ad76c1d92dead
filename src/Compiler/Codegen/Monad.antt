-- ===== src/Compiler/Codegen/Monad.antt =====
-- The state of the code generator and its computations, crates/vue-rs-compiler/src/codegen.rs.
-- `panic` is `Ident::new` on a text that is no identifier; `starved` means that the fuel of the
-- model ran out, which the source does not do.
pub mod Good
use vue_rs.Base.{
  ℕ, Bool, true, false, Option, none, some, List, [], ◌∷◌, ◌++◌, if◌then◌else◌, any, maybe,
}
use vue_rs.Text.{Text, same_text}
use vue_rs.Compiler.Template.Syntax.{Attr, Node, Nodes}
use vue_rs.Compiler.Template.Syntax
use vue_rs.Compiler.Codegen.Tokens.{Stream, Syn}
use vue_rs.Compiler.Codegen.Code.{GenError, Result}
use vue_rs.Compiler.Codegen.Code

-- The slots that were met, each with whether it is scoped.
abbrev pub Slots : Type 0
Slots = List (Text × Bool)

pub data Run (A : Type 0) : Type 0 where
  ok : A → Slots → Run A
  err : GenError → Run A
  panic starved : Run A

abbrev pub M : Type 0 → Type 0
M A = Slots → Run A

abbrev pub continue : {A B : Type 0} → Run A → (A → M B) → Run B
continue (ok a s) f = f a s
continue (err e) f = err e
continue panic f = panic
continue starved f = starved

infixl 5 ◌>>=◌ ◌>>◌
unfoldable pub ◌>>=◌ : {A B : Type 0} → M A → (A → M B) → M B
m >>= f = λ s. continue (m s) f

unfoldable pub ◌>>◌ : {A B : Type 0} → M A → M B → M B
unfolding ◌>>=◌
m >> k = m >>= λ _. k

unfoldable pub pure : {A : Type 0} → A → M A
pure a = λ s. ok a s

unfoldable pub fail : {A : Type 0} → GenError → M A
fail e = λ s. err e

unfoldable pub starve : {A : Type 0} → M A
starve = λ s. starved

unfoldable pub lift : {A : Type 0} → Result A → M A
lift (Code.ok a) = λ s. ok a s
lift (Code.err e) = λ s. err e

-- `Ident::new`
unfoldable pub new_ident : Syn → Text → M (Unit {0})
new_ident syn t = elim (syn.makes_ident t) [ true ↦ λ s. ok tt s | false ↦ λ s. panic ]

abbrev pub is_recorded : Text → Slots → Bool
is_recorded name slots = any (λ p. same_text p.0 name) slots

-- The slots behind `record_slot`.
unfoldable pub recorded : Text → Bool → Slots → Slots
unfolding same_text
recorded name scoped slots = if is_recorded name slots then slots else slots ++ (name, scoped) ∷ []

unfoldable pub record_slot : Text → Bool → M (Unit {0})
unfolding recorded
record_slot name scoped = λ s. ok tt (recorded name scoped s)

-- The fields of `Codegen` that do not change.
pub record Codegen : Type 0 where
  pub scope : Option Text
  pub slot_payloads : List (Text × Stream)

pub record Element : Type 0 where
  pub tag : Text
  pub attrs : List Attr
  pub children : Nodes

-- The elements among the nodes.
unfoldable pub elements_of : Nodes → List Element
elements_of Syntax.nil = []
elements_of (Syntax.cons (Syntax.element tag attrs nodes) ns) =
    record { tag = tag; attrs = attrs; children = nodes } ∷ elements_of ns
elements_of (Syntax.cons (Syntax.static_text t) ns) = elements_of ns
elements_of (Syntax.cons (Syntax.dyn_text t) ns) = elements_of ns
