-- ===== src/Compiler/Component/Template/Whole.antt =====
-- Whole templates compiled, crates/vue-rs-compiler/src/lib.rs and component.rs.
use vue_rs.Base.{
  ◌≡◌, ◌≢◌, refl, ap, ◌∙◌, Bool, true, false, not, ◌&&◌, ◌||◌, Option, List, [], ◌∷◌, any,
  Bool-cases, Option-cases, inl, inr,
}
use vue_rs.Text.{Text, same_text}
use vue_rs.Compiler.Template.Syntax.{Nodes}
use vue_rs.Compiler.Template.Syntax
use vue_rs.Compiler.Template.{parse}
use vue_rs.Compiler.Template.Ends.{parse-ne-starved}
use vue_rs.Compiler.Codegen.Tokens.{Stream, Syn}
use vue_rs.Compiler.Codegen.Code.{Code}
use vue_rs.Compiler.Codegen.Options.{find_name}
use vue_rs.Compiler.Codegen.Monad.{Slots, Run, Codegen}
use vue_rs.Compiler.Codegen.Monad
use vue_rs.Compiler.Codegen.Monad.Good.{distinct}
use vue_rs.Compiler.Codegen.Root.Runs.{root-ne-starved, root-distinct}
use vue_rs.Compiler.Component.Template.{
  Compiled, ok, err, panic, starved, ◌>>=◌, parsed, generated, collected,
  compile_component_template, slot_type, slot_defs, template_and_slots,
}

-- No two fields have the same name.
abbrev pub named : {A : Type 0} → Text → List (Text × A) → Bool
named name fields = any (λ f. same_text f.0 name) fields

abbrev pub distinct_names : {A : Type 0} → List (Text × A) → Bool
distinct_names [] = true
distinct_names (f ∷ fields) = not (named f.0 fields) && distinct_names fields

pub bind-ends :
    {A B : Type 0} (m : Compiled A) (f : A → Compiled B)
    → m ≢ starved
    → ((a : A) → f a ≢ starved)
    → (m >>= f) ≢ starved
bind-ends (ok a) f h k = k a
bind-ends (err e) f h k = λ z. absurd cc
bind-ends panic f h k = λ z. absurd cc
bind-ends starved f h k = absurd (h refl)

pub bind-ok :
    {A B : Type 0} (m : Compiled A) (f : A → Compiled B) {b : B}
    → (m >>= f) ≡ ok b
    → (a : A) × (m ≡ ok a) × (f a ≡ ok b)
bind-ok (ok a) f h = (a, refl, h)
bind-ok (err e) f h = absurd cc
bind-ok panic f h = absurd cc
bind-ok starved f h = absurd cc

parsed-ends : (r : Syntax.Outcome Nodes) → r ≢ Syntax.starved → parsed r ≢ starved
parsed-ends (Syntax.ok a cs) h = λ z. absurd cc
parsed-ends (Syntax.err e) h = λ z. absurd cc
parsed-ends Syntax.starved h = λ z. h refl

generated-ends : (r : Run Code) → r ≢ Monad.starved → generated r ≢ starved
generated-ends (Monad.ok a s) h = λ z. absurd cc
generated-ends (Monad.err e) h = λ z. absurd cc
generated-ends Monad.panic h = λ z. absurd cc
generated-ends Monad.starved h = λ z. h refl

generated-ok :
    (r : Run Code) {code : Code} {slots : Slots}
    → generated r ≡ ok (code, slots)
    → r ≡ Monad.ok code slots
generated-ok (Monad.ok a s) h = cc
generated-ok (Monad.err e) h = absurd cc
generated-ok Monad.panic h = absurd cc
generated-ok Monad.starved h = absurd cc

pub ok-inj : {A : Type 0} {a b : A} → ok a ≡ ok b → a ≡ b
ok-inj h = cc

module _ (syn : Syn) where
  slot_type-ends :
      (declared : List (Text × Stream)) (slot : Text) (b : Bool)
      → slot_type syn declared slot b ≢ starved
  unfolding slot_type
  slot_type-ends declared slot false z = absurd cc
  slot_type-ends declared slot true z = elim (Option-cases (find_name declared slot)) [
    | inl e ↦ let y = rw (slot_type, e) at z in absurd cc
    | inr (p, e) ↦ let y = rw (slot_type, e) at z in absurd cc
  ]

  slot_defs-ends :
      (declared : List (Text × Stream)) (slots : Slots) → slot_defs syn declared slots ≢ starved
  unfolding slot_defs
  slot_defs-ends declared [] = λ z. absurd cc
  slot_defs-ends declared ((slot, scoped) ∷ slots) = elim (Bool-cases (syn.makes_ident slot)) [
    | inl e ↦
        rw (slot_defs, e)
          (bind-ends (slot_type syn declared slot scoped) _ (slot_type-ends declared slot scoped)
            (λ p.
              bind-ends (slot_defs syn declared slots) _ (slot_defs-ends declared slots)
                (λ d z. absurd cc)))
    | inr e ↦ rw (slot_defs, e) (λ z. absurd cc)
  ]

  slot_defs-ok :
      (declared : List (Text × Stream)) (slot : Text) (scoped : Bool) (slots : Slots)
      {defs : List (Text × Option Stream)}
      → slot_defs syn declared ((slot, scoped) ∷ slots) ≡ ok defs
      → (payload : Option Stream) × (rest : List (Text × Option Stream)) × (slot_defs syn declared
            slots
          ≡ ok rest)
        × ((slot, payload) ∷ rest ≡ defs)
  unfolding slot_defs
  slot_defs-ok declared slot scoped slots h = elim (Bool-cases (syn.makes_ident slot)) [
    | inr e ↦ let z = rw (slot_defs, e) at h in absurd cc
    | inl e ↦
        let (payload, a, k) =
          bind-ok (slot_type syn declared slot scoped) _ (rw (slot_defs, e) at h) in
        let (rest, b, l) = bind-ok (slot_defs syn declared slots) _ k in
        (payload, rest, b, ok-inj l)
  ]

  slot_defs-named :
      (declared : List (Text × Stream)) (slots : Slots) {defs : List (Text × Option Stream)}
      (n : Text)
      → slot_defs syn declared slots ≡ ok defs
      → named n defs ≡ named n slots
  unfolding slot_defs
  slot_defs-named declared [] n h = rw (← ok-inj h) refl
  slot_defs-named declared ((slot, scoped) ∷ slots) n h =
      let (payload, rest, a, b) = slot_defs-ok declared slot scoped slots h in
      rw (← b) (ap (λ x. same_text slot n || x) (slot_defs-named declared slots n a))

  slot_defs-distinct :
      (declared : List (Text × Stream)) (slots : Slots) {defs : List (Text × Option Stream)}
      → slot_defs syn declared slots ≡ ok defs
      → distinct_names defs ≡ distinct slots
  unfolding slot_defs distinct
  slot_defs-distinct declared [] h = rw (← ok-inj h) refl
  slot_defs-distinct declared ((slot, scoped) ∷ slots) h =
      let (payload, rest, a, b) = slot_defs-ok declared slot scoped slots h in
      rw (← b)
        (rw (slot_defs-named declared slots slot a, slot_defs-distinct declared slots a) refl)

  -- The template of a component, compiled from its text down to the fields of its struct of slots, comes
  -- to its end: with code, with an error, or with a panic, whatever the parsers of Rust code accept.
  pub template_and_slots-ne-starved :
      (template : Text) (scope : Option Text) (declared : List (Text × Stream))
      → template_and_slots syn template scope declared ≢ starved
  unfolding template_and_slots compile_component_template
  template_and_slots-ne-starved template scope declared =
      bind-ends (compile_component_template syn template scope declared) _
        (bind-ends (parsed (parse template)) _
          (parsed-ends (parse template) (parse-ne-starved template))
          (λ nodes. generated-ends _ (root-ne-starved syn _ nodes)))
        (λ compiled.
          bind-ends (slot_defs syn (collected declared) compiled.1) _
            (slot_defs-ends (collected declared) compiled.1) (λ d z. absurd cc))

  -- However often a template uses a slot, the struct of slots that is generated for it has no two fields
  -- of one name.
  pub template_and_slots-distinct :
      (template : Text) (scope : Option Text) (declared : List (Text × Stream)) {code : Code}
      {defs : List (Text × Option Stream)}
      → template_and_slots syn template scope declared ≡ ok (code, defs)
      → distinct_names defs ≡ true
  unfolding template_and_slots compile_component_template
  template_and_slots-distinct template scope declared h =
      let (compiled, a, b) = bind-ok (compile_component_template syn template scope declared) _ h in
      let (nodes, c, d) = bind-ok (parsed (parse template)) _ a in
      let (fields, e, f) = bind-ok (slot_defs syn (collected declared) compiled.1) _ b in
      rw (← ap (λ x. x.1) (ok-inj f)) (
        slot_defs-distinct (collected declared) compiled.1 e
        ∙ root-distinct syn _ nodes (generated-ok _ d))
