-- ===== src/Compiler/Codegen/Options/Unknown.antt =====
-- Modifiers that an event does not have, crates/vue-rs-compiler/src/codegen.rs.
use vue_rs.Base.{
  ◌≡◌, refl, Bool, true, false, ◌||◌, Option, none, some, List, [], ◌∷◌, Option-cases, Bool-cases,
  inl, inr, if◌then◌else◌, maybe, is_some,
}
use vue_rs.Text.{Text}
use vue_rs.Compiler.Codegen.Code.{GenError, unknown_event_modifier, Result, ok, err, ◌>>=◌}
use vue_rs.Compiler.Codegen.Options.{
  find_name, flags, mouse_button, key_name, is_keyboard_event, is_mouse_event, Gathered, gather,
  gather_all, all_fields, build_event_options,
}

abbrev pub error_of : {A : Type 0} → Result A → Option GenError
error_of (ok a) = none
error_of (err e) = some e

-- A flag, a button of a mouse event, or a key of a keyboard event.
abbrev pub is_known : Bool → Bool → Text → Bool
is_known keyboard mouse m =
    is_some (find_name flags m)
    || is_some (if mouse then mouse_button m else none)
    || is_some (if keyboard then key_name m else none)

abbrev pub first_unknown : Bool → Bool → List Text → Option Text
first_unknown keyboard mouse [] = none
first_unknown keyboard mouse (m ∷ ms) =
    if is_known keyboard mouse m then first_unknown keyboard mouse ms else some m

gather-known :
    (keyboard mouse : Bool) (full m : Text) (g : Gathered)
    → is_known keyboard mouse m ≡ true
    → error_of (gather keyboard mouse full m g) ≡ none
unfolding gather
gather-known keyboard mouse full m g k = elim (Option-cases (find_name flags m)) [
  | inr (f, e) ↦ rw (gather, e) refl
  | inl e ↦ elim (Option-cases (if mouse then mouse_button m else none)) [
    | inr (b, l) ↦ rw (gather, e, l) refl
    | inl l ↦ elim (Option-cases (if keyboard then key_name m else none)) [
      | inr (c, j) ↦ rw (gather, e, l, j) refl
      | inl j ↦ let z = rw (e, l, j) at k in absurd cc
    ]
  ]
]

gather-unknown :
    (keyboard mouse : Bool) (full m : Text) (g : Gathered)
    → is_known keyboard mouse m ≡ false
    → gather keyboard mouse full m g ≡ err (unknown_event_modifier m full)
unfolding gather
gather-unknown keyboard mouse full m g k = elim (Option-cases (find_name flags m)) [
  | inr (f, e) ↦ let z = rw e at k in absurd cc
  | inl e ↦ elim (Option-cases (if mouse then mouse_button m else none)) [
    | inr (b, l) ↦ let z = rw (e, l) at k in absurd cc
    | inl l ↦ elim (Option-cases (if keyboard then key_name m else none)) [
      | inr (c, j) ↦ let z = rw (e, l, j) at k in absurd cc
      | inl j ↦ rw (gather, e, l, j) refl
    ]
  ]
]

no_error : {A : Type 0} (r : Result A) → error_of r ≡ none → (a : A) × (r ≡ ok a)
no_error (ok a) h = (a, refl)
no_error (err e) h = absurd cc

gather_all-error :
    (keyboard mouse : Bool) (full : Text) (ms : List Text) (g : Gathered)
    → error_of (gather_all keyboard mouse full ms g)
      ≡ maybe none (λ m. some (unknown_event_modifier m full)) (first_unknown keyboard mouse ms)
unfolding gather_all
gather_all-error keyboard mouse full [] g = refl
gather_all-error keyboard mouse full (m ∷ ms) g = elim (Bool-cases (is_known keyboard mouse m)) [
  | inl e ↦
      let (h, k) =
        no_error (gather keyboard mouse full m g) (gather-known keyboard mouse full m g e) in
      rw (e, k) (gather_all-error keyboard mouse full ms h)
  | inr e ↦ rw (e, gather-unknown keyboard mouse full m g e) refl
]

error_of-map :
    {A B : Type 0} (r : Result A) (f : A → B) → error_of (r >>= (λ a. ok (f a))) ≡ error_of r
error_of-map (ok a) f = refl
error_of-map (err e) f = refl

-- An `@event` is refused for its first modifier that is neither a flag, nor a button where the event
-- is a mouse event, nor a key where it is a keyboard event; without one its options are built.
pub build_event_options-error :
    (event full : Text) (ms : List Text)
    → error_of (build_event_options event ms full)
      ≡ maybe none
          (λ m. some (unknown_event_modifier m full))
          (first_unknown (is_keyboard_event event) (is_mouse_event event) ms)
unfolding build_event_options
build_event_options-error event full ms =
    rw
      (error_of-map (gather_all (is_keyboard_event event) (is_mouse_event event) full ms _)
        all_fields)
      (gather_all-error (is_keyboard_event event) (is_mouse_event event) full ms _)
