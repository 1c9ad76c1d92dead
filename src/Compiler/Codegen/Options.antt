-- ===== src/Compiler/Codegen/Options.antt =====
-- The modifiers of an `@event`, crates/vue-rs-compiler/src/codegen.rs.
pub mod Unknown
use vue_rs.Base.{
  ℕ, Bool, true, false, ◌&&◌, ◌||◌, Option, none, some, List, [], ◌∷◌, ◌++◌, if◌then◌else◌, maybe,
  any, is_empty,
}
use Prim.Native.String.{String}
use vue_rs.Text.{Text, chars, same_text}
use vue_rs.Compiler.Codegen.Code.{
  OptionField, prevent_default, stop_propagation, once, capture, passive, self_only, ctrl, alt,
  shift, meta, exact, keys, buttons, unknown_event_modifier, Result, ok, err, ◌>>=◌,
}

-- `match` on a string: the entry of the first pattern that is equal to the text.
unfoldable pub find_name {ℓ} : {A : Type ℓ} → List (Text × A) → Text → Option A
unfolding same_text
find_name [] t = none
find_name ((name, a) ∷ rest) t = let r = find_name rest t in if same_text name t then some a else r

-- The text is one of the patterns.
unfoldable pub one_of : List Text → Text → Bool
unfolding same_text
one_of names t = any (λ name. same_text name t) names

unfoldable pub is_keyboard_event : Text → Bool
unfolding one_of
is_keyboard_event event = one_of (chars "keyup" ∷ chars "keydown" ∷ chars "keypress" ∷ []) event

unfoldable pub is_mouse_event : Text → Bool
unfolding one_of
is_mouse_event event =
    one_of
      (chars "click"
        ∷ chars "dblclick"
        ∷ chars "auxclick"
        ∷ chars "mousedown"
        ∷ chars "mouseup"
        ∷ chars "mousemove"
        ∷ chars "mouseenter"
        ∷ chars "mouseleave"
        ∷ chars "mouseover"
        ∷ chars "mouseout"
        ∷ chars "contextmenu"
        ∷ [])
      event

unfoldable pub mouse_button : Text → Option ℕ
unfolding find_name
mouse_button m = find_name ((chars "left", 0) ∷ (chars "middle", 1) ∷ (chars "right", 2) ∷ []) m

unfoldable pub key_name : Text → Option Text
unfolding find_name
key_name m =
    find_name
      ((chars "enter", chars "Enter")
        ∷ (chars "esc", chars "Escape")
        ∷ (chars "escape", chars "Escape")
        ∷ (chars "tab", chars "Tab")
        ∷ (chars "space", chars " ")
        ∷ (chars "delete", chars "Delete")
        ∷ (chars "up", chars "ArrowUp")
        ∷ (chars "down", chars "ArrowDown")
        ∷ (chars "left", chars "ArrowLeft")
        ∷ (chars "right", chars "ArrowRight")
        ∷ (chars "home", chars "Home")
        ∷ (chars "end", chars "End")
        ∷ [])
      m

abbrev pub flags : List (Text × OptionField)
flags =
    (chars "prevent", prevent_default)
    ∷ (chars "stop", stop_propagation)
    ∷ (chars "once", once)
    ∷ (chars "capture", capture)
    ∷ (chars "passive", passive)
    ∷ (chars "self", self_only)
    ∷ (chars "ctrl", ctrl)
    ∷ (chars "alt", alt)
    ∷ (chars "shift", shift)
    ∷ (chars "meta", meta)
    ∷ (chars "exact", exact)
    ∷ []

-- What the loop over the modifiers gathers: the fields, `keys` and `buttons`.
pub record Gathered : Type 0 where
  pub fields : List OptionField
  pub keys : List Text
  pub buttons : List ℕ

-- One round of the loop.
unfoldable pub gather : Bool → Bool → Text → Text → Gathered → Result Gathered
unfolding find_name mouse_button key_name
gather keyboard mouse full m g = elim (find_name flags m) [
  | some f ↦ ok (record { fields = g.fields ++ f ∷ []; keys = g.keys; buttons = g.buttons })
  | none ↦ elim (if mouse then mouse_button m else none) [
    | some b ↦ ok (record { fields = g.fields; keys = g.keys; buttons = g.buttons ++ b ∷ [] })
    | none ↦ elim (if keyboard then key_name m else none) [
      | some k ↦ ok (record { fields = g.fields; keys = g.keys ++ k ∷ []; buttons = g.buttons })
      | none ↦ err (unknown_event_modifier m full)
    ]
  ]
]

unfoldable pub gather_all : Bool → Bool → Text → List Text → Gathered → Result Gathered
unfolding gather
gather_all keyboard mouse full [] g = ok g
gather_all keyboard mouse full (m ∷ ms) g =
    gather keyboard mouse full m g >>= (λ h. gather_all keyboard mouse full ms h)

-- The fields of the literal, in the order they are written.
abbrev pub all_fields : Gathered → List OptionField
all_fields g =
    g.fields
    ++ ((if is_empty g.keys then [] else keys g.keys ∷ [])
        ++ (if is_empty g.buttons then [] else buttons g.buttons ∷ []))

unfoldable pub build_event_options : Text → List Text → Text → Result (List OptionField)
unfolding gather_all is_keyboard_event is_mouse_event
build_event_options event modifiers full =
    gather_all (is_keyboard_event event) (is_mouse_event event) full modifiers
      (record { fields = []; keys = []; buttons = [] })
    >>= (λ g. ok (all_fields g))
