-- ===== src/Dom/Events.antt =====
-- The options of an event listener, crates/vue-rs-dom/src/backend.rs, and the guards of a simulated
-- event, crates/vue-rs-dom/src/mock.rs.
pub mod Exact
use vue_rs.Base.{
  ℕ, Bool, true, false, not, ◌&&◌, ◌||◌, Option, none, some, List, [], ◌∷◌, ◌==◌, if◌then◌else◌,
  maybe, any, is_empty,
}
use vue_rs.Text.{Text, same_text}

pub record EventOptions : Type 0 where
  pub prevent_default : Bool
  pub stop_propagation : Bool
  pub once : Bool
  pub capture : Bool
  pub passive : Bool
  pub self_only : Bool
  pub keys : List Text
  pub buttons : List ℕ
  pub ctrl : Bool
  pub alt : Bool
  pub shift : Bool
  pub meta : Bool
  pub exact : Bool

-- The modifier keys that are held, in the order of `system_modifiers_pass`.
pub record Held : Type 0 where
  pub ctrl : Bool
  pub alt : Bool
  pub shift : Bool
  pub meta : Bool

-- One round of the loop: `true` where it returns `false`.
abbrev pub modifier_fails : Bool → Bool → Bool → Bool
modifier_fails exact required held = (required && not held) || (exact && not required && held)

unfoldable pub system_modifiers_pass : EventOptions → Held → Bool
system_modifiers_pass opts held =
    not (modifier_fails opts.exact opts.ctrl held.ctrl)
    && not (modifier_fails opts.exact opts.alt held.alt)
    && not (modifier_fails opts.exact opts.shift held.shift)
    && not (modifier_fails opts.exact opts.meta held.meta)

pub record MockEvent : Type 0 where
  pub key : Option Text
  pub button : Option ℕ
  pub target : Option ℕ
  pub held : Held

unfoldable pub guards_pass : EventOptions → ℕ → MockEvent → Bool
unfolding same_text system_modifiers_pass
guards_pass opts node ev =
    if opts.self_only && not (maybe true (λ t. t == node) ev.target)
    then false
    else if not (is_empty opts.keys) && not (maybe false (λ k. any (same_text k) opts.keys) ev.key)
    then false
    else if not (is_empty opts.buttons)
        && not (maybe false (λ b. any (λ x. x == b) opts.buttons) ev.button)
    then false
    else system_modifiers_pass opts ev.held
