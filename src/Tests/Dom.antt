-- ===== src/Tests/Dom.antt =====
-- The renderer on small inputs.
use vue_rs.Base.{
  ℕ, zero, suc, ◌≡◌, ◌↔◌, ◌⊎◌, refl, Bool, true, false, not, none, some, List, [], ◌∷◌, ◌++◌, front,
  retain, map, get_elem?, set, arith,
}
use vue_rs.Text.{Text, chars, is_whitespace, join, concat}
use vue_rs.Dom.Builders.Class
use vue_rs.Dom.Builders.Style
use vue_rs.Dom.Builders.Joined.{filled, push_all, AllTidied, class-join, style-join}
use vue_rs.Dom.Events.{EventOptions, Held, MockEvent, system_modifiers_pass}
use vue_rs.Dom.Events.Exact.{system_modifiers_pass-exact, system_modifiers_pass-inexact}
use vue_rs.Dom.Mock.{
  ok, Listener, Element, element, text, anchor, fragment, MockDom, DispatchOutcome, escape_text,
  holds, create_fragment, gather,
}
use vue_rs.Dom.Mock.{set_property, property}
use vue_rs.Dom.Mock.Entries.{set_property-property}
use vue_rs.Text.{same_text}
use vue_rs.Dom.Mock.Children.{flatten, insert_before}
use vue_rs.Dom.Mock.Dispatch.{dispatch_full}
use vue_rs.Dom.Mock.Escape.{escaped, escape_text-once}
use vue_rs.Dom.Mock.Order.{insert_before-splices}
use vue_rs.Dom.Mock.Fragments.{Below, IsNested, Plain, flatten-Plain, create_fragment-flatten}
use vue_rs.Dom.Mock.Fragments
use vue_rs.Dom.Mock.Listeners.{registered, dispatch_full-once}

abbrev classes : List Text
classes = chars "btn" ∷ [] ∷ chars "active" ∷ []

class_text : Class.finish (push_all Class.push Class.new classes) ≡ chars "btn active"
unfolding Class.finish Class.push Class.new
class_text = refl

class-join_example :
    Class.finish (push_all Class.push Class.new classes) ≡ join (chars " ") (filled classes)
class-join_example = class-join classes

abbrev decls : List Text
decls = chars " color: red; " ∷ chars ";" ∷ chars "top: 0" ∷ []

style_text : Style.finish (push_all Style.push Style.new decls) ≡ chars "color: red; top: 0"
unfolding Style.finish Style.push Style.new is_whitespace
style_text = refl

style-join_example :
    (ts : List Text) × AllTidied decls ts
    × (Style.finish (push_all Style.push Style.new decls) ≡ join (chars "; ") (filled ts))
style-join_example = style-join decls

-- `@click.ctrl.exact.once`
abbrev options : Bool → EventOptions
options exact = record {
  prevent_default = true;
  stop_propagation = false;
  once = true;
  capture = false;
  passive = false;
  self_only = false;
  keys = [];
  buttons = [];
  ctrl = true;
  alt = false;
  shift = false;
  meta = false;
  exact = exact;
}

abbrev held : Bool → Held
held shift = record { ctrl = true; alt = false; shift = shift; meta = false }

system_modifiers_pass-exact_example :
    (system_modifiers_pass (options true) (held true) ≡ true)
    ↔ ((true ≡ true) × (false ≡ false) × (true ≡ false) × (false ≡ false))
system_modifiers_pass-exact_example = system_modifiers_pass-exact (options true) (held true) refl

system_modifiers_pass-inexact_example :
    (system_modifiers_pass (options false) (held true) ≡ true) ↔ (
      (true ≡ true → true ≡ true)
      × (false ≡ true → false ≡ true)
      × (false ≡ true → true ≡ true)
      × (false ≡ true → false ≡ true))
system_modifiers_pass-inexact_example =
    system_modifiers_pass-inexact (options false) (held true) refl

escape_text-once_example : escape_text (chars "a<b&c") ≡ concat (map escaped (chars "a<b&c"))
escape_text-once_example = escape_text-once (chars "a<b&c")

-- A list of `x`, an anchor, and a fragment of two texts; a button.
abbrev bare : List ℕ → List (Listener ℕ) → Element ℕ
bare children listeners = record {
  tag = chars "p";
  attrs = [];
  props = [];
  children = children;
  listeners = listeners;
  inner_html = none;
}

abbrev clicked : Listener ℕ
clicked = record { id = 0; event = chars "click"; options = options true; handler = 7 }

abbrev dom : MockDom ℕ
dom = record {
  nodes =
      text (chars "x")
      ∷ text (chars "y")
      ∷ text (chars "z")
      ∷ fragment (1 ∷ 2 ∷ [])
      ∷ anchor
      ∷ element (bare (0 ∷ 2 ∷ 4 ∷ []) [])
      ∷ element (bare [] (clicked ∷ []))
      ∷ [];
  next_listener_id = 1;
}

abbrev moved : MockDom ℕ
moved = record dom { nodes = set dom.nodes 5 (element (bare (0 ∷ 1 ∷ 2 ∷ 4 ∷ []) [])) }

moved_before : insert_before dom 5 3 4 ≡ ok moved
unfolding insert_before
moved_before = refl

-- The text 0 is put under the button, and stays under the list.
abbrev in_both : MockDom ℕ
in_both = record dom { nodes = set dom.nodes 6 (element (bare (0 ∷ []) (clicked ∷ []))) }

inserted_twice : insert_before dom 6 0 4 ≡ ok in_both
unfolding insert_before
inserted_twice = refl

insert_before-splices_example :
    (a : List ℕ) × (b : List ℕ) × (retain (λ c. not (holds (1 ∷ 2 ∷ []) c)) (0 ∷ 2 ∷ 4 ∷ [])
      ≡ a ++ b)
    × (holds a 4 ≡ false)
    × ((b ≡ []) ⊎ (front b ≡ some 4))
    × (insert_before dom 5 3 4
        ≡ ok (record dom { nodes = set dom.nodes 5 (element (bare (a ++ (1 ∷ 2 ∷ b)) [])) }))
unfolding flatten
insert_before-splices_example =
    insert_before-splices dom 5 3 4 (bare (0 ∷ 2 ∷ 4 ∷ []) []) (1 ∷ 2 ∷ []) refl refl

abbrev two_texts : MockDom ℕ
two_texts = record { nodes = text (chars "x") ∷ text (chars "y") ∷ []; next_listener_id = 0 }

two_texts-older :
    (i : ℕ) (cs : List ℕ) → get_elem? two_texts.nodes i ≡ some (fragment cs) → Below i cs
two_texts-older zero cs h = absurd cc
two_texts-older (suc zero) cs h = absurd cc
two_texts-older (suc (suc i)) cs h = absurd cc

abbrev grouped : MockDom ℕ
grouped = record two_texts { nodes = two_texts.nodes ++ fragment (0 ∷ 1 ∷ []) ∷ [] }

both-Below : Below 2 (0 ∷ 1 ∷ [])
both-Below = Fragments.cons (ground arith) (Fragments.cons (ground arith) Fragments.empty)

create_fragment-flatten_example :
    IsNested (create_fragment two_texts (0 ∷ 1 ∷ [])).1
    × (flatten (create_fragment two_texts (0 ∷ 1 ∷ [])).1 2
        ≡ gather (flatten two_texts) (0 ∷ 1 ∷ []))
unfolding create_fragment
create_fragment-flatten_example =
    create_fragment-flatten two_texts (0 ∷ 1 ∷ []) both-Below (record { older = two_texts-older })

grouped-older : (i : ℕ) (cs : List ℕ) → get_elem? grouped.nodes i ≡ some (fragment cs) → Below i cs
unfolding create_fragment
grouped-older i cs h =
    (create_fragment-flatten two_texts (0 ∷ 1 ∷ []) both-Below
        (record { older = two_texts-older })).0.older
      i cs h

flatten-Plain_example : (r : List ℕ) × (flatten grouped 2 ≡ ok r) × Plain grouped r
flatten-Plain_example = flatten-Plain grouped 2 (record { older = grouped-older }) (ground arith)

abbrev ctrl_click : MockEvent
ctrl_click = record { key = none; button = none; target = none; held = held false }

abbrev done : DispatchOutcome
done = record { default_prevented = true; propagation_stopped = false }

abbrev spent : MockDom ℕ
spent = record dom { nodes = set dom.nodes 6 (element (bare [] [])) }

dispatch_full-once_example : registered 0 (bare [] []).listeners ≡ false
unfolding dispatch_full
dispatch_full-once_example =
    dispatch_full-once (λ _ _ d. d) dom 6 (chars "click") [] ctrl_click 0 (bare [] (clicked ∷ []))
      {outcome = done} {after = spent} {e = bare [] []} refl refl refl refl

set_property-property_example :
    (after : MockDom ℕ) × (set_property dom 6 (chars "value") (chars "1") ≡ ok after)
    × (property after 6 (chars "value") ≡ ok (some (chars "1")))
unfolding same_text
set_property-property_example =
    set_property-property dom 6 (bare [] (clicked ∷ [])) (chars "value") (chars "1") (chars "value")
      refl
