-- ===== src/Dom/Bindings.antt =====
-- The calls of `El` that do not mount views, and the effects they install, on the in-memory DOM:
-- crates/vue-rs-dom/src/element.rs. An effect is a function of the values that it reads; what it
-- captures and changes is an argument and a part of the result.
pub mod Spread
use vue_rs.Base.{ℕ, Bool, false, Option, none, some, List, [], ◌∷◌, map, if◌then◌else◌, maybe, any}
use vue_rs.Text.{Text, same_text}
use vue_rs.Dom.Events.{EventOptions}
use vue_rs.Dom.Mock.{
  Outcome, ok, ◌>>=◌, MockDom, create_element, create_text, set_text, set_attribute, set_property,
  set_bool_property, remove_attribute, set_inner_html,
}
use vue_rs.Dom.Mock.Children.{append_child}
use vue_rs.Dom.Mock.Dispatch.{add_event_listener, remove_event_listener}

-- `EventOptions::default()`
abbrev pub default_options : EventOptions
default_options = record {
  prevent_default = false;
  stop_propagation = false;
  once = false;
  capture = false;
  passive = false;
  self_only = false;
  keys = [];
  buttons = [];
  ctrl = false;
  alt = false;
  shift = false;
  meta = false;
  exact = false;
}

-- The name is among those of the pairs.
abbrev pub names : List (Text × Text) → Text → Bool
names pairs name = any (λ p. same_text p.0 name) pairs

module _ {H : Type 0} (node : ℕ) where
  -- The effects of `dyn_attr`, `dyn_prop`, `dyn_bool_prop` and `dyn_inner_html`.
  unfoldable pub dyn_attr : Text → Text → MockDom H → Outcome (MockDom H)
  unfolding set_attribute
  dyn_attr name value dom = set_attribute dom node name value

  unfoldable pub dyn_prop : Text → Text → MockDom H → Outcome (MockDom H)
  unfolding set_property
  dyn_prop name value dom = set_property dom node name value

  unfoldable pub dyn_bool_prop : Text → Bool → MockDom H → Outcome (MockDom H)
  unfolding set_bool_property
  dyn_bool_prop name value dom = set_bool_property dom node name value

  unfoldable pub dyn_inner_html : Text → MockDom H → Outcome (MockDom H)
  unfolding set_inner_html
  dyn_inner_html html dom = set_inner_html dom node html

  -- A name that is set no longer is removed.
  unfoldable pub drop_name : Option Text → Text → MockDom H → Outcome (MockDom H)
  unfolding remove_attribute same_text
  drop_name none next dom = ok dom
  drop_name (some old) next dom =
      if same_text old next then ok dom else remove_attribute dom node old

  -- The effect of `dyn_attr_named`, with `prev`.
  unfoldable pub dyn_attr_named :
      Text → Text → Option Text → MockDom H → Outcome (Option Text × MockDom H)
  unfolding drop_name set_attribute
  dyn_attr_named next value prev dom = do
    dropped ← drop_name prev next dom
    after ← set_attribute dropped node next value
    ok (some next, after)

  -- `for name in &prev { if !next.iter().any(..) { .. } }`
  unfoldable pub drop_names : List (Text × Text) → List Text → MockDom H → Outcome (MockDom H)
  unfolding remove_attribute same_text
  drop_names next [] dom = ok dom
  drop_names next (name ∷ prev) dom = do
    dropped ← if names next name then ok dom else remove_attribute dom node name
    drop_names next prev dropped

  -- `for (name, value) in &next { .. }`
  unfoldable pub set_all : List (Text × Text) → MockDom H → Outcome (MockDom H)
  unfolding set_attribute
  set_all [] dom = ok dom
  set_all ((name, value) ∷ next) dom = do put ← set_attribute dom node name value; set_all next put

  -- The effect of `dyn_attrs`, with `prev`.
  unfoldable pub dyn_attrs :
      List (Text × Text) → List Text → MockDom H → Outcome (List Text × MockDom H)
  unfolding drop_names set_all
  dyn_attrs next prev dom = do
    dropped ← drop_names next prev dom
    after ← set_all next dropped
    ok (map (λ p. p.0) next, after)

  -- `text` and `child`
  unfoldable pub text : Text → MockDom H → Outcome (MockDom H)
  unfolding create_text append_child
  text data' dom = append_child (create_text dom data').1 node (create_text dom data').0

  unfoldable pub child : ℕ → MockDom H → Outcome (MockDom H)
  unfolding append_child
  child c dom = append_child dom node c

  -- `dyn_text` up to its effect: the text node, and the DOM.
  unfoldable pub dyn_text : MockDom H → Outcome (ℕ × MockDom H)
  unfolding create_text append_child
  dyn_text dom = do
    let text_node = (create_text dom []).0
    after ← append_child (create_text dom []).1 node text_node
    ok (text_node, after)

  -- `on_opts`, and `on` with the default options; the listener is what the cleanup removes.
  unfoldable pub on_opts : Text → EventOptions → H → MockDom H → Outcome (ℕ × MockDom H)
  unfolding add_event_listener
  on_opts event options handler dom = add_event_listener dom node event options handler

  unfoldable pub on : Text → H → MockDom H → Outcome (ℕ × MockDom H)
  unfolding on_opts
  on event handler dom = on_opts event default_options handler dom

  -- The listener of `on_named` is detached.
  unfoldable pub detach : Option (Text × ℕ) → MockDom H → Outcome (MockDom H)
  unfolding remove_event_listener
  detach none dom = ok dom
  detach (some (name, listener)) dom = remove_event_listener dom node listener

  -- The effect of `on_named`, with `current`.
  unfoldable pub on_named :
      Text → H → Option (Text × ℕ) → MockDom H → Outcome (Option (Text × ℕ) × MockDom H)
  unfolding detach add_event_listener same_text
  on_named next handler current dom =
      if maybe false (λ c. same_text c.0 next) current then ok (current, dom) else do
        detached ← detach current dom
        added ← add_event_listener detached node next default_options handler
        ok (some (next, added.0), added.1)

  -- The cleanup of `on_named`.
  unfoldable pub on_named_cleanup :
      Option (Text × ℕ) → MockDom H → Outcome (Option (Text × ℕ) × MockDom H)
  unfolding detach
  on_named_cleanup current dom = do detached ← detach current dom; ok (none, detached)

module _ {H : Type 0} where
  -- The effect of `dyn_text` and of `dyn_text_node`.
  unfoldable pub update_text : ℕ → Text → MockDom H → Outcome (MockDom H)
  unfolding set_text
  update_text text_node value dom = set_text dom text_node value

  unfoldable pub dyn_text_node : MockDom H → ℕ × MockDom H
  unfolding create_text
  dyn_text_node dom = create_text dom []

  -- `El::new`
  unfoldable pub new_el : Text → MockDom H → ℕ × MockDom H
  unfolding create_element
  new_el tag dom = create_element dom tag
