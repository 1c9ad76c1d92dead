-- ===== src/Dom/Mock.antt =====
-- The in-memory DOM of the tests, crates/vue-rs-dom/src/mock.rs. `panic` is an index out of bounds.
-- A handler is opaque (`H`), and `fire` is what calling it does to the DOM. The recursion over nodes
-- takes fuel, since nothing keeps an element out of its own children.
pub mod Children
pub mod Dispatch
pub mod Escape
pub mod Order
pub mod Fragments
pub mod Listeners
pub mod Entries
use Prim.Native.String.{String}
use vue_rs.Base.{
  ℕ, zero, suc, ◌+◌, Bool, true, false, not, ◌&&◌, ◌||◌, Option, none, some, List, [], ◌∷◌, ◌++◌,
  map, ◌==◌, if◌then◌else◌, maybe, any, retain, is_empty, length, get_elem?, set,
}
use vue_rs.Text.{Text, chars, same_text, replace, concat}
use vue_rs.Dom.Events.{EventOptions, MockEvent, guards_pass}

pub data Outcome (A : Type 0) : Type 0 where
  ok : A → Outcome A
  panic : Outcome A
  starved : Outcome A

infixl 5 ◌>>=◌
abbrev pub ◌>>=◌ : {A B : Type 0} → Outcome A → (A → Outcome B) → Outcome B
ok a >>= f = f a
panic >>= f = panic
starved >>= f = starved

pub record Listener (H : Type 0) : Type 0 where
  pub id : ℕ
  pub event : Text
  pub options : EventOptions
  pub handler : H

pub record Element (H : Type 0) : Type 0 where
  pub tag : Text
  pub attrs : List (Text × Text)
  pub props : List (Text × Text)
  pub children : List ℕ
  pub listeners : List (Listener H)
  pub inner_html : Option Text

pub data NodeData (H : Type 0) : Type 0 where
  element : Element H → NodeData H
  text : Text → NodeData H
  anchor : NodeData H
  fragment : List ℕ → NodeData H

pub record MockDom (H : Type 0) : Type 0 where
  pub nodes : List (NodeData H)
  pub next_listener_id : ℕ

pub record DispatchOutcome : Type 0 where
  pub default_prevented : Bool
  pub propagation_stopped : Bool

-- Escapes of a text node, and of an attribute in double quotes.
unfoldable pub escape_text : Text → Text
unfolding replace
escape_text s =
    replace b'>' (chars "&gt;") (replace b'<' (chars "&lt;") (replace b'&' (chars "&amp;") s))

unfoldable pub escape_attribute : Text → Text
unfolding replace
escape_attribute s = replace b'"' (chars "&quot;") (replace b'&' (chars "&amp;") s)

-- What the handles lead to, one after the other.
unfoldable pub gather : {A : Type 0} → (ℕ → Outcome (List A)) → List ℕ → Outcome (List A)
gather f [] = ok []
gather f (x ∷ xs) = do here ← f x; rest ← gather f xs; ok (here ++ rest)

-- The attribute with this name is overwritten, or a new one is put last.
unfoldable pub set_entry : Text → Text → List (Text × Text) → List (Text × Text)
unfolding same_text
set_entry name value [] = (name, value) ∷ []
set_entry name value ((n, v) ∷ rest) = elim (same_text n name) [
  | true ↦ (n, value) ∷ rest
  | false ↦ (n, v) ∷ set_entry name value rest
]

unfoldable pub find_entry : Text → List (Text × Text) → Option Text
unfolding same_text
find_entry name [] = none
find_entry name ((n, v) ∷ rest) = if same_text n name then some v else find_entry name rest

unfoldable pub attribute_text : Text × Text → Text
unfolding escape_attribute
attribute_text (name, value) =
    chars " " ++ (name ++ (chars "=\"" ++ (escape_attribute value ++ chars "\"")))

unfoldable pub holds : List ℕ → ℕ → Bool
holds xs c = any (λ x. x == c) xs

abbrev pub is_tag : {H : Type 0} → Text → NodeData H → Bool
is_tag tag (element e) = same_text e.tag tag
is_tag tag _ = false

module _ {H : Type 0} where
  unfoldable pub new : MockDom H
  new = record { nodes = []; next_listener_id = 0 }

  unfoldable pub push : MockDom H → NodeData H → ℕ × MockDom H
  push dom data' = (length dom.nodes, record dom { nodes = dom.nodes ++ data' ∷ [] })

  -- `self.nodes.borrow()[node]`
  unfoldable pub node_at : MockDom H → ℕ → Outcome (NodeData H)
  node_at dom node = maybe panic ok (get_elem? dom.nodes node)

  unfoldable pub to_html : ℕ → MockDom H → ℕ → Outcome Text
  unfolding node_at gather attribute_text escape_text concat
  to_html zero dom node = starved
  to_html (suc n) dom node = do
    found ← node_at dom node
    elim found [
      | anchor ↦ ok []
      | fragment children ↦ gather (to_html n dom) children
      | text s ↦ ok (escape_text s)
      | element e ↦ do
        inner ← maybe (gather (to_html n dom) e.children) ok e.inner_html
        ok (
            chars "<"
            ++ (e.tag
                ++ (concat (map attribute_text e.attrs)
                    ++ (chars ">" ++ (inner ++ (chars "</" ++ (e.tag ++ chars ">")))))))
    ]

  abbrev pub map_element : (Element H → Element H) → NodeData H → NodeData H
  map_element f (element e) = element (f e)
  map_element f d = d

  -- `if let NodeData::Element { .. } = &mut nodes[node] { .. }`
  unfoldable pub with_element : MockDom H → ℕ → (Element H → Element H) → Outcome (MockDom H)
  unfolding node_at
  with_element dom node f = do
    found ← node_at dom node
    ok (record dom { nodes = set dom.nodes node (map_element f found) })

  unfoldable pub property : MockDom H → ℕ → Text → Outcome (Option Text)
  unfolding node_at find_entry
  property dom node name = do
    found ← node_at dom node
    elim found [ element e ↦ ok (find_entry name e.props) | _ ↦ ok none ]

  find_from : ℕ → Text → List (NodeData H) → Option ℕ
  unfolding same_text
  find_from i tag [] = none
  find_from i tag (d ∷ ds) = if is_tag tag d then some i else find_from (i + 1) tag ds

  unfoldable pub find : MockDom H → Text → Option ℕ
  unfolding find_from
  find dom tag = find_from 0 tag dom.nodes

  unfoldable pub create_element : MockDom H → Text → ℕ × MockDom H
  unfolding push
  create_element dom tag = push dom (
      element (record {
        tag = tag;
        attrs = [];
        props = [];
        children = [];
        listeners = [];
        inner_html = none;
      }))

  unfoldable pub create_text : MockDom H → Text → ℕ × MockDom H
  unfolding push
  create_text dom s = push dom (text s)

  unfoldable pub create_anchor : MockDom H → ℕ × MockDom H
  unfolding push
  create_anchor dom = push dom anchor

  unfoldable pub create_fragment : MockDom H → List ℕ → ℕ × MockDom H
  unfolding push
  create_fragment dom children = push dom (fragment children)

  unfoldable pub set_text : MockDom H → ℕ → Text → Outcome (MockDom H)
  unfolding node_at
  set_text dom node s = do
    found ← node_at dom node
    elim found [ text _ ↦ ok (record dom { nodes = set dom.nodes node (text s) }) | _ ↦ ok dom ]

  unfoldable pub set_attribute : MockDom H → ℕ → Text → Text → Outcome (MockDom H)
  unfolding with_element set_entry
  set_attribute dom node name value =
      with_element dom node (λ e. record e { attrs = set_entry name value e.attrs })

  unfoldable pub set_property : MockDom H → ℕ → Text → Text → Outcome (MockDom H)
  unfolding with_element set_entry
  set_property dom node name value =
      with_element dom node (λ e. record e { props = set_entry name value e.props })

  unfoldable pub set_bool_property : MockDom H → ℕ → Text → Bool → Outcome (MockDom H)
  unfolding set_property
  set_bool_property dom node name value =
      set_property dom node name (if value then chars "true" else chars "false")

  unfoldable pub remove_attribute : MockDom H → ℕ → Text → Outcome (MockDom H)
  unfolding with_element same_text
  remove_attribute dom node name =
      with_element dom node
        (λ e. record e { attrs = retain (λ a. not (same_text a.0 name)) e.attrs })

  unfoldable pub set_inner_html : MockDom H → ℕ → Text → Outcome (MockDom H)
  unfolding with_element
  set_inner_html dom node html = with_element dom node (λ e. record e { inner_html = some html })
