-- ===== src/Dom/Mock/Entries.antt =====
-- The properties of an element as a map, crates/vue-rs-dom/src/mock.rs.
use vue_rs.Base.{
  ℕ, ◌≡◌, refl, ap, true, some, List, [], ◌∷◌, if◌then◌else◌, arith, Bool-cases, inl, inr,
  get_elem?, set, get_elem?-set_self, get_elem?-lt,
}
use vue_rs.Text.{Text, same_text}
use vue_rs.Dom.Mock.{
  ok, Element, NodeData, element, MockDom, node_at, with_element, set_entry, find_entry,
  set_property, property,
}

-- Texts that are the same compare alike.
pub same_text-same : (a b c : Text) → same_text a b ≡ true → same_text a c ≡ same_text b c
unfolding same_text
same_text-same [] [] c h = refl
same_text-same [] (y ∷ ys) c h = absurd cc
same_text-same (x ∷ xs) [] c h = absurd cc
same_text-same (x ∷ xs) (y ∷ ys) [] h = refl
same_text-same (x ∷ xs) (y ∷ ys) (z ∷ zs) h = ground (arith, same_text-same xs ys zs)

pub same_text→eq : (a b : Text) → same_text a b ≡ true → a ≡ b
unfolding same_text
same_text→eq [] [] h = refl
same_text→eq [] (y ∷ ys) h = absurd cc
same_text→eq (x ∷ xs) [] h = absurd cc
same_text→eq (x ∷ xs) (y ∷ ys) h =
    let tail = same_text→eq xs ys (ground arith) in
    let front : x ≡ y = ground arith in λ i. front i ∷ tail i

pub find_entry-set_entry :
    (name value other : Text) (entries : List (Text × Text))
    → find_entry other (set_entry name value entries)
      ≡ (if same_text name other then some value else find_entry other entries)
unfolding find_entry set_entry
find_entry-set_entry name value other [] = refl
find_entry-set_entry name value other ((n, v) ∷ rest) = elim (Bool-cases (same_text n name)) [
  | inl e ↦ ground (arith, e, same_text-same n name other e)
  | inr e ↦
      let rec = find_entry-set_entry name value other rest in
      elim (Bool-cases (same_text name other)) [
        | inl k ↦ ground (arith, e, k, rec, ap (same_text n) (same_text→eq name other k))
        | inr k ↦ ground (arith, e, k, rec)
      ]
]

-- A property that has been set reads back as it was set, the other properties of the element read
-- as before, and setting it does not panic.
pub set_property-property :
    {H : Type 0} (dom : MockDom H) (node : ℕ) (e : Element H) (name value other : Text)
    → get_elem? dom.nodes node ≡ some (element e)
    → (after : MockDom H) × (set_property dom node name value ≡ ok after)
      × (property after node other
          ≡ (if same_text name other then ok (some value) else property dom node other))
unfolding set_property property with_element node_at
set_property-property dom node e name value other h =
    let put : NodeData _ = element (record e { props = set_entry name value e.props }) in
    (
      record dom { nodes = set dom.nodes node put },
      rw h refl,
      rw (get_elem?-set_self dom.nodes node put (get_elem?-lt dom.nodes node h), h)
          (rw (find_entry-set_entry name value other e.props) (ground arith)),
    )
