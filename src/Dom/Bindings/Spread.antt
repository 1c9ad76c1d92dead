-- ===== src/Dom/Bindings/Spread.antt =====
-- Bags of attributes, `dyn_attrs` of crates/vue-rs-dom/src/element.rs.
use vue_rs.Base.{
  ℕ, ◌≡◌, refl, sym, ap, ◌∙◌, Bool, true, false, not, ◌||◌, Option, none, some, List, [], ◌∷◌, map,
  if◌then◌else◌, maybe, any, retain, Bool-cases, Option-cases, inl, inr, get_elem?,
  get_elem?-set_self, get_elem?-lt,
}
use vue_rs.Text.{Text, same_text}
use vue_rs.Dom.Mock.{
  ok, Outcome, Element, element, MockDom, set_entry, find_entry, set_attribute, remove_attribute,
  with_element,
}
use vue_rs.Dom.Mock.Entries.{same_text→eq, same_text-same, find_entry-set_entry}
use vue_rs.Dom.Mock.Order.{with_element-element}
use vue_rs.Dom.Bindings.{names, drop_names, set_all, dyn_attrs}

-- The value that the bag gives to a name: the last one.
abbrev pub last_value : Text → List (Text × Text) → Option Text
last_value n [] = none
last_value n ((m, v) ∷ rest) =
    maybe (if same_text m n then some v else none) some (last_value n rest)

-- The attributes behind the two loops.
abbrev put_all : List (Text × Text) → List (Text × Text) → List (Text × Text)
put_all [] attrs = attrs
put_all ((m, v) ∷ next) attrs = put_all next (set_entry m v attrs)

abbrev cut : Text → List (Text × Text) → List (Text × Text)
cut name attrs = retain (λ a. not (same_text a.0 name)) attrs

abbrev cut_all : List (Text × Text) → List Text → List (Text × Text) → List (Text × Text)
cut_all next [] attrs = attrs
cut_all next (name ∷ prev) attrs =
    cut_all next prev (if names next name then attrs else cut name attrs)

choose :
    (b : Bool) (v : Text) (o : Option Text)
    → (if b then some v else o) ≡ maybe o some (if b then some v else none)
choose true v o = refl
choose false v o = refl

twice :
    (b : Bool) (v : Text) (o : Option Text)
    → (if b then none else o) ≡ (if b then none else if b then some v else o)
twice true v o = refl
twice false v o = refl

either :
    (a b : Bool) (o : Option Text)
    → (if a then none else if b then none else o) ≡ (if b || a then none else o)
either true true o = refl
either true false o = refl
either false true o = refl
either false false o = refl

-- A name that another name differs from differs from what that name is the same as.
differs :
    (m name n : Text) → same_text m name ≡ false → same_text m n ≡ true → same_text name n ≡ false
differs m name n e k = elim (Bool-cases (same_text name n)) [
  | inl h ↦ let z = sym e ∙ (ap (same_text m) (same_text→eq name n h) ∙ k) in absurd cc
  | inr h ↦ h
]

find-put_all :
    (n : Text) (next attrs : List (Text × Text))
    → find_entry n (put_all next attrs) ≡ maybe (find_entry n attrs) some (last_value n next)
find-put_all n [] attrs = refl
find-put_all n ((m, v) ∷ next) attrs =
    find-put_all n next (set_entry m v attrs) ∙ elim (Option-cases (last_value n next)) [
      | inr (x, e) ↦ rw e refl
      | inl e ↦
          rw e (find_entry-set_entry m v n attrs ∙ choose (same_text m n) v (find_entry n attrs))
    ]

find-cut :
    (n name : Text) (attrs : List (Text × Text))
    → find_entry n (cut name attrs) ≡ (if same_text name n then none else find_entry n attrs)
unfolding find_entry
find-cut n name [] = elim (Bool-cases (same_text name n)) [ inl e ↦ rw e refl | inr e ↦ rw e refl ]
find-cut n name ((m, v) ∷ attrs) = elim (Bool-cases (same_text m name)) [
  | inl e ↦
      rw (e, same_text-same m name n e, find-cut n name attrs)
        (twice (same_text name n) v (find_entry n attrs))
  | inr e ↦ elim (Bool-cases (same_text m n)) [
    | inl k ↦ rw (e, k, differs m name n e k) refl
    | inr k ↦ rw (e, k) (find-cut n name attrs)
  ]
]

absent : (n : Text) (next : List (Text × Text)) → last_value n next ≡ none → names next n ≡ false
absent n [] h = refl
absent n ((m, v) ∷ next) h = elim (Option-cases (last_value n next)) [
  | inr (x, e) ↦ let z = rw e at h in absurd cc
  | inl e ↦ elim (Bool-cases (same_text m n)) [
    | inl k ↦ let z = rw (e, k) at h in absurd cc
    | inr k ↦ rw k (absent n next e)
  ]
]

-- The name was set by the last run.
abbrev pub among : Text → List Text → Bool
among n prev = any (λ p. same_text p n) prev

find-cut_all :
    (n : Text) (next : List (Text × Text)) (prev : List Text) (attrs : List (Text × Text))
    → names next n ≡ false
    → find_entry n (cut_all next prev attrs) ≡ (if among n prev then none else find_entry n attrs)
find-cut_all n next [] attrs h = refl
find-cut_all n next (name ∷ prev) attrs h = elim (Bool-cases (names next name)) [
  | inl e ↦ elim (Bool-cases (same_text name n)) [
    | inl k ↦ let z = sym h ∙ (ap (names next) (sym (same_text→eq name n k)) ∙ e) in absurd cc
    | inr k ↦ rw (e, k) (find-cut_all n next prev attrs h)
  ]
  | inr e ↦
      rw (e, find-cut_all n next prev (cut name attrs) h, find-cut n name attrs)
        (either (among n prev) (same_text name n) (find_entry n attrs))
]

find-spread :
    (n : Text) (next : List (Text × Text)) (prev : List Text) (attrs : List (Text × Text))
    → find_entry n (put_all next (cut_all next prev attrs))
      ≡ maybe (if among n prev then none else find_entry n attrs) some (last_value n next)
find-spread n next prev attrs =
    find-put_all n next (cut_all next prev attrs) ∙ elim (Option-cases (last_value n next)) [
      | inr (x, e) ↦ rw e refl
      | inl e ↦ rw e (find-cut_all n next prev attrs (absent n next e))
    ]

module _ {H : Type 0} (node : ℕ) where
  -- A call that changes the attributes of the element.
  abbrev Turns : MockDom H → Element H → List (Text × Text) → Outcome (MockDom H) → Type 0
  Turns dom e attrs r =
      (after : MockDom H) × (r ≡ ok after)
      × (get_elem? after.nodes node ≡ some (element (record e { attrs = attrs })))

  edit-Turns :
      (dom : MockDom H) (e : Element H) (f : Element H → Element H) (attrs : List (Text × Text))
      → get_elem? dom.nodes node ≡ some (element e)
      → f e ≡ record e { attrs = attrs }
      → Turns dom e attrs (with_element dom node f)
  edit-Turns dom e f attrs h k = (
    _,
    with_element-element dom node e f h,
    get_elem?-set_self dom.nodes node (element (f e)) (get_elem?-lt dom.nodes node h)
        ∙ ap (λ x. some (element x)) k,
  )

  set_all-Turns :
      (next : List (Text × Text)) (dom : MockDom H) (e : Element H)
      → get_elem? dom.nodes node ≡ some (element e)
      → Turns dom e (put_all next e.attrs) (set_all node next dom)
  unfolding set_all set_attribute
  set_all-Turns [] dom e h = (dom, refl, h)
  set_all-Turns ((m, v) ∷ next) dom e h =
      let (put, k, l) =
        edit-Turns dom e (λ x. record x { attrs = set_entry m v x.attrs }) (set_entry m v e.attrs) h
          refl in
      let (after, i, j) = set_all-Turns next put (record e { attrs = set_entry m v e.attrs }) l in
      (after, rw k i, j)

  drop_names-Turns :
      (next : List (Text × Text)) (prev : List Text) (dom : MockDom H) (e : Element H)
      → get_elem? dom.nodes node ≡ some (element e)
      → Turns dom e (cut_all next prev e.attrs) (drop_names node next prev dom)
  unfolding drop_names remove_attribute
  drop_names-Turns next [] dom e h = (dom, refl, h)
  drop_names-Turns next (name ∷ prev) dom e h = elim (Bool-cases (names next name)) [
    | inl b ↦ rw (drop_names, b) (drop_names-Turns next prev dom e h)
    | inr b ↦
        let (put, k, l) =
          edit-Turns dom e (λ x. record x { attrs = cut name x.attrs }) (cut name e.attrs) h refl in
        let (after, i, j) =
          drop_names-Turns next prev put (record e { attrs = cut name e.attrs }) l in
        let gone : remove_attribute dom node name ≡ ok put = k in (after, rw (b, gone) i, rw b j)
  ]

  -- A run of the effect of `dyn_attrs` on an element does not panic. Behind it an attribute has the last
  -- value that the bag gives to its name; a name that the last run set and that the bag has not is
  -- gone; any other attribute is as it was.
  pub dyn_attrs-attribute :
      (next : List (Text × Text)) (prev : List Text) (dom : MockDom H) (e : Element H)
      → get_elem? dom.nodes node ≡ some (element e)
      → (after : MockDom H) × (f : Element H) × (dyn_attrs node next prev dom
          ≡ ok (map (λ p. p.0) next, after))
        × (get_elem? after.nodes node ≡ some (element f))
        × ((n : Text)
            → find_entry n f.attrs
              ≡ maybe
                  (if among n prev then none else find_entry n e.attrs)
                  some
                  (last_value n next))
  unfolding dyn_attrs
  dyn_attrs-attribute next prev dom e h =
      let (dropped, k, l) = drop_names-Turns next prev dom e h in
      let (after, i, j) =
        set_all-Turns next dropped (record e { attrs = cut_all next prev e.attrs }) l in
      (
        after,
        record e { attrs = put_all next (cut_all next prev e.attrs) },
        rw (k, i) refl,
        j,
        λ n. find-spread n next prev e.attrs,
      )
