-- ===== src/Dom/Mock/Order.antt =====
-- Where children land, `insert_before` of crates/vue-rs-dom/src/mock.rs.
use vue_rs.Base.{
  ℕ, ◌≡◌, ◌⊎◌, refl, sym, ap, false, not, some, List, [], ◌∷◌, ◌++◌, ◌==◌, arith, retain,
  Bool-cases, inl, inr, front, get_elem?, set, append-nil, ==_iff,
}
use vue_rs.Dom.Mock.{ok, Element, element, MockDom, node_at, with_element, holds}
use vue_rs.Dom.Mock.Children.{place_before, flatten, insert_before}

place_before-split :
    (at : ℕ) (reals cs : List ℕ)
    → (a : List ℕ) × (b : List ℕ) × (cs ≡ a ++ b)
      × (place_before at reals cs ≡ a ++ (reals ++ b))
      × (holds a at ≡ false)
      × ((b ≡ []) ⊎ (front b ≡ some at))
unfolding place_before holds
place_before-split at reals [] = ([], [], refl, sym (append-nil reals), refl, inl refl)
place_before-split at reals (c ∷ cs) = elim (Bool-cases (c == at)) [
  | inl e ↦ ([], c ∷ cs, refl, ground (arith, e), refl, inr (ground (arith, e, (==_iff c at).0 e)))
  | inr e ↦
      let (a, b, split, placed, clear, next) = place_before-split at reals cs in
      (c ∷ a, b, ap (λ x. c ∷ x) split, ground (arith, e, placed), ground (arith, e, clear), next)
]

module _ {H : Type 0} where
  pub with_element-element :
      (dom : MockDom H) (node : ℕ) (e : Element H) (f : Element H → Element H)
      → get_elem? dom.nodes node ≡ some (element e)
      → with_element dom node f ≡ ok (record dom { nodes = set dom.nodes node (element (f e)) })
  unfolding with_element node_at
  with_element-element dom node e f h = rw h refl

  -- A child that is put in front of an anchor leaves its old places among the children of this parent.
  -- Its nodes stand, in one piece and in order, in front of the first such anchor among the other
  -- children, or last where there is none. Nothing else changes: under another parent a child stays.
  pub insert_before-splices :
      (dom : MockDom H) (parent child at : ℕ) (e : Element H) (reals : List ℕ)
      → get_elem? dom.nodes parent ≡ some (element e)
      → flatten dom child ≡ ok reals
      → (a : List ℕ) × (b : List ℕ) × (retain (λ c. not (holds reals c)) e.children ≡ a ++ b)
        × (holds a at ≡ false)
        × ((b ≡ []) ⊎ (front b ≡ some at))
        × (insert_before dom parent child at
            ≡ ok (record dom {
              nodes = set dom.nodes parent (element (record e { children = a ++ (reals ++ b) }));
            }))
  unfolding insert_before
  insert_before-splices dom parent child at e reals h k =
      let (a, b, split, placed, clear, next) =
        place_before-split at reals (retain (λ c. not (holds reals c)) e.children) in
      (
        a,
        b,
        split,
        clear,
        next,
        rw
            (
              k,
              with_element-element dom parent e
                  (λ x. record x {
                    children = place_before at reals (retain (λ c. not (holds reals c)) x.children);
                  })
                  h,
              placed,
            )
            refl,
      )
