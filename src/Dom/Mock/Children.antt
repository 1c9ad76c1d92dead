-- ===== src/Dom/Mock/Children.antt =====
-- The children of an element, crates/vue-rs-dom/src/mock.rs: a fragment is spliced into its parent.
use vue_rs.Base.{ℕ, zero, suc, true, false, not, List, [], ◌∷◌, ◌++◌, ◌==◌, retain, length}
use vue_rs.Dom.Mock.{
  Outcome, ok, starved, ◌>>=◌, fragment, MockDom, gather, node_at, with_element, holds,
}

-- The new children in front of the anchor, or last where it is not among the children.
unfoldable pub place_before : ℕ → List ℕ → List ℕ → List ℕ
place_before at reals [] = reals
place_before at reals (c ∷ cs) = elim (c == at) [
  | true ↦ reals ++ c ∷ cs
  | false ↦ c ∷ place_before at reals cs
]

module _ {H : Type 0} where
  unfoldable pub real_nodes : ℕ → MockDom H → ℕ → Outcome (List ℕ)
  unfolding node_at gather
  real_nodes zero dom node = starved
  real_nodes (suc n) dom node = do
    found ← node_at dom node
    elim found [ fragment children ↦ gather (real_nodes n dom) children | _ ↦ ok (node ∷ []) ]

  -- The walk behind `real_nodes` gets one more round than there are nodes.
  unfoldable pub flatten : MockDom H → ℕ → Outcome (List ℕ)
  unfolding real_nodes
  flatten dom node = real_nodes (suc (length dom.nodes)) dom node

  unfoldable pub append_child : MockDom H → ℕ → ℕ → Outcome (MockDom H)
  unfolding flatten with_element
  append_child dom parent child = do
    reals ← flatten dom child
    with_element dom parent (λ e. record e { children = e.children ++ reals })

  unfoldable pub insert_before : MockDom H → ℕ → ℕ → ℕ → Outcome (MockDom H)
  unfolding flatten with_element place_before holds
  insert_before dom parent child at = do
    reals ← flatten dom child
    with_element dom parent (λ e. record e {
      children = place_before at reals (retain (λ c. not (holds reals c)) e.children);
    })

  unfoldable pub remove_child : MockDom H → ℕ → ℕ → Outcome (MockDom H)
  unfolding flatten with_element holds
  remove_child dom parent child = do
    reals ← flatten dom child
    with_element dom parent
        (λ e. record e { children = retain (λ c. not (holds reals c)) e.children })
