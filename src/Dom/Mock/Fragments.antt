-- ===== src/Dom/Mock/Fragments.antt =====
-- The walk into fragments, `real_nodes` of crates/vue-rs-dom/src/mock.rs.
use vue_rs.Base.{
  ℕ, zero, suc, ◌<◌, ◌≡◌, ◌≢◌, refl, sym, ap, ◌∙◌, Option, some, List, [], ◌∷◌, ◌++◌, ◌==◌, arith,
  length, get_elem?, get_elem?_of_lt, get_elem?-push, get_elem?-push_self, get_elem?-push_lt,
  length-append, ==_iff, Bool-cases, Option-cases, inl, inr,
}
use vue_rs.Dom.Mock.{
  ok, Outcome, NodeData, element, text, anchor, fragment, MockDom, node_at, gather, create_fragment,
  push,
}
use vue_rs.Dom.Mock.Children.{real_nodes, flatten}

-- Every handle in the list is below the bound.
pub data Below (n : ℕ) : List ℕ → Type 0 where
  empty : Below n []
  cons : {c : ℕ} {cs : List ℕ} → c < n → Below n cs → Below n (c ∷ cs)

gather-same :
    (f g : ℕ → Outcome (List ℕ)) (n : ℕ) (cs : List ℕ)
    → ((c : ℕ) → c < n → f c ≡ g c)
    → Below n cs
    → gather f cs ≡ gather g cs
unfolding gather
gather-same f g n [] h empty = refl
gather-same f g n (c ∷ cs) h (cons lt b) = rw (gather, h c lt, gather-same f g n cs h b) refl

module _ {H : Type 0} where
  -- A fragment holds nodes that were made before it.
  pub record IsNested (dom : MockDom H) : Type 0 where
    pub older : (i : ℕ) (cs : List ℕ) → get_elem? dom.nodes i ≡ some (fragment cs) → Below i cs

  -- The handles of nodes that are there and are no fragments.
  pub data Plain (dom : MockDom H) : List ℕ → Type 0 where
    done : Plain dom []
    more :
        {c : ℕ} {cs : List ℕ} (d : NodeData H)
        → get_elem? dom.nodes c ≡ some d
        → ((ds : List ℕ) → d ≢ fragment ds)
        → Plain dom cs
        → Plain dom (c ∷ cs)

  Plain-append :
      {dom : MockDom H} {xs ys : List ℕ} → Plain dom xs → Plain dom ys → Plain dom (xs ++ ys)
  Plain-append done q = q
  Plain-append (more d e n p) q = more d e n (Plain-append p q)

  gather-Plain :
      (dom : MockDom H) (f : ℕ → Outcome (List ℕ)) (n : ℕ) (cs : List ℕ)
      → ((c : ℕ) → c < n → (r : List ℕ) × (f c ≡ ok r) × Plain dom r)
      → Below n cs
      → (r : List ℕ) × (gather f cs ≡ ok r) × Plain dom r
  unfolding gather
  gather-Plain dom f n [] h empty = ([], refl, done)
  gather-Plain dom f n (c ∷ cs) h (cons lt b) =
      let (x, e, p) = h c lt in
      let (y, k, q) = gather-Plain dom f n cs h b in (x ++ y, rw (e, k) refl, Plain-append p q)

  -- One node, given the walk from older ones.
  node-Plain :
      (n : ℕ) (dom : MockDom H) (node : ℕ) (d : NodeData H)
      → ((c : ℕ) → c < node → (r : List ℕ) × (real_nodes n dom c ≡ ok r) × Plain dom r)
      → ((cs : List ℕ) → d ≡ fragment cs → Below node cs)
      → get_elem? dom.nodes node ≡ some d
      → (r : List ℕ) × (real_nodes (suc n) dom node ≡ ok r) × Plain dom r
  unfolding real_nodes node_at
  node-Plain n dom node (element x) walk b e =
      (node ∷ [], rw e refl, more (element x) e (λ ds h. absurd cc) done)
  node-Plain n dom node (text x) walk b e =
      (node ∷ [], rw e refl, more (text x) e (λ ds h. absurd cc) done)
  node-Plain n dom node anchor walk b e =
      (node ∷ [], rw e refl, more anchor e (λ ds h. absurd cc) done)
  node-Plain n dom node (fragment cs) walk b e =
      let (r, h, p) = gather-Plain dom (real_nodes n dom) node cs walk (b cs refl) in (r, rw e h, p)

  real_nodes-Plain :
      (n : ℕ) (dom : MockDom H) (node : ℕ)
      → IsNested dom
      → node < n
      → node < length dom.nodes
      → (r : List ℕ) × (real_nodes n dom node ≡ ok r) × Plain dom r
  real_nodes-Plain zero dom node v lt k = absurd (ground arith)
  real_nodes-Plain (suc n) dom node v lt k =
      let (d, e) = get_elem?_of_lt dom.nodes node k in
      node-Plain n dom node d (λ c below. real_nodes-Plain n dom c v (ground arith) (ground arith))
        (λ cs h. v.older node cs (e ∙ ap some h)) e

  -- In a DOM whose fragments hold older nodes only, the walk from any node ends, and it leads to nodes
  -- that are there and are no fragments: what is put under an element is never a fragment.
  pub flatten-Plain :
      (dom : MockDom H) (node : ℕ)
      → IsNested dom
      → node < length dom.nodes
      → (r : List ℕ) × (flatten dom node ≡ ok r) × Plain dom r
  unfolding flatten
  flatten-Plain dom node v lt =
      real_nodes-Plain (suc (length dom.nodes)) dom node v (ground arith) lt

  abbrev members : List ℕ → Option (NodeData H) → List ℕ
  members or (some (fragment ds)) = ds
  members or _ = or

  created-IsNested :
      (dom : MockDom H) (cs : List ℕ)
      → Below (length dom.nodes) cs
      → IsNested dom
      → IsNested (create_fragment dom cs).1
  unfolding create_fragment push
  created-IsNested dom cs b v = record {
    older = λ i ds h. elim (Bool-cases (i == length dom.nodes)) [
      | inl e ↦
          let same : some (fragment cs) ≡ some (fragment ds) =
            ground (arith, e, h, get_elem?-push dom.nodes (fragment cs) i) in
          rw (ap (members cs) (sym same), (==_iff i (length dom.nodes)).0 e) b
      | inr e ↦ v.older i ds (ground (arith, e, h, get_elem?-push dom.nodes (fragment cs) i))
    ];
  }

  -- The walk from a node reads older nodes only, and more rounds than it needs do not change it.
  real_nodes-same :
      (n m : ℕ) (dom after : MockDom H) (node : ℕ)
      → ((i : ℕ) → i < suc node → get_elem? after.nodes i ≡ get_elem? dom.nodes i)
      → IsNested dom
      → node < n
      → node < m
      → real_nodes n after node ≡ real_nodes m dom node
  unfolding real_nodes node_at
  real_nodes-same zero m dom after node same v lt k = absurd (ground arith)
  real_nodes-same (suc n) zero dom after node same v lt k = absurd (ground arith)
  real_nodes-same (suc n) (suc m) dom after node same v lt k =
      elim (Option-cases (get_elem? dom.nodes node)) [
        | inl e ↦ rw (real_nodes, node_at, same node (ground arith), e) refl
        | inr (element x, e) ↦ rw (real_nodes, node_at, same node (ground arith), e) refl
        | inr (text x, e) ↦ rw (real_nodes, node_at, same node (ground arith), e) refl
        | inr (anchor, e) ↦ rw (real_nodes, node_at, same node (ground arith), e) refl
        | inr (fragment cs, e) ↦
            rw (real_nodes, node_at, same node (ground arith), e)
              (gather-same (real_nodes n after) (real_nodes m dom) node cs
                (λ c below.
                  real_nodes-same n m dom after c (λ i lt'. same i (ground arith)) v (ground arith)
                    (ground arith))
                (v.older node cs e))
      ]

  -- A new fragment of nodes that are there stands for the nodes its members stand for, in their order,
  -- and in the DOM behind it fragments still hold older nodes only.
  pub create_fragment-flatten :
      (dom : MockDom H) (cs : List ℕ)
      → Below (length dom.nodes) cs
      → IsNested dom
      → IsNested (create_fragment dom cs).1
        × (flatten (create_fragment dom cs).1 (create_fragment dom cs).0 ≡ gather (flatten dom) cs)
  unfolding create_fragment push flatten real_nodes node_at
  create_fragment-flatten dom cs b v = (
    created-IsNested dom cs b v,
    rw (real_nodes, node_at, get_elem?-push_self dom.nodes (fragment cs))
        (gather-same _ _ (length dom.nodes) cs
          (λ c lt.
            real_nodes-same _ (suc (length dom.nodes)) dom _ c
              (λ i below. get_elem?-push_lt dom.nodes (fragment cs) i (ground arith)) v
              (ground (arith, length-append dom.nodes (fragment cs ∷ []))) (ground arith))
          b),
  )
