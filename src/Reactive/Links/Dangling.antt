-- ===== src/Reactive/Links/Dangling.antt =====
-- A dependency that goes away under the cursor of a running node.
use vue_rs.Base.{
  ◌≡◌, refl, sym, ap, ◌∙◌, true, Option, none, some, arith, inl, inr, and_then, Option-cases,
  Bool-cases, get_elem?, get_elem?-set, get_elem?-lt,
}
use vue_rs.Reactive.Arena.{NodeId, same_id, Arena}
use vue_rs.Reactive.Arena
use vue_rs.Reactive.Arena.Laws.{get-modify}
use vue_rs.Reactive.State.{LinkId, Link, Node, Runtime}
use vue_rs.Reactive.Monad.{Run, ok, panic, continue, state_or, ◌>>◌, match_option}
use vue_rs.Reactive.Links.{
  node?, link?, modify_node, link_ref, modify_link, free_link, unlink_from_sub_deps, end_tracking,
}
use vue_rs.Reactive.Settled.{continue-ok}

same_id→eq : (a b : NodeId) → same_id a b ≡ true → a ≡ b
same_id→eq a b h =
    let index : a.index ≡ b.index = ground arith in
    let generation : a.generation ≡ b.generation = ground arith in
    λ i. record { index = index i; generation = generation i }

module _ {V : Type 0} where
  -- The tracking cursor of a node.
  abbrev pub cursor : NodeId → Runtime V → Option LinkId
  cursor sub s = and_then (node? sub s) (λ n. n.deps_tail)

  -- A write to another field keeps the cursor.
  modify_node-cursor :
      (id sub : NodeId) (f : Node V → Node V) (s : Runtime V)
      → ((n : Node V) → (f n).deps_tail ≡ n.deps_tail)
      → cursor sub (record s { nodes = Arena.modify s.nodes id f }) ≡ cursor sub s
  modify_node-cursor id sub f s h = elim (Option-cases (Arena.get s.nodes id)) [
    | inl e ↦ ground (arith, get-modify s.nodes id sub f, e, same_id→eq id sub)
    | inr (n, e) ↦ elim (Bool-cases (same_id id sub)) [
      | inl same ↦ ground (
        arith,
        get-modify s.nodes id sub f,
        e,
        same,
        ap (λ i. Arena.get s.nodes i) (same_id→eq id sub same),
        h n,
      )
      | inr other ↦ ground (arith, get-modify s.nodes id sub f, e, other)
    ]
  ]

  modify_link-nodes :
      (l : LinkId) (f : Link → Link) (s : Runtime V) {u : Unit {0}} {t : Runtime V}
      → modify_link l f s ≡ ok u t
      → t.nodes ≡ s.nodes
  unfolding modify_link link_ref
  modify_link-nodes l f s h = elim (Option-cases (link? l s)) [
    | inl e ↦ absurd (ground (arith, e, h))
    | inr (k, e) ↦ sym (ap (λ r. (state_or s r).nodes) h) ∙ rw e refl
  ]

  free_link-vacates :
      (c : LinkId) (s : Runtime V) {u : Unit {0}} {t : Runtime V}
      → free_link c s ≡ ok u t
      → (t.nodes ≡ s.nodes) × (link? c t ≡ none)
  unfolding free_link
  free_link-vacates c s h = elim (Option-cases (get_elem? s.links c)) [
    | inl e ↦ absurd (ground (arith, e, h))
    | inr (o, e) ↦ (
      sym (ap (λ r. (state_or s r).nodes) h) ∙ rw e refl,
      sym (ap (λ r. link? c (state_or s r)) h)
          ∙ (rw e (ground (arith, get_elem?-set s.links c c none, get_elem?-lt s.links c e))),
    )
  ]

  -- The part of `unlink_from_sub_deps` on the link in front.
  prev-cursor :
      (prev : Option LinkId) (sub : NodeId) (k : Link) (s : Runtime V) {u : Unit {0}}
      {t : Runtime V}
      → (match_option prev
            (modify_node k.sub λ n. record n { deps = k.next_dep })
            (λ p. modify_link p λ l. record l { next_dep = k.next_dep }))
          s
        ≡ ok u t
      → cursor sub t ≡ cursor sub s
  prev-cursor none sub k s h =
      sym (ap (λ r. cursor sub (state_or s r)) h)
      ∙ modify_node-cursor k.sub sub (λ n. record n { deps = k.next_dep }) s (λ n. refl)
  prev-cursor (some p) sub k s h =
      ap (λ nodes. and_then (Arena.get nodes sub) (λ n. n.deps_tail))
        (modify_link-nodes p (λ l. record l { next_dep = k.next_dep }) s h)

  end_tracking-dangling :
      (c : LinkId) (sub : NodeId) (s : Runtime V)
      → cursor sub s ≡ some c
      → link? c s ≡ none
      → end_tracking sub s ≡ panic
  unfolding end_tracking link_ref
  end_tracking-dangling c sub s h k = rw (h, k) refl

  unlink-cursor :
      (c nx : LinkId) (sub : NodeId) (k : Link) (s : Runtime V) {u : Unit {0}} {t : Runtime V}
      → link? c s ≡ some k
      → k.next_dep ≡ some nx
      → unlink_from_sub_deps c s ≡ ok u t
      → cursor sub t ≡ cursor sub s
  unfolding unlink_from_sub_deps link_ref
  unlink-cursor c nx sub k s {u} {t} e n h =
      let back : Unit {0} → Runtime V → Run (Runtime V) (Unit {0}) =
        λ _ v. modify_link nx (λ l. record l { prev_dep = k.prev_dep }) v in
      let first : Run (Runtime V) (Unit {0}) =
        match_option k.prev_dep (modify_node k.sub λ m. record m { deps = k.next_dep })
          (λ p. modify_link p λ l. record l { next_dep = k.next_dep }) s in
      let split : unlink_from_sub_deps c s ≡ continue first back = rw (e, n) refl in
      let (_, v, before, after) = continue-ok first {f = back} (sym split ∙ h) in
      ap (λ nodes. and_then (Arena.get nodes sub) (λ m. m.deps_tail))
        (modify_link-nodes nx (λ l. record l { prev_dep = k.prev_dep }) v after)
      ∙ prev-cursor k.prev_dep sub k s before

  -- A link that leaves the list of a node while the cursor of that node stands on it and another link
  -- follows leaves the cursor on the freed link, and the end of the node's run panics.
  pub end_tracking-panics :
      (c nx : LinkId) (sub : NodeId) (k : Link) (s : Runtime V) {u : Unit {0}} {t : Runtime V}
      → link? c s ≡ some k
      → k.next_dep ≡ some nx
      → cursor sub s ≡ some c
      → (unlink_from_sub_deps c >> free_link c) s ≡ ok u t
      → end_tracking sub t ≡ panic
  end_tracking-panics c nx sub k s {u} {t} e n at h =
      let (_, v, unlinked, freed) = continue-ok (unlink_from_sub_deps c s) h in
      let (same, gone) = free_link-vacates c v freed in
      end_tracking-dangling c sub t
        (ap (λ nodes. and_then (Arena.get nodes sub) (λ n. n.deps_tail)) same
          ∙ unlink-cursor c nx sub k s e n unlinked
          ∙ at)
        gone
