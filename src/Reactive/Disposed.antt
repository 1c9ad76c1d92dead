-- ===== src/Reactive/Disposed.antt =====
-- A disposed node: `dispose_node` of runtime.rs.
use vue_rs.Base.{
  ℕ, zero, suc, ◌≡◌, refl, sym, ap, ◌∙◌, false, Option, none, arith, Bool-cases, Option-cases, inl,
  inr, retain, not,
}
use vue_rs.Reactive.Arena.{NodeId, same_id}
use vue_rs.Reactive.Arena
use vue_rs.Reactive.Arena.Laws.{get-remove, same_id_refl}
use vue_rs.Reactive.State.{Prog, Runtime}
use vue_rs.Reactive.Monad.{ok, M, state_or, match_option, skip, ◌>>=◌, ◌>>◌}
use vue_rs.Reactive.Links.{node?, node_field, modify_node, clear_deps, detach_subs}
use vue_rs.Reactive.Ownership.{run_owner_teardown, forget_node, remove_node, dispose_node}
use vue_rs.Reactive.Settled.{continue-ok}

module _ {V : Type 0} where
  remove_node-gone :
      (id : NodeId) (s : Runtime V) {u : Unit {0}} {t : Runtime V}
      → remove_node id s ≡ ok u t
      → node? id t ≡ none
  unfolding remove_node
  remove_node-gone id s h =
      sym (ap (λ r. node? id (state_or s r)) h)
      ∙ (get-remove s.nodes id id ∙ rw (same_id_refl id) refl)

  -- A sequence ends in what its last part ends in.
  then-gone :
      {A B : Type 0} (id : NodeId) (m : M V A) (f : A → M V B) (s : Runtime V) {b : B}
      {t : Runtime V}
      → ((a : A) (v : Runtime V) (c : B) (w : Runtime V) → f a v ≡ ok c w → node? id w ≡ none)
      → (m >>= f) s ≡ ok b t
      → node? id t ≡ none
  then-gone id m f s {b} {t} g h = let (a, v, _, k) = continue-ok (m s) {f = f} h in g a v b t k

  abbrev disown : NodeId → Option NodeId → M V (Unit {0})
  disown id owner =
      match_option owner skip
        (λ o. modify_node o λ n. record n { owned = retain (λ x. not (same_id x id)) n.owned })

  forget_node-gone :
      (id : NodeId) (s : Runtime V) {u : Unit {0}} {t : Runtime V}
      → forget_node id s ≡ ok u t
      → node? id t ≡ none
  unfolding forget_node
  forget_node-gone id s h =
      let last : Option NodeId → M V (Unit {0}) = λ owner. disown id owner >> remove_node id in
      let owned : M V (Unit {0}) = node_field id (λ n. n.owner) >>= last in
      then-gone id (clear_deps id) (λ _. detach_subs id >> owned) s
        (λ _ v _ _ k.
          then-gone id (detach_subs id) (λ _. owned) v
            (λ _ w _ _ l.
              then-gone id (node_field id (λ n. n.owner)) last w
                (λ o x _ _ m.
                  then-gone id (disown id o) (λ _. remove_node id) x
                    (λ _ y _ _ r. remove_node-gone id y r) m)
                l)
            k)
        h

  contains-none :
      (id : NodeId) (s : Runtime V) → Arena.contains s.nodes id ≡ false → node? id s ≡ none
  unfolding Arena.contains
  contains-none id s h = elim (Option-cases (node? id s)) [
    | inl e ↦ e
    | inr (n, e) ↦ absurd (ground (arith, e, h))
  ]

-- A node that has been disposed of is gone: when `dispose_node` returns, its handle reads nothing,
-- whether the node was alive before or not, and whatever its cleanups did.
pub dispose_node-gone :
    {V : Type 0} (run : Prog V → M V V) (n : ℕ) (id : NodeId) (s : Runtime V) {u : Unit {0}}
    {t : Runtime V}
    → dispose_node run n id s ≡ ok u t
    → node? id t ≡ none
unfolding dispose_node
dispose_node-gone run zero id s h = absurd cc
dispose_node-gone run (suc n) id s {u} {t} h = elim (Bool-cases (Arena.contains s.nodes id)) [
  | inr e ↦
      let same : ok tt s ≡ ok u t = sym (rw e refl) ∙ h in
      sym (ap (λ r. node? id (state_or s r)) same) ∙ contains-none id s e
  | inl e ↦
      then-gone id (run_owner_teardown run (dispose_node run n) id) (λ _. forget_node id) s
        (λ _ v _ _ k. forget_node-gone id v k) (sym (rw e refl) ∙ h)
]
