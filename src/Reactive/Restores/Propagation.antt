-- ===== src/Reactive/Restores/Propagation.antt =====
-- Propagation and recomputation, and the scope that they put back.
use vue_rs.Base.{ℕ, zero, suc, Option, List, [], ◌∷◌}
use vue_rs.Reactive.Arena.{NodeId}
use vue_rs.Reactive.State.{Freshness, Prog, Kind}
use vue_rs.Reactive.Monad.{M}
use vue_rs.Reactive.Ownership.{dispose_node}
use vue_rs.Reactive.Propagation.{
  is_sync, push_once, set_state, enqueue, mark_stale, dirty_subs, rerun, update_effect,
  store_computed, update_computed, update, verify, update_if_necessary,
}
use vue_rs.Reactive.Restores.{
  Restores, restoring, Restores-bind, Restores-then, Restores-if, Restores-pure, Restores-gets,
  Restores-pending, Restores-sync_pending, push_once-Once,
}
use vue_rs.Reactive.Restores.Links.{link_rules, Restores-start_tracking, Restores-end_tracking}
use vue_rs.Reactive.Restores.Ownership.{
  Restores-run_owner_teardown, Restores-dispose_node, Restores-run_scoped,
}

module _ {V : Type 0} where
  pub Restores-set_state : (id : NodeId) (st : Freshness) → Restores {V = V} (set_state id st)
  unfolding set_state
  Restores-set_state id st = search restoring depth 20

  Restores-enqueue : (id : NodeId) (kind : Kind V) → Restores (enqueue id kind)
  unfolding enqueue
  Restores-enqueue id kind =
      Restores-if (is_sync kind)
        (Restores-sync_pending (λ s. push_once id s.sync_pending)
          λ s. push_once-Once id s.sync_pending)
        (Restores-pending (λ s. push_once id s.pending) λ s. push_once-Once id s.pending)

  pub Restores-mark_stale :
      (n : ℕ) (id : NodeId) (target : Freshness) → Restores {V = V} (mark_stale n id target)
  unfolding mark_stale
  Restores-mark_stale zero id target = search restoring depth 20
  Restores-mark_stale (suc n) id target =
      search (restoring, link_rules, Restores-set_state, Restores-enqueue, Restores-mark_stale n)
        depth 20

  Restores-dirty_subs : (id : NodeId) → Restores {V = V} (dirty_subs id)
  unfolding dirty_subs
  Restores-dirty_subs id = search (restoring, link_rules) depth 20

module _ {V : Type 0} (run : Prog V → M V V) (runs : (p : Prog V) → Restores (run p)) where
  Restores-rerun : (n : ℕ) (id : NodeId) (body : Prog V) → Restores (rerun run n id body)
  unfolding rerun
  Restores-rerun n id body =
      Restores-then
        (Restores-run_owner_teardown run runs (dispose_node run n) id
          (Restores-dispose_node run runs n))
        (Restores-then (Restores-start_tracking id) (
          Restores-bind (Restores-run_scoped id (run body) (runs body))
            λ result. Restores-then (Restores-end_tracking id) (Restores-pure result)))

  Restores-update_effect :
      (n : ℕ) (id : NodeId) (kind : Kind V) → Restores (update_effect run n id kind)
  unfolding update_effect
  Restores-update_effect n id kind = search (restoring, Restores-rerun) depth 20

  Restores-store_computed :
      (id : NodeId) (body : Prog V) (new : V) → Restores (store_computed run id body new)
  unfolding store_computed
  Restores-store_computed id body new = search restoring depth 20

  Restores-update_computed :
      (n : ℕ) (id : NodeId) (kind : Option (Kind V)) → Restores (update_computed run n id kind)
  unfolding update_computed
  Restores-update_computed n id kind =
      search (restoring, Restores-rerun, Restores-store_computed, Restores-dirty_subs) depth 20

  Restores-update : (n : ℕ) (id : NodeId) → Restores (update run n id)
  unfolding update
  Restores-update n id =
      search (restoring, Restores-update_effect, Restores-update_computed) depth 20

  Restores-verify :
      (refresh : NodeId → M V (Unit {0})) (id : NodeId) (sources : List NodeId)
      → ((source : NodeId) → Restores (refresh source))
      → Restores (verify run refresh id sources)
  unfolding verify
  Restores-verify refresh id [] h = search restoring depth 20
  Restores-verify refresh id (source ∷ rest) h = Restores-then (h source) (
      Restores-bind (Restores-gets _)
        λ now_dirty. Restores-if now_dirty (Restores-pure tt) (Restores-verify refresh id rest h))

  pub Restores-update_if_necessary : (n : ℕ) (id : NodeId) → Restores (update_if_necessary run n id)
  unfolding update_if_necessary
  Restores-update_if_necessary zero id = search restoring depth 20
  Restores-update_if_necessary (suc n) id =
      let check_sources = λ (sources : List NodeId).
        Restores-verify (update_if_necessary run n) id sources
          (λ s. Restores-update_if_necessary n s) in
      search (restoring, link_rules, check_sources, Restores-update, Restores-set_state) depth 20
