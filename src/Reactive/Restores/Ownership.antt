-- ===== src/Reactive/Restores/Ownership.antt =====
-- Creation, teardown and scopes, and the scope that they put back.
use vue_rs.Base.{ℕ, zero, suc, ◌≡◌, refl, Bool, Option, none, some, Option-cases, inl, inr}
use vue_rs.Reactive.Arena.{NodeId, Arena, insert, remove}
use vue_rs.Reactive.Arena.Laws.{IsSound, insert-Inserts, remove-IsSound}
use vue_rs.Reactive.State.{TypeId, Prog, Kind, root, Node}
use vue_rs.Reactive.Monad.{M}
use vue_rs.Reactive.Ownership.{
  insert_node, remove_node, new_node, record_dependency, take_owned, take_cleanups,
  run_owner_teardown, forget_node, dispose_node, run_under, run_scoped, run_in_scope, untrack,
  new_detached, new_root, run_in_new_root, run_in_child_scope, scope_run, scope_walk, nearest_scope,
  on_cleanup, on_scope_dispose, provide_context, context_walk, use_context,
}
use vue_rs.Reactive.Restores.{
  returns, panics, Restores, restoring, Restores-bracket, Restores-bind, Restores-then, Restores-if,
  Restores-pure, Restores-gets, Restores-nodes,
}
use vue_rs.Reactive.Restores.Links.{link_rules}

module _ {V : Type 0} where
  insert-IsSound :
      (t : Arena (Node V)) (a : Node V) (r : Arena (Node V) × NodeId)
      → insert t a ≡ some r
      → IsSound t
      → IsSound r.0
  insert-IsSound t a r e v =
      let (q, e', i) = insert-Inserts t a v in let same : q ≡ r = cc in rw (← same) i.sound

  Restores-insert_node : (node : Node V) → Restores (insert_node node)
  unfolding insert_node
  Restores-insert_node node = record {
    leaves = λ s. elim (Option-cases (insert s.nodes node)) [
      | inl e ↦ rw e panics
      | inr (r, e) ↦ rw e (
          returns (record {
            observer = refl;
            owner = refl;
            batch_depth = refl;
            reading_depth = refl;
            sound = insert-IsSound s.nodes node r e;
            pending = λ h. h;
            sync_pending = λ h. h;
          }))
    ];
  }

  Restores-remove_node : (id : NodeId) → Restores {V = V} (remove_node id)
  unfolding remove_node
  Restores-remove_node id =
      Restores-nodes (λ s. (remove s.nodes id).0) (λ s. remove-IsSound s.nodes id)

  pub Restores-new_node : (kind : Kind V) (value : Option V) → Restores (new_node kind value)
  unfolding new_node
  Restores-new_node kind value = search (restoring, Restores-insert_node) depth 20

  pub Restores-record_dependency : (source : NodeId) → Restores {V = V} (record_dependency source)
  unfolding record_dependency
  Restores-record_dependency source = search (restoring, link_rules) depth 20

  Restores-take_owned : (id : NodeId) → Restores {V = V} (take_owned id)
  unfolding take_owned
  Restores-take_owned id = search restoring depth 20

  Restores-take_cleanups : (id : NodeId) → Restores {V = V} (take_cleanups id)
  unfolding take_cleanups
  Restores-take_cleanups id = search restoring depth 20

  Restores-forget_node : (id : NodeId) → Restores {V = V} (forget_node id)
  unfolding forget_node
  Restores-forget_node id = search (restoring, link_rules, Restores-remove_node) depth 20

  -- The previous observer and owner come back, whatever the body leaves in their place.
  pub Restores-run_under :
      {A : Type 0} (observer owner : Option NodeId) (body : M V A)
      → Restores body
      → Restores (run_under observer owner body)
  unfolding run_under
  Restores-run_under observer owner body =
      Restores-bracket (λ s. record s { observer = observer; owner = owner })
        (λ s u. record u { observer = s.observer; owner = s.owner }) body
        λ s u p. record {
          observer = refl;
          owner = refl;
          batch_depth = p.batch_depth;
          reading_depth = p.reading_depth;
          sound = p.sound;
          pending = p.pending;
          sync_pending = p.sync_pending;
        }

  pub Restores-untrack : {A : Type 0} (body : M V A) → Restores body → Restores (untrack body)
  unfolding untrack
  Restores-untrack body =
      Restores-bracket (λ s. record s { observer = none })
        (λ s u. record u { observer = s.observer }) body
        λ s u p. record {
          observer = refl;
          owner = p.owner;
          batch_depth = p.batch_depth;
          reading_depth = p.reading_depth;
          sound = p.sound;
          pending = p.pending;
          sync_pending = p.sync_pending;
        }

  pub Restores-new_detached : Restores {V = V} new_detached
  unfolding new_detached
  Restores-new_detached =
      Restores-bracket (λ s. record s { owner = none }) (λ s u. record u { owner = s.owner })
        (new_node root none)
        (λ s u p. record {
          observer = p.observer;
          owner = refl;
          batch_depth = p.batch_depth;
          reading_depth = p.reading_depth;
          sound = p.sound;
          pending = p.pending;
          sync_pending = p.sync_pending;
        })
        (Restores-new_node root none)

  pub Restores-run_scoped :
      {A : Type 0} (id : NodeId) (body : M V A) → Restores body → Restores (run_scoped id body)
  unfolding run_scoped
  Restores-run_scoped id body = Restores-run_under (some id) (some id) body

  Restores-run_in_scope :
      {A : Type 0} (id : NodeId) (body : M V A) → Restores body → Restores (run_in_scope id body)
  unfolding run_in_scope
  Restores-run_in_scope id body = Restores-run_under none (some id) body

  pub Restores-new_root : (detached : Bool) → Restores {V = V} (new_root detached)
  unfolding new_root
  Restores-new_root detached = search (restoring, Restores-new_detached, Restores-new_node) depth 20

  pub Restores-run_in_new_root :
      {A : Type 0} (detached : Bool) (body : M V A)
      → Restores body
      → Restores (run_in_new_root detached body)
  unfolding run_in_new_root
  Restores-run_in_new_root detached body h =
      search (restoring, Restores-new_root, Restores-run_in_scope) depth 20

  pub Restores-run_in_child_scope :
      {A : Type 0} (body : M V A) → Restores body → Restores (run_in_child_scope body)
  unfolding run_in_child_scope
  Restores-run_in_child_scope body h =
      search (restoring, Restores-new_node, Restores-run_in_scope) depth 20

  pub Restores-scope_run :
      {A : Type 0} (id : NodeId) (body : M V A) → Restores body → Restores (scope_run id body)
  unfolding scope_run
  Restores-scope_run id body h = search (restoring, Restores-run_in_scope) depth 20

  Restores-scope_walk : (n : ℕ) (cur : Option NodeId) → Restores {V = V} (scope_walk n cur)
  unfolding scope_walk
  Restores-scope_walk zero cur = search restoring depth 20
  Restores-scope_walk (suc n) none = search restoring depth 20
  Restores-scope_walk (suc n) (some id) = search (restoring, Restores-scope_walk n) depth 20

  pub Restores-nearest_scope : Restores {V = V} nearest_scope
  unfolding nearest_scope
  Restores-nearest_scope = search (restoring, Restores-scope_walk) depth 20

  pub Restores-on_cleanup : (f : Prog V) → Restores (on_cleanup f)
  unfolding on_cleanup
  Restores-on_cleanup f = search restoring depth 20

  pub Restores-on_scope_dispose : (f : Prog V) → Restores (on_scope_dispose f)
  unfolding on_scope_dispose
  Restores-on_scope_dispose f = search (restoring, Restores-nearest_scope) depth 20

  pub Restores-provide_context : (t : TypeId) (v : V) → Restores (provide_context t v)
  unfolding provide_context
  Restores-provide_context t v = search restoring depth 20

  Restores-context_walk :
      (t : TypeId) (n : ℕ) (cur : Option NodeId) → Restores {V = V} (context_walk t n cur)
  unfolding context_walk
  Restores-context_walk t zero cur = search restoring depth 20
  Restores-context_walk t (suc n) none = search restoring depth 20
  Restores-context_walk t (suc n) (some id) = search (restoring, Restores-context_walk t n) depth 20

  pub Restores-use_context : (t : TypeId) → Restores {V = V} (use_context t)
  unfolding use_context
  Restores-use_context t = search (restoring, Restores-context_walk) depth 20

module _ {V : Type 0} (run : Prog V → M V V) (runs : (p : Prog V) → Restores (run p)) where
  pub Restores-run_owner_teardown :
      (dispose : NodeId → M V (Unit {0})) (id : NodeId)
      → ((child : NodeId) → Restores (dispose child))
      → Restores (run_owner_teardown run dispose id)
  unfolding run_owner_teardown
  Restores-run_owner_teardown dispose id h =
      search (restoring, Restores-take_owned, Restores-take_cleanups) depth 20

  pub Restores-dispose_node : (n : ℕ) (id : NodeId) → Restores (dispose_node run n id)
  unfolding dispose_node
  Restores-dispose_node zero id = search restoring depth 20
  Restores-dispose_node (suc n) id = Restores-bind (Restores-gets _) λ alive.
      Restores-if alive
        (Restores-then
          (Restores-run_owner_teardown (dispose_node run n) id
            (λ child. Restores-dispose_node n child))
          (Restores-forget_node id))
        (Restores-pure tt)
