-- ===== src/Reactive/Restores/Exec.antt =====
-- The execution of a closure, and the scope that it puts back.
use vue_rs.Base.{ℕ, zero, suc, ◌≡◌, ap, Bool, Option}
use vue_rs.Reactive.Arena.{NodeId}
use vue_rs.Reactive.State.{CellId, Flush, Prog, Runtime}
use vue_rs.Reactive.Monad.{M, Run, ok, state_or}
use vue_rs.Reactive.Exec.{
  install_eq, make_signal, new_computed, make_memo, writable_computed, new_cell, take_cell,
  put_cell, make_effect, watch_with, set_through_setter, flush_mounted, exec, initial,
}
use vue_rs.Reactive.Restores.{Kept, Leaves, returns, panics, starves, Restores, restoring, Once}
use vue_rs.Reactive.Arena.Laws.{IsSound, new-IsSound}
use vue_rs.Reactive.Restores.Ownership.{
  Restores-new_node, Restores-untrack, Restores-new_root, Restores-run_in_new_root,
  Restores-run_in_child_scope, Restores-scope_run, Restores-nearest_scope, Restores-on_cleanup,
  Restores-on_scope_dispose, Restores-provide_context, Restores-use_context, Restores-dispose_node,
}
use vue_rs.Reactive.Restores.Propagation.{Restores-set_state, Restores-update_if_necessary}
use vue_rs.Reactive.Restores.Flush.{
  Restores-set_value, Restores-update_value, Restores-read_with, Restores-next_tick,
  Restores-queue_post, Restores-flush_jobs, Restores-batch,
}

module _ {V : Type 0} where
  Restores-install_eq : (id : NodeId) (eq : Option (V → V → Bool)) → Restores (install_eq id eq)
  unfolding install_eq
  Restores-install_eq id eq = search restoring depth 20

  Restores-make_signal : (eq : Option (V → V → Bool)) (v : V) → Restores (make_signal eq v)
  unfolding make_signal
  Restores-make_signal eq v = search (restoring, Restores-new_node, Restores-install_eq) depth 20

  Restores-new_computed : (f : Prog V) → Restores (new_computed f)
  unfolding new_computed
  Restores-new_computed f = search (restoring, Restores-new_node, Restores-set_state) depth 20

  Restores-make_memo : (eq : Option (V → V → Bool)) (f : Prog V) → Restores (make_memo eq f)
  unfolding make_memo
  Restores-make_memo eq f = search (restoring, Restores-new_computed, Restores-install_eq) depth 20

  Restores-writable_computed :
      (eq : V → V → Bool) (f : Prog V) (setter : V → Prog V)
      → Restores (writable_computed eq f setter)
  unfolding writable_computed
  Restores-writable_computed eq f setter =
      search (restoring, Restores-new_computed, Restores-install_eq) depth 20

  Restores-new_cell : Restores {V = V} new_cell
  unfolding new_cell
  Restores-new_cell = search restoring depth 20

  Restores-take_cell : (c : CellId) → Restores {V = V} (take_cell c)
  unfolding take_cell
  Restores-take_cell c = search restoring depth 20

  Restores-put_cell : (c : CellId) (v : V) → Restores (put_cell c v)
  unfolding put_cell
  Restores-put_cell c v = search restoring depth 20

module _ {V : Type 0} (run : Prog V → M V V) (runs : (p : Prog V) → Restores (run p)) where
  Restores-make_effect : (n : ℕ) (f : Prog V) (sync : Bool) → Restores (make_effect run n f sync)
  unfolding make_effect
  Restores-make_effect n f sync =
      search
        (restoring, Restores-new_node, Restores-set_state, Restores-update_if_necessary run runs)
        depth 20

  Restores-watch_with :
      (n : ℕ) (immediate : Bool) (flush : Flush) (ne : V → V → Bool) (source : Prog V)
      (callback : V → Option V → Prog V)
      → Restores (watch_with run n immediate flush ne source callback)
  unfolding watch_with
  Restores-watch_with n immediate flush ne source callback =
      search (restoring, Restores-new_cell, Restores-make_effect) depth 20

  Restores-set_through_setter : (id : NodeId) (v : V) → Restores (set_through_setter run id v)
  unfolding set_through_setter
  Restores-set_through_setter id v = search (restoring, runs) depth 20

  Restores-flush_mounted : Restores (flush_mounted run)
  unfolding flush_mounted
  Restores-flush_mounted = search (restoring, runs) depth 20

ruleset call_rules = (
  Restores-make_signal, Restores-make_memo, Restores-writable_computed, Restores-new_cell,
  Restores-take_cell, Restores-put_cell, Restores-untrack, Restores-new_root,
  Restores-run_in_new_root, Restores-run_in_child_scope, Restores-scope_run, Restores-nearest_scope,
  Restores-on_cleanup, Restores-on_scope_dispose, Restores-provide_context, Restores-use_context,
)

ruleset closure_rules = (
  Restores-make_effect, Restores-watch_with, Restores-set_through_setter, Restores-flush_mounted,
  Restores-dispose_node, Restores-set_value, Restores-update_value, Restores-read_with,
  Restores-next_tick, Restores-queue_post, Restores-flush_jobs, Restores-batch,
)

Restores-step :
    {V : Type 0} (n : ℕ)
    → ((p : Prog V) → Restores (exec n p))
    → (p : Prog V) → Restores (exec (suc n) p)
unfolding exec
Restores-step n runs (Prog.ret v) = search restoring depth 20
Restores-step n runs p = search (restoring, call_rules, closure_rules, runs) depth 20

-- A closure that ends has put back the observer, the owner and the two depths.
pub Restores-exec : {V : Type 0} (n : ℕ) (p : Prog V) → Restores (exec n p)
unfolding exec
Restores-exec zero p = search restoring depth 20
Restores-exec (suc n) p = Restores-step n (λ q. Restores-exec n q) p

-- The state that a returned result came back with.
Leaves-Kept :
    {V A : Type 0} {s t : Runtime V} {a : A} {r : Run (Runtime V) A}
    → Leaves s r
    → r ≡ ok a t
    → Kept s t
Leaves-Kept {s} (returns {t = u} k) e = rw (← ap (state_or s) e) k
Leaves-Kept panics e = absurd cc
Leaves-Kept starves e = absurd cc

exec-Kept :
    {V : Type 0} (n : ℕ) (p : Prog V) (s : Runtime V) {a : V} {t : Runtime V}
    → exec n p s ≡ ok a t
    → Kept s t
exec-Kept n p s h = Leaves-Kept ((Restores-exec n p).leaves s) h

-- The arena of nodes is sound, and neither queue holds a node twice.
pub record IsTidy {V : Type 0} (s : Runtime V) : Type 0 where
  pub sound : IsSound s.nodes
  pub pending : Once s.pending
  pub sync_pending : Once s.sync_pending

pub initial-IsTidy : {V : Type 0} → IsTidy (initial {V = V})
unfolding initial
initial-IsTidy = record { sound = new-IsSound; pending = tt; sync_pending = tt }

-- Every closure that returns, from a state whose arena is sound and whose queues hold no node twice,
-- leaves such a state.
pub exec-IsTidy :
    {V : Type 0} (n : ℕ) (p : Prog V) (s : Runtime V) {a : V} {t : Runtime V}
    → exec n p s ≡ ok a t
    → IsTidy s
    → IsTidy t
exec-IsTidy n p s h v =
    let k = exec-Kept n p s h in
    record {
      sound = k.sound v.sound;
      pending = k.pending v.pending;
      sync_pending = k.sync_pending v.sync_pending;
    }

-- Every closure that returns has put back the observer, the owner, the batch depth and the reading
-- depth that it started with.
pub exec-restores :
    {V : Type 0} (n : ℕ) (p : Prog V) (s : Runtime V) {a : V} {t : Runtime V}
    → exec n p s ≡ ok a t
    → (t.observer ≡ s.observer)
      × (t.owner ≡ s.owner)
      × (t.batch_depth ≡ s.batch_depth)
      × (t.reading_depth ≡ s.reading_depth)
exec-restores n p s h =
    let k = exec-Kept n p s h in (k.observer, k.owner, k.batch_depth, k.reading_depth)
