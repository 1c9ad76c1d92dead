-- ===== src/Reactive/Exec.antt =====
-- The public interface of runtime.rs, and the execution of a closure that calls it. The fuel of
-- `exec` bounds the length of a closure and how deep calls nest; each call passes what is left of it
-- to the loops of the runtime.
use vue_rs.Base.{
  ℕ, zero, suc, Bool, true, false, Option, none, some, [], ◌∷◌, ◌++◌, if◌then◌else◌, maybe,
  and_then, length, get_elem?, set,
}
use vue_rs.Reactive.Arena.{NodeId}
use vue_rs.Reactive.Arena
use vue_rs.Reactive.State.{
  dirty, CellId, Flush, pre, synchronous, Prog, signal, computed, effect, root, Node, Runtime,
}
use vue_rs.Reactive.State
use vue_rs.Reactive.Monad.{
  M, pure, ◌>>=◌, ◌>>◌, starve, gets, modify_rt, skip, for_each, match_option,
}
use vue_rs.Reactive.Links.{node_field, modify_node}
use vue_rs.Reactive.Ownership.{
  new_node, new_root, dispose_node, untrack, run_in_new_root, run_in_child_scope, scope_run,
  nearest_scope, on_cleanup, on_scope_dispose, provide_context, use_context,
}
use vue_rs.Reactive.Propagation.{set_state, update_if_necessary}
use vue_rs.Reactive.Flush.{
  set_value, update_value, read_with, next_tick, queue_post, flush_jobs, batch,
}

module _ {V : Type 0} where
  unfoldable pub install_eq : NodeId → Option (V → V → Bool) → M V (Unit {0})
  install_eq id eq = modify_node id λ n. record n { eq = eq }

  -- `signal`, and `signal_raw` where there is no equality
  unfoldable pub make_signal : Option (V → V → Bool) → V → M V NodeId
  unfolding new_node install_eq
  make_signal eq v = do id ← new_node signal (some v); install_eq id eq; pure id

  unfoldable pub new_computed : Prog V → M V NodeId
  unfolding new_node set_state
  new_computed f = do id ← new_node (computed (some f)) none; set_state id dirty; pure id

  -- `computed`, and `computed_raw` where there is no equality
  unfoldable pub make_memo : Option (V → V → Bool) → Prog V → M V NodeId
  unfolding new_computed install_eq
  make_memo eq f = do id ← new_computed f; install_eq id eq; pure id

  unfoldable pub writable_computed : (V → V → Bool) → Prog V → (V → Prog V) → M V NodeId
  unfolding new_computed install_eq
  writable_computed eq f setter = do
    id ← new_computed f
    install_eq id (some eq)
    modify_node id (λ n. record n { setter = some setter })
    pure id

  unfoldable pub new_cell : M V CellId
  new_cell = do
    c ← gets (λ s. length s.cells)
    modify_rt (λ s. record s { cells = s.cells ++ none ∷ [] })
    pure c

  unfoldable pub take_cell : CellId → M V (Option V)
  take_cell c = do
    v ← gets (λ s. and_then (get_elem? s.cells c) (λ o. o))
    modify_rt (λ s. record s { cells = set s.cells c none })
    pure v

  unfoldable pub put_cell : CellId → V → M V (Unit {0})
  put_cell c v = modify_rt λ s. record s { cells = set s.cells c (some v) }

  -- The closure `run` of `watch_with`: `ne` is `!=`, and `prev` the captured previous value.
  unfoldable pub watcher :
      Bool → Flush → (V → V → Bool) → Prog V → (V → Option V → Prog V) → CellId → Prog V
  watcher immediate flush ne source callback prev = Prog.call source λ next.
      Prog.cell_take prev λ old. Prog.cell_put prev next (
        if maybe immediate (λ o. ne next o) old
        then (let invoke = Prog.untracked (callback next old) Prog.ret in
            elim flush [ State.post ↦ Prog.post invoke (Prog.ret next) | _ ↦ invoke ])
        else Prog.ret next)

module _ {V : Type 0} (run : Prog V → M V V) where
  unfoldable pub make_effect : ℕ → Prog V → Bool → M V (Unit {0})
  unfolding new_node set_state update_if_necessary
  make_effect n f sync = do
    id ← new_node (effect (some f) sync) none
    set_state id dirty
    update_if_necessary run n id

  abbrev pub is_synchronous : Flush → Bool
  is_synchronous synchronous = true
  is_synchronous _ = false

  unfoldable pub watch_with :
      ℕ → Bool → Flush → (V → V → Bool) → Prog V → (V → Option V → Prog V) → M V (Unit {0})
  unfolding new_cell watcher make_effect
  watch_with n immediate flush ne source callback = do
    prev ← new_cell
    make_effect n (watcher immediate flush ne source callback prev) (is_synchronous flush)

  unfoldable pub set_through_setter : NodeId → V → M V (Unit {0})
  set_through_setter id v = do
    setter ← node_field id (λ n. n.setter)
    modify_node id (λ n. record n { setter = none })
    match_option setter skip λ f. do run (f v); modify_node id (λ n. record n { setter = some f })

  unfoldable pub flush_mounted : M V (Unit {0})
  flush_mounted = do
    callbacks ← gets (λ s. s.mounted_queue)
    modify_rt (λ s. record s { mounted_queue = [] })
    for_each run callbacks

unfoldable pub exec : {V : Type 0} → ℕ → Prog V → M V V
unfolding make_signal make_memo writable_computed new_cell take_cell put_cell make_effect watch_with
    set_through_setter flush_mounted set_value update_value read_with next_tick queue_post
    flush_jobs batch new_root dispose_node untrack run_in_new_root run_in_child_scope scope_run
    nearest_scope on_cleanup on_scope_dispose provide_context use_context
exec zero p = starve
exec (suc n) (Prog.ret v) = pure v
exec (suc n) (Prog.read id f k) = do v ← read_with (exec n) n id f; exec n (k v)
exec (suc n) (Prog.write id v k) = set_value (exec n) n id v >> exec n k
exec (suc n) (Prog.update_in_place id f k) = update_value (exec n) n id f >> exec n k
exec (suc n) (Prog.write_through id v k) = set_through_setter (exec n) id v >> exec n k
exec (suc n) (Prog.new_signal eq v k) = do id ← make_signal eq v; exec n (k id)
exec (suc n) (Prog.new_memo eq f k) = do id ← make_memo eq f; exec n (k id)
exec (suc n) (Prog.new_writable eq f setter k) = do
  id ← writable_computed eq f setter
  exec n (k id)
exec (suc n) (Prog.new_effect f k) = make_effect (exec n) n f false >> exec n k
exec (suc n) (Prog.watch_source immediate flush ne source callback k) =
    watch_with (exec n) n immediate flush ne source callback >> exec n k
exec (suc n) (Prog.batched f k) = do v ← batch (exec n) n (exec n f); exec n (k v)
exec (suc n) (Prog.untracked f k) = do v ← untrack (exec n f); exec n (k v)
exec (suc n) (Prog.tick f k) = next_tick (exec n) n f >> exec n k
exec (suc n) (Prog.post f k) = queue_post (exec n) n f >> exec n k
exec (suc n) (Prog.cleanup f k) = on_cleanup f >> exec n k
exec (suc n) (Prog.root_scope detached f k) = do
  id ← run_in_new_root detached (exec n f)
  exec n (k id)
exec (suc n) (Prog.child_scope f k) = do v ← run_in_child_scope (exec n f); exec n (k v)
exec (suc n) (Prog.new_scope detached k) = do id ← new_root detached; exec n (k id)
exec (suc n) (Prog.run_scope id f k) = do v ← scope_run id (exec n f); exec n (k v)
exec (suc n) (Prog.dispose id k) = dispose_node (exec n) n id >> exec n k
exec (suc n) (Prog.current_scope k) = do scope ← nearest_scope; exec n (k scope)
exec (suc n) (Prog.scope_dispose f k) = on_scope_dispose f >> exec n k
exec (suc n) (Prog.provide t v k) = provide_context t v >> exec n k
exec (suc n) (Prog.inject t k) = do v ← use_context t; exec n (k v)
exec (suc n) (Prog.mounted f k) =
    modify_rt (λ s. record s { mounted_queue = s.mounted_queue ++ f ∷ [] }) >> exec n k
exec (suc n) (Prog.run_mounted k) = flush_mounted (exec n) >> exec n k
exec (suc n) (Prog.set_scheduler hook k) =
    modify_rt (λ s. record s { scheduler = some hook }) >> exec n k
exec (suc n) (Prog.clear_scheduler k) =
    modify_rt (λ s. record s { scheduler = none; flush_scheduled = false }) >> exec n k
exec (suc n) (Prog.jobs k) = flush_jobs (exec n) n >> exec n k
exec (suc n) (Prog.new_cell k) = do c ← new_cell; exec n (k c)
exec (suc n) (Prog.cell_take c k) = do v ← take_cell c; exec n (k v)
exec (suc n) (Prog.cell_put c v k) = put_cell c v >> exec n k
exec (suc n) (Prog.host v k) = modify_rt (λ s. record s { log = v ∷ s.log }) >> exec n k
exec (suc n) (Prog.call f k) = do v ← exec n f; exec n (k v)

-- `RT` and `MOUNTED` of a fresh thread.
unfoldable pub initial : {V : Type 0} → Runtime V
initial = record {
  nodes = Arena.new;
  links = [];
  free_links = [];
  observer = none;
  owner = none;
  batch_depth = 0;
  pending = [];
  sync_pending = [];
  flushing = false;
  reading_depth = 0;
  post_flush = [];
  scheduler = none;
  flush_scheduled = false;
  mounted_queue = [];
  cells = [];
  log = [];
}
