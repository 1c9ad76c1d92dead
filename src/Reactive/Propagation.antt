-- ===== src/Reactive/Propagation.antt =====
-- How a write reaches its dependents and how a read brings a node up to date: `mark_stale` to
-- `maybe_flush`, `set_value` and `update_value` of runtime.rs. `run` executes a closure of the host.
-- Every loop and every recursion over the graph takes fuel.
use vue_rs.Base.{
  ℕ, zero, suc, Bool, true, false, not, ◌&&◌, Option, none, some, List, [], ◌∷◌, ◌++◌, ◌==◌, leb,
  ltb, if◌then◌else◌, maybe, and_then, any,
}
use vue_rs.Reactive.Arena.{NodeId, same_id}
use vue_rs.Reactive.State.{
  Freshness, clean, check, dirty, Prog, Kind, computed, effect, Node, Runtime,
}
use vue_rs.Reactive.Monad.{
  M, pure, ◌>>=◌, ◌>>◌, starve, gets, modify_rt, skip, for_each, match_option,
}
use vue_rs.Reactive.Links.{
  node?, modify_node, start_tracking, end_tracking, collect_deps, collect_subs,
}
use vue_rs.Reactive.Ownership.{run_owner_teardown, dispose_node, run_scoped}

-- The derived order `Clean < Check < Dirty`.
abbrev pub rank : Freshness → ℕ
rank clean = 0
rank check = 1
rank dirty = 2

abbrev pub is_clean : Freshness → Bool
is_clean st = rank st == 0

abbrev pub is_effect : {V : Type 0} → Kind V → Bool
is_effect (effect _ _) = true
is_effect _ = false

abbrev pub is_sync : {V : Type 0} → Kind V → Bool
is_sync (effect _ sync) = sync
is_sync _ = false

abbrev pub queued : NodeId → List NodeId → Bool
queued id ids = any (same_id id) ids

-- `push_back`, unless the queue holds the node already.
abbrev pub push_once : NodeId → List NodeId → List NodeId
push_once id ids = if queued id ids then ids else ids ++ id ∷ []

-- The change test of `set_value` and of `update`: `!eq(old, new)` where both are there.
abbrev pub value_changed : {V : Type 0} → Node V → V → Bool
value_changed n new = maybe true (λ eq. maybe true (λ old. not (eq old new)) n.value) n.eq

module _ {V : Type 0} where
  unfoldable pub node_state : NodeId → M V (Option Freshness)
  node_state id = gets λ s. maybe none (λ n. some n.state) (node? id s)

  abbrev pub has_state : NodeId → Freshness → Runtime V → Bool
  has_state id st s = maybe false (λ n. rank n.state == rank st) (node? id s)

  unfoldable pub set_state : NodeId → Freshness → M V (Unit {0})
  set_state id st = modify_node id λ n. record n { state = st }

  -- The queues that `mark_stale` fills.
  unfoldable pub enqueue : NodeId → Kind V → M V (Unit {0})
  enqueue id kind =
      if is_sync kind
      then modify_rt (λ s. record s { sync_pending = push_once id s.sync_pending })
      else modify_rt (λ s. record s { pending = push_once id s.pending })

  unfoldable pub mark_stale : ℕ → NodeId → Freshness → M V (Unit {0})
  unfolding enqueue set_state
  mark_stale zero id target = starve
  mark_stale (suc n) id target = do
    node ← gets (node? id)
    match_option node skip λ nd. if leb (rank target) (rank nd.state) then skip else do
      set_state id target
      if is_clean nd.state && is_effect nd.kind then enqueue id nd.kind else skip
      subs ← collect_subs id
      for_each (λ s. mark_stale n s check) subs

  -- `compute.take()` of a computed and `run.take()` of an effect.
  abbrev pub drop_closure : Kind V → Kind V
  drop_closure (computed _) = computed none
  drop_closure (effect _ sync) = effect none sync
  drop_closure k = k

  abbrev pub compute_of : Kind V → Option (Prog V)
  compute_of (computed c) = c
  compute_of _ = none

  abbrev pub run_of : Kind V → Option (Prog V)
  run_of (effect r _) = r
  run_of _ = none

  -- The closure is put back, if the node is still of its kind.
  abbrev pub restore_run : Prog V → Kind V → Kind V
  restore_run r (effect _ sync) = effect (some r) sync
  restore_run r k = k

  abbrev pub restore_compute : Prog V → Kind V → Kind V
  restore_compute c (computed _) = computed (some c)
  restore_compute c k = k

  unfoldable pub kind_of : NodeId → M V (Option (Kind V))
  kind_of id = gets λ s. maybe none (λ n. some n.kind) (node? id s)

  -- The observers, `Check` so far, must recompute.
  unfoldable pub dirty_subs : NodeId → M V (Unit {0})
  dirty_subs id = do
    subs ← collect_subs id
    for_each
        (λ s.
          modify_node s
            λ n. if ltb (rank n.state) (rank dirty) then record n { state = dirty } else n)
        subs

module _ {V : Type 0} (run : Prog V → M V V) where
  -- The closure runs as observer and owner, on the dependencies that it reads this time.
  unfoldable pub rerun : ℕ → NodeId → Prog V → M V V
  unfolding run_owner_teardown dispose_node start_tracking run_scoped end_tracking
  rerun n id body = do
    run_owner_teardown run (dispose_node run n) id
    start_tracking id
    result ← run_scoped id (run body)
    end_tracking id
    pure result

  unfoldable pub update_effect : ℕ → NodeId → Kind V → M V (Unit {0})
  unfolding rerun
  update_effect n id kind = do
    modify_node id (λ nd. record nd { kind = drop_closure nd.kind })
    match_option (run_of kind) skip λ body. do
      rerun n id body
      modify_node id (λ nd. record nd { kind = restore_run body nd.kind })

  -- The new value is stored; the answer says whether it differs.
  unfoldable pub store_computed : NodeId → Prog V → V → M V Bool
  store_computed id body new = do
    node ← gets (node? id)
    match_option node (pure false) λ nd. do
      modify_node id (λ nd. record nd { kind = restore_compute body nd.kind; value = some new })
      pure (value_changed nd new)

  unfoldable pub update_computed : ℕ → NodeId → Option (Kind V) → M V (Unit {0})
  unfolding rerun store_computed dirty_subs
  update_computed n id kind = do
    let taken : Option (Prog V) = and_then kind compute_of
    match_option taken skip λ body. do
      modify_node id (λ nd. record nd { kind = drop_closure nd.kind })
      new ← rerun n id body
      changed ← store_computed id body new
      if changed then dirty_subs id else skip

  unfoldable pub update : ℕ → NodeId → M V (Unit {0})
  unfolding kind_of update_effect update_computed
  update n id = do
    kind ← kind_of id
    match_option kind skip
        λ k. if is_effect k then update_effect n id k else update_computed n id kind

  -- `for source in sources { update_if_necessary(source); if dirty { break } }`
  unfoldable pub verify : (NodeId → M V (Unit {0})) → NodeId → List NodeId → M V (Unit {0})
  verify refresh id [] = skip
  verify refresh id (source ∷ rest) = do
    refresh source
    now_dirty ← gets (has_state id dirty)
    if now_dirty then skip else verify refresh id rest

  unfoldable pub update_if_necessary : ℕ → NodeId → M V (Unit {0})
  unfolding verify update set_state
  update_if_necessary zero id = starve
  update_if_necessary (suc n) id = do
    unsure ← gets (has_state id check)
    if unsure then (collect_deps id >>= verify (update_if_necessary n) id) else skip
    stale ← gets (has_state id dirty)
    if stale then update n id else skip
    set_state id clean
