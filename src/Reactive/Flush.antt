-- ===== src/Reactive/Flush.antt =====
-- Reads, writes and the queues of effects: `notify_subscribers`, `run_sync_effects`,
-- `flush_pending`, `read_with`, `maybe_flush`, `schedule_or_flush`, `set_value`, `update_value`,
-- `next_tick`, `flush_jobs`, `batch` and `queue_post` of runtime.rs. `run` executes a closure.
use vue_rs.Base.{
  ℕ, zero, suc, ◌+◌, ◌-◌, Bool, true, false, not, ◌&&◌, ◌||◌, Option, none, some, List, [], ◌∷◌,
  ◌++◌, ◌==◌, ltb, if◌then◌else◌, front, rest, is_empty, is_some,
}
use vue_rs.Reactive.Arena.{NodeId}
use vue_rs.Reactive.State.{dirty, Prog, Runtime}
use vue_rs.Reactive.Monad.{
  ok, M, pure, ◌>>=◌, ◌>>◌, starve, gets, modify_rt, expect, skip, for_each, match_option,
}
use vue_rs.Reactive.Links.{node?, node_field, modify_node, collect_subs}
use vue_rs.Reactive.Ownership.{record_dependency}
use vue_rs.Reactive.Propagation.{value_changed, mark_stale, update_if_necessary}

module _ {V : Type 0} where
  -- `pop_front` of the two queues, and `mem::take` of the callbacks.
  unfoldable pub pop_sync : M V (Option NodeId)
  pop_sync = λ s. ok (front s.sync_pending) (record s { sync_pending = rest s.sync_pending })

  unfoldable pub pop_pending : M V (Option NodeId)
  pop_pending = λ s. ok (front s.pending) (record s { pending = rest s.pending })

  unfoldable pub take_post_flush : M V (List (Prog V))
  take_post_flush = do
    callbacks ← gets (λ s. s.post_flush)
    modify_rt (λ s. record s { post_flush = [] })
    pure callbacks

  unfoldable pub push_post_flush : Prog V → M V (Unit {0})
  push_post_flush f = modify_rt λ s. record s { post_flush = s.post_flush ++ f ∷ [] }

  -- The condition of `maybe_flush`, and that of a deferred `next_tick`.
  abbrev pub flush_ready : Runtime V → Bool
  flush_ready s =
      s.reading_depth == 0
      && s.batch_depth == 0
      && not s.flushing
      && (not (is_empty s.pending) || not (is_empty s.post_flush))

  abbrev pub tick_deferred : Runtime V → Bool
  tick_deferred s =
      ltb 0 s.batch_depth || s.flushing || ltb 0 s.reading_depth || not (is_empty s.pending)

  -- The write of `set_value`; the answer says whether the value changed.
  unfoldable pub store_value : NodeId → V → M V Bool
  store_value id v = do
    node ← gets (node? id)
    match_option node (pure false)
        λ nd. do modify_node id (λ n. record n { value = some v }); pure (value_changed nd v)

module _ {V : Type 0} (run : Prog V → M V V) where
  unfoldable pub run_sync_effects : ℕ → M V (Unit {0})
  unfolding pop_sync update_if_necessary
  run_sync_effects zero = starve
  run_sync_effects (suc n) = do
    next ← pop_sync
    match_option next skip (λ e. update_if_necessary run n e >> run_sync_effects n)

  -- The inner loop of `flush_pending`.
  unfoldable pub drain : ℕ → M V (Unit {0})
  unfolding pop_pending update_if_necessary
  drain zero = starve
  drain (suc n) = do
    next ← pop_pending
    match_option next skip (λ e. update_if_necessary run n e >> drain n)

  unfoldable pub flush_loop : ℕ → M V (Unit {0})
  unfolding drain take_post_flush
  flush_loop zero = starve
  flush_loop (suc n) = do
    drain n
    callbacks ← take_post_flush
    if is_empty callbacks then skip else (for_each run callbacks >> flush_loop n)

  unfoldable pub flush_pending : ℕ → M V (Unit {0})
  unfolding flush_loop
  flush_pending n = do
    modify_rt (λ s. record s { flushing = true })
    flush_loop n
    modify_rt (λ s. record s { flushing = false })

  unfoldable pub schedule_or_flush : ℕ → M V (Unit {0})
  unfolding flush_pending
  schedule_or_flush n = do
    scheduler ← gets (λ s. s.scheduler)
    scheduled ← gets (λ s. s.flush_scheduled)
    match_option scheduler (flush_pending n) λ hook.
        if scheduled
        then skip
        else do modify_rt (λ s. record s { flush_scheduled = true }); run hook; skip

  unfoldable pub maybe_flush : ℕ → M V (Unit {0})
  unfolding schedule_or_flush
  maybe_flush n = do ready ← gets flush_ready; if ready then schedule_or_flush n else skip

  unfoldable pub notify_subscribers : ℕ → NodeId → M V (Unit {0})
  unfolding run_sync_effects maybe_flush mark_stale collect_subs
  notify_subscribers n id = do
    subs ← collect_subs id
    for_each (λ s. mark_stale n s dirty) subs
    run_sync_effects n
    maybe_flush n

  unfoldable pub set_value : ℕ → NodeId → V → M V (Unit {0})
  unfolding store_value notify_subscribers
  set_value n id v = do
    changed ← store_value id v
    if changed then notify_subscribers n id else skip

  -- The mutator runs inside the borrow of the runtime, so it is a pure function of the value.
  unfoldable pub update_value : ℕ → NodeId → (V → V) → M V (Unit {0})
  unfolding notify_subscribers
  update_value n id f = do
    value ← node_field id (λ nd. nd.value)
    old ← expect value
    modify_node id (λ nd. record nd { value = some (f old) })
    notify_subscribers n id

  -- The part of `read_with` around the closure `f`: the value is out of the node while `f` runs.
  unfoldable pub borrow_value : NodeId → (V → Prog V) → M V V
  borrow_value id f = do
    value ← node_field id (λ nd. nd.value)
    taken ← expect value
    modify_node id (λ nd. record nd { value = none })
    result ← run (f taken)
    modify_node id (λ nd. record nd { value = some taken })
    pure result

  -- The same inside `reading_depth`.
  unfoldable pub lend : NodeId → (V → Prog V) → M V V
  unfolding borrow_value
  lend id f = do
    modify_rt (λ s. record s { reading_depth = s.reading_depth + 1 })
    result ← borrow_value id f
    modify_rt (λ s. record s { reading_depth = s.reading_depth - 1 })
    pure result

  unfoldable pub read_with : ℕ → NodeId → (V → Prog V) → M V V
  unfolding record_dependency update_if_necessary lend maybe_flush
  read_with n id f = do
    record_dependency id
    update_if_necessary run n id
    result ← lend id f
    maybe_flush n
    pure result

  unfoldable pub next_tick : ℕ → Prog V → M V (Unit {0})
  unfolding push_post_flush schedule_or_flush
  next_tick n callback = do
    scheduler ← gets (λ s. s.scheduler)
    deferred ← gets tick_deferred
    if is_some scheduler
        then (push_post_flush callback >> schedule_or_flush n)
        else if deferred
        then push_post_flush callback
        else (run callback >> skip)

  unfoldable pub queue_post : ℕ → Prog V → M V (Unit {0})
  unfolding push_post_flush maybe_flush
  queue_post n f = push_post_flush f >> maybe_flush n

  unfoldable pub flush_jobs : ℕ → M V (Unit {0})
  unfolding flush_pending
  flush_jobs n = modify_rt (λ s. record s { flush_scheduled = false }) >> flush_pending n

  -- The body of `batch` inside `batch_depth`.
  unfoldable pub nested : {A : Type 0} → M V A → M V A
  nested body = do
    modify_rt (λ s. record s { batch_depth = s.batch_depth + 1 })
    result ← body
    modify_rt (λ s. record s { batch_depth = s.batch_depth - 1 })
    pure result

  unfoldable pub batch : {A : Type 0} → ℕ → M V A → M V A
  unfolding nested schedule_or_flush
  batch n body = do
    result ← nested body
    depth ← gets (λ s. s.batch_depth)
    if depth == 0 then schedule_or_flush n else skip
    pure result
