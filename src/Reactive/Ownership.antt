-- ===== src/Reactive/Ownership.antt =====
-- Nodes, their owners, and how they are torn down: `new_node`, `record_dependency`,
-- `run_owner_teardown`, `dispose_node`, `run_scoped` and the owner chain of runtime.rs.
-- `run` executes a closure of the host. The fuel of `dispose_node` bounds the depth of ownership.
use vue_rs.Base.{
  ℕ, zero, suc, Bool, true, false, not, Option, none, some, List, [], ◌∷◌, ◌++◌, reverse, ◌==◌,
  if◌then◌else◌, maybe, length, retain,
}
use vue_rs.Reactive.Arena.{NodeId, same_id, Arena}
use vue_rs.Reactive.Arena
use vue_rs.Reactive.State.{clean, TypeId, Prog, Kind, root, Node}
use vue_rs.Reactive.Monad.{
  ok, panic, M, pure, ◌>>=◌, ◌>>◌, starve, gets, modify_rt, skip, for_each, match_option,
}
use vue_rs.Reactive.Links.{node?, node_field, modify_node, link, clear_deps, detach_subs}

module _ {V : Type 0} where
  unfoldable pub blank : Option NodeId → Kind V → Option V → Node V
  blank owner kind value = record {
    value = value;
    state = clean;
    deps = none;
    deps_tail = none;
    subs = none;
    subs_tail = none;
    owner = owner;
    owned = [];
    cleanups = [];
    contexts = [];
    eq = none;
    setter = none;
    kind = kind;
  }

  unfoldable pub insert_node : Node V → M V NodeId
  insert_node node =
      λ s. maybe panic (λ r. ok r.1 (record s { nodes = r.0 })) (Arena.insert s.nodes node)

  unfoldable pub new_node : Kind V → Option V → M V NodeId
  unfolding blank insert_node
  new_node kind value = do
    owner ← gets (λ s. s.owner)
    id ← insert_node (blank owner kind value)
    match_option owner skip (λ o. modify_node o λ n. record n { owned = n.owned ++ id ∷ [] })
    pure id

  unfoldable pub record_dependency : NodeId → M V (Unit {0})
  record_dependency source = do
    observer ← gets (λ s. s.observer)
    match_option observer skip (link source)

  -- `mem::take` of the owned nodes and of the cleanups.
  unfoldable pub take_owned : NodeId → M V (List NodeId)
  take_owned id = do
    node ← gets (node? id)
    modify_node id (λ n. record n { owned = [] })
    pure (maybe [] (λ n. n.owned) node)

  unfoldable pub take_cleanups : NodeId → M V (List (Prog V))
  take_cleanups id = do
    node ← gets (node? id)
    modify_node id (λ n. record n { cleanups = [] })
    pure (maybe [] (λ n. n.cleanups) node)

  -- The children go first, then the cleanups, the newest first.
  unfoldable pub run_owner_teardown :
      (Prog V → M V V) → (NodeId → M V (Unit {0})) → NodeId → M V (Unit {0})
  unfolding take_owned take_cleanups
  run_owner_teardown run dispose id = do
    owned ← take_owned id
    for_each dispose owned
    cleanups ← take_cleanups id
    for_each run (reverse cleanups)

  unfoldable pub remove_node : NodeId → M V (Unit {0})
  remove_node id = modify_rt λ s. record s { nodes = (Arena.remove s.nodes id).0 }

  -- The part of `dispose_node` behind the teardown.
  unfoldable pub forget_node : NodeId → M V (Unit {0})
  unfolding remove_node
  forget_node id = do
    clear_deps id
    detach_subs id
    owner ← node_field id (λ n. n.owner)
    match_option owner skip
        (λ o. modify_node o λ n. record n { owned = retain (λ x. not (same_id x id)) n.owned })
    remove_node id

  unfoldable pub dispose_node : (Prog V → M V V) → ℕ → NodeId → M V (Unit {0})
  unfolding run_owner_teardown forget_node
  dispose_node run zero id = starve
  dispose_node run (suc n) id = do
    alive ← gets (λ s. Arena.contains s.nodes id)
    if alive then (run_owner_teardown run (dispose_node run n) id >> forget_node id) else skip

  -- Run a body with the observer and the owner set, and put the previous ones back.
  unfoldable pub run_under : {A : Type 0} → Option NodeId → Option NodeId → M V A → M V A
  run_under observer owner body = do
    prev_obs ← gets (λ s. s.observer)
    prev_owner ← gets (λ s. s.owner)
    modify_rt (λ s. record s { observer = observer; owner = owner })
    result ← body
    modify_rt (λ s. record s { observer = prev_obs; owner = prev_owner })
    pure result

  unfoldable pub run_scoped : {A : Type 0} → NodeId → M V A → M V A
  unfolding run_under
  run_scoped id body = run_under (some id) (some id) body

  -- A scope body is not reactive: it has no observer.
  unfoldable pub run_in_scope : {A : Type 0} → NodeId → M V A → M V A
  unfolding run_under
  run_in_scope id body = run_under none (some id) body

  unfoldable pub untrack : {A : Type 0} → M V A → M V A
  untrack body = do
    prev ← gets (λ s. s.observer)
    modify_rt (λ s. record s { observer = none })
    result ← body
    modify_rt (λ s. record s { observer = prev })
    pure result

  -- A node with no owner, whatever the current owner is.
  unfoldable pub new_detached : M V NodeId
  unfolding new_node
  new_detached = do
    prev ← gets (λ s. s.owner)
    modify_rt (λ s. record s { owner = none })
    id ← new_node root none
    modify_rt (λ s. record s { owner = prev })
    pure id

  unfoldable pub new_root : Bool → M V NodeId
  unfolding new_detached new_node
  new_root detached = if detached then new_detached else new_node root none

  unfoldable pub run_in_new_root : {A : Type 0} → Bool → M V A → M V NodeId
  unfolding new_root run_in_scope
  run_in_new_root detached body = do id ← new_root detached; run_in_scope id body; pure id

  unfoldable pub run_in_child_scope : {A : Type 0} → M V A → M V A
  unfolding new_node run_in_scope
  run_in_child_scope body = do id ← new_node root none; run_in_scope id body

  -- `EffectScope::run`
  unfoldable pub scope_run : {A : Type 0} → NodeId → M V A → M V (Option A)
  unfolding run_in_scope
  scope_run id body = do
    alive ← gets (λ s. Arena.contains s.nodes id)
    if alive then (do result ← run_in_scope id body; pure (some result)) else pure none

  unfoldable pub is_root : Kind V → Bool
  is_root root = true
  is_root _ = false

  -- The walk of `nearest_scope` up the owner chain.
  unfoldable pub scope_walk : ℕ → Option NodeId → M V (Option NodeId)
  unfolding is_root
  scope_walk zero cur = starve
  scope_walk (suc n) none = pure none
  scope_walk (suc n) (some id) = do
    node ← gets (node? id)
    match_option node (pure none)
        (λ nd. if is_root nd.kind then pure (some id) else scope_walk n nd.owner)

  unfoldable pub nearest_scope : M V (Option NodeId)
  unfolding scope_walk
  nearest_scope = do
    owner ← gets (λ s. s.owner)
    rounds ← gets (λ s. suc (length s.nodes.slots))
    scope_walk rounds owner

  unfoldable pub add_cleanup : NodeId → Prog V → M V (Unit {0})
  add_cleanup id f = modify_node id λ n. record n { cleanups = n.cleanups ++ f ∷ [] }

  unfoldable pub on_cleanup : Prog V → M V (Unit {0})
  unfolding add_cleanup
  on_cleanup f = do owner ← gets (λ s. s.owner); match_option owner skip (λ o. add_cleanup o f)

  unfoldable pub on_scope_dispose : Prog V → M V (Unit {0})
  unfolding nearest_scope add_cleanup
  on_scope_dispose f = do scope ← nearest_scope; match_option scope skip (λ o. add_cleanup o f)

  unfoldable pub find_context : TypeId → List (TypeId × V) → Option V
  find_context t [] = none
  find_context t ((u, v) ∷ rest) = if u == t then some v else find_context t rest

  -- `HashMap::insert`
  unfoldable pub put_context : TypeId → V → List (TypeId × V) → List (TypeId × V)
  put_context t v [] = (t, v) ∷ []
  put_context t v ((u, w) ∷ rest) = if u == t then (t, v) ∷ rest else (u, w) ∷ put_context t v rest

  unfoldable pub provide_context : TypeId → V → M V (Unit {0})
  unfolding put_context
  provide_context t v = do
    owner ← gets (λ s. s.owner)
    match_option owner skip
        (λ o. modify_node o λ n. record n { contexts = put_context t v n.contexts })

  unfoldable pub context_walk : TypeId → ℕ → Option NodeId → M V (Option V)
  unfolding find_context
  context_walk t zero cur = starve
  context_walk t (suc n) none = pure none
  context_walk t (suc n) (some id) = do
    node ← gets (node? id)
    match_option node (pure none) (λ nd.
        match_option (find_context t nd.contexts) (context_walk t n nd.owner) (λ v. pure (some v)))

  unfoldable pub use_context : TypeId → M V (Option V)
  unfolding context_walk
  use_context t = do
    owner ← gets (λ s. s.owner)
    rounds ← gets (λ s. suc (length s.nodes.slots))
    context_walk t rounds owner
