-- ===== src/Reactive/Links.antt =====
-- The link pool and the two intrusive lists of every link (`impl Runtime` of runtime.rs). A walk
-- along a list takes one more round than the pool has slots.
pub mod Retrack
pub mod Dangling
use vue_rs.Base.{
  ℕ, zero, suc, Bool, true, false, not, ◌&&◌, Option, none, some, List, [], ◌∷◌, ◌++◌, ◌==◌,
  if◌then◌else◌, maybe, and_then, length, get_elem?, set,
}
use vue_rs.Reactive.Arena.{NodeId, same_id, Arena}
use vue_rs.Reactive.Arena
use vue_rs.Reactive.State.{LinkId, Link, Node, Runtime}
use vue_rs.Reactive.Monad.{
  ok, panic, starved, M, pure, ◌>>=◌, ◌>>◌, crash, starve, gets, modify_rt, expect, skip,
  match_option,
}

abbrev pub same_link : Option LinkId → LinkId → Bool
same_link o l = maybe false (λ k. k == l) o

module _ {V : Type 0} where
  abbrev pub node? : NodeId → Runtime V → Option (Node V)
  node? id s = Arena.get s.nodes id

  -- `self.nodes.get(id).and_then(|n| field(n))`
  abbrev pub node_field : {A : Type 0} → NodeId → (Node V → Option A) → M V (Option A)
  node_field id f = gets λ s. and_then (node? id s) f

  -- `if let Some(n) = self.nodes.get_mut(id) { f(n) }`
  abbrev pub modify_node : NodeId → (Node V → Node V) → M V (Unit {0})
  modify_node id f = modify_rt λ s. record s { nodes = Arena.modify s.nodes id f }

  -- `f(self.nodes.get_mut(id).unwrap())`
  abbrev pub unwrap_node : NodeId → (Node V → Node V) → M V (Unit {0})
  unwrap_node id f = do n ← gets (node? id); expect n; modify_node id f

  abbrev pub link? : LinkId → Runtime V → Option Link
  link? l s = maybe none (λ o. o) (get_elem? s.links l)

  abbrev pub store_link : LinkId → Option Link → M V (Unit {0})
  store_link l o = modify_rt λ s. record s { links = set s.links l o }

  unfoldable pub alloc_at : List LinkId → Link → M V LinkId
  alloc_at [] k = do
    i ← gets (λ s. length s.links)
    modify_rt (λ s. record s { links = s.links ++ some k ∷ [] })
    pure i
  alloc_at (i ∷ rest) k = do
    slot ← gets (λ s. get_elem? s.links i)
    expect slot
    modify_rt (λ s. record s { links = set s.links i (some k); free_links = rest })
    pure i

  unfoldable pub alloc_link : Link → M V LinkId
  unfolding alloc_at
  alloc_link k = do free ← gets (λ s. s.free_links); alloc_at free k

  unfoldable pub link_ref : LinkId → M V Link
  link_ref l = do k ← gets (link? l); expect k

  unfoldable pub modify_link : LinkId → (Link → Link) → M V (Unit {0})
  unfolding link_ref
  modify_link l f = do k ← link_ref l; store_link l (some (f k))

  unfoldable pub free_link : LinkId → M V (Unit {0})
  free_link l = do
    slot ← gets (λ s. get_elem? s.links l)
    expect slot
    store_link l none
    modify_rt λ s. record s { free_links = l ∷ s.free_links }

  -- A test of the link at the end of an optional pointer; without a link it fails.
  abbrev pub link_test : Option LinkId → (Link → Bool) → M V Bool
  link_test o p = match_option o (pure false) λ l. do k ← link_ref l; pure (p k)

  -- The loop of `is_valid_link`.
  unfoldable pub confirmed : ℕ → LinkId → LinkId → Option LinkId → M V Bool
  confirmed zero target tail cur = starve
  confirmed (suc n) target tail none = pure false
  confirmed (suc n) target tail (some c) =
      if c == target
      then pure true
      else if c == tail
      then pure false
      else (do k ← link_ref c; confirmed n target tail k.next_dep)

  unfoldable pub is_valid_link : LinkId → NodeId → M V Bool
  unfolding confirmed
  is_valid_link target sub = do
    tail ← node_field sub (λ n. n.deps_tail)
    match_option tail (pure false) λ t. do
      cur ← node_field sub (λ n. n.deps)
      rounds ← gets (λ s. suc (length s.links))
      confirmed rounds target t cur

  -- The read just confirmed stands at the end of the source's subscribers.
  unfoldable pub already_read : Option LinkId → NodeId → M V Bool
  already_read o sub =
      match_option o (pure false)
        λ ps. do k ← link_ref ps; if same_id k.sub sub then is_valid_link ps sub else pure false

  -- A new edge is spliced into both lists.
  unfoldable pub splice :
      NodeId → NodeId → Option LinkId → Option LinkId → Option LinkId → M V (Unit {0})
  unfolding alloc_link modify_link
  splice dep sub prev_dep next_dep prev_sub = do
    new ← alloc_link (record {
      dep = dep;
      sub = sub;
      prev_dep = prev_dep;
      next_dep = next_dep;
      prev_sub = prev_sub;
      next_sub = none;
    })
    match_option next_dep skip (λ nd. modify_link nd λ k. record k { prev_dep = some new })
    match_option prev_dep (unwrap_node sub λ n. record n { deps = some new })
        (λ pd. modify_link pd λ k. record k { next_dep = some new })
    unwrap_node sub (λ n. record n { deps_tail = some new })
    match_option prev_sub (unwrap_node dep λ n. record n { subs = some new })
        (λ ps. modify_link ps λ k. record k { next_sub = some new })
    unwrap_node dep (λ n. record n { subs_tail = some new })

  unfoldable pub link : NodeId → NodeId → M V (Unit {0})
  unfolding link_ref is_valid_link already_read splice
  link dep sub = do
    prev_dep ← node_field sub (λ n. n.deps_tail)
    again ← link_test prev_dep (λ k. same_id k.dep dep)
    if again then skip else do
      next_dep ←
          match_option prev_dep (node_field sub (λ n. n.deps))
            λ pd. do k ← link_ref pd; pure k.next_dep
      same_order ← link_test next_dep (λ k. same_id k.dep dep)
      if same_order then unwrap_node sub (λ n. record n { deps_tail = next_dep }) else do
        prev_sub ← node_field dep (λ n. n.subs_tail)
        seen ← already_read prev_sub sub
        if seen then skip else splice dep sub prev_dep next_dep prev_sub

  unfoldable pub start_tracking : NodeId → M V (Unit {0})
  start_tracking sub = modify_node sub λ n. record n { deps_tail = none }

  unfoldable pub unlink_from_dep_subs : LinkId → M V (Unit {0})
  unfolding link_ref modify_link
  unlink_from_dep_subs id = do
    l ← link_ref id
    match_option l.prev_sub (modify_node l.dep λ n. record n { subs = l.next_sub })
        (λ p. modify_link p λ k. record k { next_sub = l.next_sub })
    match_option l.next_sub (modify_node l.dep λ n. record n { subs_tail = l.prev_sub })
        (λ nx. modify_link nx λ k. record k { prev_sub = l.prev_sub })

  unfoldable pub unlink_from_sub_deps : LinkId → M V (Unit {0})
  unfolding link_ref modify_link
  unlink_from_sub_deps id = do
    l ← link_ref id
    match_option l.prev_dep (modify_node l.sub λ n. record n { deps = l.next_dep })
        (λ p. modify_link p λ k. record k { next_dep = l.next_dep })
    match_option l.next_dep (modify_node l.sub λ n. record n { deps_tail = l.prev_dep })
        (λ nx. modify_link nx λ k. record k { prev_dep = l.prev_dep })

  -- The loop of `end_tracking` and of `clear_deps`.
  unfoldable pub drop_deps : ℕ → Option LinkId → M V (Unit {0})
  unfolding link_ref free_link unlink_from_dep_subs
  drop_deps zero cur = starve
  drop_deps (suc n) none = skip
  drop_deps (suc n) (some c) = do
    k ← link_ref c
    unlink_from_dep_subs c
    free_link c
    drop_deps n k.next_dep

  -- The loop of `detach_subs`.
  unfoldable pub drop_subs : ℕ → Option LinkId → M V (Unit {0})
  unfolding link_ref free_link unlink_from_sub_deps
  drop_subs zero cur = starve
  drop_subs (suc n) none = skip
  drop_subs (suc n) (some c) = do
    k ← link_ref c
    unlink_from_sub_deps c
    free_link c
    drop_subs n k.next_sub

  unfoldable pub end_tracking : NodeId → M V (Unit {0})
  unfolding link_ref modify_link drop_deps
  end_tracking sub = do
    tail ← node_field sub (λ n. n.deps_tail)
    cur ← match_option tail (node_field sub (λ n. n.deps)) λ t. do k ← link_ref t; pure k.next_dep
    match_option tail (modify_node sub λ n. record n { deps = none })
        (λ t. modify_link t λ k. record k { next_dep = none })
    rounds ← gets (λ s. suc (length s.links))
    drop_deps rounds cur

  unfoldable pub clear_deps : NodeId → M V (Unit {0})
  unfolding drop_deps
  clear_deps sub = do
    cur ← node_field sub (λ n. n.deps)
    rounds ← gets (λ s. suc (length s.links))
    drop_deps rounds cur
    modify_node sub λ n. record n { deps = none; deps_tail = none }

  unfoldable pub detach_subs : NodeId → M V (Unit {0})
  unfolding drop_subs
  detach_subs dep = do
    cur ← node_field dep (λ n. n.subs)
    rounds ← gets (λ s. suc (length s.links))
    drop_subs rounds cur
    modify_node dep λ n. record n { subs = none; subs_tail = none }

  -- The walk of `collect_deps` and of `collect_subs`: what each link shows, and where it leads.
  unfoldable pub collect :
      (Link → NodeId) → (Link → Option LinkId) → ℕ → Option LinkId → M V (List NodeId)
  unfolding link_ref
  collect end next zero cur = starve
  collect end next (suc n) none = pure []
  collect end next (suc n) (some c) = do
    k ← link_ref c
    rest ← collect end next n (next k)
    pure (end k ∷ rest)

  unfoldable pub collect_deps : NodeId → M V (List NodeId)
  unfolding collect
  collect_deps id = do
    cur ← node_field id (λ n. n.deps)
    rounds ← gets (λ s. suc (length s.links))
    collect (λ k. k.dep) (λ k. k.next_dep) rounds cur

  unfoldable pub collect_subs : NodeId → M V (List NodeId)
  unfolding collect
  collect_subs id = do
    cur ← node_field id (λ n. n.subs)
    rounds ← gets (λ s. suc (length s.links))
    collect (λ k. k.sub) (λ k. k.next_sub) rounds cur
