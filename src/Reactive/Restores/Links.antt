-- ===== src/Reactive/Restores/Links.antt =====
-- The link operations, and the scope that they leave alone.
use vue_rs.Base.{ℕ, zero, suc, Option, none, some, List, [], ◌∷◌}
use vue_rs.Reactive.Arena.{NodeId}
use vue_rs.Reactive.State.{LinkId, Link}
use vue_rs.Reactive.Links.{
  alloc_at, alloc_link, link_ref, modify_link, free_link, confirmed, is_valid_link, already_read,
  splice, link, start_tracking, unlink_from_dep_subs, unlink_from_sub_deps, drop_deps, drop_subs,
  end_tracking, clear_deps, detach_subs, collect, collect_deps, collect_subs,
}
use vue_rs.Reactive.Restores.{Restores, restoring}

module _ {V : Type 0} where
  pub Restores-alloc_at : (free : List LinkId) (k : Link) → Restores {V = V} (alloc_at free k)
  unfolding alloc_at
  Restores-alloc_at [] k = search restoring depth 20
  Restores-alloc_at (i ∷ free) k = search restoring depth 20

  pub Restores-alloc_link : (k : Link) → Restores {V = V} (alloc_link k)
  unfolding alloc_link
  Restores-alloc_link k = search (restoring, Restores-alloc_at) depth 20

  pub Restores-link_ref : (l : LinkId) → Restores {V = V} (link_ref l)
  unfolding link_ref
  Restores-link_ref l = search restoring depth 20

  pub Restores-modify_link : (l : LinkId) (f : Link → Link) → Restores {V = V} (modify_link l f)
  unfolding modify_link
  Restores-modify_link l f = search (restoring, Restores-link_ref) depth 20

  pub Restores-free_link : (l : LinkId) → Restores {V = V} (free_link l)
  unfolding free_link
  Restores-free_link l = search restoring depth 20

  pub Restores-confirmed :
      (n : ℕ) (target tail : LinkId) (cur : Option LinkId)
      → Restores {V = V} (confirmed n target tail cur)
  unfolding confirmed
  Restores-confirmed zero target tail cur = search restoring depth 20
  Restores-confirmed (suc n) target tail none = search restoring depth 20
  Restores-confirmed (suc n) target tail (some c) =
      search (restoring, Restores-link_ref, Restores-confirmed n) depth 20

  pub Restores-is_valid_link :
      (target : LinkId) (sub : NodeId) → Restores {V = V} (is_valid_link target sub)
  unfolding is_valid_link
  Restores-is_valid_link target sub = search (restoring, Restores-confirmed) depth 20

  pub Restores-already_read :
      (o : Option LinkId) (sub : NodeId) → Restores {V = V} (already_read o sub)
  unfolding already_read
  Restores-already_read o sub =
      search (restoring, Restores-link_ref, Restores-is_valid_link) depth 20

  pub Restores-splice :
      (dep sub : NodeId) (a b c : Option LinkId) → Restores {V = V} (splice dep sub a b c)
  unfolding splice
  Restores-splice dep sub a b c =
      search (restoring, Restores-alloc_link, Restores-modify_link) depth 20

  pub Restores-link : (dep sub : NodeId) → Restores {V = V} (link dep sub)
  unfolding link
  Restores-link dep sub =
      search (restoring, Restores-link_ref, Restores-already_read, Restores-splice) depth 20

  pub Restores-start_tracking : (sub : NodeId) → Restores {V = V} (start_tracking sub)
  unfolding start_tracking
  Restores-start_tracking sub = search restoring depth 20

  pub Restores-unlink_from_dep_subs : (l : LinkId) → Restores {V = V} (unlink_from_dep_subs l)
  unfolding unlink_from_dep_subs
  Restores-unlink_from_dep_subs l =
      search (restoring, Restores-link_ref, Restores-modify_link) depth 20

  pub Restores-unlink_from_sub_deps : (l : LinkId) → Restores {V = V} (unlink_from_sub_deps l)
  unfolding unlink_from_sub_deps
  Restores-unlink_from_sub_deps l =
      search (restoring, Restores-link_ref, Restores-modify_link) depth 20

  pub Restores-drop_deps : (n : ℕ) (cur : Option LinkId) → Restores {V = V} (drop_deps n cur)
  unfolding drop_deps
  Restores-drop_deps zero cur = search restoring depth 20
  Restores-drop_deps (suc n) none = search restoring depth 20
  Restores-drop_deps (suc n) (some c) =
      search
        (
          restoring,
          Restores-link_ref,
          Restores-free_link,
          Restores-unlink_from_dep_subs,
          Restores-drop_deps n,
        )
        depth 20

  pub Restores-drop_subs : (n : ℕ) (cur : Option LinkId) → Restores {V = V} (drop_subs n cur)
  unfolding drop_subs
  Restores-drop_subs zero cur = search restoring depth 20
  Restores-drop_subs (suc n) none = search restoring depth 20
  Restores-drop_subs (suc n) (some c) =
      search
        (
          restoring,
          Restores-link_ref,
          Restores-free_link,
          Restores-unlink_from_sub_deps,
          Restores-drop_subs n,
        )
        depth 20

  pub Restores-end_tracking : (sub : NodeId) → Restores {V = V} (end_tracking sub)
  unfolding end_tracking
  Restores-end_tracking sub =
      search (restoring, Restores-link_ref, Restores-modify_link, Restores-drop_deps) depth 20

  pub Restores-clear_deps : (sub : NodeId) → Restores {V = V} (clear_deps sub)
  unfolding clear_deps
  Restores-clear_deps sub = search (restoring, Restores-drop_deps) depth 20

  pub Restores-detach_subs : (dep : NodeId) → Restores {V = V} (detach_subs dep)
  unfolding detach_subs
  Restores-detach_subs dep = search (restoring, Restores-drop_subs) depth 20

  pub Restores-collect :
      (end : Link → NodeId) (next : Link → Option LinkId) (n : ℕ) (cur : Option LinkId)
      → Restores {V = V} (collect end next n cur)
  unfolding collect
  Restores-collect end next zero cur = search restoring depth 20
  Restores-collect end next (suc n) none = search restoring depth 20
  Restores-collect end next (suc n) (some c) =
      search (restoring, Restores-link_ref, Restores-collect end next n) depth 20

  pub Restores-collect_deps : (id : NodeId) → Restores {V = V} (collect_deps id)
  unfolding collect_deps
  Restores-collect_deps id = search (restoring, Restores-collect) depth 20

  pub Restores-collect_subs : (id : NodeId) → Restores {V = V} (collect_subs id)
  unfolding collect_subs
  Restores-collect_subs id = search (restoring, Restores-collect) depth 20

pub ruleset link_rules = (
  Restores-link, Restores-start_tracking, Restores-end_tracking, Restores-clear_deps,
  Restores-detach_subs, Restores-collect_deps, Restores-collect_subs,
)
