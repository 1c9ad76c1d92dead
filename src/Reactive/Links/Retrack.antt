-- ===== src/Reactive/Links/Retrack.antt =====
-- Tracking again the dependencies that a node has: `link` of runtime.rs under an advancing cursor.
use vue_rs.Base.{◌≡◌, refl, false, Option, none, some, List, [], ◌∷◌, arith, maybe}
use vue_rs.Reactive.Arena.{NodeId, same_id, Arena}
use vue_rs.Reactive.Arena
use vue_rs.Reactive.Arena.Laws.{same_id_refl, get-modify}
use vue_rs.Reactive.State.{LinkId, Link, Node, Runtime}
use vue_rs.Reactive.Monad.{ok, ◌>>◌, for_each}
use vue_rs.Reactive.Links.{node?, link?, link, start_tracking}

module _ {V : Type 0} where
  -- The links from a pointer on lead, in this order, to these dependencies; `last` is the dependency
  -- of the link before, and no two neighbours are the same.
  pub data Chain (s : Runtime V) : Option NodeId → Option LinkId → List NodeId → Type 0 where
    stop : {last : Option NodeId} {o : Option LinkId} → Chain s last o []
    step :
        {last : Option NodeId} {c : LinkId} {ds : List NodeId} (k : Link)
        → link? c s ≡ some k
        → maybe false (λ d. same_id d k.dep) last ≡ false
        → Chain s (some k.dep) k.next_dep ds
        → Chain s last (some c) (k.dep ∷ ds)

  -- Where the cursor of a node stands: at its start, or on a link.
  data At (s : Runtime V) (sub : NodeId) (last : Option NodeId) (o : Option LinkId) : Type 0 where
    start :
        (n : Node V)
        → node? sub s ≡ some n
        → n.deps_tail ≡ none
        → last ≡ none
        → n.deps ≡ o
        → At s sub last o
    on :
        (n : Node V) (p : LinkId) (k : Link)
        → node? sub s ≡ some n
        → n.deps_tail ≡ some p
        → link? p s ≡ some k
        → last ≡ some k.dep
        → k.next_dep ≡ o
        → At s sub last o

  abbrev advanced : Runtime V → NodeId → LinkId → Runtime V
  advanced s sub c = record s {
    nodes = Arena.modify s.nodes sub (λ n. record n { deps_tail = some c });
  }

  link-advances :
      {s : Runtime V} {sub : NodeId} {last : Option NodeId} {c : LinkId} (k : Link)
      → At s sub last (some c)
      → link? c s ≡ some k
      → maybe false (λ d. same_id d k.dep) last ≡ false
      → link k.dep sub s ≡ ok tt (advanced s sub c)
  unfolding link
  link-advances {s} {sub} {last} {c} k (start n e t l o) h d =
      ground (arith, e, t, l, o, h, d, same_id_refl k.dep)
  link-advances {s} {sub} {last} {c} k (on n p q e t w l o) h d =
      ground (arith, e, t, l, o, w, h, d, same_id_refl k.dep)

  advanced-At :
      {s : Runtime V} {sub : NodeId} {last : Option NodeId} {o : Option LinkId} (c : LinkId)
      (k : Link)
      → At s sub last o
      → link? c s ≡ some k
      → At (advanced s sub c) sub (some k.dep) k.next_dep
  advanced-At {s} {sub} c k (start n e t l o) h =
      on (record n { deps_tail = some c }) c k
        (ground (
          arith,
          e,
          same_id_refl sub,
          get-modify s.nodes sub sub (λ n. record n { deps_tail = some c }),
        ))
        refl h refl refl
  advanced-At {s} {sub} c k (on n p q e t w l o) h =
      on (record n { deps_tail = some c }) c k
        (ground (
          arith,
          e,
          same_id_refl sub,
          get-modify s.nodes sub sub (λ n. record n { deps_tail = some c }),
        ))
        refl h refl refl

  Chain-nodes :
      {s : Runtime V} {nodes : Arena (Node V)} {last : Option NodeId} {o : Option LinkId}
      {ds : List NodeId}
      → Chain s last o ds
      → Chain (record s { nodes = nodes }) last o ds
  Chain-nodes stop = stop
  Chain-nodes (step k h d c) = step k h d (Chain-nodes c)

  walk :
      {s : Runtime V} {sub : NodeId} {last : Option NodeId} {o : Option LinkId} (ds : List NodeId)
      → At s sub last o
      → Chain s last o ds
      → (nodes : Arena (Node V)) × (for_each (λ d. link d sub) ds s
          ≡ ok tt (record s { nodes = nodes }))
  walk {s} [] a stop = (s.nodes, refl)
  walk {s} {sub} (_ ∷ ds) a (step {c = c} k h d rest) =
      let (nodes, e) = walk {s = advanced s sub c} ds (advanced-At c k a h) (Chain-nodes rest) in
      (nodes, rw (link-advances k a h d) e)

  -- A node that reads again, in the same order, dependencies that its list of links already holds
  -- changes only the arena of nodes: no link is allocated, freed, moved or written. The list may be
  -- longer than what is read, and no two neighbours in it are the same dependency.
  pub retrack-keeps :
      (s : Runtime V) (sub : NodeId) (n : Node V) (ds : List NodeId)
      → node? sub s ≡ some n
      → Chain s none n.deps ds
      → (nodes : Arena (Node V)) × ((start_tracking sub >> for_each (λ d. link d sub) ds) s
          ≡ ok tt (record s { nodes = nodes }))
  unfolding start_tracking
  retrack-keeps s sub n ds e c =
      let s' : Runtime V = record s {
        nodes = Arena.modify s.nodes sub (λ n. record n { deps_tail = none });
      } in
      walk {s = s'} ds
        (start (record n { deps_tail = none })
          (ground (
            arith,
            e,
            same_id_refl sub,
            get-modify s.nodes sub sub (λ n. record n { deps_tail = none }),
          ))
          refl refl refl)
        (Chain-nodes c)
