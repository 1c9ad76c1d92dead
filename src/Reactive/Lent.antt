-- ===== src/Reactive/Lent.antt =====
-- The value of a signal while a closure reads it: `read_with` of runtime.rs.
use vue_rs.Base.{◌+◌, ◌≡◌, refl, sym, ap, ◌∙◌, none, some, arith, inl, inr, and_then, Option-cases}
use vue_rs.Reactive.Arena.{NodeId, same_id, Arena}
use vue_rs.Reactive.Arena
use vue_rs.Reactive.Arena.Laws.{same_id_refl, get-modify}
use vue_rs.Reactive.State.{Prog, Node, Runtime}
use vue_rs.Reactive.Monad.{Run, ok, M, continue, state_or}
use vue_rs.Reactive.Links.{node?}
use vue_rs.Reactive.Flush.{borrow_value, lend}
use vue_rs.Reactive.Settled.{continue-ok}

module _ {V : Type 0} where
  -- The node after the write that puts the value back.
  put_back-value :
      (id : NodeId) (v : V) (t : Arena (Node V)) {nd : Node V}
      → Arena.get (Arena.modify t id (λ n. record n { value = some v })) id ≡ some nd
      → nd.value ≡ some v
  put_back-value id v t {nd} h =
      let e = sym (get-modify t id id (λ n. record n { value = some v })) ∙ h in
      elim (Option-cases (Arena.get t id)) [
        | inl k ↦ absurd (ground (arith, e, k))
        | inr (n, k) ↦
            let same : some (record n { value = some v }) ≡ some nd =
              ground (arith, e, k, same_id_refl id) in
            sym (ap (λ o. and_then o (λ m. m.value)) same)
      ]

module _ {V : Type 0} (run : Prog V → M V V) where
  borrow_value-value :
      (id : NodeId) (f : V → Prog V) (s : Runtime V) {r : V} {t : Runtime V} {nd : Node V}
      → borrow_value run id f s ≡ ok r t
      → node? id t ≡ some nd
      → nd.value ≡ and_then (node? id s) (λ n. n.value)
  unfolding borrow_value
  borrow_value-value id f s {r} {t} {nd} h k =
      elim (Option-cases (and_then (node? id s) (λ n. n.value))) [
        | inl e ↦ absurd (ground (arith, e, h))
        | inr (v, e) ↦
            let s' : Runtime V = record s {
              nodes = Arena.modify s.nodes id (λ n. record n { value = none });
            } in
            let back : V → Runtime V → Run (Runtime V) V = λ a u.
              ok a
                (record u { nodes = Arena.modify u.nodes id (λ n. record n { value = some v }) }) in
            let step : borrow_value run id f s ≡ continue (run (f v) s') back = rw e refl in
            let (a, u, _, last) = continue-ok (run (f v) s') {f = back} (sym step ∙ h) in
            let same = ap (state_or s) last in
            let k' : Arena.get (Arena.modify u.nodes id (λ n. record n { value = some v })) id
                ≡ some nd =
              ap (λ w. node? id w) same ∙ k in
            put_back-value id v u.nodes k' ∙ sym e
      ]

  -- When a read ends, the node holds the value that it held when the read took it out, whatever the
  -- closure did with it in between: a write of the closure to the same node is lost.
  pub lend-value :
      (id : NodeId) (f : V → Prog V) (s : Runtime V) {r : V} {t : Runtime V} {nd : Node V}
      → lend run id f s ≡ ok r t
      → node? id t ≡ some nd
      → nd.value ≡ and_then (node? id s) (λ n. n.value)
  unfolding lend
  lend-value id f s {r} {t} {nd} h k =
      let s' : Runtime V = record s { reading_depth = s.reading_depth + 1 } in
      let (a, u, borrowed, last) = continue-ok (borrow_value run id f s') h in
      let same = ap (state_or s) last in
      borrow_value-value id f s' {nd = nd} borrowed (ap (λ w. node? id w) same ∙ k)
