-- ===== src/Reactive/Settled.antt =====
-- What a flush has done when it ends: `flush_pending` of runtime.rs.
use vue_rs.Base.{
  ℕ, zero, suc, ◌≡◌, refl, sym, ap, ◌∙◌, true, false, none, List, [], ◌∷◌, arith, Bool-cases,
  Option-cases, inl, inr, front, rest, is_empty,
}
use vue_rs.Reactive.State.{Prog, Runtime}
use vue_rs.Reactive.Monad.{Run, ok, panic, starved, M, continue, state_or, for_each}
use vue_rs.Reactive.Propagation.{update_if_necessary}
use vue_rs.Reactive.Flush.{drain, flush_loop, flush_pending}

-- A sequence that returns has run both parts.
pub continue-ok :
    {S A B : Type 0} (r : Run S A) {f : A → S → Run S B} {b : B} {u : S}
    → continue r f ≡ ok b u
    → (a : A) × (t : S) × (r ≡ ok a t) × (f a t ≡ ok b u)
continue-ok (ok a t) h = (a, t, refl, h)
continue-ok panic h = absurd cc
continue-ok starved h = absurd cc

empty-front : {A : Type 0} (xs : List A) → front xs ≡ none → xs ≡ []
empty-front [] h = refl
empty-front (x ∷ xs) h = absurd (ground arith)

is_empty-nil : {A : Type 0} (xs : List A) → is_empty xs ≡ true → xs ≡ []
is_empty-nil [] h = refl
is_empty-nil (x ∷ xs) h = absurd (ground arith)

module _ {V : Type 0} (run : Prog V → M V V) where
  drain-empties :
      (n : ℕ) (s : Runtime V) {t : Runtime V} {u : Unit {0}}
      → drain run n s ≡ ok u t
      → t.pending ≡ []
  unfolding drain
  drain-empties zero s h = absurd cc
  drain-empties (suc n) s h = elim (Option-cases (front s.pending)) [
    | inl e ↦ sym (ap (λ r. (state_or s r).pending) h) ∙ rw (e, empty-front s.pending e) refl
    | inr (x, e) ↦
        let step : drain run (suc n) s
            ≡ continue (update_if_necessary run n x (record s { pending = rest s.pending }))
                (λ _ v. drain run n v) =
          rw e refl in
        let (_, v, _, later) =
          continue-ok (update_if_necessary run n x (record s { pending = rest s.pending }))
            (sym step ∙ h) in
        drain-empties n v later
  ]

  loop-empties :
      (n : ℕ) (s : Runtime V) {t : Runtime V} {u : Unit {0}}
      → flush_loop run n s ≡ ok u t
      → (t.pending ≡ []) × (t.post_flush ≡ [])
  unfolding flush_loop
  loop-empties zero s h = absurd cc
  loop-empties (suc n) s {t} {u} h =
      let (_, v, drained, later) = continue-ok (drain run n s) h in
      let empty = drain-empties n s drained in
      let v' : Runtime V = record v { post_flush = [] } in
      elim (Bool-cases (is_empty v.post_flush)) [
        | inl e ↦
            let last : ok tt v' ≡ ok u t = sym (rw e refl) ∙ later in
            let same = ap (state_or s) last in (rw (← same) empty, rw (← same) refl)
        | inr e ↦
            let next : continue (for_each run v.post_flush v') (λ _ w. flush_loop run n w)
                ≡ ok u t =
              sym (rw e refl) ∙ later in
            let (_, w, _, rounds) = continue-ok (for_each run v.post_flush v') next in
            loop-empties n w rounds
      ]

  -- A flush that ends leaves no effect pending and no callback queued, and it is over: the flag that
  -- keeps flushes from nesting is down.
  pub flush_pending-empties :
      (n : ℕ) (s : Runtime V) {t : Runtime V} {u : Unit {0}}
      → flush_pending run n s ≡ ok u t
      → (t.pending ≡ []) × (t.post_flush ≡ []) × (t.flushing ≡ false)
  unfolding flush_pending
  flush_pending-empties n s {t} h =
      let (_, v, looped, reset) = continue-ok (flush_loop run n (record s { flushing = true })) h in
      let (pending, queued) = loop-empties n (record s { flushing = true }) looped in
      let same = ap (state_or s) reset in
      (rw (← same) pending, rw (← same) queued, rw (← same) refl)
