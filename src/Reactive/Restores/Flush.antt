-- ===== src/Reactive/Restores/Flush.antt =====
-- Reads, writes and flushes, and the scope that they put back.
use vue_rs.Base.{ℕ, zero, suc, ◌+◌, ◌-◌, refl, arith, is_empty}
use vue_rs.Reactive.Arena.{NodeId}
use vue_rs.Reactive.State.{Prog}
use vue_rs.Reactive.Monad.{M}
use vue_rs.Reactive.Flush.{
  pop_sync, pop_pending, take_post_flush, push_post_flush, store_value, run_sync_effects, drain,
  flush_loop, flush_pending, schedule_or_flush, maybe_flush, notify_subscribers, set_value,
  update_value, borrow_value, lend, read_with, next_tick, queue_post, flush_jobs, nested, batch,
}
use vue_rs.Reactive.Restores.{
  Restores, returns, rest-Once, restoring, Restores-bracket, Restores-bind, Restores-maybe,
  Restores-pure, Restores-then, Restores-if, Restores-for_each,
}
use vue_rs.Reactive.Restores.Links.{link_rules}
use vue_rs.Reactive.Restores.Ownership.{Restores-record_dependency}
use vue_rs.Reactive.Restores.Propagation.{Restores-mark_stale, Restores-update_if_necessary}

module _ {V : Type 0} where
  Restores-pop_sync : Restores {V = V} pop_sync
  unfolding pop_sync
  Restores-pop_sync = record {
    leaves = λ s. returns (record {
      observer = refl;
      owner = refl;
      batch_depth = refl;
      reading_depth = refl;
      sound = λ h. h;
      pending = λ h. h;
      sync_pending = rest-Once s.sync_pending;
    });
  }

  Restores-pop_pending : Restores {V = V} pop_pending
  unfolding pop_pending
  Restores-pop_pending = record {
    leaves = λ s. returns (record {
      observer = refl;
      owner = refl;
      batch_depth = refl;
      reading_depth = refl;
      sound = λ h. h;
      pending = rest-Once s.pending;
      sync_pending = λ h. h;
    });
  }

  Restores-take_post_flush : Restores {V = V} take_post_flush
  unfolding take_post_flush
  Restores-take_post_flush = search restoring depth 20

  Restores-push_post_flush : (f : Prog V) → Restores (push_post_flush f)
  unfolding push_post_flush
  Restores-push_post_flush f = search restoring depth 20

  Restores-store_value : (id : NodeId) (v : V) → Restores (store_value id v)
  unfolding store_value
  Restores-store_value id v = search restoring depth 20

module _ {V : Type 0} (run : Prog V → M V V) (runs : (p : Prog V) → Restores (run p)) where
  Restores-run_sync_effects : (n : ℕ) → Restores (run_sync_effects run n)
  unfolding run_sync_effects
  Restores-run_sync_effects zero = search restoring depth 20
  Restores-run_sync_effects (suc n) = Restores-bind Restores-pop_sync λ next.
      Restores-maybe next (Restores-pure tt)
        λ e. Restores-then (Restores-update_if_necessary run runs n e) (Restores-run_sync_effects n)

  Restores-drain : (n : ℕ) → Restores (drain run n)
  unfolding drain
  Restores-drain zero = search restoring depth 20
  Restores-drain (suc n) = Restores-bind Restores-pop_pending λ next.
      Restores-maybe next (Restores-pure tt)
        λ e. Restores-then (Restores-update_if_necessary run runs n e) (Restores-drain n)

  Restores-flush_loop : (n : ℕ) → Restores (flush_loop run n)
  unfolding flush_loop
  Restores-flush_loop zero = search restoring depth 20
  Restores-flush_loop (suc n) = Restores-then (Restores-drain n) (
      Restores-bind Restores-take_post_flush λ callbacks.
        Restores-if (is_empty callbacks) (Restores-pure tt)
          (Restores-then (Restores-for_each callbacks runs) (Restores-flush_loop n)))

  Restores-flush_pending : (n : ℕ) → Restores (flush_pending run n)
  unfolding flush_pending
  Restores-flush_pending n = search (restoring, Restores-flush_loop) depth 20

  Restores-schedule_or_flush : (n : ℕ) → Restores (schedule_or_flush run n)
  unfolding schedule_or_flush
  Restores-schedule_or_flush n = search (restoring, Restores-flush_pending, runs) depth 20

  Restores-maybe_flush : (n : ℕ) → Restores (maybe_flush run n)
  unfolding maybe_flush
  Restores-maybe_flush n = search (restoring, Restores-schedule_or_flush) depth 20

  Restores-notify_subscribers : (n : ℕ) (id : NodeId) → Restores (notify_subscribers run n id)
  unfolding notify_subscribers
  Restores-notify_subscribers n id =
      search
        (
          restoring, link_rules, Restores-mark_stale, Restores-run_sync_effects,
          Restores-maybe_flush,
        )
        depth 20

  pub Restores-set_value : (n : ℕ) (id : NodeId) (v : V) → Restores (set_value run n id v)
  unfolding set_value
  Restores-set_value n id v =
      search (restoring, Restores-store_value, Restores-notify_subscribers) depth 20

  pub Restores-update_value : (n : ℕ) (id : NodeId) (f : V → V) → Restores (update_value run n id f)
  unfolding update_value
  Restores-update_value n id f = search (restoring, Restores-notify_subscribers) depth 20

  Restores-borrow_value : (id : NodeId) (f : V → Prog V) → Restores (borrow_value run id f)
  unfolding borrow_value
  Restores-borrow_value id f = search (restoring, runs) depth 20

  Restores-lend : (id : NodeId) (f : V → Prog V) → Restores (lend run id f)
  unfolding lend
  Restores-lend id f =
      Restores-bracket (λ s. record s { reading_depth = s.reading_depth + 1 })
        (λ s u. record u { reading_depth = u.reading_depth - 1 }) (borrow_value run id f)
        (λ s u p. record {
          observer = p.observer;
          owner = p.owner;
          batch_depth = p.batch_depth;
          reading_depth = omega (arith, p.reading_depth);
          sound = p.sound;
          pending = p.pending;
          sync_pending = p.sync_pending;
        })
        (Restores-borrow_value id f)

  pub Restores-read_with : (n : ℕ) (id : NodeId) (f : V → Prog V) → Restores (read_with run n id f)
  unfolding read_with
  Restores-read_with n id f =
      search
        (
          restoring,
          Restores-record_dependency,
          Restores-update_if_necessary run runs,
          Restores-lend,
          Restores-maybe_flush,
        )
        depth 20

  pub Restores-next_tick : (n : ℕ) (f : Prog V) → Restores (next_tick run n f)
  unfolding next_tick
  Restores-next_tick n f =
      search (restoring, Restores-push_post_flush, Restores-schedule_or_flush, runs) depth 20

  pub Restores-queue_post : (n : ℕ) (f : Prog V) → Restores (queue_post run n f)
  unfolding queue_post
  Restores-queue_post n f =
      search (restoring, Restores-push_post_flush, Restores-maybe_flush) depth 20

  pub Restores-flush_jobs : (n : ℕ) → Restores (flush_jobs run n)
  unfolding flush_jobs
  Restores-flush_jobs n = search (restoring, Restores-flush_pending) depth 20

  Restores-nested : {A : Type 0} (body : M V A) → Restores body → Restores (nested run body)
  unfolding nested
  Restores-nested body =
      Restores-bracket (λ s. record s { batch_depth = s.batch_depth + 1 })
        (λ s u. record u { batch_depth = u.batch_depth - 1 }) body
        (λ s u p. record {
          observer = p.observer;
          owner = p.owner;
          batch_depth = omega (arith, p.batch_depth);
          reading_depth = p.reading_depth;
          sound = p.sound;
          pending = p.pending;
          sync_pending = p.sync_pending;
        })

  pub Restores-batch :
      {A : Type 0} (n : ℕ) (body : M V A) → Restores body → Restores (batch run n body)
  unfolding batch
  Restores-batch n body h = search (restoring, Restores-nested, Restores-schedule_or_flush) depth 20
