-- ===== src/Tests/Reactive.antt =====
-- The theorems on the runtime at concrete closures and states.
use vue_rs.Base.{
  ℕ, zero, suc, any, true, false, ◌≡◌, refl, Option, none, some, List, [], ◌∷◌, ◌==◌, map, arith,
  get_elem?,
}
use vue_rs.Reactive.Arena.{NodeId, Arena, Slot, same_id}
use vue_rs.Reactive.Arena
use vue_rs.Reactive.Arena.Laws.{
  IsSound, Inserts, insert-Inserts, get-remove, get-modify, remove-IsSound,
}
use vue_rs.Reactive.Links.{link, start_tracking, unlink_from_sub_deps, free_link, end_tracking}
use vue_rs.Reactive.Links.Retrack.{Chain, retrack-keeps}
use vue_rs.Reactive.Links.Retrack
use vue_rs.Reactive.Links.Dangling.{end_tracking-panics}
use vue_rs.Reactive.State.{Prog, Runtime, Node, Link, Freshness, Kind}
use vue_rs.Reactive.State
use vue_rs.Reactive.Monad.{Run, ok, panic, for_each, ◌>>◌}
use vue_rs.Reactive.Flush.{flush_pending, lend}
use vue_rs.Reactive.Exec.{exec, initial}
use vue_rs.Reactive.Restores.Exec.{IsTidy, initial-IsTidy, exec-IsTidy, exec-restores}
use vue_rs.Reactive.Settled.{flush_pending-empties}
use vue_rs.Reactive.Ownership.{dispose_node}
use vue_rs.Reactive.Disposed.{dispose_node-gone}
use vue_rs.Reactive.Links.{clear_deps, detach_subs, node?}
use vue_rs.Reactive.Lent.{lend-value}

abbrev state_of : Run (Runtime ℕ) ℕ → Runtime ℕ
state_of (ok a s) = s
state_of _ = initial

-- A signal, a computed of it, and a batch of two writes.
abbrev batched : Prog ℕ
batched = Prog.new_signal (some (λ a b. a == b)) 1 λ count.
    Prog.new_effect (Prog.read count Prog.ret λ v. Prog.host v (Prog.ret 0))
      (Prog.batched (Prog.write count 6 (Prog.write count 7 (Prog.ret 0))) λ _. Prog.ret 0)

abbrev settled : Runtime ℕ
settled = state_of (exec 40 batched initial)

exec-restores_example :
    (settled.observer ≡ none)
    × (settled.owner ≡ none)
    × (settled.batch_depth ≡ 0)
    × (settled.reading_depth ≡ 0)
unfolding exec initial Arena.insert Arena.new Arena.modify link
exec-restores_example = exec-restores 40 batched initial {a = 0} {t = settled} refl

exec-IsTidy_example : IsTidy settled
unfolding exec initial Arena.insert Arena.new Arena.modify link
exec-IsTidy_example = exec-IsTidy 40 batched initial {a = 0} {t = settled} refl initial-IsTidy

abbrev at : ℕ → ℕ → NodeId
at i g = record { index = i; generation = g }

-- An arena of numbers with one live slot.
abbrev filled : Arena ℕ
filled = record { slots = record { generation = 0; node = some 8 } ∷ []; free = [] }

filled-listed :
    (i : ℕ) (s : Slot ℕ)
    → get_elem? filled.slots i ≡ some s
    → s.node ≡ none
    → any (λ x. x == i) filled.free ≡ true
filled-listed zero s h n = ground (arith, h, n)
filled-listed (suc i) s h n = absurd cc

filled-IsSound : IsSound filled
filled-IsSound = record { vacant = λ i h. absurd cc; listed = filled-listed; distinct = tt }

abbrev holed : Arena ℕ
holed = record { slots = record { generation = 1; node = none } ∷ []; free = 0 ∷ [] }

remove-IsSound_example : IsSound holed
unfolding Arena.remove
remove-IsSound_example = remove-IsSound filled (at 0 0) filled-IsSound

get-remove_example : Arena.get (Arena.remove filled (at 0 0)).0 (at 0 0) ≡ none
get-remove_example = get-remove filled (at 0 0) (at 0 0)

get-modify_example : Arena.get (Arena.modify filled (at 0 0) suc) (at 0 0) ≡ some 9
unfolding Arena.get
get-modify_example = get-modify filled (at 0 0) (at 0 0) suc

-- The vacant slot is taken again, with its new generation.
insert-Inserts_example :
    (r : Arena ℕ × NodeId) × (Arena.insert holed 5 ≡ some r) × Inserts holed 5 r
insert-Inserts_example = insert-Inserts holed 5 remove-IsSound_example

-- A runtime at rest with these nodes and links.
abbrev resting : List (Node ℕ) → List (Option Link) → List ℕ → Runtime ℕ
resting nodes links free_links = record {
  nodes = record { slots = map (λ n. record { generation = 0; node = some n }) nodes; free = [] };
  links = links;
  free_links = free_links;
  observer = none;
  owner = none;
  batch_depth = 0;
  pending = [];
  sync_pending = [];
  flushing = false;
  reading_depth = 0;
  post_flush = [];
  scheduler = none;
  flush_scheduled = false;
  mounted_queue = [];
  cells = [];
  log = [];
}

abbrev bare : Kind ℕ → Option ℕ → Freshness → Node ℕ
bare kind value state = record {
  value = value;
  state = state;
  deps = none;
  deps_tail = none;
  subs = none;
  subs_tail = none;
  owner = none;
  owned = [];
  cleanups = [];
  contexts = [];
  eq = none;
  setter = none;
  kind = kind;
}

-- A pending effect and a queued callback.
abbrev effect_node : Freshness → Node ℕ
effect_node state = bare (State.effect (some (Prog.ret 0)) false) none state

abbrev waiting : Runtime ℕ
waiting = record (resting (effect_node State.dirty ∷ []) [] []) {
  pending = at 0 0 ∷ [];
  post_flush = Prog.host 3 (Prog.ret 0) ∷ [];
}

abbrev flushed : Runtime ℕ
flushed = record (resting (effect_node State.clean ∷ []) [] []) { log = 3 ∷ [] }

flush_pending-empties_example :
    (flushed.pending ≡ []) × (flushed.post_flush ≡ []) × (flushed.flushing ≡ false)
unfolding exec flush_pending Arena.modify Arena.get
flush_pending-empties_example = flush_pending-empties (exec 9) 9 waiting {t = flushed} {u = tt} refl

-- A signal, whose reader writes 8 to it.
abbrev signal_node : Node ℕ
signal_node = bare State.signal (some 7) State.clean

abbrev one_signal : Runtime ℕ
one_signal = resting (signal_node ∷ []) [] []

lend-value_example : signal_node.value ≡ some 7
unfolding exec lend Arena.modify Arena.get
lend-value_example =
    lend-value (exec 9) (at 0 0) (λ v. Prog.write (at 0 0) 8 (Prog.ret v)) one_signal {r = 7}
      {t = one_signal} {nd = signal_node} refl refl

-- An effect that has read two signals, with its cursor on one of its two links.
abbrev first_link : Link
first_link = record {
  dep = at 0 0;
  sub = at 2 0;
  prev_dep = none;
  next_dep = some 1;
  prev_sub = none;
  next_sub = none;
}

abbrev second_link : Option ℕ → Link
second_link prev = record {
  dep = at 1 0;
  sub = at 2 0;
  prev_dep = prev;
  next_dep = none;
  prev_sub = none;
  next_sub = none;
}

abbrev subscribed : ℕ → Node ℕ
subscribed l = record signal_node { subs = some l; subs_tail = some l }

abbrev reader : ℕ → ℕ → Node ℕ
reader head tail = record (effect_node State.clean) { deps = some head; deps_tail = some tail }

abbrev reading : ℕ → Runtime ℕ
reading tail =
    resting (subscribed 0 ∷ subscribed 1 ∷ reader 0 tail ∷ [])
      (some first_link ∷ some (second_link (some 0)) ∷ []) []

abbrev freed : Runtime ℕ
freed =
    resting (subscribed 0 ∷ subscribed 1 ∷ reader 1 0 ∷ []) (none ∷ some (second_link none) ∷ [])
      (0 ∷ [])

retrack-keeps_example :
    (nodes : Arena (Node ℕ)) × ((start_tracking (at 2 0)
          >> for_each (λ d. link d (at 2 0)) (at 0 0 ∷ at 1 0 ∷ []))
        (reading 1)
      ≡ ok tt (record (reading 1) { nodes = nodes }))
unfolding Arena.get
retrack-keeps_example =
    retrack-keeps (reading 1) (at 2 0) (reader 0 1) (at 0 0 ∷ at 1 0 ∷ []) refl (
      Retrack.step {c = 0} first_link refl refl
        (Retrack.step {c = 1} (second_link (some 0)) refl refl Retrack.stop))

end_tracking-panics_example : end_tracking (at 2 0) freed ≡ panic
unfolding Arena.modify Arena.get unlink_from_sub_deps free_link
end_tracking-panics_example =
    end_tracking-panics 0 1 (at 2 0) first_link (reading 0) {u = tt} {t = freed} refl refl refl refl

abbrev emptied : Runtime ℕ
emptied = record one_signal {
  nodes = record { slots = record { generation = 1; node = none } ∷ []; free = 0 ∷ [] };
}

dispose_node-gone_example : node? (at 0 0) emptied ≡ none
unfolding exec dispose_node Arena.modify Arena.get Arena.contains Arena.remove clear_deps
    detach_subs
dispose_node-gone_example =
    dispose_node-gone (exec 9) 9 (at 0 0) one_signal {u = tt} {t = emptied} refl
