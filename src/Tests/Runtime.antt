-- ===== src/Tests/Runtime.antt =====
-- Closures that exercise the reactive runtime.
use vue_rs.Base.{
  ℕ, ◌+◌, Bool, true, false, ◌≡◌, refl, Option, none, some, List, [], ◌∷◌, ◌==◌, if◌then◌else◌,
  maybe,
}
use vue_rs.Reactive.Arena.{NodeId}
use vue_rs.Reactive.Arena
use vue_rs.Reactive.Links.{link, collect_deps, clear_deps, detach_subs}
use vue_rs.Reactive.State.{Prog, Runtime}
use vue_rs.Reactive.Monad.{Run, ok, panic, starved}
use vue_rs.Reactive.Exec.{exec, initial}

abbrev log_of : Run (Runtime ℕ) ℕ → Option (List ℕ)
log_of (ok a s) = some s.log
log_of panic = none
log_of starved = some (404 ∷ [])

abbrev eq : Option (ℕ → ℕ → Bool)
eq = some (λ a b. a == b)

abbrev get : NodeId → (ℕ → Prog ℕ) → Prog ℕ
get id k = Prog.read id Prog.ret k

abbrev stop : Prog ℕ
stop = Prog.ret 0

-- `count`, `double = computed(count * 2)`, an effect that prints `double`.
abbrev counter : Prog ℕ
counter = Prog.new_signal eq 1 λ count. Prog.new_memo eq (get count λ v. Prog.ret (v + v)) λ double.
    Prog.new_effect (get double λ v. Prog.host v stop) (
      Prog.write count 5 (
        Prog.write count 5 (Prog.batched (Prog.write count 6 (Prog.write count 7 stop)) λ _. stop)))

counter_log : log_of (exec 40 counter initial) ≡ some (14 ∷ 10 ∷ 2 ∷ [])
unfolding exec initial Arena.insert Arena.new Arena.modify link collect_deps
counter_log = refl

-- The second run of an effect reads `a` and then disposes the scope that owns `a`; its first run
-- also read `b`. The tracking cursor stands on the freed link, and `end_tracking` panics.
abbrev disposed_under_cursor : Bool → Prog ℕ
disposed_under_cursor again = Prog.new_cell λ c. Prog.new_signal eq 0 λ b.
    Prog.new_scope false λ scope.
      Prog.run_scope scope
        (Prog.new_signal eq 1 λ a.
          Prog.root_scope true
            (Prog.new_effect
              (Prog.cell_take c λ ran. Prog.cell_put c 1 (
                maybe (get a λ _. get b λ v. Prog.host v stop)
                  (λ _. get a λ v. Prog.dispose scope (Prog.host v stop)) ran))
              stop)
            λ _. stop)
        λ _. if again then Prog.write b 1 stop else stop

disposed_once : log_of (exec 40 (disposed_under_cursor false) initial) ≡ some (0 ∷ [])
unfolding exec initial Arena.insert Arena.new Arena.modify Arena.contains link
disposed_once = refl

disposed_panics : exec 40 (disposed_under_cursor true) initial ≡ panic
unfolding exec initial Arena.insert Arena.new Arena.modify Arena.contains Arena.remove link
    collect_deps clear_deps detach_subs
disposed_panics = refl

-- A write to the signal that `with` is reading is lost.
abbrev write_while_reading : Prog ℕ
write_while_reading =
    Prog.new_signal eq 1
      λ x. Prog.read x (λ v. Prog.write x (v + 1) (Prog.ret v)) λ _. get x λ v. Prog.host v stop

write_lost : log_of (exec 40 write_while_reading initial) ≡ some (1 ∷ [])
unfolding exec initial Arena.insert Arena.new Arena.modify Arena.contains link collect_deps
write_lost = refl
