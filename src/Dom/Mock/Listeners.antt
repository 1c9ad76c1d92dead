-- ===== src/Dom/Mock/Listeners.antt =====
-- Listeners with the option `once`, `dispatch_full` of crates/vue-rs-dom/src/mock.rs.
use vue_rs.Base.{
  ℕ, ◌≡◌, refl, sym, ap, ◌∙◌, Bool, true, false, not, ◌&&◌, some, List, [], ◌∷◌, map, ◌==◌, arith,
  any, retain, Bool-cases, Option-cases, inl, inr, get_elem?, set, get_elem?-set, get_elem?-lt,
  maybe, ==_iff,
}
use vue_rs.Text.{Text, same_text}
use vue_rs.Dom.Events.{MockEvent}
use vue_rs.Dom.Mock.{
  ok, panic, starved, Outcome, ◌>>=◌, Listener, Element, NodeData, element, text, anchor, fragment,
  MockDom, DispatchOutcome, node_at, with_element, holds, map_element,
}
use vue_rs.Dom.Mock.Dispatch.{run_listeners, drop_spent, dispatch_full}

-- A listener with this id is registered.
abbrev pub registered : {H : Type 0} → ℕ → List (Listener H) → Bool
registered id ls = any (λ l. l.id == id) ls

-- A listener for the event, to fire once, with this id is registered.
abbrev pub fires_once : {H : Type 0} → Text → ℕ → List (Listener H) → Bool
fires_once event id ls = any (λ l. (l.id == id) && (same_text l.event event && l.options.once)) ls

Outcome-ok :
    {A B : Type 0} (m : Outcome A) {f : A → Outcome B} {b : B}
    → (m >>= f) ≡ ok b
    → (a : A) × (m ≡ ok a) × (f a ≡ ok b)
Outcome-ok (ok a) h = (a, refl, h)
Outcome-ok panic h = absurd cc
Outcome-ok starved h = absurd cc

abbrev dom_or : {H : Type 0} → MockDom H → Outcome (DispatchOutcome × MockDom H) → MockDom H
dom_or dom (ok (_, d)) = d
dom_or dom _ = dom

abbrev spent_ids : {H : Type 0} → Text → List (Listener H) → List ℕ
spent_ids event ls =
    map (λ l. l.id) (retain (λ l. l.options.once) (retain (λ l. same_text l.event event) ls))

module _ {H : Type 0} where
  spent_ids-holds :
      (event : Text) (id : ℕ) (ls : List (Listener H))
      → fires_once event id ls ≡ true
      → holds (spent_ids event ls) id ≡ true
  unfolding holds
  spent_ids-holds event id [] h = h
  spent_ids-holds event id (l ∷ ls) h = ground (arith, spent_ids-holds event id ls)

  retain-registered :
      (ids : List ℕ) (id : ℕ) (ls : List (Listener H))
      → holds ids id ≡ true
      → registered id (retain (λ l. not (holds ids l.id)) ls) ≡ false
  retain-registered ids id [] h = refl
  retain-registered ids id (l ∷ ls) h = elim (Bool-cases (l.id == id)) [
    | inl e ↦
        ground (arith, retain-registered ids id ls h, e, ap (holds ids) ((==_iff l.id id).0 e), h)
    | inr e ↦ ground (arith, retain-registered ids id ls h, e)
  ]

  abbrev element_at : NodeData H → Element H → Element H
  element_at (element x) or = x
  element_at _ or = or

  retained :
      (ids : List ℕ) (id : ℕ) (d : NodeData H) {e : Element H}
      → holds ids id ≡ true
      → map_element (λ x. record x { listeners = retain (λ l. not (holds ids l.id)) x.listeners }) d
        ≡ element e
      → registered id e.listeners ≡ false
  retained ids id (element x) {e} h k =
      rw (← ap (λ d. (element_at d e).listeners) k) (retain-registered ids id x.listeners h)
  retained ids id (text x) h k = absurd cc
  retained ids id anchor h k = absurd cc
  retained ids id (fragment x) h k = absurd cc

  drop_spent-registered :
      (node : ℕ) (ids : List ℕ) (id : ℕ) (dom : MockDom H) {after : MockDom H} {e : Element H}
      → holds ids id ≡ true
      → drop_spent node ids dom ≡ ok after
      → get_elem? after.nodes node ≡ some (element e)
      → registered id e.listeners ≡ false
  unfolding drop_spent with_element node_at holds
  drop_spent-registered node [] id dom h k m = absurd cc
  drop_spent-registered node (x ∷ xs) id dom {after} {e} h k m =
      elim (Option-cases (get_elem? dom.nodes node)) [
        | inl g ↦ absurd (ground (arith, g, k))
        | inr (d, g) ↦
            let f : Element H → Element H = λ x'. record x' {
              listeners = retain (λ l. not (holds (x ∷ xs) l.id)) x'.listeners;
            } in
            let same : ok (record dom { nodes = set dom.nodes node (map_element f d) }) ≡ ok after =
              sym (rw g refl) ∙ k in
            let here : some (map_element f d) ≡ some (element e) = ground (
              arith,
              get_elem?-set dom.nodes node node (map_element f d),
              get_elem?-lt dom.nodes node g,
              same,
              m,
            ) in
            retained (x ∷ xs) id d h (ap (λ o. maybe d (λ y. y) o) here)
      ]

-- A listener for the dispatched event that is to fire once is not registered on the node any more
-- when the dispatch is over, whatever the handlers did and whether or not its guards passed.
pub dispatch_full-once :
    {H : Type 0} (fire : H → Text → MockDom H → MockDom H) (dom : MockDom H) (node : ℕ)
    (event value : Text) (ev : MockEvent) (id : ℕ) (before : Element H) {outcome : DispatchOutcome}
    {after : MockDom H} {e : Element H}
    → get_elem? dom.nodes node ≡ some (element before)
    → fires_once event id before.listeners ≡ true
    → dispatch_full fire dom node event value ev ≡ ok (outcome, after)
    → get_elem? after.nodes node ≡ some (element e)
    → registered id e.listeners ≡ false
unfolding dispatch_full node_at
dispatch_full-once fire dom node event value ev id before {outcome} {after} {e} h once k m =
    let ran =
      run_listeners fire node value ev (retain (λ l. same_text l.event event) before.listeners)
        (record { default_prevented = false; propagation_stopped = false }) dom in
    let finish : MockDom _ → Outcome (DispatchOutcome × MockDom _) = λ a. ok (ran.0, a) in
    let step : dispatch_full fire dom node event value ev
        ≡ (drop_spent node (spent_ids event before.listeners) ran.1 >>= finish) =
      rw h refl in
    let (a, dropped, last) =
      Outcome-ok (drop_spent node (spent_ids event before.listeners) ran.1) {f = finish}
        (sym step ∙ k) in
    drop_spent-registered node (spent_ids event before.listeners) id ran.1 {after = a} {e = e}
      (spent_ids-holds event id before.listeners once) dropped
      (ap (λ o. get_elem? (dom_or dom o).nodes node) last ∙ m)
