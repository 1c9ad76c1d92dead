-- ===== src/Dom/Mock/Dispatch.antt =====
-- Listeners and the dispatch of a simulated event, crates/vue-rs-dom/src/mock.rs.
use vue_rs.Base.{
  ℕ, ◌+◌, true, false, not, ◌||◌, List, [], ◌∷◌, ◌++◌, map, ◌==◌, if◌then◌else◌, retain, is_empty,
}
use vue_rs.Text.{Text, same_text}
use vue_rs.Dom.Events.{EventOptions, MockEvent, guards_pass}
use vue_rs.Dom.Mock.{
  Outcome, ok, ◌>>=◌, Listener, NodeData, element, MockDom, DispatchOutcome, node_at, with_element,
  holds,
}

module _ {H : Type 0} where
  unfoldable pub add_event_listener :
      MockDom H → ℕ → Text → EventOptions → H → Outcome (ℕ × MockDom H)
  unfolding with_element
  add_event_listener dom node event options handler = do
    let id = dom.next_listener_id
    added ←
        with_element (record dom { next_listener_id = id + 1 }) node
          (λ e. record e {
            listeners =
                e.listeners
                ++ record { id = id; event = event; options = options; handler = handler } ∷ [];
          })
    ok (id, added)

  unfoldable pub remove_event_listener : MockDom H → ℕ → ℕ → Outcome (MockDom H)
  unfolding with_element
  remove_event_listener dom node listener =
      with_element dom node
        (λ e. record e { listeners = retain (λ l. not (l.id == listener)) e.listeners })

  abbrev pub listeners_of : NodeData H → List (Listener H)
  listeners_of (element e) = e.listeners
  listeners_of _ = []

  -- The listeners that are removed afterwards; without one the node is not looked at again.
  unfoldable pub drop_spent : ℕ → List ℕ → MockDom H → Outcome (MockDom H)
  unfolding with_element holds
  drop_spent node spent dom =
      if is_empty spent
      then ok dom
      else with_element dom node
          (λ e. record e { listeners = retain (λ l. not (holds spent l.id)) e.listeners })

module _ {H : Type 0} (fire : H → Text → MockDom H → MockDom H) where
  -- The loop of `dispatch_full`: the handlers whose guards pass run one after the other.
  unfoldable pub run_listeners :
      ℕ
      → Text
      → MockEvent
      → List (Listener H)
      → DispatchOutcome
      → MockDom H
      → DispatchOutcome × MockDom H
  unfolding guards_pass
  run_listeners node value ev [] outcome dom = (outcome, dom)
  run_listeners node value ev (l ∷ ls) outcome dom = elim (guards_pass l.options node ev) [
    | false ↦ run_listeners node value ev ls outcome dom
    | true ↦
        run_listeners node value ev ls
          (record {
            default_prevented = outcome.default_prevented || l.options.prevent_default;
            propagation_stopped = outcome.propagation_stopped || l.options.stop_propagation;
          })
          (fire l.handler value dom)
  ]

  unfoldable pub dispatch_full :
      MockDom H → ℕ → Text → Text → MockEvent → Outcome (DispatchOutcome × MockDom H)
  unfolding node_at run_listeners drop_spent same_text
  dispatch_full dom node event value ev = do
    found ← node_at dom node
    let matched = retain (λ l. same_text l.event event) (listeners_of found)
    let spent = map (λ l. l.id) (retain (λ l. l.options.once) matched)
    let ran =
        run_listeners node value ev matched
          (record { default_prevented = false; propagation_stopped = false }) dom
    after ← drop_spent node spent ran.1
    ok (ran.0, after)
