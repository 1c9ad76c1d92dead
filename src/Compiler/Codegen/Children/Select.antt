-- ===== src/Compiler/Codegen/Children/Select.antt =====
-- The arm that a generated `dyn_switch` selects, `gen_if_chain` of
-- crates/vue-rs-compiler/src/codegen.rs.
use vue_rs.Base.{
  ℕ, suc, ◌+◌, ◌<◌, ◌≡◌, refl, sym, ap, ◌∙◌, Bool, true, Option, none, some, List, [], ◌∷◌, ◌++◌,
  arith, if◌then◌else◌, length, length-append,
}
use vue_rs.Text.{Text}
use vue_rs.Compiler.Template.Syntax.{Nodes}
use vue_rs.Compiler.Codegen.Tokens.{Stream, Syn}
use vue_rs.Compiler.Codegen.Code.{
  Selector, Code, Codes, no_codes, codes, Part, dyn_switch, to_codes, Result,
}
use vue_rs.Compiler.Codegen.Code
use vue_rs.Compiler.Codegen.Styles.{parse_expr}
use vue_rs.Compiler.Codegen.Monad.{M, Slots, ok, Element}
use vue_rs.Compiler.Codegen.Monad.Good.{bind-ok, lift-ok, pure-ok}
use vue_rs.Compiler.Codegen.Children.{
  Job, whole, Arm, else_arms, Switch, add_arm, add_arms, gen_if_chain,
}
use vue_rs.Compiler.Codegen.Children.Arms.{
  returned, first_arm, holds_of, holds_in, count, or_else, else_last, else_arms-last, returned-push,
  returned-tail, or_else_assoc, or_else_if, ok-inj, or_else-none, with_arm, with_tail, bind_arm,
  count-to_codes, first_arm-lt, switch-inj,
}

module _ (syn : Syn) (holds : Stream → Bool) (rec : Job → M Code) where
  -- One round of the loop on an arm with a condition, and on `v-else`.
  arm-ok :
      (i : ℕ) (cond : Text) (el : Element) (arms : List Arm) (s : Switch) (u : Slots) {t : Switch}
      {v : Slots}
      → add_arms syn rec i ((some cond, el) ∷ arms) s u ≡ ok t v
      → (c : Stream) × (view : Code) × (w : Slots) × (parse_expr syn cond ≡ Code.ok c)
        × (add_arms syn rec (suc i) arms (with_arm c i view s) w ≡ ok t v)
  unfolding add_arms add_arm
  arm-ok i cond el arms s u h =
      let (view, w, _, h1) = bind-ok (rec (whole el)) _ h in
      let (t1, x, h2, h3) = bind-ok _ _ h1 in
      let (c, e, k) = bind_arm (parse_expr syn cond) i view s (lift-ok _ _ h2) in
      (c, view, x, e, rw k h3)

  else-ok :
      (i : ℕ) (el : Element) (arms : List Arm) (s : Switch) (u : Slots) {t : Switch} {v : Slots}
      → add_arms syn rec i ((none, el) ∷ arms) s u ≡ ok t v
      → (view : Code) × (w : Slots) × (add_arms syn rec (suc i) arms (with_tail i view s) w
          ≡ ok t v)
  unfolding add_arms add_arm
  else-ok i el arms s u h =
      let (view, w, _, h1) = bind-ok (rec (whole el)) _ h in
      let (t1, x, h2, h3) = bind-ok _ _ h1 in (view, x, rw (ok-inj (lift-ok _ _ h2)) h3)

  arm-returns :
      (c : Stream) (i : ℕ) (cond : Text) (arms : List (Stream × ℕ)) (o : Option ℕ)
      → parse_expr syn cond ≡ Code.ok c
      → or_else (returned holds (arms ++ (c, i) ∷ []) none) o
        ≡ or_else (returned holds arms none) (if holds_in syn holds cond then some i else o)
  arm-returns c i cond arms o p =
      rw
        (
          ap (holds_of holds) p,
          returned-push holds arms c i,
          or_else_assoc (returned holds arms none) (if holds c then some i else none) o,
          or_else_if (holds c) i o,
        )
        refl

  -- What the loop of `gen_if_chain` leaves.
  record Selects (i : ℕ) (arms : List Arm) (s t : Switch) : Type 0 where
    returns :
        returned holds t.arms t.tail
        ≡ or_else (returned holds s.arms none) (first_arm (holds_in syn holds) i arms)
    shows : length t.views ≡ length s.views + length arms

  add_arms-Selects :
      (i : ℕ) (arms : List Arm) (s : Switch) (u : Slots) {t : Switch} {v : Slots}
      → add_arms syn rec i arms s u ≡ ok t v
      → else_last arms ≡ true
      → s.tail ≡ none
      → Selects i arms s t
  unfolding add_arms
  add_arms-Selects i [] s u h e n =
      rw (← pure-ok s u h) (record { returns = rw n (sym (or_else-none _)); shows = omega arith })
  add_arms-Selects i ((none, el) ∷ []) s u h e n =
      let (view, w, k) = else-ok i el [] s u h in
      rw (← pure-ok _ w k) (record {
        returns = returned-tail holds s.arms (some i);
        shows = length-append s.views (view ∷ []);
      })
  add_arms-Selects i ((none, el) ∷ _ ∷ _) s u h e n = absurd cc
  add_arms-Selects i ((some cond, el) ∷ arms) s u h e n =
      let (c, view, w, p, k) = arm-ok i cond el arms s u h in
      let r = add_arms-Selects (suc i) arms (with_arm c i view s) w k e n in
      record {
        returns = r.returns ∙ arm-returns c i cond s.arms _ p;
        shows = omega (arith, r.shows, length-append s.views (view ∷ []));
      }

  gen_if_chain-ok :
      (arms : List Arm) (u : Slots) {sel : Selector} {views : Codes} {v : Slots}
      → gen_if_chain syn rec arms u ≡ ok (dyn_switch sel views) v
      → else_last arms ≡ true
      → (returned holds sel.arms sel.tail ≡ first_arm (holds_in syn holds) 0 arms)
        × (count views ≡ length arms)
  unfolding gen_if_chain
  gen_if_chain-ok arms u h l =
      let (t, w, h1, h2) = bind-ok (add_arms syn rec 0 arms _) _ h in
      let r = add_arms-Selects 0 arms _ u h1 l refl in
      let (a, b) = switch-inj (pure-ok _ w h2) in
      (rw (← a) r.returns, rw (← b) (count-to_codes t.views ∙ omega (arith, r.shows)))

  -- A chain of `v-if`, the `v-else-if` and a `v-else` behind it becomes a `dyn_switch` whose closure
  -- returns the first of the arms whose condition holds, the `v-else` always; none where none holds.
  pub gen_if_chain-selects :
      (cond : Text) (el : Element) (ns : Nodes) (u : Slots) {sel : Selector} {views : Codes}
      {v : Slots}
      → gen_if_chain syn rec ((some cond, el) ∷ else_arms ns) u ≡ ok (dyn_switch sel views) v
      → returned holds sel.arms sel.tail
        ≡ first_arm (holds_in syn holds) 0 ((some cond, el) ∷ else_arms ns)
  gen_if_chain-selects cond el ns u h =
      (gen_if_chain-ok ((some cond, el) ∷ else_arms ns) u h (else_arms-last ns)).0

  -- Whatever the closure of such a `dyn_switch` returns is the index of a view it was given.
  pub gen_if_chain-bounds :
      (cond : Text) (el : Element) (ns : Nodes) (u : Slots) {sel : Selector} {views : Codes}
      {v : Slots} {i : ℕ}
      → gen_if_chain syn rec ((some cond, el) ∷ else_arms ns) u ≡ ok (dyn_switch sel views) v
      → returned holds sel.arms sel.tail ≡ some i
      → i < count views
  gen_if_chain-bounds cond el ns u h r =
      let (a, b) = gen_if_chain-ok ((some cond, el) ∷ else_arms ns) u h (else_arms-last ns) in
      omega
        (arith, b, first_arm-lt (holds_in syn holds) 0 ((some cond, el) ∷ else_arms ns) (sym a ∙ r))
