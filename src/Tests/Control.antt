-- ===== src/Tests/Control.antt =====
-- Control flow of the renderer on small inputs.
use vue_rs.Base.{
  ℕ, ◌≡◌, ◌⊎◌, refl, Bool, true, false, Option, none, some, [], ◌∷◌, map, any, ◌==◌, ==_iff,
}
use vue_rs.Base.{List, maybe, if◌then◌else◌, get_elem?}
use vue_rs.Text.{Text, chars}
use vue_rs.Dom.Mock.{ok, Element, element, MockDom, find_entry}
use vue_rs.Dom.Bindings.{dyn_attrs}
use vue_rs.Dom.Bindings.Spread.{among, last_value, dyn_attrs-attribute}
use vue_rs.Dom.Control.{Mount, idle, dyn_if, dyn_switch, runs, runs?, cleanup}
use vue_rs.Dom.Control.Shown.{Shows, replay, blank, cleanup-live}
use vue_rs.Dom.Control.Cond.{dyn_if-Shows}
use vue_rs.Dom.Control.Switch.{dyn_switch-Shows}
use vue_rs.Dom.Control.Keyed.{Row, Rows, lookup, reconcile}
use vue_rs.Dom.Control.Keyed.Kept.{Used, is_disposal, reconcile-keeps}
use vue_rs.Dom.Control.Keyed.Firsts.{shown, reconcile-firsts}

-- The first view, none, and the second view.
dyn_switch-Shows_example :
    (t : Mount (Option (Option ℕ)) ℕ) × (runs?
        (dyn_switch 2)
        (some 0 ∷ none ∷ some 1 ∷ [])
        (idle none)
      ≡ some t)
    × Shows (some 1) t
dyn_switch-Shows_example = dyn_switch-Shows 2 (some 0 ∷ none ∷ []) (some 1) refl

cleanup-live_example :
    (replay blank (cleanup (runs dyn_if (false ∷ true ∷ []) (idle false))).actions).live ≡ []
cleanup-live_example =
    cleanup-live (some tt) (runs dyn_if (false ∷ true ∷ []) (idle false))
      (dyn_if-Shows (false ∷ []) true)

abbrev same : ℕ → ℕ → Bool
same a b = a == b

abbrev row : Row ℕ
row = record { item = 7; index = 0; branch = 0 }

-- The row of the item 7, which is its own key.
abbrev one_row : Rows ℕ ℕ
one_row = record { rows = (7, row) ∷ []; next = 1; actions = [] }

reconcile-keeps_example :
    Used same (λ a b. (==_iff a b).0) 7 row (reconcile same (λ x. x) (8 ∷ 7 ∷ 8 ∷ []) one_row).rows
    ⊎ ((lookup same 7 (reconcile same (λ x. x) (8 ∷ 7 ∷ 8 ∷ []) one_row).rows ≡ none)
        × (any (is_disposal 0) (reconcile same (λ x. x) (8 ∷ 7 ∷ 8 ∷ []) one_row).actions ≡ true))
unfolding lookup
reconcile-keeps_example =
    reconcile-keeps same (λ a b. (==_iff a b).0) (λ x. x) (8 ∷ 7 ∷ 8 ∷ []) one_row 7 row refl

reconcile-firsts_example :
    map shown (reconcile same (λ x. x) (8 ∷ 7 ∷ 8 ∷ []) one_row).rows
    ≡ (8, (8, 0)) ∷ (7, (7, 1)) ∷ []
reconcile-firsts_example =
    reconcile-firsts same (λ a b. (==_iff a b).0) (λ x. x) (8 ∷ 7 ∷ 8 ∷ []) one_row

-- An element with the attributes `id` and `title`, of which the last run has set `title`.
abbrev tagged : Element ℕ
tagged = record {
  tag = chars "p";
  attrs = (chars "id", chars "1") ∷ (chars "title", chars "t") ∷ [];
  props = [];
  children = [];
  listeners = [];
  inner_html = none;
}

abbrev page : MockDom ℕ
page = record { nodes = element tagged ∷ []; next_listener_id = 0 }

abbrev bag : List (Text × Text)
bag = (chars "lang", chars "en") ∷ []

dyn_attrs-attribute_example :
    (after : MockDom ℕ) × (f : Element ℕ) × (dyn_attrs 0 bag (chars "title" ∷ []) page
      ≡ ok (chars "lang" ∷ [], after))
    × (get_elem? after.nodes 0 ≡ some (element f))
    × ((n : Text)
        → find_entry n f.attrs
          ≡ maybe
              (if among n (chars "title" ∷ []) then none else find_entry n tagged.attrs)
              some
              (last_value n bag))
dyn_attrs-attribute_example = dyn_attrs-attribute 0 bag (chars "title" ∷ []) page tagged refl
