-- ===== src/Dom/Control/Cond.antt =====
-- The runs of `dyn_if`, `dyn_if_else` and `dyn_element`, crates/vue-rs-dom/src/element.rs.
use vue_rs.Base.{
  ◌≡◌, refl, sym, ap, Bool, true, false, Option, none, some, List, [], ◌∷◌, ◌++◌, if◌then◌else◌,
  maybe, Bool-cases, inl, inr,
}
use mathlib.Core.Path.{subst}
use vue_rs.Text.{Text, same_text}
use vue_rs.Dom.Mock.Entries.{same_text→eq}
use vue_rs.Dom.Control.{Mount, idle, dyn_if, dyn_element, runs}
use vue_rs.Dom.Control.Shown.{Shows, idle-Shows, swap-Shows, clear-Shows, fresh-Shows}

-- What one run keeps and brings about holds after any number of runs.
runs-last :
    {A S : Type 0} (f : A → S → S) (P : S → Type 0) (Q : A → S → Type 0)
    → ((a : A) (s : S) → P s → P (f a s) × Q a (f a s))
    → (xs : List A) (a : A) (s : S) → P s
    → Q a (runs f (xs ++ a ∷ []) s)
runs-last f P Q h [] a s p = (h a s p).1
runs-last f P Q h (x ∷ xs) a s p = runs-last f P Q h xs a (f x s) (h x s p).0

-- The view of a condition that holds.
abbrev pub if_shown : Bool → Option (Unit {0})
if_shown b = if b then some tt else none

if-cases :
    (show current : Bool) (m : Mount Bool (Unit {0}))
    → m.current ≡ current
    → Shows (if_shown current) m
    → Shows (if_shown (dyn_if show m).current) (dyn_if show m)
      × Shows (if_shown show) (dyn_if show m)
unfolding dyn_if
if-cases true true m e h =
    rw (dyn_if, e)
      (record { page = h.page; whole = h.whole }, record { page = h.page; whole = h.whole })
if-cases false false m e h =
    rw (dyn_if, e)
      (record { page = h.page; whole = h.whole }, record { page = h.page; whole = h.whole })
if-cases true false m e h = rw (dyn_if, e) (fresh-Shows true tt m h, fresh-Shows true tt m h)
if-cases false true m e h = rw (dyn_if, e) (clear-Shows false m h, clear-Shows false m h)

if-step :
    (show : Bool) (m : Mount Bool (Unit {0}))
    → Shows (if_shown m.current) m
    → Shows (if_shown (dyn_if show m).current) (dyn_if show m)
      × Shows (if_shown show) (dyn_if show m)
if-step show m h = if-cases show m.current m refl h

-- Behind any number of runs of the effect of `dyn_if` the view is live and in the document, once, just
-- when the condition held in the last.
pub dyn_if-Shows :
    (before : List Bool) (show : Bool)
    → Shows (if_shown show) (runs dyn_if (before ++ show ∷ []) (idle false))
dyn_if-Shows before show =
    runs-last dyn_if (λ m. Shows (if_shown m.current) m) (λ b m. Shows (if_shown b) m) if-step
      before show (idle false) (idle-Shows false)

same_tag : (tag : Text) (c : Option Text) → maybe false (same_text tag) c ≡ true → c ≡ some tag
same_tag tag none h = absurd cc
same_tag tag (some t) h = ap some (sym (same_text→eq tag t h))

element-step :
    (tag : Text) (m : Mount (Option Text) Text)
    → Shows m.current m
    → Shows (dyn_element tag m).current (dyn_element tag m) × Shows (some tag) (dyn_element tag m)
unfolding dyn_element
element-step tag m h = elim (Bool-cases (maybe false (same_text tag) m.current)) [
  | inl e ↦ rw (dyn_element, e) (h, subst (λ c. Shows c m) (same_tag tag m.current e) h)
  | inr e ↦ rw (dyn_element, e) (swap-Shows (some tag) tag m h, swap-Shows (some tag) tag m h)
]

-- Behind any number of runs of the effect of `dyn_element` the element of the last tag is live and in
-- the document, in one branch, and those of the tags before it are neither.
pub dyn_element-Shows :
    (before : List Text) (tag : Text)
    → Shows (some tag) (runs dyn_element (before ++ tag ∷ []) (idle none))
dyn_element-Shows before tag =
    runs-last dyn_element (λ m. Shows m.current m) (λ t m. Shows (some t) m) element-step before tag
      (idle none) (idle-Shows none)
