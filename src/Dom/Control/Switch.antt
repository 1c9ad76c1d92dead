-- ===== src/Dom/Control/Switch.antt =====
-- The runs of a conditional, crates/vue-rs-dom/src/element.rs.
use vue_rs.Base.{
  ℕ, ◌≡◌, refl, sym, ap, Bool, true, false, Option, none, some, List, [], ◌∷◌, ◌++◌, ltb, maybe,
  and_then, Bool-cases, inl, inr, ==_iff, all, &&-left, &&-right,
}
use mathlib.Core.Path.{subst}
use vue_rs.Dom.Control.{Mount, idle, same_index, dyn_switch, runs?}
use vue_rs.Dom.Control.Shown.{Shows, idle-Shows, swap-Shows, clear-Shows}

-- The view that a switch has selected.
abbrev selected : Mount (Option (Option ℕ)) ℕ → Option ℕ
selected m = and_then m.current (λ w. w)

same_index→eq : (a b : Option ℕ) → same_index a b ≡ true → a ≡ b
same_index→eq none none h = refl
same_index→eq none (some j) h = absurd cc
same_index→eq (some i) none h = absurd cc
same_index→eq (some i) (some j) h = ap some ((==_iff i j).0 h)

same_current :
    (which : Option ℕ) (c : Option (Option ℕ))
    → maybe false (same_index which) c ≡ true
    → c ≡ some which
same_current which none h = absurd cc
same_current which (some w) h = ap some (sym (same_index→eq which w h))

-- The index is one of a view.
abbrev pub in_range : ℕ → Option ℕ → Bool
in_range views none = true
in_range views (some i) = ltb i views

abbrev Selects : ℕ → Option ℕ → Mount (Option (Option ℕ)) ℕ → Type 0
Selects views which m =
    (t : Mount (Option (Option ℕ)) ℕ) × (dyn_switch views which m ≡ some t)
    × (t.current ≡ some which)
    × Shows which t

switch_swap :
    (views : ℕ) (which : Option ℕ) (m : Mount (Option (Option ℕ)) ℕ)
    → maybe false (same_index which) m.current ≡ false
    → in_range views which ≡ true
    → Shows (selected m) m
    → Selects views which m
unfolding dyn_switch
switch_swap views none m e r h = (_, rw (dyn_switch, e) refl, refl, clear-Shows (some none) m h)
switch_swap views (some i) m e r h =
    (_, rw (dyn_switch, e, r) refl, refl, swap-Shows (some (some i)) i m h)

switch-step :
    (views : ℕ) (which : Option ℕ) (m : Mount (Option (Option ℕ)) ℕ)
    → in_range views which ≡ true
    → Shows (selected m) m
    → Selects views which m
unfolding dyn_switch
switch-step views which m r h = elim (Bool-cases (maybe false (same_index which) m.current)) [
  | inl e ↦
      let k = same_current which m.current e in
      (m, rw (dyn_switch, e) refl, k, subst (λ c. Shows (and_then c (λ w. w)) m) k h)
  | inr e ↦ switch_swap views which m e r h
]

switch-runs :
    (views : ℕ) (before : List (Option ℕ)) (which : Option ℕ) (m : Mount (Option (Option ℕ)) ℕ)
    → all (in_range views) (before ++ which ∷ []) ≡ true
    → Shows (selected m) m
    → (t : Mount (Option (Option ℕ)) ℕ) × (runs? (dyn_switch views) (before ++ which ∷ []) m
        ≡ some t)
      × Shows which t
switch-runs views [] which m r h =
    let (t, e, c, k) = switch-step views which m (&&-left _ true r) h in (t, rw e refl, k)
switch-runs views (w ∷ before) which m r h =
    let (t, e, c, k) =
      switch-step views w m (&&-left _ (all (in_range views) (before ++ which ∷ [])) r) h in
    let (z, j, l) =
      switch-runs views before which t (&&-right (in_range views w) _ r)
        (subst (λ x. Shows (and_then x (λ y. y)) t) (sym c) k) in
    (z, rw e j, l)

-- However the selected index moves, as long as it is one of a view: the effect of `dyn_switch` does not
-- panic, and behind its last run the view selected last, if any, is the one that is live and in the
-- document, in one branch, and no branch besides is live or in the document.
pub dyn_switch-Shows :
    (views : ℕ) (before : List (Option ℕ)) (which : Option ℕ)
    → all (in_range views) (before ++ which ∷ []) ≡ true
    → (t : Mount (Option (Option ℕ)) ℕ) × (runs?
          (dyn_switch views)
          (before ++ which ∷ [])
          (idle none)
        ≡ some t)
      × Shows which t
dyn_switch-Shows views before which r =
    switch-runs views before which (idle none) r (idle-Shows none)
