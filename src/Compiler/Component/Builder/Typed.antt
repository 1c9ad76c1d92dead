-- ===== src/Compiler/Component/Builder/Typed.antt =====
-- Props that are built are whole, crates/vue-rs-compiler/src/component.rs.
use vue_rs.Base.{
  ℕ, zero, suc, ◌+◌, ◌≡◌, refl, sym, ap, ◌∙◌, Bool, true, false, not, ◌&&◌, ◌||◌, Option, none,
  some, List, [], ◌∷◌, all, if◌then◌else◌, and_then, get_elem?, set, is_some, Bool-cases, inl, inr,
  &&-left, &&-right, length, length-set, arith,
}
use mathlib.Core.Path.{subst}
use vue_rs.Compiler.Component.Builder.{
  FieldInfo, is_set, param, markers_at, Setter, is_required, required, gen_setter, gen_setters,
  Builder, repeat, nones, new_builder, accepts, give, call_setter, call_setters, builds, unwraps,
}

-- The number of required fields in front of the field.
abbrev before : List FieldInfo → ℕ → ℕ
before [] i = 0
before (f ∷ fs) zero = 0
before (f ∷ fs) (suc i) = if is_required f then suc (before fs i) else before fs i

give-param : (pos k : ℕ) (bs : List Bool) → length bs ≡ k → give (markers_at param pos k) bs ≡ bs
unfolding give markers_at
give-param pos zero bs h = refl
give-param zero (suc k) [] h = refl
give-param (suc pos) (suc k) [] h = refl
give-param zero (suc k) (b ∷ bs) h = ap (λ x. b ∷ x) (give-param zero k bs (omega arith))
give-param (suc pos) (suc k) (b ∷ bs) h = ap (λ x. b ∷ x) (give-param pos k bs (omega arith))

give-set :
    (pos k : ℕ) (bs : List Bool)
    → length bs ≡ k
    → give (markers_at is_set pos k) bs ≡ set bs pos true
unfolding give markers_at
give-set pos zero [] h = refl
give-set pos zero (b ∷ bs) h = absurd (omega arith)
give-set zero (suc k) [] h = refl
give-set (suc pos) (suc k) [] h = refl
give-set zero (suc k) (b ∷ bs) h = ap (λ x. true ∷ x) (give-param zero k bs (omega arith))
give-set (suc pos) (suc k) (b ∷ bs) h = ap (λ x. b ∷ x) (give-set pos k bs (omega arith))

gen_setter-at :
    (k : ℕ) (r : Bool) {a b c d : ℕ} → a ≡ c → b ≡ d → gen_setter k a b r ≡ gen_setter k c d r
gen_setter-at k r h j = rw (h, j) refl

shift : (r : Bool) (req x : ℕ) → (if r then suc req else req) + x ≡ req + (if r then suc x else x)
shift true req x = omega arith
shift false req x = refl

some-setter : {s t : Setter} → some s ≡ some t → s ≡ t
some-setter h = cc

-- The setter of a place in the list.
setter_at :
    (k field req : ℕ) (fs : List FieldInfo) (i : ℕ) {s : Setter}
    → get_elem? (gen_setters k field req fs) i ≡ some s
    → (f : FieldInfo) × (get_elem? fs i ≡ some f)
      × (s ≡ gen_setter k (field + i) (req + before fs i) (is_required f))
unfolding gen_setters
setter_at k field req [] i h = absurd cc
setter_at k field req (f ∷ fs) zero h =
    (f, refl, sym (some-setter h) ∙ gen_setter-at k (is_required f) (omega arith) (omega arith))
setter_at k field req (f ∷ fs) (suc i) h =
    let (g, e, j) = setter_at k (suc field) (if is_required f then suc req else req) fs i h in
    (
      g,
      e,
      j ∙ gen_setter-at k (is_required g) (omega arith) (shift (is_required f) req (before fs i)),
    )

some-builder : {V : Type 0} {a b : Builder V} → some a ≡ some b → a ≡ b
some-builder h = cc

some-field : {f g : FieldInfo} → some f ≡ some g → f ≡ g
some-field h = cc

or_some : (b : Bool) → (b || true) ≡ true
or_some true = refl
or_some false = refl

valued :
    {V : Type 0} (m : Bool) (v : Option V)
    → m ≡ true
    → (not m || is_some v) ≡ true
    → is_some v ≡ true
valued true v h l = l
valued false v h l = absurd cc

module _ {V : Type 0} where
  -- The marker of a required field is only `Set` where the field has a value.
  agrees : List FieldInfo → List Bool → List (Option V) → Bool
  agrees [] ms vs = true
  agrees (f ∷ fs) ms [] = false
  agrees (f ∷ fs) [] (v ∷ vs) = not (is_required f) && agrees fs [] vs
  agrees (f ∷ fs) (m ∷ ms) (v ∷ vs) =
      if is_required f then (not m || is_some v) && agrees fs ms vs else agrees fs (m ∷ ms) vs

  agrees-optional :
      (f : FieldInfo) (fs : List FieldInfo) (ms : List Bool) (v : Option V) (vs : List (Option V))
      → is_required f ≡ false
      → agrees (f ∷ fs) ms (v ∷ vs) ≡ agrees fs ms vs
  unfolding agrees
  agrees-optional f fs [] v vs h = rw (agrees, h) refl
  agrees-optional f fs (m ∷ ms) v vs h = rw (agrees, h) refl

  agrees-required :
      (f : FieldInfo) (fs : List FieldInfo) (m : Bool) (ms : List Bool) (v : Option V)
      (vs : List (Option V))
      → is_required f ≡ true
      → agrees (f ∷ fs) (m ∷ ms) (v ∷ vs) ≡ ((not m || is_some v) && agrees fs ms vs)
  unfolding agrees
  agrees-required f fs m ms v vs h = rw (agrees, h) refl

  agrees-none :
      (f : FieldInfo) (fs : List FieldInfo) (v : Option V) (vs : List (Option V))
      → is_required f ≡ true
      → agrees (f ∷ fs) [] (v ∷ vs) ≡ false
  unfolding agrees
  agrees-none f fs v vs h = rw (agrees, h) refl

  -- Under markers that are all `Set` the required fields have values.
  agrees-unwraps :
      (fs : List FieldInfo) (ms : List Bool) (vs : List (Option V))
      → agrees fs ms vs ≡ true
      → all (λ m. m) ms ≡ true
      → unwraps fs vs ≡ true
  unfolding unwraps agrees
  agrees-unwraps [] ms vs h l = refl
  agrees-unwraps (f ∷ fs) ms [] h l = absurd cc
  agrees-unwraps (f ∷ fs) [] (v ∷ vs) h l = elim (Bool-cases (is_required f)) [
    | inl e ↦ let z = sym (agrees-none f fs v vs e) ∙ h in absurd cc
    | inr e ↦ rw e (agrees-unwraps fs [] vs (sym (agrees-optional f fs [] v vs e) ∙ h) l)
  ]
  agrees-unwraps (f ∷ fs) (m ∷ ms) (v ∷ vs) h l = elim (Bool-cases (is_required f)) [
    | inr e ↦
        rw e (agrees-unwraps fs (m ∷ ms) vs (sym (agrees-optional f fs (m ∷ ms) v vs e) ∙ h) l)
    | inl e ↦
        let k = sym (agrees-required f fs m ms v vs e) ∙ h in
        rw (e, valued m v (&&-left m _ l) (&&-left _ (agrees fs ms vs) k))
          (agrees-unwraps fs ms vs (&&-right (not m || is_some v) _ k) (&&-right m _ l))
  ]

  -- A value more keeps the agreement.
  agrees-value :
      (fs : List FieldInfo) (ms : List Bool) (vs : List (Option V)) (i : ℕ) (x : V)
      → agrees fs ms vs ≡ true
      → agrees fs ms (set vs i (some x)) ≡ true
  unfolding agrees
  agrees-value [] ms vs i x h = refl
  agrees-value (f ∷ fs) ms [] i x h = h
  agrees-value (f ∷ fs) [] (v ∷ vs) zero x h = h
  agrees-value (f ∷ fs) [] (v ∷ vs) (suc i) x h = elim (Bool-cases (is_required f)) [
    | inl e ↦ let z = sym (agrees-none f fs v vs e) ∙ h in absurd cc
    | inr e ↦
        agrees-optional f fs [] v (set vs i (some x)) e
        ∙ agrees-value fs [] vs i x (sym (agrees-optional f fs [] v vs e) ∙ h)
  ]
  agrees-value (f ∷ fs) (m ∷ ms) (v ∷ vs) zero x h = elim (Bool-cases (is_required f)) [
    | inr e ↦
        agrees-optional f fs (m ∷ ms) (some x) vs e
        ∙ (sym (agrees-optional f fs (m ∷ ms) v vs e) ∙ h)
    | inl e ↦
        let k = sym (agrees-required f fs m ms v vs e) ∙ h in
        agrees-required f fs m ms (some x) vs e
        ∙ rw (or_some (not m), &&-right (not m || is_some v) _ k) refl
  ]
  agrees-value (f ∷ fs) (m ∷ ms) (v ∷ vs) (suc i) x h = elim (Bool-cases (is_required f)) [
    | inr e ↦
        agrees-optional f fs (m ∷ ms) v (set vs i (some x)) e
        ∙ agrees-value fs (m ∷ ms) vs i x (sym (agrees-optional f fs (m ∷ ms) v vs e) ∙ h)
    | inl e ↦
        let k = sym (agrees-required f fs m ms v vs e) ∙ h in
        agrees-required f fs m ms v (set vs i (some x)) e
        ∙ rw
            (
              &&-left (not m || is_some v) _ k,
              agrees-value fs ms vs i x (&&-right (not m || is_some v) _ k),
            )
            refl
  ]

  -- The marker of a required field may be `Set` together with its value.
  agrees-mark :
      (fs : List FieldInfo) (ms : List Bool) (vs : List (Option V)) (i : ℕ) (x : V) (f : FieldInfo)
      → get_elem? fs i ≡ some f
      → is_required f ≡ true
      → agrees fs ms vs ≡ true
      → agrees fs (set ms (before fs i) true) (set vs i (some x)) ≡ true
  unfolding agrees
  agrees-mark [] ms vs i x f g r h = refl
  agrees-mark (f ∷ fs) ms [] i x q g r h = h
  agrees-mark (f ∷ fs) [] (v ∷ vs) i x q g r h = agrees-value (f ∷ fs) [] (v ∷ vs) i x h
  agrees-mark (f ∷ fs) (m ∷ ms) (v ∷ vs) zero x q g r h =
      let e = ap is_required (some-field g) ∙ r in
      let k = sym (agrees-required f fs m ms v vs e) ∙ h in
      agrees-required f fs true ms (some x) vs e ∙ &&-right (not m || is_some v) _ k
  agrees-mark (f ∷ fs) (m ∷ ms) (v ∷ vs) (suc i) x q g r h = elim (Bool-cases (is_required f)) [
    | inr e ↦ rw e (
        agrees-optional f fs (set (m ∷ ms) (before fs i) true) v (set vs i (some x)) e
        ∙ agrees-mark fs (m ∷ ms) vs i x q g r (sym (agrees-optional f fs (m ∷ ms) v vs e) ∙ h))
    | inl e ↦
        let k = sym (agrees-required f fs m ms v vs e) ∙ h in
        rw e (
          agrees-required f fs m (set ms (before fs i) true) v (set vs i (some x)) e
          ∙ rw
              (
                &&-left (not m || is_some v) _ k,
                agrees-mark fs ms vs i x q g r (&&-right (not m || is_some v) _ k),
              )
              refl)
  ]

and_then-some :
    {A B : Type 0} (o : Option A) (f : A → Option B) {b : B}
    → and_then o f ≡ some b
    → (a : A) × (o ≡ some a) × (f a ≡ some b)
and_then-some none f h = absurd cc
and_then-some (some a) f h = (a, refl, h)

-- Nothing is set in a new builder.
agrees-new :
    (V : Type 0) (fs : List FieldInfo)
    → agrees {V = V} fs (repeat false (required fs)) (nones fs) ≡ true
unfolding agrees required
agrees-new V [] = refl
agrees-new V (f ∷ fs) = elim (Bool-cases (is_required f)) [
  | inl e ↦
      rw (required, e)
        (agrees-required f fs false (repeat false (required fs)) none (nones fs) e
          ∙ agrees-new V fs)
  | inr e ↦
      rw (required, e)
        (agrees-optional f fs (repeat false (required fs)) none (nones fs) e ∙ agrees-new V fs)
]

length-repeat : (b : Bool) (k : ℕ) → length (repeat b k) ≡ k
length-repeat b zero = refl
length-repeat b (suc k) = ap suc (length-repeat b k)

module _ {V : Type 0} (fields : List FieldInfo) where
  -- What the calls of setters keep.
  record Sound (b : Builder V) : Type 0 where
    size : length b.markers ≡ required fields
    whole : agrees fields b.markers b.values ≡ true

  abbrev after : Setter → V → Builder V → Builder V
  after s v b = record {
    markers = give s.out_markers b.markers;
    values = set b.values s.field (some v);
  }

  after-Sound :
      (i : ℕ) (f : FieldInfo) (v : V) (b : Builder V)
      → get_elem? fields i ≡ some f
      → Sound b
      → (r : Bool) → is_required f ≡ r
      → Sound (after (gen_setter (required fields) i (before fields i) r) v b)
  unfolding gen_setter
  after-Sound i f v b g h true e =
      rw (give-set (before fields i) (required fields) b.markers h.size) (record {
        size = length-set b.markers (before fields i) true ∙ h.size;
        whole = agrees-mark fields b.markers b.values i v f g e h.whole;
      })
  after-Sound i f v b g h false e =
      rw (give-param (before fields i) (required fields) b.markers h.size)
        (record { size = h.size; whole = agrees-value fields b.markers b.values i v h.whole })

  call_setter-after :
      (s : Setter) (v : V) (b : Builder V) {c : Builder V}
      → call_setter s v b ≡ some c
      → after s v b ≡ c
  unfolding call_setter
  call_setter-after s v b h = elim (Bool-cases (accepts s.in_markers b.markers)) [
    | inl e ↦ let z = rw (call_setter, e) at h in cc
    | inr e ↦ let z = rw (call_setter, e) at h in absurd cc
  ]

  call_setters-Sound :
      (calls : List (ℕ × V)) (b : Builder V) {c : Builder V}
      → call_setters (gen_setters (required fields) 0 0 fields) calls b ≡ some c
      → Sound b
      → Sound c
  unfolding call_setters
  call_setters-Sound [] b h s = subst Sound (some-builder h) s
  call_setters-Sound ((i, v) ∷ calls) b h s =
      let (d, e, k) = and_then-some _ _ h in
      let (t, g, j) = and_then-some (get_elem? (gen_setters (required fields) 0 0 fields) i) _ e in
      let (f, l, m) = setter_at (required fields) 0 0 fields i g in
      let made = m ∙ gen_setter-at (required fields) (is_required f) (omega arith) (omega arith) in
      call_setters-Sound calls d k (
        subst Sound (ap (λ x. after x v b) (sym made) ∙ call_setter-after t v b j)
          (after-Sound i f v b l s (is_required f) refl))

  -- If the calls of setters and of `build` compile, in whatever order the setters are called, every
  -- `unwrap` in `build` finds a value: no required prop is missing.
  pub props_builder-whole :
      (calls : List (ℕ × V)) {b : Builder V}
      → call_setters (gen_setters (required fields) 0 0 fields) calls (new_builder fields) ≡ some b
      → builds b ≡ true
      → unwraps fields b.values ≡ true
  unfolding builds new_builder
  props_builder-whole calls {b} h l =
      let s =
        call_setters-Sound calls _ h
          (record { size = length-repeat false (required fields); whole = agrees-new V fields }) in
      agrees-unwraps fields b.markers b.values s.whole l
