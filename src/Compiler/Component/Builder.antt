-- ===== src/Compiler/Component/Builder.antt =====
-- The typestate builder of a component's props, `gen_props_builder` of
-- crates/vue-rs-compiler/src/component.rs, and what Rust makes of it. A field is told by its place in
-- the struct.
pub mod Typed
use vue_rs.Base.{
  ℕ, zero, suc, ◌+◌, Bool, true, false, not, ◌&&◌, Option, none, some, List, [], ◌∷◌, map, all,
  if◌then◌else◌, ◌==◌, and_then, get_elem?, set, is_some,
}
use vue_rs.Text.{Text}
use vue_rs.Compiler.Codegen.Tokens.{Stream}

pub data PropDefault : Type 0 where
  auto : PropDefault
  expr : Stream → PropDefault

pub record FieldInfo : Type 0 where
  pub ident : Text
  pub ty : Stream
  pub default : Option PropDefault

-- An argument in a marker list: a type, or a parameter.
pub data Marker : Type 0 where
  unset is_set param : Marker

-- The markers of a setter: `m` at this place, and parameters elsewhere.
unfoldable pub markers_at : Marker → ℕ → ℕ → List Marker
markers_at m pos zero = []
markers_at m zero (suc k) = m ∷ markers_at param zero k
markers_at m (suc pos) (suc k) = param ∷ markers_at m pos k

-- A setter: the field, and the markers of the builder that it takes and gives.
pub record Setter : Type 0 where
  pub field : ℕ
  pub in_markers : List Marker
  pub out_markers : List Marker

abbrev pub is_required : FieldInfo → Bool
is_required f = not (is_some f.default)

-- The number of marker parameters.
unfoldable pub required : List FieldInfo → ℕ
required [] = 0
required (f ∷ fs) = let r = required fs in if is_required f then suc r else r

unfoldable pub gen_setter : ℕ → ℕ → ℕ → Bool → Setter
unfolding markers_at
gen_setter k field pos true = record {
  field = field;
  in_markers = markers_at unset pos k;
  out_markers = markers_at is_set pos k;
}
gen_setter k field pos false = record {
  field = field;
  in_markers = markers_at param pos k;
  out_markers = markers_at param pos k;
}

-- The setters of the fields, with `req_seen`.
unfoldable pub gen_setters : ℕ → ℕ → ℕ → List FieldInfo → List Setter
unfolding gen_setter
gen_setters k field req_seen [] = []
gen_setters k field req_seen (f ∷ fs) =
    gen_setter k field req_seen (is_required f)
    ∷ gen_setters k (suc field) (if is_required f then suc req_seen else req_seen) fs

-- A builder: the markers in its type, `Set` or not, and the values of its fields.
pub record Builder (V : Type 0) : Type 0 where
  pub markers : List Bool
  pub values : List (Option V)

abbrev pub repeat : {A : Type 0} → A → ℕ → List A
repeat a zero = []
repeat a (suc k) = a ∷ repeat a k

abbrev pub nones : {V : Type 0} → List FieldInfo → List (Option V)
nones [] = []
nones (f ∷ fs) = none ∷ nones fs

-- `NameProps::builder()`
unfoldable pub new_builder : {V : Type 0} → List FieldInfo → Builder V
unfolding required
new_builder fields = record { markers = repeat false (required fields); values = nones fields }

-- The type of the builder is an instance of the setter's.
abbrev pub matches : Marker → Bool → Bool
matches unset b = not b
matches is_set b = b
matches param b = true

unfoldable pub accepts : List Marker → List Bool → Bool
accepts [] bs = true
accepts (m ∷ ms) [] = true
accepts (m ∷ ms) (b ∷ bs) = matches m b && accepts ms bs

abbrev pub turned : Marker → Bool → Bool
turned unset b = false
turned is_set b = true
turned param b = b

unfoldable pub give : List Marker → List Bool → List Bool
give [] bs = bs
give (m ∷ ms) [] = []
give (m ∷ ms) (b ∷ bs) = turned m b ∷ give ms bs

module _ {V : Type 0} where
  -- A call of a setter; `none` where it does not compile.
  unfoldable pub call_setter : Setter → V → Builder V → Option (Builder V)
  unfolding accepts give
  call_setter s v b =
      if accepts s.in_markers b.markers
      then some (record {
        markers = give s.out_markers b.markers;
        values = set b.values s.field (some v);
      })
      else none

  -- The calls of a parent, each of a setter of the list.
  unfoldable pub call_setters : List Setter → List (ℕ × V) → Builder V → Option (Builder V)
  unfolding call_setter
  call_setters setters [] b = some b
  call_setters setters ((i, v) ∷ calls) b =
      and_then (and_then (get_elem? setters i) (λ s. call_setter s v b))
        (λ c. call_setters setters calls c)

  -- `build` exists where every marker is `Set`.
  unfoldable pub builds : Builder V → Bool
  builds b = all (λ m. m) b.markers

  -- No `unwrap` of `build` panics: the required fields have values.
  unfoldable pub unwraps : List FieldInfo → List (Option V) → Bool
  unwraps [] vs = true
  unwraps (f ∷ fs) [] = false
  unwraps (f ∷ fs) (v ∷ vs) = (if is_required f then is_some v else true) && unwraps fs vs
