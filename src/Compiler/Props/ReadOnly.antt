-- ===== src/Compiler/Props/ReadOnly.antt =====
-- Types that mention a writable handle, and the props that are refused.
use vue_rs.Base.{
  ◌≡◌, ◌≢◌, Bool, true, false, ◌&&◌, none, some, List, [], ◌∷◌, inl, inr, Option-cases, Bool-cases,
  &&-left, &&-right, arith,
}
use vue_rs.Text.{Text, chars, same_text, same_text-eq}
use vue_rs.Compiler.Props.{
  Ty, Args, path, bare_path, call_path, qualified, tuple, reference, array, slice, paren, grouped,
  pointer, bare_fn, trait_object, impl_trait, other, nil, type_arg, assoc_arg, other_arg, Handle,
  handle_name, writable_handle_name, first_handle, Field, named, refused_field, check_prop_fields,
}

-- The types that can be written to.
pub data HandleName (name : Text) : Type 0 where
  is_signal : name ≡ chars "Signal" → HandleName name
  is_writable_memo : name ≡ chars "WritableMemo" → HandleName name

-- A writable handle is named in the type at a place that it is made of: as the last segment of a path,
-- inside its arguments, its elements or its target.
mutual
  pub data Mentions : Ty → Type 0 where
    by_path : {name : Text} {args : Args} → HandleName name → Mentions (path name args)
    by_name : {name : Text} → HandleName name → Mentions (bare_path name)
    by_call :
        {name : Text} {inputs : Args} {output : Ty}
        → HandleName name
        → Mentions (call_path name inputs output)
    in_path : {name : Text} {args : Args} → Among args → Mentions (path name args)
    in_qualified : {before : Args} {t : Ty} → Mentions t → Mentions (qualified before t)
    in_tuple : {elems : Args} → Among elems → Mentions (tuple elems)
    in_reference : {t : Ty} → Mentions t → Mentions (reference t)
    in_array : {t : Ty} → Mentions t → Mentions (array t)
    in_slice : {t : Ty} → Mentions t → Mentions (slice t)
    in_paren : {t : Ty} → Mentions t → Mentions (paren t)
    in_grouped : {t : Ty} → Mentions t → Mentions (grouped t)

  pub data Among : Args → Type 0 where
    head : {t : Ty} {args : Args} → Mentions t → Among (type_arg t args)
    tail : {t : Ty} {args : Args} → Among args → Among (type_arg t args)
    beside : {t : Ty} {args : Args} → Among args → Among (assoc_arg t args)
    skipped : {args : Args} → Among args → Among (other_arg args)

-- A writable handle is named anywhere in the type expression.
mutual
  pub data Occurs : Ty → Type 0 where
    by_path : {name : Text} {args : Args} → HandleName name → Occurs (path name args)
    by_name : {name : Text} → HandleName name → Occurs (bare_path name)
    by_call :
        {name : Text} {inputs : Args} {output : Ty}
        → HandleName name
        → Occurs (call_path name inputs output)
    in_path : {name : Text} {args : Args} → OccursIn args → Occurs (path name args)
    in_call_inputs :
        {name : Text} {inputs : Args} {output : Ty}
        → OccursIn inputs
        → Occurs (call_path name inputs output)
    in_call_output :
        {name : Text} {inputs : Args} {output : Ty}
        → Occurs output
        → Occurs (call_path name inputs output)
    in_front : {before : Args} {t : Ty} → OccursIn before → Occurs (qualified before t)
    in_qualified : {before : Args} {t : Ty} → Occurs t → Occurs (qualified before t)
    in_tuple : {elems : Args} → OccursIn elems → Occurs (tuple elems)
    in_reference : {t : Ty} → Occurs t → Occurs (reference t)
    in_array : {t : Ty} → Occurs t → Occurs (array t)
    in_slice : {t : Ty} → Occurs t → Occurs (slice t)
    in_paren : {t : Ty} → Occurs t → Occurs (paren t)
    in_grouped : {t : Ty} → Occurs t → Occurs (grouped t)
    in_pointer : {t : Ty} → Occurs t → Occurs (pointer t)
    in_inputs : {inputs : Args} {output : Ty} → OccursIn inputs → Occurs (bare_fn inputs output)
    in_output : {inputs : Args} {output : Ty} → Occurs output → Occurs (bare_fn inputs output)
    in_trait_object : {bounds : Args} → OccursIn bounds → Occurs (trait_object bounds)
    in_impl_trait : {bounds : Args} → OccursIn bounds → Occurs (impl_trait bounds)

  pub data OccursIn : Args → Type 0 where
    head : {t : Ty} {args : Args} → Occurs t → OccursIn (type_arg t args)
    tail : {t : Ty} {args : Args} → OccursIn args → OccursIn (type_arg t args)
    assoc : {t : Ty} {args : Args} → Occurs t → OccursIn (assoc_arg t args)
    beside : {t : Ty} {args : Args} → OccursIn args → OccursIn (assoc_arg t args)
    skipped : {args : Args} → OccursIn args → OccursIn (other_arg args)

-- Types without function types, trait objects, `impl` types, raw pointers, associated types, or types in
-- front of the last segment of a path.
unfoldable mutual
  pub is_plain : Ty → Bool
  is_plain (path name args) = all_plain args
  is_plain (bare_path name) = true
  is_plain (tuple elems) = all_plain elems
  is_plain (reference t) = is_plain t
  is_plain (array t) = is_plain t
  is_plain (slice t) = is_plain t
  is_plain (paren t) = is_plain t
  is_plain (grouped t) = is_plain t
  is_plain other = true
  is_plain _ = false

  pub all_plain : Args → Bool
  all_plain nil = true
  all_plain (type_arg t args) = is_plain t && all_plain args
  all_plain (assoc_arg t args) = false
  all_plain (other_arg args) = all_plain args

handle_name-found : {name : Text} → HandleName name → handle_name name ≢ none
unfolding handle_name same_text
handle_name-found (is_signal e) k = let z = rw e at k in absurd cc
handle_name-found (is_writable_memo e) k = let z = rw e at k in absurd cc

handle_name-HandleName : (name : Text) {h : Handle} → handle_name name ≡ some h → HandleName name
unfolding handle_name
handle_name-HandleName name {h} k = elim (Bool-cases (same_text name (chars "Signal"))) [
  | inl e ↦ is_signal (same_text-eq name (chars "Signal") e)
  | inr e ↦ elim (Bool-cases (same_text name (chars "WritableMemo"))) [
    | inl e' ↦ is_writable_memo (same_text-eq name (chars "WritableMemo") e')
    | inr e' ↦ absurd (ground (arith, e, e', k))
  ]
]

mutual
  unfolding writable_handle_name is_plain

  finds : {t : Ty} → Occurs t → is_plain t ≡ true → writable_handle_name t ≢ none
  finds (by_path {name} n) p k = elim (Option-cases (handle_name name)) [
    | inl e ↦ handle_name-found n e
    | inr (h, e) ↦ ground (arith, e, k)
  ]
  finds (by_name n) p k = handle_name-found n k
  finds (by_call n) p k = absurd cc
  finds (in_path {name} m) p k = elim (Option-cases (handle_name name)) [
    | inl e ↦ finds-In m p (ground (arith, e, k))
    | inr (h, e) ↦ ground (arith, e, k)
  ]
  finds (in_call_inputs m) p k = absurd cc
  finds (in_call_output m) p k = absurd cc
  finds (in_front m) p k = absurd cc
  finds (in_qualified m) p k = absurd cc
  finds (in_tuple m) p k = finds-In m p k
  finds (in_reference m) p k = finds m p k
  finds (in_array m) p k = finds m p k
  finds (in_slice m) p k = finds m p k
  finds (in_paren m) p k = finds m p k
  finds (in_grouped m) p k = finds m p k
  finds (in_pointer m) p k = absurd cc
  finds (in_inputs m) p k = absurd cc
  finds (in_output m) p k = absurd cc
  finds (in_trait_object m) p k = absurd cc
  finds (in_impl_trait m) p k = absurd cc

  finds-In : {args : Args} → OccursIn args → all_plain args ≡ true → first_handle args ≢ none
  finds-In (head {t} {args} m) p k = elim (Option-cases (writable_handle_name t)) [
    | inl e ↦ finds m (&&-left (is_plain t) (all_plain args) p) e
    | inr (h, e) ↦ ground (arith, e, k)
  ]
  finds-In (tail {t} {args} m) p k = elim (Option-cases (writable_handle_name t)) [
    | inl e ↦ finds-In m (&&-right (is_plain t) (all_plain args) p) (ground (arith, e, k))
    | inr (h, e) ↦ ground (arith, e, k)
  ]
  finds-In (assoc m) p k = absurd cc
  finds-In (beside m) p k = absurd cc
  finds-In (skipped m) p k = finds-In m p k

mutual
  unfolding writable_handle_name

  found : (t : Ty) {h : Handle} → writable_handle_name t ≡ some h → Mentions t
  found (path name args) {h} k = elim (Option-cases (handle_name name)) [
    | inl e ↦ in_path (found-Among args {h = h} (ground (arith, e, k)))
    | inr (g, e) ↦ by_path (handle_name-HandleName name e)
  ]
  found (bare_path name) {h} k = by_name (handle_name-HandleName name k)
  found (call_path name inputs output) {h} k = by_call (handle_name-HandleName name k)
  found (qualified before t) k = in_qualified (found t k)
  found (tuple elems) k = in_tuple (found-Among elems k)
  found (reference t) k = in_reference (found t k)
  found (array t) k = in_array (found t k)
  found (slice t) k = in_slice (found t k)
  found (paren t) k = in_paren (found t k)
  found (grouped t) k = in_grouped (found t k)
  found (pointer t) k = absurd cc
  found (bare_fn inputs output) k = absurd cc
  found (trait_object bounds) k = absurd cc
  found (impl_trait bounds) k = absurd cc
  found other k = absurd cc

  found-Among : (args : Args) {h : Handle} → first_handle args ≡ some h → Among args
  found-Among nil k = absurd cc
  found-Among (type_arg t args) {h} k = elim (Option-cases (writable_handle_name t)) [
    | inl e ↦ tail (found-Among args {h = h} (ground (arith, e, k)))
    | inr (g, e) ↦ head (found t e)
  ]
  found-Among (assoc_arg t args) k = beside (found-Among args k)
  found-Among (other_arg args) k = skipped (found-Among args k)

pub data Member : Field → List Field → Type 0 where
  first : {f : Field} {fs : List Field} → Member f (f ∷ fs)
  later : {f g : Field} {fs : List Field} → Member f fs → Member f (g ∷ fs)

-- In props that pass the check, no field has a plain type in which a writable handle occurs anywhere. A type
-- is plain without function types, trait objects, `impl` types, raw pointers, associated types, or types in
-- front of the last segment of a path.
pub check_prop_fields-accepts :
    (fields : List Field)
    → check_prop_fields (named fields) ≡ none
    → (f : Field) → Member f fields
    → is_plain f.ty ≡ true
    → ¬ Occurs f.ty
unfolding check_prop_fields refused_field
check_prop_fields-accepts [] h f k p m = elim k [ ]
check_prop_fields-accepts (f ∷ fs) h _ first p m = elim (Option-cases (writable_handle_name f.ty)) [
  | inl e ↦ finds m p e
  | inr (g, e) ↦ ground (arith, e, h)
]
check_prop_fields-accepts (g ∷ fs) h f (later k) p m =
    check_prop_fields-accepts fs
      (elim (Option-cases (writable_handle_name g.ty)) [
        | inl e ↦ ground (arith, e, h)
        | inr (_, e) ↦ absurd (ground (arith, e, h))
      ])
      f k p m

-- Props that the check refuses have a field with the reported name whose type mentions a writable
-- handle.
pub check_prop_fields-refuses :
    (fields : List Field) {name : Text} {h : Handle}
    → check_prop_fields (named fields) ≡ some (name, h)
    → (f : Field) × Member f fields × (f.name ≡ name) × Mentions f.ty
unfolding check_prop_fields refused_field
check_prop_fields-refuses [] k = absurd (ground arith)
check_prop_fields-refuses (f ∷ fs) {name} {h} k = elim (Option-cases (writable_handle_name f.ty)) [
  | inl e ↦
      let (g, m, n, c) =
        check_prop_fields-refuses fs {name = name} {h = h} (ground (arith, e, k)) in
      (g, later m, n, c)
  | inr (g, e) ↦ (f, first, ground (arith, e, k), found f.ty e)
]
