-- ===== src/Compiler/Props.antt =====
-- The check of a component's props, crates/vue-rs-compiler/src/props.rs. A `syn` type keeps the names
-- and the types in it; lifetimes, lengths, constants and macros are left out. A path always has a last
-- segment.
pub mod ReadOnly
use vue_rs.Base.{Bool, true, false, Option, none, some, List, [], ◌∷◌, ◌||◌, if◌then◌else◌, maybe}
use vue_rs.Text.{Text, chars, same_text}

mutual
  pub data Ty : Type 0 where
    -- a path by its last segment: with angle-bracketed arguments, with none, and as `Fn(A) -> B`
    path : Text → Args → Ty
    bare_path : Text → Ty
    call_path : Text → Args → Ty → Ty
    -- a path with types in front of its last segment, as `<T as A>::B` and `A<T>::B`
    qualified : Args → Ty → Ty
    tuple : Args → Ty
    reference array slice paren grouped pointer : Ty → Ty
    bare_fn : Args → Ty → Ty
    -- the traits of `dyn` and `impl`, each given as its path
    trait_object impl_trait : Args → Ty
    other : Ty

  -- Generic arguments, tuple elements, inputs and traits. An argument that is no type is an associated
  -- type `A = T`, with the traits of `A: B` as `T`, or has no type in it.
  pub data Args : Type 0 where
    nil : Args
    type_arg assoc_arg : Ty → Args → Args
    other_arg : Args → Args

pub data Handle : Type 0 where
  signal writable_memo : Handle

unfoldable pub handle_name : Text → Option Handle
unfolding same_text
handle_name name =
    if same_text name (chars "Signal")
    then some signal
    else if same_text name (chars "WritableMemo")
    then some writable_memo
    else none

-- `find_map` keeps the first answer.
abbrev pub or_else : Option Handle → Option Handle → Option Handle
or_else a b = maybe b some a

unfoldable mutual
  unfolding handle_name

  pub writable_handle_name : Ty → Option Handle
  writable_handle_name (path name args) = or_else (handle_name name) (first_handle args)
  writable_handle_name (bare_path name) = handle_name name
  writable_handle_name (call_path name inputs output) = handle_name name
  writable_handle_name (qualified before t) = writable_handle_name t
  writable_handle_name (tuple elems) = first_handle elems
  writable_handle_name (reference t) = writable_handle_name t
  writable_handle_name (array t) = writable_handle_name t
  writable_handle_name (slice t) = writable_handle_name t
  writable_handle_name (paren t) = writable_handle_name t
  writable_handle_name (grouped t) = writable_handle_name t
  writable_handle_name (pointer t) = none
  writable_handle_name (bare_fn inputs output) = none
  writable_handle_name (trait_object bounds) = none
  writable_handle_name (impl_trait bounds) = none
  writable_handle_name other = none

  pub first_handle : Args → Option Handle
  first_handle nil = none
  first_handle (type_arg t args) = or_else (writable_handle_name t) (first_handle args)
  first_handle (assoc_arg t args) = first_handle args
  first_handle (other_arg args) = first_handle args

pub record Field : Type 0 where
  pub name : Text
  pub ty : Ty

-- `Fields::Named`, and the other two kinds of struct.
pub data Fields : Type 0 where
  named : List Field → Fields
  unnamed : Fields

-- The field that is refused, with the handle in its type.
unfoldable pub refused_field : List Field → Option (Text × Handle)
unfolding writable_handle_name
refused_field [] = none
refused_field (f ∷ fs) = elim (writable_handle_name f.ty) [
  | some h ↦ some (f.name, h)
  | none ↦ refused_field fs
]

unfoldable pub check_prop_fields : Fields → Option (Text × Handle)
unfolding refused_field
check_prop_fields (named fields) = refused_field fields
check_prop_fields unnamed = none
