-- ===== src/Reactive/Arena.antt =====
-- The generational arena of runtime.rs (`NodeId`, `Slot`, `Arena`), generic in what a slot holds.
-- The head of `free` is the end of the vector. `none` from `insert` stands for the panic of an
-- index out of bounds.
pub mod Laws
use vue_rs.Base.{
  ℕ, ◌+◌, ◌%◌, ◌^◌, Bool, ◌&&◌, Option, none, some, List, [], ◌∷◌, ◌++◌, ◌==◌, if◌then◌else◌, maybe,
  is_some, length, get_elem?, set,
}

pub record NodeId : Type 0 where
  pub index : ℕ
  pub generation : ℕ

-- The derived `==` of handles.
abbrev pub same_id : NodeId → NodeId → Bool
same_id a b = (a.index == b.index) && (a.generation == b.generation)

pub record Slot (A : Type 0) : Type 0 where
  pub generation : ℕ
  pub node : Option A

pub record Arena (A : Type 0) : Type 0 where
  pub slots : List (Slot A)
  pub free : List ℕ

-- `u32::wrapping_add(1)`
abbrev pub next_generation : ℕ → ℕ
next_generation g = (g + 1) % 2 ^ 32

module _ {A : Type 0} where
  unfoldable pub new : Arena A
  new = record { slots = []; free = [] }

  -- The branch that reuses the slot popped from the free list.
  reuse : List (Slot A) → ℕ → List ℕ → A → Slot A → Arena A × NodeId
  reuse slots i rest a s = (
    record { slots = set slots i (record s { node = some a }); free = rest },
    record { index = i; generation = s.generation },
  )

  insert_in : List (Slot A) → List ℕ → A → Option (Arena A × NodeId)
  unfolding reuse
  insert_in slots [] a = some (
    record { slots = slots ++ record { generation = 0; node = some a } ∷ []; free = [] },
    record { index = length slots; generation = 0 },
  )
  insert_in slots (i ∷ rest) a = maybe none (λ s. some (reuse slots i rest a s)) (get_elem? slots i)

  unfoldable pub insert : Arena A → A → Option (Arena A × NodeId)
  unfolding insert_in
  insert t a = insert_in t.slots t.free a

  unfoldable pub get : Arena A → NodeId → Option A
  get t id =
      maybe none (λ s. if s.generation == id.generation then s.node else none)
        (get_elem? t.slots id.index)

  -- `get_mut` followed by a write through the reference; without a node nothing is written.
  unfoldable pub modify : Arena A → NodeId → (A → A) → Arena A
  unfolding get
  modify t id f =
      maybe t
        (λ a. record t {
          slots = set t.slots id.index (record { generation = id.generation; node = some (f a) });
        })
        (get t id)

  take_from : Arena A → NodeId → Slot A → Arena A × Option A
  take_from t id s =
      if s.generation == id.generation
      then maybe (t, none)
          (λ a. (
            record {
              slots =
                  set t.slots id.index
                    (record { generation = next_generation s.generation; node = none });
              free = id.index ∷ t.free;
            },
            some a,
          ))
          s.node
      else (t, none)

  unfoldable pub remove : Arena A → NodeId → Arena A × Option A
  unfolding take_from
  remove t id = maybe (t, none) (take_from t id) (get_elem? t.slots id.index)

  unfoldable pub contains : Arena A → NodeId → Bool
  unfolding get
  contains t id = is_some (get t id)
