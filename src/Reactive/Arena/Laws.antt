-- ===== src/Reactive/Arena/Laws.antt =====
-- The arena as a map from handles, and its free list.
use vue_rs.Base.{
  ℕ, ◌≡◌, refl, ◌≢◌, inl, inr, Bool, true, false, none, some, List, [], ◌∷◌, ◌++◌, arith, ◌==◌,
  if◌then◌else◌, Bool-cases, Option-cases, any, length, get_elem?, set, get_elem?-set,
  get_elem?-push, get_elem?-lt, get_elem?_beyond,
}
use vue_rs.Reactive.Arena.{
  NodeId, same_id, Slot, Arena, next_generation, new, insert_in, insert, get, modify, take_from,
  reuse, remove,
}

pub same_id_refl : (a : NodeId) → same_id a a ≡ true
same_id_refl a = ground arith

abbrev pub mem : ℕ → List ℕ → Bool
mem i xs = any (λ x. x == i) xs

-- No number stands twice.
abbrev pub Distinct : List ℕ → Type 0
Distinct [] = Unit
Distinct (x ∷ xs) = (mem x xs ≡ false) × Distinct xs

-- The free list holds the indices of the vacant slots, each once.
pub record IsSound {A : Type 0} (t : Arena A) : Type 0 where
  pub vacant :
      (i : ℕ)
      → mem i t.free ≡ true
      → (s : Slot A) × (get_elem? t.slots i ≡ some s) × (s.node ≡ none)
  pub listed :
      (i : ℕ) (s : Slot A) → get_elem? t.slots i ≡ some s → s.node ≡ none → mem i t.free ≡ true
  pub distinct : Distinct t.free

module _ {A : Type 0} where
  pub new-IsSound : IsSound (new {A = A})
  unfolding new
  new-IsSound = record { vacant = λ i h. cc; listed = λ i s h. cc; distinct = tt }

  -- Removing a handle, live or stale, takes its node out and leaves what every other handle reads.
  pub get-remove :
      (t : Arena A) (id j : NodeId)
      → get (remove t id).0 j ≡ (if same_id id j then none else get t j)
  unfolding get remove
  get-remove t id j = elim (Option-cases (get_elem? t.slots id.index)) [
    | inl e ↦ ground arith
    | inr (s, e) ↦ ground (
      arith,
      get_elem?-lt t.slots id.index e,
      get_elem?-set t.slots id.index j.index
          (record { generation = next_generation s.generation; node = none }),
    )
  ]

  pub remove-get : (t : Arena A) (id : NodeId) → (remove t id).1 ≡ get t id
  unfolding get remove
  remove-get t id = ground arith

  -- A write through a handle changes what that handle reads, if it is live, and nothing else.
  pub get-modify :
      (t : Arena A) (id j : NodeId) (f : A → A)
      → get (modify t id f) j
        ≡ (if same_id id j then elim (get t id) [ none ↦ none | some a ↦ some (f a) ] else get t j)
  unfolding get modify
  get-modify t id j f = elim (Option-cases (get_elem? t.slots id.index)) [
    | inl e ↦ ground arith
    | inr (s, e) ↦ elim (Option-cases s.node) [
      | inl v ↦ ground arith
      | inr (a, v) ↦ ground (
        arith,
        get_elem?-lt t.slots id.index e,
        get_elem?-set t.slots id.index j.index
            (record { generation = id.generation; node = some (f a) }),
      )
    ]
  ]

  vacated : Arena A → ℕ → Slot A → Arena A
  vacated t i s = record {
    slots = set t.slots i (record { generation = next_generation s.generation; node = none });
    free = i ∷ t.free;
  }

  vacated-IsSound :
      (t : Arena A) (i : ℕ) (s : Slot A) (a : A)
      → get_elem? t.slots i ≡ some s
      → s.node ≡ some a
      → IsSound t
      → IsSound (vacated t i s)
  unfolding vacated
  vacated-IsSound t i s a e n v =
      let s' : Slot A = record { generation = next_generation s.generation; node = none } in
      let here = get_elem?-set t.slots i in
      record {
        vacant = λ j h. elim (Bool-cases (i == j)) [
          | inl same ↦ (s', ground (arith, here j s', get_elem?-lt t.slots i e), refl)
          | inr other ↦
              let (r, at, empty) = v.vacant j (ground arith) in
              (r, ground (arith, here j s', get_elem?-lt t.slots i e), empty)
        ];
        listed = λ j r h empty. ground (arith, here j s', get_elem?-lt t.slots i e, v.listed j r);
        distinct = (
          elim (Bool-cases (mem i t.free)) [
            | inl h ↦ let (r, at, empty) = v.vacant i h in ground arith
            | inr h ↦ h
          ],
          v.distinct,
        );
      }

  take_from-IsSound :
      (t : Arena A) (id : NodeId) (s : Slot A)
      → get_elem? t.slots id.index ≡ some s
      → IsSound t
      → IsSound (take_from t id s).0
  unfolding take_from
  take_from-IsSound t id s e v = elim (Bool-cases (s.generation == id.generation)) [
    | inr stale ↦ rw stale v
    | inl live ↦ elim (Option-cases s.node) [
      | inl n ↦ rw (live, n) v
      | inr (a, n) ↦ rw (live, n) (unfold vacated in vacated-IsSound t id.index s a e n v)
    ]
  ]

  -- Removing through any handle, live or stale, keeps the arena sound.
  pub remove-IsSound : (t : Arena A) (id : NodeId) → IsSound t → IsSound (remove t id).0
  unfolding remove
  remove-IsSound t id v = elim (Option-cases (get_elem? t.slots id.index)) [
    | inl e ↦ rw e v
    | inr (s, e) ↦ rw e (take_from-IsSound t id s e v)
  ]

  push-IsSound :
      (slots : List (Slot A)) (a : A)
      → IsSound (record { slots = slots; free = [] })
      → IsSound
          (record { slots = slots ++ record { generation = 0; node = some a } ∷ []; free = [] })
  push-IsSound slots a v = record {
    vacant = λ i h. cc;
    listed = λ i s e n.
        ground
          (arith, get_elem?-push slots (record { generation = 0; node = some a }) i, v.listed i s);
    distinct = tt;
  }

  reuse-IsSound :
      (slots : List (Slot A)) (i : ℕ) (rest : List ℕ) (a : A) (s : Slot A)
      → get_elem? slots i ≡ some s
      → IsSound (record { slots = slots; free = i ∷ rest })
      → IsSound (reuse slots i rest a s).0
  unfolding reuse
  reuse-IsSound slots i rest a s e v =
      let there = λ (j : ℕ). get_elem?-set slots i j (record s { node = some a }) in
      record {
        vacant = λ j h. elim (Bool-cases (i == j)) [
          | inl same ↦ absurd (ground (arith, v.distinct.0))
          | inr other ↦
              let (r, at, empty) = v.vacant j (ground arith) in
              (r, ground (arith, there j, get_elem?-lt slots i e), empty)
        ];
        listed = λ j r h empty. ground (arith, there j, get_elem?-lt slots i e, v.listed j r);
        distinct = v.distinct.1;
      }

  store-IsSound :
      (t : Arena A) (id : NodeId) (s : Slot A) (b : A)
      → get_elem? t.slots id.index ≡ some s
      → s.node ≢ none
      → IsSound t
      → IsSound (record t {
        slots = set t.slots id.index (record { generation = id.generation; node = some b });
      })
  store-IsSound t id s b e full v =
      let there = λ (j : ℕ).
        get_elem?-set t.slots id.index j (record { generation = id.generation; node = some b }) in
      record {
        vacant = λ j h. elim (Bool-cases (id.index == j)) [
          | inl same ↦ let (r, at, empty) = v.vacant j h in absurd (full (ground (arith, e, at)))
          | inr other ↦
              let (r, at, empty) = v.vacant j h in
              (r, ground (arith, there j, get_elem?-lt t.slots id.index e), empty)
        ];
        listed =
            λ j r h empty. ground (arith, there j, get_elem?-lt t.slots id.index e, v.listed j r);
        distinct = v.distinct;
      }

  pub modify-IsSound : (t : Arena A) (id : NodeId) (f : A → A) → IsSound t → IsSound (modify t id f)
  unfolding modify
  modify-IsSound t id f v = elim (Option-cases (get_elem? t.slots id.index)) [
    | inl e ↦ rw e v
    | inr (s, e) ↦ elim (Bool-cases (s.generation == id.generation)) [
      | inr stale ↦ rw (e, stale) v
      | inl live ↦ elim (Option-cases s.node) [
        | inl n ↦ rw (e, live, n) v
        | inr (a, n) ↦ rw (e, live, n) (store-IsSound t id s (f a) e (ground arith) v)
      ]
    ]
  ]

  -- What `insert` promises of its result.
  pub record Inserts (t : Arena A) (a : A) (r : Arena A × NodeId) : Type 0 where
    pub fresh : get t r.1 ≡ none
    pub reads : (j : NodeId) → get r.0 j ≡ (if same_id r.1 j then some a else get t j)
    pub sound : IsSound r.0

  insert_in-Inserts :
      (slots : List (Slot A)) (free : List ℕ) (a : A)
      → IsSound (record { slots = slots; free = free })
      → (r : Arena A × NodeId) × (insert_in slots free a ≡ some r)
        × Inserts (record { slots = slots; free = free }) a r
  unfolding insert_in get
  insert_in-Inserts slots [] a v = (
    (
      record { slots = slots ++ record { generation = 0; node = some a } ∷ []; free = [] },
      record { index = length slots; generation = 0 },
    ),
    refl,
    record {
      fresh = ground (arith, get_elem?_beyond slots (length slots));
      reads = λ j. ground (
        arith,
        get_elem?-push slots (record { generation = 0; node = some a }) j.index,
        get_elem?_beyond slots j.index,
      );
      sound = push-IsSound slots a v;
    },
  )
  insert_in-Inserts slots (i ∷ rest) a v =
      let (s, e, n) = v.vacant i (ground arith) in
      (
        reuse slots i rest a s,
        rw e,
        record {
          fresh = ground (arith, e, n);
          reads = λ j. ground (
            arith,
            e,
            n,
            get_elem?-lt slots i e,
            get_elem?-set slots i j.index (record s { node = some a }),
          );
          sound = reuse-IsSound slots i rest a s e v;
        },
      )

  -- In a sound arena `insert` does not panic, its handle is new, it stores the value there and
  -- nowhere else, and the arena stays sound.
  pub insert-Inserts :
      (t : Arena A) (a : A)
      → IsSound t
      → (r : Arena A × NodeId) × (insert t a ≡ some r) × Inserts t a r
  unfolding insert
  insert-Inserts t a v = insert_in-Inserts t.slots t.free a v
