-- ===== src/Dom/Control/Keyed/Kept.antt =====
-- What becomes of the rows of a keyed list, crates/vue-rs-dom/src/element.rs.
use vue_rs.Base.{
  ℕ, suc, ◌≡◌, ◌⊎◌, refl, sym, ap, ◌∙◌, Bool, true, false, ◌||◌, none, some, List, [], ◌∷◌, ◌++◌,
  map, ◌==◌, if◌then◌else◌, maybe, is_some, any, Bool-cases, Option-cases, inl, inr, arith, ==_iff,
}
use vue_rs.Dom.Control.Keyed.{
  Row, RowAction, disposed, inserted, Rows, Pass, lookup, without, keep_row, build_row, place_item,
  place_items, drop_rows, reconcile,
}

-- The scope of the branch has been disposed of.
abbrev pub is_disposal : {T : Type 0} → ℕ → RowAction T → Bool
is_disposal b (disposed c) = c == b
is_disposal b _ = false

any-append :
    {A : Type 0} (p : A → Bool) (xs ys : List A) → any p (xs ++ ys) ≡ (any p xs || any p ys)
any-append p [] ys = refl
any-append p (x ∷ xs) ys = ground (arith, any-append p xs ys)

||-true : (b : Bool) → (b || true) ≡ true
||-true true = refl
||-true false = refl

module _ {K T : Type 0} (same : K → K → Bool) (same_eq : (a b : K) → same a b ≡ true → a ≡ b) where
  lookup-push :
      (k j : K) (row : Row T) (rows : List (K × Row T))
      → lookup same k (rows ++ (j, row) ∷ [])
        ≡ maybe (if same j k then some row else none) some (lookup same k rows)
  unfolding lookup
  lookup-push k j row [] = refl
  lookup-push k j row ((i, r) ∷ rows) = elim (Bool-cases (same i k)) [
    | inl e ↦ rw e refl
    | inr e ↦ rw e (lookup-push k j row rows)
  ]

  lookup-without :
      (k j : K) (rows : List (K × Row T))
      → same j k ≡ false
      → lookup same k (without same j rows) ≡ lookup same k rows
  unfolding lookup without
  lookup-without k j [] h = refl
  lookup-without k j ((i, r) ∷ rows) h = elim (Bool-cases (same i j)) [
    | inl e ↦ rw (e, ap (λ x. same x k) (same_eq i j e), h) (lookup-without k j rows h)
    | inr e ↦ elim (Bool-cases (same i k)) [
      | inl l ↦ rw (e, l) refl
      | inr l ↦ rw (e, l) (lookup-without k j rows h)
    ]
  ]

  no_rows : (k : K) → lookup {T = T} same k [] ≡ none
  unfolding lookup
  no_rows k = refl

  -- A row of the last run is either not used yet, or its branch is in the result.
  abbrev Unused : K → Row T → Pass K T → Type 0
  Unused k r p = (lookup same k p.old ≡ some r) × (lookup same k p.result ≡ none)

  abbrev pub Used : K → Row T → List (K × Row T) → Type 0
  Used k r rows = (q : Row T) × (lookup same k rows ≡ some q) × (q.branch ≡ r.branch)

  abbrev Fate : K → Row T → Pass K T → Type 0
  Fate k r p = Unused k r p ⊎ Used k r p.result

  push-Used :
      (k j : K) (r row : Row T) (rows : List (K × Row T))
      → Used k r rows
      → Used k r (rows ++ (j, row) ∷ [])
  push-Used k j r row rows (q, e, b) = (q, lookup-push k j row rows ∙ rw e refl, b)

  push-new :
      (k j : K) (row : Row T) (rows : List (K × Row T))
      → same j k ≡ true
      → lookup same k rows ≡ none
      → lookup same k (rows ++ (j, row) ∷ []) ≡ some row
  push-new k j row rows h e = lookup-push k j row rows ∙ rw (e, h) refl

  push-other :
      (k j : K) (row : Row T) (rows : List (K × Row T))
      → same j k ≡ false
      → lookup same k rows ≡ none
      → lookup same k (rows ++ (j, row) ∷ []) ≡ none
  push-other k j row rows h e = lookup-push k j row rows ∙ rw (e, h) refl

  some-inj : {a b : Row T} → some a ≡ some b → a ≡ b
  some-inj h = cc

  keep_row-Fate :
      (k j : K) (item : T) (index : ℕ) (r row : Row T) (p : Pass K T)
      → lookup same j p.old ≡ some row
      → Fate k r p
      → Fate k r (keep_row same j item index row p)
  unfolding keep_row
  keep_row-Fate k j item index r row p e (inr u) = inr (push-Used k j r _ p.result u)
  keep_row-Fate k j item index r row p e (inl (o, n)) = elim (Bool-cases (same j k)) [
    | inl h ↦ inr (
      _,
      push-new k j _ p.result h n,
      ap (λ x. x.branch) (some-inj (sym e ∙ (ap (λ x. lookup same x p.old) (same_eq j k h) ∙ o))),
    )
    | inr h ↦ inl (lookup-without k j p.old h ∙ o, push-other k j _ p.result h n)
  ]

  build_row-Fate :
      (k j : K) (item : T) (index : ℕ) (r : Row T) (p : Pass K T)
      → lookup same j p.old ≡ none
      → Fate k r p
      → Fate k r (build_row same j item index p)
  unfolding build_row
  build_row-Fate k j item index r p e (inr u) = inr (push-Used k j r _ p.result u)
  build_row-Fate k j item index r p e (inl (o, n)) = elim (Bool-cases (same j k)) [
    | inl h ↦ let z = sym e ∙ (ap (λ x. lookup same x p.old) (same_eq j k h) ∙ o) in absurd cc
    | inr h ↦ inl (o, push-other k j _ p.result h n)
  ]

  module _ (key : T → K) where
    place_item-Fate :
        (index : ℕ) (item : T) (k : K) (r : Row T) (p : Pass K T)
        → Fate k r p
        → Fate k r (place_item same key index item p)
    unfolding place_item
    place_item-Fate index item k r p f =
        elim (Bool-cases (is_some (lookup same (key item) p.result))) [
          | inl e ↦ rw (place_item, e) f
          | inr e ↦ elim (Option-cases (lookup same (key item) p.old)) [
            | inl l ↦ rw (place_item, e, l) (build_row-Fate k (key item) item index r p l f)
            | inr (row, l) ↦
                rw (place_item, e, l) (keep_row-Fate k (key item) item index r row p l f)
          ]
        ]

    place_items-Fate :
        (index : ℕ) (items : List T) (k : K) (r : Row T) (p : Pass K T)
        → Fate k r p
        → Fate k r (place_items same key index items p)
    unfolding place_items
    place_items-Fate index [] k r p f = f
    place_items-Fate index (item ∷ items) k r p f =
        place_items-Fate (suc index) items k r (place_item same key index item p)
          (place_item-Fate index item k r p f)

    drop_rows-disposes :
        (k : K) (r : Row T) (rows : List (K × Row T))
        → lookup same k rows ≡ some r
        → any (is_disposal r.branch) (drop_rows same key rows) ≡ true
    unfolding drop_rows lookup
    drop_rows-disposes k r [] e = absurd cc
    drop_rows-disposes k r ((j, row) ∷ rows) e = elim (Bool-cases (same j k)) [
      | inl h ↦
          let same_row = ap (λ x. x.branch) (some-inj (rw h at e)) in
          rw ((==_iff row.branch r.branch).1 same_row) refl
      | inr h ↦ rw (drop_rows-disposes k r rows (rw h at e)) (||-true (row.branch == r.branch))
    ]

    -- A row of the last run either keeps its branch, under its key, or is no longer there and its scope
    -- has been disposed of, if keys that compare equal are the same.
    pub reconcile-keeps :
        (items : List T) (s : Rows K T) (k : K) (r : Row T)
        → lookup same k s.rows ≡ some r
        → Used k r (reconcile same key items s).rows
          ⊎ ((lookup same k (reconcile same key items s).rows ≡ none)
              × (any (is_disposal r.branch) (reconcile same key items s).actions ≡ true))
    unfolding reconcile
    reconcile-keeps items s k r e =
        let first : Pass K T = record {
          old = s.rows;
          result = [];
          next = s.next;
          actions = s.actions;
        } in
        let p = place_items same key 0 items first in
        elim (place_items-Fate 0 items k r first (inl (e, no_rows k))) [
          | inr u ↦ inl u
          | inl (o, n) ↦ inr (
            n,
            any-append (is_disposal r.branch) p.actions _
                ∙ rw
                    (
                      any-append (is_disposal r.branch) (drop_rows same key p.old)
                          (map (λ q. inserted q.1.branch) p.result),
                      drop_rows-disposes k r p.old o,
                    )
                    (||-true (any (is_disposal r.branch) p.actions)),
          )
        ]
