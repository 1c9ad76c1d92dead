-- ===== src/Dom/Control/Keyed/Firsts.antt =====
-- The rows of a keyed list and the items, crates/vue-rs-dom/src/element.rs.
use vue_rs.Base.{
  ℕ, suc, ◌≡◌, refl, sym, ap, ◌∙◌, Bool, true, false, not, ◌&&◌, List, [], ◌∷◌, ◌++◌, map, is_some,
  retain, Bool-cases, Option-cases, inl, inr, append_assoc, append-nil,
}
use vue_rs.Dom.Control.Keyed.{
  Row, Rows, Pass, lookup, keep_row, build_row, place_item, place_items, reconcile,
}

module _ {A : Type 0} where
  retain-both :
      (p q : A → Bool) (xs : List A) → retain p (retain q xs) ≡ retain (λ x. q x && p x) xs
  retain-both p q [] = refl
  retain-both p q (x ∷ xs) = elim (Bool-cases (q x)) [
    | inr e ↦ rw e (retain-both p q xs)
    | inl e ↦ elim (Bool-cases (p x)) [
      | inl h ↦ rw (e, h) (ap (λ r. x ∷ r) (retain-both p q xs))
      | inr h ↦ rw (e, h) (retain-both p q xs)
    ]
  ]

  retain-ext : (p q : A → Bool) (xs : List A) → ((x : A) → p x ≡ q x) → retain p xs ≡ retain q xs
  retain-ext p q [] h = refl
  retain-ext p q (x ∷ xs) h = rw (h x, retain-ext p q xs h) refl

  retain-true : (xs : List A) → retain (λ _. true) xs ≡ xs
  retain-true [] = refl
  retain-true (x ∷ xs) = ap (λ r. x ∷ r) (retain-true xs)

&&-false : (b : Bool) → (b && false) ≡ false
&&-false true = refl
&&-false false = refl

map-append : {A B : Type 0} (f : A → B) (xs ys : List A) → map f (xs ++ ys) ≡ map f xs ++ map f ys
map-append f [] ys = refl
map-append f (x ∷ xs) ys = ap (λ r. f x ∷ r) (map-append f xs ys)

-- What a row shows: its key, its item and its index.
abbrev pub shown : {K T : Type 0} → K × Row T → K × (T × ℕ)
shown (k, row) = (k, (row.item, row.index))

module _ {K T : Type 0} (same : K → K → Bool) (same_eq : (a b : K) → same a b ≡ true → a ≡ b)
    (key : T → K) where
  -- The first item of each key, with its index among all items.
  abbrev pub firsts : ℕ → List T → List (K × (T × ℕ))
  firsts index [] = []
  firsts index (item ∷ items) =
      (key item, (item, index)) ∷ retain (λ q. not (same (key item) q.0)) (firsts (suc index) items)

  -- The keys that the result does not have yet.
  abbrev fresh : List (K × Row T) → K × (T × ℕ) → Bool
  fresh rows q = not (is_some (lookup same q.0 rows))

  fresh-push :
      (k : K) (row : Row T) (rows : List (K × Row T)) (q : K × (T × ℕ))
      → fresh (rows ++ (k, row) ∷ []) q ≡ (not (same k q.0) && fresh rows q)
  unfolding lookup
  fresh-push k row [] q = elim (Bool-cases (same k q.0)) [ inl e ↦ rw e refl | inr e ↦ rw e refl ]
  fresh-push k row ((j, r) ∷ rows) q = elim (Bool-cases (same j q.0)) [
    | inl e ↦ rw e (sym (&&-false (not (same k q.0))))
    | inr e ↦ rw e (fresh-push k row rows q)
  ]

  fresh-same :
      (k : K) (rows : List (K × Row T)) (q : K × (T × ℕ))
      → is_some (lookup same k rows) ≡ true
      → fresh rows q ≡ (not (same k q.0) && fresh rows q)
  fresh-same k rows q h = elim (Bool-cases (same k q.0)) [
    | inl e ↦ rw (e, ← ap (λ x. is_some (lookup same x rows)) (same_eq k q.0 e), h) refl
    | inr e ↦ rw e refl
  ]

  abbrev row_of : T → ℕ → ℕ → Row T
  row_of item index branch = record { item = item; index = index; branch = branch }

  -- The result of one round.
  place_item-new :
      (index : ℕ) (item : T) (p : Pass K T)
      → is_some (lookup same (key item) p.result) ≡ false
      → (b : ℕ) × ((place_item same key index item p).result
          ≡ p.result ++ (key item, row_of item index b) ∷ [])
  unfolding place_item keep_row build_row
  place_item-new index item p e = elim (Option-cases (lookup same (key item) p.old)) [
    | inl l ↦ (p.next, rw (place_item, e, l) refl)
    | inr (r, l) ↦ (r.branch, rw (place_item, e, l) refl)
  ]

  place_item-old :
      (index : ℕ) (item : T) (p : Pass K T)
      → is_some (lookup same (key item) p.result) ≡ true
      → place_item same key index item p ≡ p
  unfolding place_item
  place_item-old index item p e = rw (place_item, e) refl

  join-old :
      (k : K) (t : T × ℕ) (rows : List (K × Row T)) (later : List (K × (T × ℕ)))
      → is_some (lookup same k rows) ≡ true
      → retain (fresh rows) later
        ≡ retain (fresh rows) ((k, t) ∷ retain (λ q. not (same k q.0)) later)
  join-old k t rows later e =
      rw (e, retain-both (fresh rows) (λ q. not (same k q.0)) later)
        (retain-ext (fresh rows) _ later (λ q. fresh-same k rows q e))

  join-new :
      (k : K) (row : Row T) (rows : List (K × Row T)) (later : List (K × (T × ℕ)))
      → is_some (lookup same k rows) ≡ false
      → map shown (rows ++ (k, row) ∷ []) ++ retain (fresh (rows ++ (k, row) ∷ [])) later
        ≡ map shown rows
          ++ retain (fresh rows) ((k, (row.item, row.index)) ∷ retain (λ q. not (same k q.0)) later)
  join-new k row rows later e =
      rw
        (
          e,
          retain-both (fresh rows) (λ q. not (same k q.0)) later,
          map-append shown rows ((k, row) ∷ []),
          retain-ext (fresh (rows ++ (k, row) ∷ [])) _ later (fresh-push k row rows),
        )
        (append_assoc (map shown rows) ((k, (row.item, row.index)) ∷ []) _)

  -- What the rows show, with the items still to come.
  abbrev upcoming : List (K × Row T) → List (K × (T × ℕ)) → List (K × (T × ℕ))
  upcoming rows later = map shown rows ++ retain (fresh rows) later

  place_items-shown :
      (index : ℕ) (items : List T) (p : Pass K T)
      → map shown (place_items same key index items p).result
        ≡ upcoming p.result (firsts index items)
  unfolding place_items
  place_items-shown index [] p = sym (append-nil (map shown p.result))
  place_items-shown index (item ∷ items) p =
      place_items-shown (suc index) items (place_item same key index item p)
      ∙ elim (Bool-cases (is_some (lookup same (key item) p.result))) [
        | inl e ↦
            ap (λ q. upcoming q.result (firsts (suc index) items)) (place_item-old index item p e)
            ∙ ap (λ r. map shown p.result ++ r)
                (join-old (key item) (item, index) p.result (firsts (suc index) items) e)
        | inr e ↦
            let (b, new) = place_item-new index item p e in
            ap (λ q. upcoming q (firsts (suc index) items)) new
            ∙ join-new (key item) (row_of item index b) p.result (firsts (suc index) items) e
      ]

  -- Behind a run of the effect of a keyed list its rows show, in order, the first item of each key with
  -- the place it has among the items, if keys that compare equal are the same.
  pub reconcile-firsts :
      (items : List T) (s : Rows K T) → map shown (reconcile same key items s).rows ≡ firsts 0 items
  unfolding reconcile lookup
  reconcile-firsts items s =
      place_items-shown 0 items
        (record { old = s.rows; result = []; next = s.next; actions = s.actions })
      ∙ retain-true (firsts 0 items)
