-- ===== src/Dom/Control/Keyed.antt =====
-- Keyed lists, `dyn_for_impl` of crates/vue-rs-dom/src/element.rs. The hash map of the rows is a list
-- of pairs, the latest row last, so that the order of `ordered` is that of the result; a row that is
-- gone is removed in that order, where the source has the order of the hash map.
pub mod Kept
pub mod Firsts
use vue_rs.Base.{
  ℕ, suc, Bool, true, false, Option, none, some, List, [], ◌∷◌, ◌++◌, map, if◌then◌else◌, maybe,
  is_some,
}

-- The values of a row's two signals, and its branch.
pub record Row (T : Type 0) : Type 0 where
  pub item : T
  pub index : ℕ
  pub branch : ℕ

-- `set` of a row's signals, `build_row`, and the calls of the backend and of disposers.
pub data RowAction (T : Type 0) : Type 0 where
  set_item : ℕ → T → RowAction T
  set_index : ℕ → ℕ → RowAction T
  built : T → ℕ → ℕ → RowAction T
  removed disposed inserted : ℕ → RowAction T

-- The rows between two runs of the effect.
pub record Rows (K T : Type 0) : Type 0 where
  pub rows : List (K × Row T)
  pub next : ℕ
  pub actions : List (RowAction T)

-- The locals of one run: the rows not used yet, and the result.
pub record Pass (K T : Type 0) : Type 0 where
  pub old : List (K × Row T)
  pub result : List (K × Row T)
  pub next : ℕ
  pub actions : List (RowAction T)

module _ {K T : Type 0} (same : K → K → Bool) where
  -- `HashMap::get`, `contains_key` and `remove`.
  unfoldable pub lookup : K → List (K × Row T) → Option (Row T)
  lookup k [] = none
  lookup k ((j, row) ∷ rows) = let r = lookup k rows in if same j k then some row else r

  unfoldable pub without : K → List (K × Row T) → List (K × Row T)
  without k [] = []
  without k ((j, row) ∷ rows) = let r = without k rows in if same j k then r else (j, row) ∷ r

  -- A row that is there gets the new item and index.
  unfoldable pub keep_row : K → T → ℕ → Row T → Pass K T → Pass K T
  unfolding without
  keep_row k item index row p = record {
    old = without k p.old;
    result = p.result ++ (k, record { item = item; index = index; branch = row.branch }) ∷ [];
    next = p.next;
    actions = p.actions ++ set_item row.branch item ∷ set_index row.branch index ∷ [];
  }

  unfoldable pub build_row : K → T → ℕ → Pass K T → Pass K T
  build_row k item index p = record {
    old = p.old;
    result = p.result ++ (k, record { item = item; index = index; branch = p.next }) ∷ [];
    next = suc p.next;
    actions = p.actions ++ built item index p.next ∷ [];
  }

  module _ (key : T → K) where
    -- One round of the loop over the items.
    unfoldable pub place_item : ℕ → T → Pass K T → Pass K T
    unfolding lookup keep_row build_row
    place_item index item p =
        if is_some (lookup (key item) p.result)
        then p
        else maybe (build_row (key item) item index p) (λ row. keep_row (key item) item index row p)
            (lookup (key item) p.old)

    unfoldable pub place_items : ℕ → List T → Pass K T → Pass K T
    unfolding place_item
    place_items index [] p = p
    place_items index (item ∷ items) p = place_items (suc index) items (place_item index item p)

    -- `for (..) in old.drain()`
    unfoldable pub drop_rows : List (K × Row T) → List (RowAction T)
    drop_rows [] = []
    drop_rows ((k, row) ∷ rows) = removed row.branch ∷ disposed row.branch ∷ drop_rows rows

    -- One run of the effect.
    unfoldable pub reconcile : List T → Rows K T → Rows K T
    unfolding place_items drop_rows
    reconcile items s =
        let p =
          place_items 0 items
            (record { old = s.rows; result = []; next = s.next; actions = s.actions }) in
        record {
          rows = p.result;
          next = p.next;
          actions = p.actions ++ (drop_rows p.old ++ map (λ r. inserted r.1.branch) p.result);
        }

    -- The cleanup of the scope around the list.
    unfoldable pub dispose_rows : Rows K T → Rows K T
    dispose_rows s = record {
      rows = [];
      next = s.next;
      actions = s.actions ++ map (λ r. disposed r.1.branch) s.rows;
    }
