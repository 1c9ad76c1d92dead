-- ===== src/Dom/Control/Shown.antt =====
-- What is mounted by a conditional, crates/vue-rs-dom/src/element.rs.
use vue_rs.Base.{
  ℕ, ◌≡◌, refl, ap, ◌∙◌, Bool, true, false, Option, none, some, List, [], ◌∷◌, ◌++◌, retain, not,
  ◌==◌, maybe, ==_iff,
}
use vue_rs.Dom.Control.{
  Action, built, inserted, removed, disposed, Mount, idle, set_current, unmount, mount, cleanup,
}

-- The branches whose scope lives, with their views, and those whose node is in the document.
pub record Page (V : Type 0) : Type 0 where
  pub live : List (V × ℕ)
  pub placed : List ℕ

module _ {V : Type 0} where
  abbrev pub act : Page V → Action V → Page V
  act p (built v b) = record { live = p.live ++ (v, b) ∷ []; placed = p.placed }
  act p (inserted b) = record { live = p.live; placed = p.placed ++ b ∷ [] }
  act p (removed b) = record { live = p.live; placed = retain (λ x. not (x == b)) p.placed }
  act p (disposed b) = record { live = retain (λ x. not (x.1 == b)) p.live; placed = p.placed }

  abbrev pub replay : Page V → List (Action V) → Page V
  replay p [] = p
  replay p (a ∷ xs) = replay (act p a) xs

  abbrev pub blank : Page V
  blank = record { live = []; placed = [] }

  -- The page on which that branch alone is shown.
  abbrev pub page_of : Option V → Option ℕ → Page V
  page_of (some v) (some b) = record { live = (v, b) ∷ []; placed = b ∷ [] }
  page_of _ _ = blank

  -- The view to show is shown by the mounted branch, and nothing else is live or in the document.
  abbrev pub both : Option V → Option ℕ → Bool
  both none none = true
  both (some v) (some b) = true
  both _ _ = false

  replay-append :
      (p : Page V) (xs bs : List (Action V)) → replay p (xs ++ bs) ≡ replay (replay p xs) bs
  replay-append p [] bs = refl
  replay-append p (a ∷ xs) bs = replay-append (act p a) xs bs

  drop_page :
      (want : Option V) (b : Option ℕ)
      → both want b ≡ true
      → replay (page_of want b) (maybe [] (λ x. removed x ∷ disposed x ∷ []) b) ≡ blank
  drop_page none none h = refl
  drop_page none (some b) h = absurd cc
  drop_page (some v) none h = absurd cc
  drop_page (some v) (some b) h = rw ((==_iff b b).1 refl) refl

  disposed_page :
      (want : Option V) (b : Option ℕ)
      → both want b ≡ true
      → (replay (page_of want b) (maybe [] (λ x. disposed x ∷ []) b)).live ≡ []
  disposed_page none none h = refl
  disposed_page none (some b) h = absurd cc
  disposed_page (some v) none h = absurd cc
  disposed_page (some v) (some b) h = rw ((==_iff b b).1 refl) refl

none-both : (V : Type 0) (b : Option ℕ) → both {V = V} none b ≡ true → b ≡ none
none-both V none h = refl
none-both V (some b) h = absurd cc

module _ {C V : Type 0} where
  pub record Shows (want : Option V) (m : Mount C V) : Type 0 where
    pub page : replay blank m.actions ≡ page_of want m.mounted
    pub whole : both want m.mounted ≡ true

  unmount-Shows : {want : Option V} (m : Mount C V) → Shows want m → Shows none (unmount m)
  unmount-Shows {want} m h = record {
    page =
        replay-append blank m.actions _
        ∙ (ap (λ p. replay p (maybe [] (λ x. removed x ∷ disposed x ∷ []) m.mounted)) h.page
            ∙ drop_page want m.mounted h.whole);
    whole = refl;
  }

  mount-Shows : (v : V) (m : Mount C V) → Shows none m → Shows (some v) (mount v m)
  mount-Shows v m h = record {
    page =
        replay-append blank m.actions _
        ∙ ap (λ p. replay p (built v m.next ∷ inserted m.next ∷ []))
            (h.page ∙ ap (page_of none) (none-both V m.mounted h.whole));
    whole = refl;
  }

  pub idle-Shows : (c : C) → Shows none (idle c)
  idle-Shows c = record { page = refl; whole = refl }

  pub swap-Shows :
      {want : Option V} (c : C) (v : V) (m : Mount C V)
      → Shows want m
      → Shows (some v) (mount v (unmount (set_current c m)))
  swap-Shows c v m h =
      mount-Shows v (unmount (set_current c m))
        (unmount-Shows (set_current c m) (record { page = h.page; whole = h.whole }))

  pub clear-Shows :
      {want : Option V} (c : C) (m : Mount C V)
      → Shows want m
      → Shows none (unmount (set_current c m))
  clear-Shows c m h = unmount-Shows (set_current c m) (record { page = h.page; whole = h.whole })

  pub fresh-Shows :
      (c : C) (v : V) (m : Mount C V) → Shows none m → Shows (some v) (mount v (set_current c m))
  fresh-Shows c v m h = mount-Shows v (set_current c m) (record { page = h.page; whole = h.whole })

  -- When the scope around a conditional goes away, no branch of it stays alive.
  pub cleanup-live :
      (want : Option V) (m : Mount C V)
      → Shows want m
      → (replay blank (cleanup m).actions).live ≡ []
  unfolding cleanup
  cleanup-live want m h =
      ap (λ p. p.live)
        (replay-append blank m.actions _
          ∙ ap (λ p. replay p (maybe [] (λ x. disposed x ∷ []) m.mounted)) h.page)
      ∙ disposed_page want m.mounted h.whole
