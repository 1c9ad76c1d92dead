-- ===== src/Compiler/Codegen/Monad/Good.antt =====
-- Computations of the code generator that end, and the names of the slots they record,
-- crates/vue-rs-compiler/src/codegen.rs.
use vue_rs.Base.{
  ◌≡◌, refl, Bool, true, false, not, ◌&&◌, ◌||◌, [], ◌∷◌, ◌++◌, if◌then◌else◌, arith, Bool-cases,
  inl, inr,
}
use vue_rs.Text.{Text, same_text}
use vue_rs.Compiler.Codegen.Tokens.{Syn}
use vue_rs.Compiler.Codegen.Code.{GenError, Result}
use vue_rs.Compiler.Codegen.Code
use vue_rs.Compiler.Codegen.Monad.{
  Slots, Run, ok, err, panic, starved, M, continue, ◌>>=◌, ◌>>◌, pure, fail, lift, new_ident,
  is_recorded, recorded, record_slot,
}

same_text-sym : (a b : Text) → same_text a b ≡ same_text b a
unfolding same_text
same_text-sym [] [] = refl
same_text-sym [] (y ∷ ys) = refl
same_text-sym (x ∷ xs) [] = refl
same_text-sym (x ∷ xs) (y ∷ ys) = ground (arith, same_text-sym xs ys)

-- No two slots have the same name.
unfoldable pub distinct : Slots → Bool
unfolding same_text
distinct [] = true
distinct (p ∷ slots) = not (is_recorded p.0 slots) && distinct slots

-- The fuel did not run out, and names that were distinct still are.
abbrev pub Kept : {A : Type 0} → Run A → Type 0
Kept (ok a s) = distinct s ≡ true
Kept (err e) = Unit
Kept panic = Unit
Kept starved = ⊥

pub record Good {A : Type 0} (m : M A) : Type 0 where
  pub at : (s : Slots) → distinct s ≡ true → Kept (m s)

is_recorded-push :
    (n m : Text) (b : Bool) (s : Slots)
    → is_recorded n (s ++ (m, b) ∷ []) ≡ (is_recorded n s || same_text m n)
is_recorded-push n m b [] = ground arith
is_recorded-push n m b (p ∷ s) = ground (arith, is_recorded-push n m b s)

distinct-push :
    (m : Text) (b : Bool) (s : Slots)
    → is_recorded m s ≡ false
    → distinct s ≡ true
    → distinct (s ++ (m, b) ∷ []) ≡ true
unfolding distinct
distinct-push m b [] r h = refl
distinct-push m b (p ∷ s) r h =
    ground (arith, distinct-push m b s, is_recorded-push p.0 m b s, same_text-sym p.0 m)

recorded-distinct :
    (m : Text) (b : Bool) (s : Slots) → distinct s ≡ true → distinct (recorded m b s) ≡ true
unfolding recorded
recorded-distinct m b s h = elim (Bool-cases (is_recorded m s)) [
  | inl e ↦ rw e h
  | inr e ↦ rw e (distinct-push m b s e h)
]

Kept-continue :
    {A B : Type 0} (r : Run A) (f : A → M B) → Kept r → ((a : A) → Good (f a)) → Kept (continue r f)
Kept-continue (ok a s) f h g = (g a).at s h
Kept-continue (err e) f h g = tt
Kept-continue panic f h g = tt
Kept-continue starved f h g = h

pub Good-bind :
    {A B : Type 0} {m : M A} {f : A → M B} → Good m → ((a : A) → Good (f a)) → Good (m >>= f)
unfolding ◌>>=◌
Good-bind {m = m} {f = f} h g = record { at = λ s d. Kept-continue (m s) f (h.at s d) g }

pub Good-then : {A B : Type 0} {m : M A} {k : M B} → Good m → Good k → Good (m >> k)
unfolding ◌>>◌
Good-then h g = Good-bind h (λ _. g)

pub Good-pure : {A : Type 0} (a : A) → Good (pure a)
unfolding pure
Good-pure a = record { at = λ s d. d }

pub Good-fail : {A : Type 0} (e : GenError) → Good (fail {A = A} e)
unfolding fail
Good-fail e = record { at = λ s d. tt }

pub Good-lift : {A : Type 0} (r : Result A) → Good (lift r)
unfolding lift
Good-lift (Code.ok a) = record { at = λ s d. d }
Good-lift (Code.err e) = record { at = λ s d. tt }

pub Good-new_ident : (syn : Syn) (t : Text) → Good (new_ident syn t)
unfolding new_ident
Good-new_ident syn t = elim (Bool-cases (syn.makes_ident t)) [
  | inl e ↦ rw (new_ident, e) (record { at = λ s d. d })
  | inr e ↦ rw (new_ident, e) (record { at = λ s d. tt })
]

pub Good-record_slot : (m : Text) (b : Bool) → Good (record_slot m b)
unfolding record_slot
Good-record_slot m b = record { at = recorded-distinct m b }

pub Good-if : {A : Type 0} (b : Bool) {m k : M A} → Good m → Good k → Good (if b then m else k)
Good-if true h g = h
Good-if false h g = g

continue-ok :
    {A B : Type 0} (r : Run A) (f : A → M B) {b : B} {t : Slots}
    → continue r f ≡ ok b t
    → (a : A) × (s : Slots) × (r ≡ ok a s) × (f a s ≡ ok b t)
continue-ok (ok a s) f h = (a, s, refl, h)
continue-ok (err e) f h = absurd cc
continue-ok panic f h = absurd cc
continue-ok starved f h = absurd cc

-- Where a chain of two ends well, both do.
pub bind-ok :
    {A B : Type 0} (m : M A) (f : A → M B) {b : B} {s t : Slots}
    → (m >>= f) s ≡ ok b t
    → (a : A) × (u : Slots) × (m s ≡ ok a u) × (f a u ≡ ok b t)
unfolding ◌>>=◌
bind-ok m f {s = s} h = continue-ok (m s) f h

pub lift-ok :
    {A : Type 0} (r : Result A) (s : Slots) {a : A} {t : Slots} → lift r s ≡ ok a t → r ≡ Code.ok a
unfolding lift
lift-ok (Code.ok x) s h = cc
lift-ok (Code.err e) s h = absurd cc

pub pure-ok : {A : Type 0} (x : A) (s : Slots) {a : A} {t : Slots} → pure x s ≡ ok a t → x ≡ a
unfolding pure
pure-ok x s h = cc
