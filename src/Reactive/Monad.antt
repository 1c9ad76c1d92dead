-- ===== src/Reactive/Monad.antt =====
-- Computations over the runtime. `panic` is a Rust panic (`expect`, `unwrap`, an index out of
-- bounds); `starved` means that the fuel of the model ran out, which the source does not do.
use vue_rs.Base.{Option, List, [], ◌∷◌, maybe}
use vue_rs.Reactive.State.{Runtime}

pub data Run (S A : Type 0) : Type 0 where
  ok : A → S → Run S A
  panic : Run S A
  starved : Run S A

abbrev pub M : Type 0 → Type 0 → Type 0
M V A = Runtime V → Run (Runtime V) A

abbrev pub continue : {S A B : Type 0} → Run S A → (A → S → Run S B) → Run S B
continue (ok a s) f = f a s
continue panic f = panic
continue starved f = starved

-- The state of a result, or the given one where there is none.
abbrev pub state_or : {S A : Type 0} → S → Run S A → S
state_or s (ok a t) = t
state_or s _ = s

module _ {V : Type 0} where
  abbrev pub pure : {A : Type 0} → A → M V A
  pure a = λ s. ok a s

  infixl 5 ◌>>=◌ ◌>>◌
  abbrev pub ◌>>=◌ : {A B : Type 0} → M V A → (A → M V B) → M V B
  m >>= f = λ s. continue (m s) (λ a t. f a t)

  abbrev pub ◌>>◌ : {A B : Type 0} → M V A → M V B → M V B
  m >> k = m >>= λ _. k

  abbrev pub crash : {A : Type 0} → M V A
  crash = λ s. panic

  abbrev pub starve : {A : Type 0} → M V A
  starve = λ s. starved

  -- `RT.with_borrow(f)` and `RT.with_borrow_mut(f)` of a reader and of a writer.
  abbrev pub gets : {A : Type 0} → (Runtime V → A) → M V A
  gets f = λ s. ok (f s) s

  abbrev pub modify_rt : (Runtime V → Runtime V) → M V (Unit {0})
  modify_rt f = λ s. ok tt (f s)

  -- `.expect(..)` and `.unwrap()`
  abbrev pub expect : {A : Type 0} → Option A → M V A
  expect o = maybe crash pure o

  abbrev pub skip : M V (Unit {0})
  skip = pure tt

  -- `for a in xs { f(a); }`
  abbrev pub for_each : {A B : Type 0} → (A → M V B) → List A → M V (Unit {0})
  for_each f [] = skip
  for_each f (x ∷ xs) = f x >> for_each f xs

  -- `match o { None => m, Some(a) => f(a) }`
  abbrev pub match_option : {A B : Type 0} → Option A → M V B → (A → M V B) → M V B
  match_option o m f = maybe m f o
