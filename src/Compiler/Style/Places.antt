-- ===== src/Compiler/Style/Places.antt =====
-- Where the marker of a scoped selector is meant to go, crates/vue-rs-compiler/src/style.rs, on selectors
-- whose brackets are balanced.
use vue_rs.Base.{
  ℕ, suc, ◌≡◌, refl, ◌∙◌, Bool, true, false, ◌&&◌, [], ◌∷◌, ◌++◌, arith, ◌==◌, Bool-cases, inl, inr,
  append_assoc, append-nil,
}
use vue_rs.Text.{Text, chars, listed}
use vue_rs.Compiler.Style.{is_combinator, deepen, split_compound, split_pseudo, scope_selector}

abbrev pub combinators : Text
combinators = chars " \t\n>+~"

pub data Pair (o c : ℕ) : Type 0 where
  square : o ≡ b'[' → c ≡ b']' → Pair o c
  round : o ≡ b'(' → c ≡ b')' → Pair o c

-- A text with balanced brackets, in which outside of brackets none of the characters `stops` stands.
pub data Nested : Text → Text → Type 0 where
  nil : {stops : Text} → Nested stops []
  plain :
      {stops : Text} (c : ℕ) {cs : Text}
      → listed c (chars "[]()") ≡ false
      → listed c stops ≡ false
      → Nested stops cs
      → Nested stops (c ∷ cs)
  bracket :
      {stops : Text} (o c : ℕ) (inner : Text) {cs : Text}
      → Pair o c
      → Nested [] inner
      → Nested stops cs
      → Nested stops (o ∷ (inner ++ (c ∷ cs)))

-- What stands in front of the last compound selector: nothing, or a text that ends with a combinator.
pub data Head : Text → Type 0 where
  start : Head []
  behind : (h : Text) (c : ℕ) → Nested [] h → listed c combinators ≡ true → Head (h ++ c ∷ [])

-- What follows the compound selector without its pseudo-classes: nothing, or a colon with what follows.
pub data Pseudo : Text → Type 0 where
  absent : Pseudo []
  colon : (p : Text) → Nested combinators p → Pseudo (b':' ∷ p)

deepen-plain : (c n : ℕ) → listed c (chars "[]()") ≡ false → deepen c n ≡ n
deepen-plain c n h = ground (arith, h)

deepen-open : {o c : ℕ} (n : ℕ) → Pair o c → deepen o n ≡ suc n
deepen-open n (square e k) = rw e (ground arith)
deepen-open n (round e k) = rw e (ground arith)

deepen-close : {o c : ℕ} (n : ℕ) → Pair o c → deepen c (suc n) ≡ n
deepen-close n (square e k) = rw k (ground arith)
deepen-close n (round e k) = rw k (ground arith)

-- Neither loop stops at a bracket.
open-combinator : {o c : ℕ} → Pair o c → is_combinator o ≡ false
open-combinator (square e k) = rw e refl
open-combinator (round e k) = rw e refl

close-combinator : {o c : ℕ} → Pair o c → is_combinator c ≡ false
close-combinator (square e k) = rw k refl
close-combinator (round e k) = rw k refl

open-colon : {o c : ℕ} → Pair o c → (o == b':') ≡ false
open-colon (square e k) = rw e refl
open-colon (round e k) = rw e refl

close-colon : {o c : ℕ} → Pair o c → (c == b':') ≡ false
close-colon (square e k) = rw k refl
close-colon (round e k) = rw k refl

-- A step of the loops at a character at which they do not stop.
pseudo-step :
    (n c : ℕ) (cs a b : Text)
    → (c == b':' && n == 0) ≡ false
    → split_pseudo (deepen c n) cs ≡ (a, b)
    → split_pseudo n (c ∷ cs) ≡ (c ∷ a, b)
unfolding split_pseudo
pseudo-step n c cs a b h e = rw (split_pseudo, h, e) refl

compound-step :
    (n : ℕ) (head compound : Text) (c : ℕ) (cs : Text)
    → (is_combinator c && n == 0) ≡ false
    → split_compound n head compound (c ∷ cs)
      ≡ split_compound (deepen c n) head (compound ++ c ∷ []) cs
unfolding split_compound
compound-step n head compound c cs h = rw (split_compound, h) refl

and-false : {a : Bool} (b : Bool) → a ≡ false → (a && b) ≡ false
and-false b h = rw h refl

inner-clear : (b : Bool) (n : ℕ) → (b && suc n == 0) ≡ false
inner-clear true n = ground arith
inner-clear false n = refl

-- The second loop passes over a text without a colon that counts.
pseudo-through :
    {stops xs : Text} (n : ℕ) (rest a b : Text)
    → ((c : ℕ) → listed c stops ≡ false → (c == b':' && n == 0) ≡ false)
    → Nested stops xs
    → split_pseudo n rest ≡ (a, b)
    → split_pseudo n (xs ++ rest) ≡ (xs ++ a, b)
pseudo-through n rest a b clear nil e = e
pseudo-through n rest a b clear (plain c {cs} k s m) e =
    pseudo-step n c (cs ++ rest) (cs ++ a) b (clear c s)
      (rw (deepen-plain c n k) (pseudo-through n rest a b clear m e))
pseudo-through n rest a b clear (bracket o c inner {cs} p i m) e =
    rw (append_assoc inner (c ∷ cs) rest, append_assoc inner (c ∷ cs) a)
      (pseudo-step n o (inner ++ (c ∷ (cs ++ rest))) (inner ++ (c ∷ (cs ++ a))) b
        (and-false _ (open-colon p))
        (rw (deepen-open n p) (
          pseudo-through (suc n) (c ∷ (cs ++ rest)) (c ∷ (cs ++ a)) b
            (λ x _. inner-clear (x == b':') n) i
            (pseudo-step (suc n) c (cs ++ rest) (cs ++ a) b (and-false _ (close-colon p))
              (rw (deepen-close n p) (pseudo-through n rest a b clear m e))))))

-- Over a bracket, given how it passes over what is inside.
bracket-through :
    (n : ℕ) (head compound : Text) (o c : ℕ) (inner rest : Text)
    → Pair o c
    → ((compound' rest' : Text)
        → split_compound (suc n) head compound' (inner ++ rest')
          ≡ split_compound (suc n) head (compound' ++ inner) rest')
    → split_compound n head compound (o ∷ (inner ++ (c ∷ rest)))
      ≡ split_compound n head (compound ++ (o ∷ (inner ++ (c ∷ [])))) rest
bracket-through n head compound o c inner rest p walk =
    compound-step n head compound o (inner ++ (c ∷ rest)) (and-false _ (open-combinator p))
    ∙ rw (deepen-open n p) (
        walk (compound ++ o ∷ []) (c ∷ rest)
        ∙ compound-step (suc n) head ((compound ++ o ∷ []) ++ inner) c rest
            (and-false _ (close-combinator p))
        ∙ rw (deepen-close n p) (
            rw (append_assoc compound (o ∷ []) inner, append_assoc compound (o ∷ inner) (c ∷ []))
              refl))

-- The first loop passes over a text without a combinator that counts.
compound-through :
    {stops xs : Text} (n : ℕ) (head compound rest : Text)
    → ((c : ℕ) → listed c stops ≡ false → (is_combinator c && n == 0) ≡ false)
    → Nested stops xs
    → split_compound n head compound (xs ++ rest) ≡ split_compound n head (compound ++ xs) rest
compound-through n head compound rest clear nil = rw (append-nil compound) refl
compound-through n head compound rest clear (plain c {cs} k s m) =
    compound-step n head compound c (cs ++ rest) (clear c s)
    ∙ rw (deepen-plain c n k) (
        compound-through n head (compound ++ c ∷ []) rest clear m
        ∙ rw (append_assoc compound (c ∷ []) cs) refl)
compound-through n head compound rest clear (bracket o c inner {cs} p i m) =
    rw (append_assoc inner (c ∷ cs) rest) (
      bracket-through n head compound o c inner (cs ++ rest) p (λ compound' rest'.
        compound-through (suc n) head compound' rest' (λ x _. inner-clear (is_combinator x) n) i)
      ∙ compound-through n head (compound ++ (o ∷ (inner ++ (c ∷ [])))) rest clear m
      ∙ rw (append_assoc compound (o ∷ (inner ++ (c ∷ []))) cs, append_assoc inner (c ∷ []) cs)
          refl)

-- The first loop moves all up to a combinator outside of brackets in front.
head-through :
    {h : Text} (head compound : Text) (c : ℕ) (rest : Text)
    → listed c combinators ≡ true
    → Nested [] h
    → split_compound 0 head compound (h ++ (c ∷ rest))
      ≡ split_compound 0 (head ++ (compound ++ (h ++ c ∷ []))) [] rest
unfolding split_compound
head-through head compound c rest l nil =
    let e : (is_combinator c && 0 == 0) ≡ true = ground (arith, l) in
    let d = deepen-plain c 0 (ground (arith, l)) in
    rw (split_compound, e, d, append_assoc head compound (c ∷ [])) refl
head-through head compound c rest l (plain x {cs} k s m) =
    elim (Bool-cases (is_combinator x && 0 == 0)) [
      | inl e ↦
          rw (split_compound, e, deepen-plain x 0 k)
            (head-through (head ++ compound ++ x ∷ []) [] c rest l m
              ∙ rw
                  (
                    append_assoc (head ++ compound) (x ∷ []) (cs ++ c ∷ []),
                    append_assoc head compound (x ∷ cs ++ c ∷ []),
                  )
                  refl)
      | inr e ↦
          rw (split_compound, e, deepen-plain x 0 k)
            (head-through head (compound ++ x ∷ []) c rest l m
              ∙ rw (append_assoc compound (x ∷ []) (cs ++ c ∷ [])) refl)
    ]
head-through head compound c rest l (bracket o x inner {cs} p i m) =
    rw (append_assoc inner (x ∷ cs) (c ∷ rest), append_assoc inner (x ∷ cs) (c ∷ []))
      (bracket-through 0 head compound o x inner (cs ++ (c ∷ rest)) p (λ compound' rest'.
          compound-through 1 head compound' rest' (λ y _. inner-clear (is_combinator y) 0) i)
        ∙ head-through head (compound ++ (o ∷ (inner ++ (x ∷ [])))) c rest l m
        ∙ rw
            (
              append_assoc compound (o ∷ (inner ++ (x ∷ []))) (cs ++ c ∷ []),
              append_assoc inner (x ∷ []) (cs ++ c ∷ []),
            )
            refl)

base-combinator :
    (c : ℕ) → listed c (b':' ∷ combinators) ≡ false → (is_combinator c && 0 == 0) ≡ false
base-combinator c h = ground (arith, h)

base-colon : (c : ℕ) → listed c (b':' ∷ combinators) ≡ false → (c == b':' && 0 == 0) ≡ false
base-colon c h = ground (arith, h)

pseudo-combinator : (c : ℕ) → listed c combinators ≡ false → (is_combinator c && 0 == 0) ≡ false
pseudo-combinator c h = ground (arith, h)

-- The compound selector is what is left in the first loop.
compound-rest :
    {base pseudo : Text} (head : Text)
    → Nested (b':' ∷ combinators) base
    → Pseudo pseudo
    → split_compound 0 head [] (base ++ pseudo) ≡ (head, base ++ pseudo)
unfolding split_compound
compound-rest {base} head n absent =
    compound-through 0 head [] [] base-combinator n ∙ rw (append-nil base) refl
compound-rest {base} head n (colon p m) =
    compound-through 0 head [] (b':' ∷ p) base-combinator n
    ∙ (let t = compound-through 0 head (base ++ b':' ∷ []) [] pseudo-combinator m in
        rw (append-nil p) at t)
    ∙ rw (append_assoc base (b':' ∷ []) p) refl

split_rest :
    {base pseudo : Text}
    → Nested (b':' ∷ combinators) base
    → Pseudo pseudo
    → split_pseudo 0 (base ++ pseudo) ≡ (base, pseudo)
unfolding split_pseudo
split_rest {base} n absent = pseudo-through 0 [] [] [] base-colon n refl ∙ rw (append-nil base) refl
split_rest {base} n (colon p m) =
    pseudo-through 0 (b':' ∷ p) [] (b':' ∷ p) base-colon n refl ∙ rw (append-nil base) refl

head-rest :
    {head : Text} (cs : Text)
    → Head head
    → split_compound 0 [] [] (head ++ cs) ≡ split_compound 0 head [] cs
head-rest cs start = refl
head-rest cs (behind h c n l) = rw (append_assoc h (c ∷ []) cs) (head-through [] [] c cs l n)

-- In a selector with balanced brackets, the marker goes behind the last compound selector and in front of
-- its first pseudo-class or element; combinators and colons inside of brackets do not count.
pub scope_selector-places :
    {head base pseudo : Text} (marker : Text)
    → Head head
    → Nested (b':' ∷ combinators) base
    → Pseudo pseudo
    → scope_selector (head ++ (base ++ pseudo)) marker ≡ head ++ (base ++ (marker ++ pseudo))
unfolding scope_selector
scope_selector-places {head} {base} {pseudo} marker h n p =
    rw (scope_selector, head-rest (base ++ pseudo) h, compound-rest head n p, split_rest n p) refl
