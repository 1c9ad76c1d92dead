-- ===== src/Compiler/Template/Ends/Lexer.antt =====
-- How much text the lexical loops of the template parser consume.
use vue_rs.Base.{
  ℕ, zero, suc, ◌+◌, ◌≤◌, ◌<◌, ◌≡◌, ◌≢◌, false, [], ◌∷◌, ◌++◌, ◌==◌, rest, length, arith,
  Bool-cases, inl, inr,
}
use vue_rs.Text.{Text, trim, chars, trim_start, starts_with}
use vue_rs.Compiler.Template.Syntax.{
  ParseError, Outcome, ok, err, starved, Parser, followed_by, advance, skip_ws, expect, split_name,
  read_name, find_comment_end, skip_comment, read_expr,
}
use vue_rs.Compiler.Template.Segments.{read_segments, parse_text}
use vue_rs.Compiler.Template.Attrs.{read_group, read_bracketed, split_value, read_value}

-- The parser gave an answer, and where it succeeds it has consumed at least `k` characters of `cs`.
pub data Eats {A : Type 0} (k : ℕ) (cs : Text) : Outcome A → Type 0 where
  eats : {a : A} {ds : Text} → length ds + k ≤ length cs → Eats k cs (ok a ds)
  fails : {e : ParseError} → Eats k cs (err e)

pub Eats-ne-starved : {A : Type 0} {k : ℕ} {cs : Text} {r : Outcome A} → Eats k cs r → r ≢ starved
Eats-ne-starved (eats h) e = cc
Eats-ne-starved fails e = cc

module _ {A : Type 0} where
  -- Consumption measured from an earlier place.
  pub Eats-from :
      (j : ℕ) {k i : ℕ} {cs ds : Text} {r : Outcome A}
      → Eats k ds r
      → length ds + j ≤ length cs
      → i ≤ j + k
      → Eats i cs r
  Eats-from j (eats h) p q = eats (omega arith)
  Eats-from j fails p q = fails

  pub Eats-bind :
      {B : Type 0} {j i : ℕ} {cs : Text} {r : Outcome A} {f : A → Parser B}
      → Eats j cs r
      → ((a : A) (ds : Text) → length ds + j ≤ length cs → Eats i cs (f a ds))
      → Eats i cs (followed_by r f)
  Eats-bind (eats h) k = k _ _ h
  Eats-bind fails k = fails

pub length-trim_start : (cs : Text) → length (trim_start cs) ≤ length cs
unfolding trim_start
length-trim_start [] = omega arith
length-trim_start (c ∷ cs) = ground (arith, length-trim_start cs)

pub skip_ws-Eats : (cs : Text) → Eats 0 cs (skip_ws cs)
unfolding skip_ws
skip_ws-Eats cs = eats (omega (arith, length-trim_start cs))

pub expect-Eats : (c : ℕ) (cs : Text) → Eats 1 cs (expect c cs)
unfolding expect
expect-Eats c [] = fails
expect-Eats c (d ∷ cs) = elim (Bool-cases (d == c)) [
  | inl e ↦ rw e (eats (omega arith))
  | inr e ↦ rw e fails
]

pub length-split_name :
    (cs : Text) → length (split_name cs).0 + length (split_name cs).1 ≡ length cs
unfolding split_name
length-split_name [] = omega arith
length-split_name (c ∷ cs) = ground (arith, length-split_name cs)

pub length-split_value : (q : ℕ) (cs : Text) → length (split_value q cs).1 ≤ length cs
unfolding split_value
length-split_value q [] = omega arith
length-split_value q (c ∷ []) = ground arith
length-split_value q (c ∷ d ∷ cs) =
    ground (arith, length-split_value q cs, length-split_value q (d ∷ cs))

pub read_name-Eats : (cs : Text) → Eats 0 cs (read_name cs)
unfolding read_name
read_name-Eats cs = eats (omega (arith, length-split_name cs))

pub length-rest : (cs : Text) → length (rest {A = ℕ} cs) ≤ length cs
length-rest [] = omega arith
length-rest (c ∷ cs) = omega arith

pub advance-Eats : (n : ℕ) (cs : Text) → Eats 0 cs (advance n cs)
unfolding advance
advance-Eats zero cs = eats (omega arith)
advance-Eats (suc n) cs =
    Eats-from 0 (advance-Eats n (rest cs)) (omega (arith, length-rest cs)) (omega arith)

-- From a text that is not empty.
pub advance-Eats_one : (n c : ℕ) (cs : Text) → Eats 1 (c ∷ cs) (advance (suc n) (c ∷ cs))
unfolding advance
advance-Eats_one n c cs = Eats-from 1 (advance-Eats n cs) (omega arith) (omega arith)

pub find_comment_end-Eats : (cs : Text) → Eats 0 cs (find_comment_end cs)
unfolding find_comment_end
find_comment_end-Eats [] = fails
find_comment_end-Eats (c ∷ cs) = elim (Bool-cases (starts_with (chars "-->") (c ∷ cs))) [
  | inl e ↦ rw (e, find_comment_end) (advance-Eats 3 (c ∷ cs))
  | inr e ↦
      rw (e, find_comment_end) (Eats-from 1 (find_comment_end-Eats cs) (omega arith) (omega arith))
]

pub skip_comment-Eats : (c : ℕ) (cs : Text) → Eats 1 (c ∷ cs) (skip_comment (c ∷ cs))
unfolding skip_comment
skip_comment-Eats c cs =
    Eats-bind (advance-Eats_one 3 c cs)
      λ _ ds h. Eats-from 1 (find_comment_end-Eats ds) h (omega arith)

pub read_expr-Eats : (expr cs : Text) → Eats 0 cs (read_expr expr cs)
unfolding read_expr
read_expr-Eats expr [] = fails
read_expr-Eats expr (c ∷ cs) = elim (Bool-cases (starts_with (chars "}}") (c ∷ cs))) [
  | inl e ↦
      rw (e, read_expr) (Eats-bind (advance-Eats 2 (c ∷ cs)) λ _ ds h. eats {ds = ds} (omega arith))
  | inr e ↦
      rw (e, read_expr)
        (Eats-from 1 (read_expr-Eats (expr ++ c ∷ []) cs) (omega arith) (omega arith))
]

pub read_segments-Eats :
    (n : ℕ) (buf cs : Text) → length cs < n → Eats 0 cs (read_segments n buf cs)
unfolding read_segments
read_segments-Eats zero buf cs h = elim h [ ]
read_segments-Eats (suc n) buf [] h = eats (omega arith)
read_segments-Eats (suc n) buf (c ∷ cs) h = elim (Bool-cases (c == b'<')) [
  | inl tag ↦ elim (Bool-cases (starts_with (chars "<!--") (c ∷ cs))) [
    | inl e ↦
        rw (tag, e, read_segments)
          (Eats-bind (skip_comment-Eats c cs)
            λ _ ds k. Eats-from 1 (read_segments-Eats n buf ds (omega arith)) k (omega arith))
    | inr e ↦ rw (tag, e, read_segments) (eats (omega arith))
  ]
  | inr plain ↦ elim (Bool-cases (starts_with (chars "{{") (c ∷ cs))) [
    | inl e ↦
        rw (plain, e, read_segments)
          (Eats-bind (advance-Eats_one 1 c cs) λ _ ds k.
            Eats-bind (Eats-from 1 {i = 1} (read_expr-Eats [] ds) k (omega arith)) λ expr es l.
              Eats-bind
                (Eats-from 1 {i = 1} (read_segments-Eats n [] es (omega arith)) l (omega arith))
                λ after fs m. eats {ds = fs} (omega arith))
    | inr e ↦
        rw (plain, e, read_segments)
          (Eats-from 1 (read_segments-Eats n (buf ++ c ∷ []) cs (omega arith)) (omega arith)
            (omega arith))
  ]
]

-- On a text that begins no tag the first round consumes.
pub read_segments-Eats_one :
    (n c : ℕ) (cs : Text)
    → (c == b'<') ≡ false
    → length cs < n
    → Eats 1 (c ∷ cs) (read_segments (suc n) [] (c ∷ cs))
unfolding read_segments
read_segments-Eats_one n c cs plain h = elim (Bool-cases (starts_with (chars "{{") (c ∷ cs))) [
  | inl e ↦
      rw (plain, e, read_segments)
        (Eats-bind (advance-Eats_one 1 c cs) λ _ ds k.
          Eats-bind (Eats-from 1 {i = 1} (read_expr-Eats [] ds) k (omega arith)) λ expr es l.
            Eats-bind
              (Eats-from 1 {i = 1} (read_segments-Eats n [] es (omega arith)) l (omega arith))
              λ after fs m. eats {ds = fs} (omega arith))
  | inr e ↦
      rw (plain, e, read_segments)
        (Eats-from 1 (read_segments-Eats n (c ∷ []) cs (omega arith)) (omega arith) (omega arith))
]

pub parse_text-Eats :
    (n c : ℕ) (cs : Text)
    → (c == b'<') ≡ false
    → length cs < n
    → Eats 1 (c ∷ cs) (parse_text (suc n) (c ∷ cs))
unfolding parse_text
parse_text-Eats n c cs plain h =
    Eats-bind (read_segments-Eats_one n c cs plain h) λ segments ds k. eats {ds = ds} (omega arith)

pub read_group-Eats : (depth : ℕ) (inner cs : Text) → Eats 0 cs (read_group depth inner cs)
unfolding read_group
read_group-Eats depth inner [] = fails
read_group-Eats depth inner (c ∷ cs) = elim (Bool-cases (c == b'[')) [
  | inl e ↦
      rw (e, read_group)
        (Eats-from 1 (read_group-Eats (suc depth) (inner ++ c ∷ []) cs) (omega arith) (omega arith))
  | inr e ↦ elim (Bool-cases (c == b']')) [
    | inl f ↦ rw (e, f, read_group) (closed depth (λ d. read_group-Eats d (inner ++ c ∷ []) cs))
    | inr f ↦
        rw (e, f, read_group)
          (Eats-from 1 (read_group-Eats depth (inner ++ c ∷ []) cs) (omega arith) (omega arith))
  ]
]
  where
    closed :
        (d : ℕ)
        → ((e : ℕ) → Eats 0 cs (read_group e (inner ++ c ∷ []) cs))
        → Eats 0 (c ∷ cs) (elim d as (λ _. Outcome Text) [
          | zero ↦ ok (trim inner) cs
          | suc e ↦ read_group e (inner ++ c ∷ []) cs
        ])
    closed zero h = eats (omega arith)
    closed (suc e) h = Eats-from 1 (h e) (omega arith) (omega arith)

pub read_bracketed-Eats : (cs : Text) → Eats 0 cs (read_bracketed cs)
unfolding read_bracketed
read_bracketed-Eats cs =
    Eats-bind (expect-Eats b'[' cs) λ _ ds h. Eats-from 1 (read_group-Eats 0 [] ds) h (omega arith)

pub read_value-Eats : (quote : ℕ) (cs : Text) → Eats 0 cs (read_value quote cs)
unfolding read_value
read_value-Eats quote cs = eats (omega (arith, length-split_value quote cs))
