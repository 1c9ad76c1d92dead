-- ===== src/Compiler/Codegen/Names/Pieces.antt =====
-- Texts with balanced brackets and strings, and how `split_top_level` of
-- crates/vue-rs-compiler/src/codegen.rs takes them apart.
use vue_rs.Base.{
  ℕ, suc, ◌≡◌, refl, ◌∙◌, true, false, none, some, List, [], ◌∷◌, ◌++◌, arith, ◌==◌, append_assoc,
  append-nil,
}
use vue_rs.Text.{Text, chars, listed, join}
use vue_rs.Compiler.Codegen.Names.{Scan, pos, scan, at_top, split_from, split_top_level}

abbrev pub specials : Text
specials = chars "'\"()[]{}"

pub data Pair (o c : ℕ) : Type 0 where
  round : o ≡ b'(' → c ≡ b')' → Pair o c
  square : o ≡ b'[' → c ≡ b']' → Pair o c
  curly : o ≡ b'{' → c ≡ b'}' → Pair o c

pub data Quote (q : ℕ) : Type 0 where
  single : q ≡ 39 → Quote q
  double : q ≡ 34 → Quote q

-- What stands in a string that `q` ends; a backslash escapes the character behind it.
pub data Quoted (q : ℕ) : Text → Type 0 where
  nil : Quoted q []
  plain :
      (c : ℕ) {cs : Text} → (c == q) ≡ false → (c == 92) ≡ false → Quoted q cs → Quoted q (c ∷ cs)
  escape : (c : ℕ) {cs : Text} → Quoted q cs → Quoted q (92 ∷ c ∷ cs)

-- A text with balanced brackets and closed strings, in which outside of them none of `stops` stands.
pub data Nested : Text → Text → Type 0 where
  nil : {stops : Text} → Nested stops []
  plain :
      {stops : Text} (c : ℕ) {cs : Text}
      → listed c specials ≡ false
      → listed c stops ≡ false
      → Nested stops cs
      → Nested stops (c ∷ cs)
  string :
      {stops : Text} (q : ℕ) (body : Text) {cs : Text}
      → Quote q
      → Quoted q body
      → Nested stops cs
      → Nested stops (q ∷ (body ++ (q ∷ cs)))
  bracket :
      {stops : Text} (o c : ℕ) (inner : Text) {cs : Text}
      → Pair o c
      → Nested [] inner
      → Nested stops cs
      → Nested stops (o ∷ (inner ++ (c ∷ cs)))

pub data AllNested (stops : Text) : List Text → Type 0 where
  done : AllNested stops []
  more :
      {piece : Text} {pieces : List Text}
      → Nested stops piece
      → AllNested stops pieces
      → AllNested stops (piece ∷ pieces)

abbrev level : ℕ → Scan
level n = record { depth = pos n; quote = none; escaped = false }

abbrev within_string : ℕ → ℕ → Scan
within_string n q = record { depth = pos n; quote = some q; escaped = false }

pass :
    (d : ℕ) (st st' : Scan) (buf : Text) (c : ℕ) (cs : Text)
    → at_top d c st ≡ false
    → scan c st ≡ st'
    → split_from d st buf (c ∷ cs) ≡ split_from d st' (buf ++ c ∷ []) cs
unfolding split_from
pass d st st' buf c cs h e = rw (split_from, h, e) refl

plain-scan : (c n : ℕ) → listed c specials ≡ false → scan c (level n) ≡ level n
unfolding scan
plain-scan c n h = ground (arith, h)

open-scan : {o c : ℕ} (n : ℕ) → Pair o c → scan o (level n) ≡ level (suc n)
unfolding scan
open-scan n (round e k) = rw e refl
open-scan n (square e k) = rw e refl
open-scan n (curly e k) = rw e refl

close-scan : {o c : ℕ} (n : ℕ) → Pair o c → scan c (level (suc n)) ≡ level n
unfolding scan
close-scan n (round e k) = rw k refl
close-scan n (square e k) = rw k refl
close-scan n (curly e k) = rw k refl

open-at : {o c : ℕ} (d : ℕ) (n : ℕ) → Pair o c → at_top d o (level n) ≡ false
unfolding at_top
open-at d n (round e k) = rw e refl
open-at d n (square e k) = rw e refl
open-at d n (curly e k) = rw e refl

close-at : {o c : ℕ} (d : ℕ) (n : ℕ) → Pair o c → at_top d c (level n) ≡ false
unfolding at_top
close-at d n (round e k) = rw k refl
close-at d n (square e k) = rw k refl
close-at d n (curly e k) = rw k refl

mark_at : {q : ℕ} (d : ℕ) (n : ℕ) → Quote q → at_top d q (level n) ≡ false
unfolding at_top
mark_at d n (single e) = rw e refl
mark_at d n (double e) = rw e refl

mark_scan : {q : ℕ} (n : ℕ) → Quote q → scan q (level n) ≡ within_string n q
unfolding scan
mark_scan n (single e) = rw e refl
mark_scan n (double e) = rw e refl

end-scan : {q : ℕ} (n : ℕ) → Quote q → scan q (within_string n q) ≡ level n
unfolding scan
end-scan n (single e) = rw e refl
end-scan n (double e) = rw e refl

string-scan :
    (n q c : ℕ)
    → (c == q) ≡ false
    → (c == 92) ≡ false
    → scan c (within_string n q) ≡ within_string n q
unfolding scan
string-scan n q c h k = rw (k, h) refl

-- Nothing inside a string is at the top.
string-through :
    {q : ℕ} {body : Text} (d n : ℕ) (buf rest : Text)
    → Quote q
    → Quoted q body
    → split_from d (within_string n q) buf (body ++ (q ∷ rest))
      ≡ split_from d (level n) (buf ++ (body ++ q ∷ [])) rest
unfolding scan at_top
string-through {q} d n buf rest k nil =
    pass d (within_string n q) (level n) buf q rest refl (end-scan n k)
string-through {q} d n buf rest k (plain c {cs} h l m) =
    pass d (within_string n q) (within_string n q) buf c (cs ++ (q ∷ rest)) refl
      (string-scan n q c h l)
    ∙ string-through d n (buf ++ c ∷ []) rest k m
    ∙ rw (append_assoc buf (c ∷ []) (cs ++ q ∷ [])) refl
string-through {q} d n buf rest k (escape c {cs} m) =
    pass d (within_string n q) (record { depth = pos n; quote = some q; escaped = true }) buf 92
      (c ∷ (cs ++ (q ∷ rest))) refl refl
    ∙ pass d (record { depth = pos n; quote = some q; escaped = true }) (within_string n q)
        (buf ++ 92 ∷ []) c (cs ++ (q ∷ rest)) refl refl
    ∙ string-through d n ((buf ++ 92 ∷ []) ++ c ∷ []) rest k m
    ∙ rw
        (
          append_assoc (buf ++ 92 ∷ []) (c ∷ []) (cs ++ q ∷ []),
          append_assoc buf (92 ∷ []) (c ∷ (cs ++ q ∷ [])),
        )
        refl

inside-at : (d c n : ℕ) → at_top d c (level (suc n)) ≡ false
unfolding at_top
inside-at d c n = ground arith

top-at : (d c : ℕ) → listed c (d ∷ []) ≡ false → at_top d c (level 0) ≡ false
unfolding at_top
top-at d c h = ground (arith, h)

-- A text in which no delimiter is at the top goes to the piece that is being read.
nested-through :
    {stops xs : Text} (d n : ℕ) (buf rest : Text)
    → ((c : ℕ) → listed c stops ≡ false → at_top d c (level n) ≡ false)
    → Nested stops xs
    → split_from d (level n) buf (xs ++ rest) ≡ split_from d (level n) (buf ++ xs) rest
nested-through d n buf rest clear nil = rw (append-nil buf) refl
nested-through d n buf rest clear (plain c {cs} h s m) =
    pass d (level n) (level n) buf c (cs ++ rest) (clear c s) (plain-scan c n h)
    ∙ nested-through d n (buf ++ c ∷ []) rest clear m
    ∙ rw (append_assoc buf (c ∷ []) cs) refl
nested-through d n buf rest clear (string q body {cs} k b m) =
    rw (append_assoc body (q ∷ cs) rest) (
      pass d (level n) (within_string n q) buf q (body ++ (q ∷ (cs ++ rest))) (mark_at d n k)
        (mark_scan n k)
      ∙ string-through d n (buf ++ q ∷ []) (cs ++ rest) k b
      ∙ nested-through d n ((buf ++ q ∷ []) ++ (body ++ q ∷ [])) rest clear m
      ∙ rw
          (
            append_assoc (buf ++ q ∷ []) (body ++ q ∷ []) cs,
            append_assoc body (q ∷ []) cs,
            append_assoc buf (q ∷ []) (body ++ (q ∷ cs)),
          )
          refl)
nested-through d n buf rest clear (bracket o c inner {cs} p i m) =
    rw (append_assoc inner (c ∷ cs) rest) (
      pass d (level n) (level (suc n)) buf o (inner ++ (c ∷ (cs ++ rest))) (open-at d n p)
        (open-scan n p)
      ∙ nested-through d (suc n) (buf ++ o ∷ []) (c ∷ (cs ++ rest)) (λ x _. inside-at d x n) i
      ∙ pass d (level (suc n)) (level n) ((buf ++ o ∷ []) ++ inner) c (cs ++ rest)
          (close-at d (suc n) p) (close-scan n p)
      ∙ nested-through d n (((buf ++ o ∷ []) ++ inner) ++ c ∷ []) rest clear m
      ∙ rw
          (
            append_assoc ((buf ++ o ∷ []) ++ inner) (c ∷ []) cs,
            append_assoc (buf ++ o ∷ []) inner (c ∷ cs),
            append_assoc buf (o ∷ []) (inner ++ (c ∷ cs)),
          )
          refl)

delimiter-at : (d : ℕ) → listed d specials ≡ false → at_top d d (level 0) ≡ true
unfolding at_top
delimiter-at d h = ground (arith, h)

split_from-pieces :
    (d : ℕ) (buf piece : Text) (pieces : List Text)
    → listed d specials ≡ false
    → AllNested (d ∷ []) (piece ∷ pieces)
    → split_from d (level 0) buf (join (d ∷ []) (piece ∷ pieces)) ≡ (buf ++ piece) ∷ pieces
unfolding split_from join
split_from-pieces d buf piece [] h (more m done) =
    let t = nested-through d 0 buf [] (top-at d) m in rw (append-nil piece) at t
split_from-pieces d buf piece (p ∷ ps) h (more m ms) =
    nested-through d 0 buf (d ∷ join (d ∷ []) (p ∷ ps)) (top-at d) m
    ∙ rw (split_from, delimiter-at d h, split_from-pieces d [] p ps h ms) refl

-- Pieces with balanced brackets and closed strings, in which the delimiter stands inside of brackets and
-- strings at most, are what `split_top_level` gives back when they are joined by the delimiter; the
-- delimiter is no bracket and no quote, and there is a piece.
pub split_top_level-pieces :
    (d : ℕ) (piece : Text) (pieces : List Text)
    → listed d specials ≡ false
    → AllNested (d ∷ []) (piece ∷ pieces)
    → split_top_level (join (d ∷ []) (piece ∷ pieces)) d ≡ piece ∷ pieces
unfolding split_top_level
split_top_level-pieces d piece pieces h ms = split_from-pieces d [] piece pieces h ms
