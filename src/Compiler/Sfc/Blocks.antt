-- ===== src/Compiler/Sfc/Blocks.antt =====
-- The blocks of a component, `extract_block` of crates/vue-rs-compiler/src/sfc.rs.
use vue_rs.Base.{
  ℕ, zero, suc, ◌<◌, ◌≤◌, ◌≡◌, ◌≢◌, refl, ap, ◌∙◌, true, false, Option, none, some, [], ◌∷◌, ◌++◌,
  arith, Option-cases, Bool-cases, inl, inr, length, length-append, front, append_assoc, ◌==◌,
  ==_iff, maybe,
}
use vue_rs.Text.{Text, chars, listed, strip_prefix, within}
use vue_rs.Compiler.Sfc.{
  Result, ok, err, starved, find, continues_name, opening, closing, read_block, search_block,
  extract_block, split_sfc, ◌>>=◌, missing_template,
}

strip_prefix-append :
    (pat cs : Text) {after : Text} → strip_prefix pat cs ≡ some after → cs ≡ pat ++ after
unfolding strip_prefix
strip_prefix-append [] cs h = ground arith
strip_prefix-append (p ∷ ps) [] h = cc
strip_prefix-append (p ∷ ps) (c ∷ cs) {after} h = elim (Bool-cases (p == c)) [
  | inl e ↦ let t = strip_prefix-append ps cs {after = after} (ground arith) in ground (arith, t)
  | inr e ↦ absurd (ground arith)
]

find-append :
    (pat cs : Text) {before after : Text}
    → find pat cs ≡ some (before, after)
    → cs ≡ before ++ (pat ++ after)
unfolding find
find-append pat [] {before} {after} h = elim (Option-cases (strip_prefix pat [])) [
  | inl e ↦ absurd (ground (arith, e, h))
  | inr (r, e) ↦ let t = strip_prefix-append pat [] e in ground (arith, e, h, t)
]
find-append pat (c ∷ cs) {before} {after} h = elim (Option-cases (strip_prefix pat (c ∷ cs))) [
  | inr (r, e) ↦ let t = strip_prefix-append pat (c ∷ cs) e in ground (arith, e, h, t)
  | inl e ↦ elim (Option-cases (find pat cs)) [
    | inl k ↦ absurd (ground (arith, e, k, h))
    | inr ((b, r), k) ↦
        let t = find-append pat cs {before = b} {after = r} k in ground (arith, e, k, h, t)
  ]
]

find-first :
    (d : ℕ) (cs : Text) {before after : Text}
    → find (d ∷ []) cs ≡ some (before, after)
    → listed d before ≡ false
unfolding find strip_prefix
find-first d [] h = absurd cc
find-first d (c ∷ cs) {before} {after} h = elim (Bool-cases (d == c)) [
  | inl e ↦ let t = rw (find, strip_prefix, e) at h in ground (arith, t)
  | inr e ↦ elim (Option-cases (find (d ∷ []) cs)) [
    | inl k ↦ absurd (ground (arith, e, k, h))
    | inr ((b, r), k) ↦
        let t = find-first d cs {before = b} {after = r} k in ground (arith, e, k, h, t)
  ]
]

-- The characters of which the name of a tag consists.
pub data NameChar (c : ℕ) : Type 0 where
  lower : b'a' ≤ c → c ≤ b'z' → NameChar c
  upper : b'A' ≤ c → c ≤ b'Z' → NameChar c
  digit : b'0' ≤ c → c ≤ b'9' → NameChar c
  dash : c ≡ b'-' → NameChar c
  underscore : c ≡ b'_' → NameChar c

name-continues : (c : ℕ) → NameChar c → continues_name (some c) ≡ true
name-continues c (lower l u) = ground arith
name-continues c (upper l u) = ground arith
name-continues c (digit l u) = ground arith
name-continues c (dash e) = ground arith
name-continues c (underscore e) = ground arith

within-bounds : (lo hi c : ℕ) → within lo hi c ≡ true → (lo ≤ c) × (c ≤ hi)
within-bounds lo hi c h = (ground (arith, h), ground (arith, h))

name-found : (c : ℕ) → continues_name (some c) ≡ true → NameChar c
name-found c h = elim (Bool-cases (within b'a' b'z' c)) [
  | inl e ↦ let (l, u) = within-bounds b'a' b'z' c e in lower l u
  | inr e1 ↦ elim (Bool-cases (within b'A' b'Z' c)) [
    | inl e ↦ let (l, u) = within-bounds b'A' b'Z' c e in upper l u
    | inr e2 ↦ elim (Bool-cases (within b'0' b'9' c)) [
      | inl e ↦ let (l, u) = within-bounds b'0' b'9' c e in digit l u
      | inr e3 ↦ elim (Bool-cases (c == b'-')) [
        | inl e ↦ dash ((==_iff c b'-').0 e)
        | inr e4 ↦ let z = rw (e1, e2, e3, e4) at h in underscore ((==_iff c b'_').0 z)
      ]
    ]
  ]
]

-- The text behind the first `<tag` that no name character follows; `str::find` finds one after the other.
pub data Reaches (tag : Text) : Text → Text → Type 0 where
  here :
      {text rest : Text} (before : Text)
      → find (opening tag) text ≡ some (before, rest)
      → ((c : ℕ) → front rest ≡ some c → ¬ NameChar c)
      → Reaches tag text rest
  later :
      {text found : Text} (before rest : Text) (c : ℕ)
      → find (opening tag) text ≡ some (before, rest)
      → front rest ≡ some c
      → NameChar c
      → Reaches tag rest found
      → Reaches tag text found

continued : (o : Option ℕ) → continues_name o ≡ true → (c : ℕ) × (o ≡ some c) × NameChar c
continued none h = absurd cc
continued (some c) h = (c, refl, name-found c h)

not-continued : (o : Option ℕ) → continues_name o ≡ false → (c : ℕ) → o ≡ some c → ¬ NameChar c
not-continued o n c e k = cc (name-continues c k)

-- What a block is: the first opening tag whose name is the whole tag, and whose attributes
-- have no `>`; its body, which is all up to the first closing tag; and that tag.
pub record Block (tag source body : Text) : Type 0 where
  pub before : Text
  pub attributes : Text
  pub after : Text
  pub here :
      source ≡ before ++ (opening tag ++ (attributes ++ (b'>' ∷ body ++ (closing tag ++ after))))
  pub reached : Reaches tag source (attributes ++ (b'>' ∷ body ++ (closing tag ++ after)))
  pub tag_ends : listed b'>' attributes ≡ false
  pub closes : find (closing tag) (body ++ (closing tag ++ after)) ≡ some (body, after)

read_block-Block :
    (tag source before rest : Text) {body : Text}
    → source ≡ before ++ (opening tag ++ rest)
    → Reaches tag source rest
    → read_block tag rest ≡ ok (some body)
    → Block tag source body
unfolding read_block
read_block-Block tag source before rest {body} e reaches h =
    elim (Option-cases (find (b'>' ∷ []) rest)) [
      | inl k ↦ absurd (ground (arith, k, h))
      | inr ((attributes, inner), k) ↦ elim (Option-cases (find (closing tag) inner)) [
        | inl l ↦ absurd (ground (arith, k, l, h))
        | inr ((text, after), l) ↦
            let split = find-append (b'>' ∷ []) rest {before = attributes} {after = inner} k in
            let split' = find-append (closing tag) inner {before = text} {after = after} l in
            let same : text ≡ body = ground (arith, k, l, h) in
            record {
              before = before;
              attributes = attributes;
              after = after;
              here = rw (← same) (e ∙ rw (split, split') refl);
              reached = rw (← same, ← split', ← split) reaches;
              tag_ends = find-first b'>' rest {before = attributes} {after = inner} k;
              closes = rw (← same, ← split') l;
            }
      ]
    ]

search_block-Block :
    (n : ℕ) (tag source text before : Text) {body : Text}
    → source ≡ before ++ text
    → ((rest : Text) → Reaches tag text rest → Reaches tag source rest)
    → search_block n tag text ≡ ok (some body)
    → Block tag source body
unfolding search_block
search_block-Block zero tag source text before e reach h = absurd cc
search_block-Block (suc n) tag source text before {body} e reach h =
    elim (Option-cases (find (opening tag) text)) [
      | inl k ↦ absurd (ground (arith, k, h))
      | inr ((b, rest), k) ↦
          let split = find-append (opening tag) text {before = b} {after = rest} k in
          elim (Bool-cases (continues_name (front rest))) [
            | inl more ↦
                let (c, next, name) = continued (front rest) more in
                search_block-Block n tag source rest (before ++ (b ++ opening tag))
                  (e ∙ rw split (simp append_assoc))
                  (λ found r. reach found (later b rest c k next name r))
                  (ground (arith, k, more, h))
            | inr named ↦
                read_block-Block tag source (before ++ b) rest (e ∙ rw split (simp append_assoc))
                  (reach rest (here b k (not-continued (front rest) named)))
                  (ground (arith, k, named, h))
          ]
    ]

-- A body that `extract_block` returns is that of the first block of that tag: it stands behind the first
-- `>` of the first opening tag whose name is the whole tag, and goes up to the first closing tag.
pub extract_block-Block :
    (source tag : Text) {body : Text}
    → extract_block source tag ≡ ok (some body)
    → Block tag source body
unfolding extract_block
extract_block-Block source tag h =
    search_block-Block (suc (length source)) tag source source [] refl (λ rest r. r) h

find_shorter :
    (tag cs : Text) {before after : Text}
    → find (opening tag) cs ≡ some (before, after)
    → length after < length cs
find_shorter tag cs {before} {after} h =
    let t = find-append (opening tag) cs {before = before} {after = after} h in
    ground
      (arith, t, ap length t, length-append before (opening tag ++ after), length-append tag after)

read_block-ne-starved : (tag rest : Text) → read_block tag rest ≢ starved
unfolding read_block
read_block-ne-starved tag rest h = elim (Option-cases (find (b'>' ∷ []) rest)) [
  | inl k ↦ ground (arith, k, h)
  | inr (p, k) ↦ elim (Option-cases (find (closing tag) p.1)) [
    | inl l ↦ ground (arith, k, l, h)
    | inr (q, l) ↦ ground (arith, k, l, h)
  ]
]

search_block-ne-starved :
    (n : ℕ) (tag text : Text) → length text < n → search_block n tag text ≢ starved
unfolding search_block
search_block-ne-starved zero tag text lt h = ground arith
search_block-ne-starved (suc n) tag text lt h = elim (Option-cases (find (opening tag) text)) [
  | inl k ↦ ground (arith, k, h)
  | inr ((b, rest), k) ↦
      let shorter = find_shorter tag text {before = b} {after = rest} k in
      elim (Bool-cases (continues_name (front rest))) [
        | inl more ↦
            search_block-ne-starved n tag rest (ground (arith, shorter, lt))
              (ground (arith, k, more, h))
        | inr named ↦ read_block-ne-starved tag rest (ground (arith, k, named, h))
      ]
]

extract_block-ne-starved : (source tag : Text) → extract_block source tag ≢ starved
unfolding extract_block
extract_block-ne-starved source tag =
    search_block-ne-starved (suc (length source)) tag source (ground arith)

bind-ne-starved :
    {A B : Type 0} {m : Result A} {f : A → Result B}
    → m ≢ starved
    → ((a : A) → f a ≢ starved)
    → (m >>= f) ≢ starved
bind-ne-starved {m = ok a} h k = k a
bind-ne-starved {m = err e} h k = λ p. absurd cc
bind-ne-starved {m = starved} h k = λ p. h refl

needed-ne-starved : (o : Option Text) → maybe (err missing_template) ok o ≢ starved
needed-ne-starved none h = absurd cc
needed-ne-starved (some x) h = absurd cc

-- The splitter ends on every source.
pub split_sfc-ne-starved : (source : Text) → split_sfc source ≢ starved
unfolding split_sfc
split_sfc-ne-starved source =
    bind-ne-starved (extract_block-ne-starved source (chars "template")) λ found.
      bind-ne-starved (needed-ne-starved found) λ template.
        bind-ne-starved (extract_block-ne-starved source (chars "script")) λ script.
          bind-ne-starved (extract_block-ne-starved source (chars "style")) λ style h. absurd cc
