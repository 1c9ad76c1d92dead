-- ===== src/Compiler/Script/Renames.antt =====
-- What the rewriting of a script is meant to do, as its documentation in
-- crates/vue-rs-compiler/src/script.rs says it, and the code against it.
use vue_rs.Base.{
  ℕ, ◌≡◌, ◌≢◌, refl, Bool, true, false, ◌||◌, ==_iff, Option, none, some, Bool-cases, Option-cases,
  inl, inr, ap, &&-left, &&-right,
}
use vue_rs.Text.{Text, chars, same_text, same_text-eq}
use vue_rs.Compiler.Script.{
  Delimiter, Tree, Stream, ident, punct, literal, group, nil, cons, parenthesis, brace, bracket,
  no_delimiter, mapped_name, is_colon, is_call, is_path_segment, rewrite_ident, rewrite_stream,
  rewrite_tree,
}

-- The spellings of Vue, and the names they stand for.
pub data Renamed (name to : Text) : Type 0 where
  signal : name ≡ chars "ref" → to ≡ chars "signal" → Renamed name to
  effect : name ≡ chars "watchEffect" → to ≡ chars "effect" → Renamed name to

-- An identifier in front of `ts` and behind `before` and `last` is called, or is a segment of a path.
pub data Acts (last before : Option Tree) (ts : Stream) : Type 0 where
  called : (args rest : Stream) → ts ≡ cons (group parenthesis args) rest → Acts last before ts
  segment : last ≡ some (punct b':') → before ≡ some (punct b':') → Acts last before ts

mutual
  -- The stream behind `before` and `last`, and what it becomes.
  pub data Rewrites : Option Tree → Option Tree → Stream → Stream → Type 0 where
    done : {last before : Option Tree} → Rewrites last before nil nil
    step :
        {last before : Option Tree} {t t' : Tree} {ts ts' : Stream}
        → Becomes last before ts t t'
        → Rewrites (some t) last ts ts'
        → Rewrites last before (cons t ts) (cons t' ts')

  pub data Becomes : Option Tree → Option Tree → Stream → Tree → Tree → Type 0 where
    renamed :
        {last before : Option Tree} {ts : Stream} {name to : Text}
        → Renamed name to
        → Acts last before ts
        → Becomes last before ts (ident name) (ident to)
    other_name :
        {last before : Option Tree} {ts : Stream} {name : Text}
        → ((to : Text) → ¬ Renamed name to)
        → Becomes last before ts (ident name) (ident name)
    only_named :
        {last before : Option Tree} {ts : Stream} {name : Text}
        → ¬ Acts last before ts
        → Becomes last before ts (ident name) (ident name)
    same_punct :
        {last before : Option Tree} {ts : Stream} {c : ℕ}
        → Becomes last before ts (punct c) (punct c)
    same_literal :
        {last before : Option Tree} {ts : Stream} {t : Text}
        → Becomes last before ts (literal t) (literal t)
    inside :
        {last before : Option Tree} {ts : Stream} {d : Delimiter} {inner inner' : Stream}
        → Rewrites none none inner inner'
        → Becomes last before ts (group d inner) (group d inner')

is_colon-eq : (o : Option Tree) → is_colon o ≡ true → o ≡ some (punct b':')
is_colon-eq none h = absurd cc
is_colon-eq (some (ident x)) h = absurd cc
is_colon-eq (some (punct c)) h = ap (λ x. some (punct x)) ((==_iff c b':').0 h)
is_colon-eq (some (literal x)) h = absurd cc
is_colon-eq (some (group d x)) h = absurd cc

is_call-Acts : (last before : Option Tree) (ts : Stream) → is_call ts ≡ true → Acts last before ts
is_call-Acts last before nil h = absurd cc
is_call-Acts last before (cons (ident x) ts) h = absurd cc
is_call-Acts last before (cons (punct x) ts) h = absurd cc
is_call-Acts last before (cons (literal x) ts) h = absurd cc
is_call-Acts last before (cons (group parenthesis x) ts) h = called x ts refl
is_call-Acts last before (cons (group brace x) ts) h = absurd cc
is_call-Acts last before (cons (group bracket x) ts) h = absurd cc
is_call-Acts last before (cons (group no_delimiter x) ts) h = absurd cc

or-true : (b : Bool) → (b || true) ≡ true
or-true true = refl
or-true false = refl

true-ne : {b : Bool} → b ≡ true → b ≢ false
true-ne h k = absurd cc

Acts-found :
    {last before : Option Tree} {ts : Stream}
    → Acts last before ts
    → (is_call ts || is_path_segment last before) ≡ true
Acts-found (called args rest e) = rw e refl
Acts-found {ts} (segment e k) = rw (e, k) (or-true (is_call ts))

call_or_segment :
    (last before : Option Tree) (ts : Stream)
    → (is_call ts || is_path_segment last before) ≡ true
    → Acts last before ts
call_or_segment last before ts h = elim (Bool-cases (is_call ts)) [
  | inl e ↦ is_call-Acts last before ts e
  | inr e ↦
      let p = rw e at h in
      segment (is_colon-eq last (&&-left (is_colon last) (is_colon before) p))
        (is_colon-eq before (&&-right (is_colon last) (is_colon before) p))
]

mapped_name-Renamed : (name : Text) {to : Text} → mapped_name name ≡ some to → Renamed name to
unfolding mapped_name
mapped_name-Renamed name {to} h = elim (Bool-cases (same_text name (chars "ref"))) [
  | inl e ↦ signal (same_text-eq name (chars "ref") e) (let z = rw (mapped_name, e) at h in cc)
  | inr e ↦ elim (Bool-cases (same_text name (chars "watchEffect"))) [
    | inl k ↦
        effect (same_text-eq name (chars "watchEffect") k)
          (let z = rw (mapped_name, e, k) at h in cc)
    | inr k ↦ let z = rw (mapped_name, e, k) at h in absurd cc
  ]
]

Renamed-mapped : {name to : Text} → Renamed name to → mapped_name name ≢ none
unfolding mapped_name same_text
Renamed-mapped (signal e k) h = let z = rw e at h in absurd cc
Renamed-mapped (effect e k) h = let z = rw e at h in absurd cc

ident-Becomes :
    (last before : Option Tree) (ts : Stream) (name : Text)
    → Becomes last before ts
        (ident name)
        (rewrite_ident (is_call ts || is_path_segment last before) name)
unfolding rewrite_ident
ident-Becomes last before ts name = elim (Bool-cases (is_call ts || is_path_segment last before)) [
  | inr e ↦ rw (rewrite_ident, e) (only_named (λ a. true-ne (Acts-found a) e))
  | inl e ↦ elim (Option-cases (mapped_name name)) [
    | inl k ↦ rw (rewrite_ident, e, k) (other_name (λ to r. Renamed-mapped r k))
    | inr (to, k) ↦
        rw (rewrite_ident, e, k)
          (renamed (mapped_name-Renamed name k) (call_or_segment last before ts e))
  ]
]

mutual
  unfolding rewrite_stream

  stream-Rewrites :
      (last before : Option Tree) (ts : Stream)
      → Rewrites last before ts (rewrite_stream ts last before)
  stream-Rewrites last before nil = done
  stream-Rewrites last before (cons t ts) =
      step (tree-Becomes last before ts t) (stream-Rewrites (some t) last ts)

  tree-Becomes :
      (last before : Option Tree) (ts : Stream) (t : Tree)
      → Becomes last before ts t (rewrite_tree t (is_call ts || is_path_segment last before))
  tree-Becomes last before ts (ident name) = ident-Becomes last before ts name
  tree-Becomes last before ts (punct c) = same_punct
  tree-Becomes last before ts (literal t) = same_literal
  tree-Becomes last before ts (group d inner) = inside (stream-Rewrites none none inner)

-- A script is rewritten like this, inside of groups as well: `ref` becomes `signal` and `watchEffect`
-- becomes `effect` just where a group in parentheses follows or two colons stand in front, and all else
-- stays as it is.
pub rewrite_stream-Rewrites : (ts : Stream) → Rewrites none none ts (rewrite_stream ts none none)
rewrite_stream-Rewrites ts = stream-Rewrites none none ts
