-- ===== src/Compiler/Style.antt =====
-- Scoped CSS, crates/vue-rs-compiler/src/style.rs. `depth` is a signed number that the code keeps at
-- 0 or above.
pub mod Places
use vue_rs.Base.{
  ℕ, zero, suc, ◌+◌, ◌-◌, Bool, true, false, not, ◌&&◌, ◌||◌, Option, none, some, List, [], ◌∷◌,
  ◌++◌, ◌==◌, if◌then◌else◌, maybe, map,
}
use vue_rs.Text.{Text, chars, trim, join, concat}

abbrev pub is_opener : ℕ → Bool
is_opener c = c == b'[' || c == b'('

abbrev pub is_closer : ℕ → Bool
is_closer c = c == b']' || c == b')'

abbrev pub is_combinator : ℕ → Bool
is_combinator c = c == b' ' || c == b'\t' || c == b'\n' || c == b'>' || c == b'+' || c == b'~'

-- The nesting depth behind a character.
abbrev pub deepen : ℕ → ℕ → ℕ
deepen c depth = if is_opener c then depth + 1 else if is_closer c then depth - 1 else depth

-- The first loop of `scope_selector`: the text up to the last combinator outside brackets, and the
-- compound selector behind it, with both read so far in front.
unfoldable pub split_compound : ℕ → Text → Text → Text → Text × Text
split_compound depth head compound [] = (head, compound)
split_compound depth head compound (c ∷ cs) =
    let cut = is_combinator c && depth == 0 in
    split_compound (deepen c depth) (if cut then head ++ compound ++ c ∷ [] else head)
      (if cut then [] else compound ++ c ∷ []) cs

-- The second loop: the compound up to its first `:` outside brackets, and the rest.
unfoldable pub split_pseudo : ℕ → Text → Text × Text
split_pseudo depth [] = ([], [])
split_pseudo depth (c ∷ cs) = elim (c == b':' && depth == 0) [
  | true ↦ ([], c ∷ cs)
  | false ↦ (c ∷ (split_pseudo (deepen c depth) cs).0, (split_pseudo (deepen c depth) cs).1)
]

unfoldable pub scope_selector : Text → Text → Text
unfolding split_compound split_pseudo
scope_selector sel marker =
    let parts = split_compound 0 [] [] sel in
    let target = split_pseudo 0 parts.1 in parts.0 ++ (target.0 ++ (marker ++ target.1))

-- `str::split`: the pieces between the separators, one more than there are separators.
unfoldable pub split_on : ℕ → Text → Text → List Text
split_on sep piece [] = piece ∷ []
split_on sep piece (c ∷ cs) = elim (c == sep) [
  | true ↦ piece ∷ split_on sep [] cs
  | false ↦ split_on sep (piece ++ c ∷ []) cs
]

-- `str::split_inclusive`: each piece keeps its separator, and no last empty piece is made.
unfoldable pub split_inclusive : ℕ → Text → Text → List Text
split_inclusive sep [] [] = []
split_inclusive sep (p ∷ piece) [] = (p ∷ piece) ∷ []
split_inclusive sep piece (c ∷ cs) = elim (c == sep) [
  | true ↦ (piece ++ c ∷ []) ∷ split_inclusive sep [] cs
  | false ↦ split_inclusive sep (piece ++ c ∷ []) cs
]

-- `rule.find(c)` and `rule.split_at(..)`: the text in front of the character, and from it on.
unfoldable pub split_at_char : ℕ → Text → Option (Text × Text)
split_at_char d [] = none
split_at_char d (c ∷ cs) = elim (c == d) [
  | true ↦ some ([], c ∷ cs)
  | false ↦ maybe none (λ m. some (c ∷ m.0, m.1)) (split_at_char d cs)
]

unfoldable pub scope_rule : Text → Text → Text
unfolding split_at_char split_on scope_selector join trim
scope_rule marker rule =
    maybe rule
      (λ m.
        join (chars ", ") (map (λ sel. scope_selector (trim sel) marker) (split_on b',' [] m.0))
        ++ m.1)
      (split_at_char b'{' rule)

unfoldable pub scope_css : Text → Text → Text
unfolding split_inclusive scope_rule concat
scope_css css scope_id =
    let marker = chars "[data-v-" ++ scope_id ++ chars "]" in
    concat (map (scope_rule marker) (split_inclusive b'}' [] css))
