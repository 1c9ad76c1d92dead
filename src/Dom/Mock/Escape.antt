-- ===== src/Dom/Mock/Escape.antt =====
-- The escapes of a text node, crates/vue-rs-dom/src/mock.rs.
use vue_rs.Base.{ℕ, ◌≡◌, refl, [], ◌∷◌, map, ◌==◌, if◌then◌else◌, arith, Bool-cases, inl, inr}
use vue_rs.Text.{Text, chars, replace, concat}
use vue_rs.Dom.Mock.{escape_text}

-- How HTML writes a character inside a text node.
abbrev pub escaped : ℕ → Text
escaped c =
    if c == b'&'
    then chars "&amp;"
    else if c == b'<'
    then chars "&lt;"
    else if c == b'>'
    then chars "&gt;"
    else c ∷ []

-- The three passes over a text node write each character the way HTML does, once: the ampersands
-- that a pass puts in are not escaped again.
pub escape_text-once : (s : Text) → escape_text s ≡ concat (map escaped s)
unfolding escape_text replace concat
escape_text-once [] = refl
escape_text-once (c ∷ cs) =
    let h = escape_text-once cs in
    elim (Bool-cases (c == b'&')) [
      | inl a ↦ ground (arith, h, a)
      | inr a ↦ elim (Bool-cases (c == b'<')) [
        | inl b ↦ ground (arith, h, a, b)
        | inr b ↦ elim (Bool-cases (c == b'>')) [
          | inl d ↦ ground (arith, h, a, b, d)
          | inr d ↦ ground (arith, h, a, b, d)
        ]
      ]
    ]
