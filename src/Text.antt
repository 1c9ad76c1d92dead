-- ===== src/Text.antt =====
-- Text as a list of code points, and the operations of `str`, `char` and `[String]` that the crates call.
use vue_rs.Base.{
  ℕ, Bool, true, false, ◌&&◌, ◌||◌, Option, none, some, List, [], ◌∷◌, ◌++◌, reverse, ◌==◌, leb,
  if◌then◌else◌, any, ◌≡◌, refl, ==_iff, &&-left, &&-right,
}
use Prim.Native.Char.{code}
use Prim.Native.String.{String}

abbrev pub Text : Type 0
Text = List ℕ

-- The code points of a literal.
abbrev pub chars : String → Text
chars String.[] = []
chars (String.◌∷◌ c s) = code c ∷ chars s

abbrev pub within : ℕ → ℕ → ℕ → Bool
within lo hi c = leb lo c && leb c hi

-- The character is one of the text.
abbrev pub listed : ℕ → Text → Bool
listed c cs = any (λ x. c == x) cs

-- `char::is_whitespace`
unfoldable pub is_whitespace : ℕ → Bool
is_whitespace c =
    within 9 13 c
    || c == 32
    || c == 0x85
    || c == 0xa0
    || c == 0x1680
    || within 0x2000 0x200a c
    || c == 0x2028
    || c == 0x2029
    || c == 0x202f
    || c == 0x205f
    || c == 0x3000

-- `char::is_ascii_alphanumeric`
abbrev pub is_alphanumeric : ℕ → Bool
is_alphanumeric c = within b'a' b'z' c || within b'A' b'Z' c || within b'0' b'9' c

unfoldable pub trim_start : Text → Text
trim_start [] = []
trim_start (c ∷ cs) = let r = trim_start cs in if is_whitespace c then r else c ∷ cs

unfoldable pub trim_end : Text → Text
unfolding trim_start
trim_end cs = reverse (trim_start (reverse cs))

unfoldable pub trim : Text → Text
unfolding trim_end
trim cs = trim_end (trim_start cs)

-- `==` of texts
unfoldable pub same_text : Text → Text → Bool
same_text [] [] = true
same_text (x ∷ xs) (y ∷ ys) = x == y && same_text xs ys
same_text _ _ = false

-- `str::strip_prefix`: what follows the prefix, if the text begins with it.
unfoldable pub strip_prefix : Text → Text → Option Text
strip_prefix [] cs = some cs
strip_prefix (p ∷ ps) [] = none
strip_prefix (p ∷ ps) (c ∷ cs) = if p == c then strip_prefix ps cs else none

unfoldable pub starts_with : Text → Text → Bool
starts_with [] cs = true
starts_with (p ∷ ps) [] = false
starts_with (p ∷ ps) (c ∷ cs) = p == c && starts_with ps cs

-- `[String]::join`
unfoldable pub join : Text → List Text → Text
join sep [] = []
join sep (x ∷ []) = x
join sep (x ∷ y ∷ ys) = x ++ (sep ++ join sep (y ∷ ys))

-- The pieces one after the other.
unfoldable pub concat : List Text → Text
concat [] = []
concat (x ∷ xs) = x ++ concat xs

-- `str::replace` of a character
unfoldable pub replace : ℕ → Text → Text → Text
replace from to [] = []
replace from to (c ∷ cs) = let r = replace from to cs in if c == from then to ++ r else c ∷ r

-- `str::strip_suffix` of a character; without it the text is kept.
unfoldable pub drop_suffix : ℕ → Text → Text
drop_suffix d [] = []
drop_suffix d (c ∷ []) = if c == d then [] else c ∷ []
drop_suffix d (c ∷ x ∷ cs) = c ∷ drop_suffix d (x ∷ cs)

pub same_text-eq : (s t : Text) → same_text s t ≡ true → s ≡ t
unfolding same_text
same_text-eq [] [] h = refl
same_text-eq [] (y ∷ ys) h = absurd cc
same_text-eq (x ∷ xs) [] h = absurd cc
same_text-eq (x ∷ xs) (y ∷ ys) h =
    let e = same_text-eq xs ys (&&-right (x == y) (same_text xs ys) h) in
    let k = (==_iff x y).0 (&&-left (x == y) (same_text xs ys) h) in cc
