-- ===== src/Compiler/Codegen/Names.antt =====
-- The parts of names and of object literals in bindings, crates/vue-rs-compiler/src/codegen.rs. An
-- index into a text is the pair of what stands in front of it and what follows.
pub mod Pieces
use vue_rs.Base.{
  ℕ, zero, suc, ◌+◌, Bool, true, false, not, ◌&&◌, ◌||◌, Option, none, some, List, [], ◌∷◌, ◌++◌,
  ◌==◌, if◌then◌else◌, maybe, and_then, is_none, front, rest,
}
use vue_rs.Text.{Text, within, trim, strip_prefix, starts_with}

-- `str::split` of a character: the first piece and the others.
unfoldable pub split_char : ℕ → Text → Text × List Text
split_char d [] = ([], [])
split_char d (c ∷ cs) =
    let r = split_char d cs in if c == d then ([], r.0 ∷ r.1) else (c ∷ r.0, r.1)

-- `str::split_once` of a character.
unfoldable pub split_once : ℕ → Text → Option (Text × Text)
split_once d [] = none
split_once d (c ∷ cs) =
    let r = split_once d cs in
    if c == d then some ([], cs) else maybe none (λ p. some (c ∷ p.0, p.1)) r

unfoldable pub split_modifiers : Text → Text × List Text
unfolding split_char
split_modifiers name = split_char b'.' name

unfoldable pub dynamic_arg : Text → Option (Text × Text)
unfolding strip_prefix split_once trim
dynamic_arg name =
    and_then (strip_prefix (b'[' ∷ []) name)
      (λ rest. maybe none (λ p. some (trim p.0, p.1)) (split_once b']' rest))

abbrev pub is_ascii_uppercase : ℕ → Bool
is_ascii_uppercase c = within b'A' b'Z' c

abbrev pub to_ascii_lowercase : ℕ → ℕ
to_ascii_lowercase c = if is_ascii_uppercase c then c + 32 else c

-- The loop of `camelize`, with `upper_next`.
unfoldable pub camelize_from : (ℕ → Text) → Bool → Text → Text
camelize_from to_uppercase upper_next [] = []
camelize_from to_uppercase upper_next (c ∷ cs) = elim (c == b'-') [
  | true ↦ camelize_from to_uppercase true cs
  | false ↦ elim upper_next [
    | true ↦ to_uppercase c ++ camelize_from to_uppercase false cs
    | false ↦ c ∷ camelize_from to_uppercase false cs
  ]
]

unfoldable pub camelize : (ℕ → Text) → Text → Text
unfolding camelize_from
camelize to_uppercase name = camelize_from to_uppercase false name

abbrev pub is_quote : ℕ → Bool
is_quote c = c == 39 || c == 34

abbrev pub last_char : Text → Option ℕ
last_char [] = none
last_char (c ∷ []) = some c
last_char (c ∷ d ∷ cs) = last_char (d ∷ cs)

abbrev pub drop_last : Text → Text
drop_last [] = []
drop_last (c ∷ []) = []
drop_last (c ∷ d ∷ cs) = c ∷ drop_last (d ∷ cs)

abbrev pub is_some_char : ℕ → Option ℕ → Bool
is_some_char c o = maybe false (λ d. d == c) o

unfoldable pub unquote : Text → Text
unquote [] = []
unquote (c ∷ []) = c ∷ []
unquote (c ∷ d ∷ cs) =
    if is_quote c && is_some_char c (last_char (d ∷ cs)) then drop_last (d ∷ cs) else c ∷ d ∷ cs

-- The loop of `css_prop_name`.
unfoldable pub kebab : Text → Text
kebab [] = []
kebab (c ∷ cs) =
    let r = kebab cs in if is_ascii_uppercase c then b'-' ∷ to_ascii_lowercase c ∷ r else c ∷ r

unfoldable pub css_prop_name : Text → Text
unfolding trim unquote kebab
css_prop_name key =
    let t = trim key in if maybe false is_quote (front t) then unquote t else kebab t

-- The signed depth of brackets. The `i32` of the source is taken without its bounds.
pub data ℤ : Type 0 where
  pos : ℕ → ℤ
  negsuc : ℕ → ℤ

abbrev pub inc : ℤ → ℤ
inc (pos n) = pos (suc n)
inc (negsuc zero) = pos 0
inc (negsuc (suc n)) = negsuc n

abbrev pub dec : ℤ → ℤ
dec (pos zero) = negsuc 0
dec (pos (suc n)) = pos n
dec (negsuc n) = negsuc (suc n)

abbrev pub is_zero : ℤ → Bool
is_zero (pos zero) = true
is_zero _ = false

pub record Scan : Type 0 where
  pub depth : ℤ
  pub quote : Option ℕ
  pub escaped : Bool

abbrev pub is_open : ℕ → Bool
is_open c = c == b'(' || c == b'[' || c == b'{'

abbrev pub is_close : ℕ → Bool
is_close c = c == b')' || c == b']' || c == b'}'

-- One character inside a string that `q` ends.
abbrev pub scan_quoted : ℕ → ℕ → Scan → Scan
scan_quoted q c st =
    if st.escaped
    then record { depth = st.depth; quote = st.quote; escaped = false }
    else if c == 92
    then record { depth = st.depth; quote = st.quote; escaped = true }
    else if c == q
    then record { depth = st.depth; quote = none; escaped = false }
    else st

abbrev pub scan_plain : ℕ → Scan → Scan
scan_plain c st =
    if is_quote c
    then record { depth = st.depth; quote = some c; escaped = st.escaped }
    else if is_open c
    then record { depth = inc st.depth; quote = none; escaped = st.escaped }
    else if is_close c
    then record { depth = dec st.depth; quote = none; escaped = st.escaped }
    else st

-- How the loops of `split_top_level` and `find_object_colon` go on behind a character.
unfoldable pub scan : ℕ → Scan → Scan
scan c st = maybe (scan_plain c st) (λ q. scan_quoted q c st) st.quote

-- The character is this one, outside of strings and brackets.
unfoldable pub at_top : ℕ → ℕ → Scan → Bool
at_top d c st =
    is_none st.quote && not (is_quote c || is_open c || is_close c) && c == d && is_zero st.depth

abbrev pub start : Scan
start = record { depth = pos 0; quote = none; escaped = false }

unfoldable pub split_from : ℕ → Scan → Text → Text → List Text
unfolding scan at_top
split_from d st buf [] = buf ∷ []
split_from d st buf (c ∷ cs) = elim (at_top d c st) [
  | true ↦ buf ∷ split_from d st [] cs
  | false ↦ split_from d (scan c st) (buf ++ c ∷ []) cs
]

unfoldable pub split_top_level : Text → ℕ → List Text
unfolding split_from
split_top_level s d = split_from d start [] s

abbrev pub push_before : ℕ → Option (Text × Text) → Option (Text × Text)
push_before c o = maybe none (λ p. some (c ∷ p.0, p.1)) o

-- The loop of `find_object_colon`; `skip` is set behind the first character of `::`.
unfoldable pub find_colon : Bool → Scan → Text → Option (Text × Text)
unfolding scan at_top
find_colon skip st [] = none
find_colon true st (c ∷ cs) = push_before c (find_colon false st cs)
find_colon false st (c ∷ cs) = elim (at_top b':' c st) [
  | true ↦ elim (is_some_char b':' (front cs)) [
    | true ↦ push_before c (find_colon true st cs)
    | false ↦ some ([], cs)
  ]
  | false ↦ push_before c (find_colon false (scan c st) cs)
]

unfoldable pub find_object_colon : Text → Option (Text × Text)
unfolding find_colon
find_object_colon s = find_colon false start s

-- What `:class` and `:style` are bound to.
pub data BindingSyntax : Type 0 where
  object array plain : BindingSyntax

abbrev pub binding_syntax : Text → BindingSyntax
binding_syntax expr =
    let t = trim expr in
    if is_some_char b'{' (front t) && is_some_char b'}' (last_char t)
    then object
    else if is_some_char b'[' (front t) && is_some_char b']' (last_char t)
    then array
    else plain

unfoldable pub class_syntax : Text → BindingSyntax
unfolding trim
class_syntax expr = binding_syntax expr

unfoldable pub style_syntax : Text → BindingSyntax
unfolding trim
style_syntax expr = binding_syntax expr

unfoldable pub is_component : Text → Bool
is_component tag = maybe false is_ascii_uppercase (front tag)

-- `strip_prefix(open).and_then(strip_suffix(close))` of two characters.
unfoldable pub strip_pair : ℕ → ℕ → Text → Option Text
strip_pair o c [] = none
strip_pair o c (x ∷ xs) =
    if x == o && is_some_char c (last_char xs) then some (drop_last xs) else none
