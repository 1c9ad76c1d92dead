-- ===== src/Dom/Builders/Joined.antt =====
-- What the builders make of a list of fragments, crates/vue-rs-dom/src/class.rs and style.rs.
use vue_rs.Base.{
  ℕ, ◌≡◌, ◌≢◌, ◌⊎◌, inl, inr, refl, ap, ◌∙◌, false, not, List, [], ◌∷◌, ◌++◌, is_empty,
  append_assoc, map, retain, reverse, ◌==◌, ==_iff, Bool-cases, arith,
}
use mathlib.Core.List.{reverse-reverse}
use vue_rs.Text.{Text, chars, join, is_whitespace, trim_start, trim_end, trim, drop_suffix}
use vue_rs.Dom.Builders.{push_with}
use vue_rs.Dom.Builders.Class.{ClassList}
use vue_rs.Dom.Builders.Class
use vue_rs.Dom.Builders.Style.{StyleList}
use vue_rs.Dom.Builders.Style

abbrev pub filled : List Text → List Text
filled pieces = retain (λ p. not (is_empty p)) pieces

abbrev pub push_all : {A : Type 0} → (A → Text → A) → A → List Text → A
push_all push acc [] = acc
push_all push acc (p ∷ ps) = push_all push (push acc p) ps

join-append : (sep a b : Text) (qs : List Text) → join sep ((a ++ b) ∷ qs) ≡ a ++ join sep (b ∷ qs)
unfolding join
join-append sep a b [] = refl
join-append sep a b (q ∷ qs) = append_assoc a b (sep ++ join sep (q ∷ qs))

-- The pieces joined behind a text that is not empty.
push_all-join_behind :
    (sep : Text) (c : ℕ) (cs : Text) (ps : List Text)
    → push_all (push_with sep) (c ∷ cs) ps ≡ join sep ((c ∷ cs) ∷ filled ps)
unfolding join
push_all-join_behind sep c cs [] = refl
push_all-join_behind sep c cs ([] ∷ ps) = push_all-join_behind sep c cs ps
push_all-join_behind sep c cs ((x ∷ xs) ∷ ps) =
    push_all-join_behind sep c (cs ++ (sep ++ x ∷ xs)) ps
    ∙ join-append sep (c ∷ cs) (sep ++ x ∷ xs) (filled ps)
    ∙ ap (λ t. (c ∷ cs) ++ t) (join-append sep sep (x ∷ xs) (filled ps))

push_all-join :
    (sep : Text) (ps : List Text) → push_all (push_with sep) [] ps ≡ join sep (filled ps)
unfolding join
push_all-join sep [] = refl
push_all-join sep ([] ∷ ps) = push_all-join sep ps
push_all-join sep ((x ∷ xs) ∷ ps) = push_all-join_behind sep x xs ps

class_text :
    (l : ClassList) (ps : List Text)
    → (push_all Class.push l ps).text ≡ push_all (push_with (chars " ")) l.text ps
unfolding Class.push
class_text l [] = refl
class_text l (p ∷ ps) = class_text (Class.push l p) ps

style_text :
    (l : StyleList) (ps : List Text)
    → (push_all Style.push l ps).text ≡ push_all (push_with (chars "; ")) l.text (map Style.tidy ps)
unfolding Style.push
style_text l [] = refl
style_text l (p ∷ ps) = style_text (Style.push l p) ps

-- A `class` built from fragments is the fragments that are not empty, joined by one space.
pub class-join :
    (classes : List Text)
    → Class.finish (push_all Class.push Class.new classes) ≡ join (chars " ") (filled classes)
unfolding Class.finish Class.new
class-join classes = class_text Class.new classes ∙ push_all-join (chars " ") classes

-- A declaration as it stands in the text: the blanks at both ends are taken off, then one last
-- semicolon with the blanks in front of it.
pub data Tidied (decl : Text) : Text → Type 0 where
  stripped : (body : Text) → trim decl ≡ body ++ b';' ∷ [] → Tidied decl (trim_end body)
  kept : ((body : Text) → trim decl ≢ body ++ b';' ∷ []) → Tidied decl (trim decl)

pub data AllTidied : List Text → List Text → Type 0 where
  none_left : AllTidied [] []
  next :
      {decl t : Text} {decls ts : List Text}
      → Tidied decl t
      → AllTidied decls ts
      → AllTidied (decl ∷ decls) (t ∷ ts)

trim_start-twice : (cs : Text) → trim_start (trim_start cs) ≡ trim_start cs
unfolding trim_start
trim_start-twice [] = refl
trim_start-twice (c ∷ cs) = elim (Bool-cases (is_whitespace c)) [
  | inl e ↦ rw (trim_start, e) (trim_start-twice cs)
  | inr e ↦ rw (trim_start, e, trim_start, e) refl
]

trim_end-trim : (cs : Text) → trim_end (trim cs) ≡ trim cs
unfolding trim trim_end
trim_end-trim cs =
    rw
      (
        reverse-reverse (trim_start (reverse (trim_start cs))),
        trim_start-twice (reverse (trim_start cs)),
      )
      refl

snoc-ne : (body : Text) (d : ℕ) → [] ≢ body ++ d ∷ []
snoc-ne [] d h = absurd cc
snoc-ne (c ∷ body) d h = absurd cc

single : (c d : ℕ) (body : Text) → (c == d) ≡ false → c ∷ [] ≢ body ++ d ∷ []
single c d [] e h = absurd (ground (arith, e, h))
single c d (b ∷ []) e h = absurd cc
single c d (b ∷ x ∷ body) e h = absurd cc

longer :
    (c x : ℕ) (cs : Text) (d : ℕ) (body : Text)
    → ((b : Text) → x ∷ cs ≢ b ++ d ∷ [])
    → c ∷ x ∷ cs ≢ body ++ d ∷ []
longer c x cs d [] n h = absurd cc
longer c x cs d (b ∷ body) n h = n body cc

drop_suffix-cases :
    (d : ℕ) (cs : Text)
    → ((body : Text) × (cs ≡ body ++ d ∷ []) × (drop_suffix d cs ≡ body))
      ⊎ (((body : Text) → cs ≢ body ++ d ∷ []) × (drop_suffix d cs ≡ cs))
unfolding drop_suffix
drop_suffix-cases d [] = inr (λ body. snoc-ne body d, refl)
drop_suffix-cases d (c ∷ []) = elim (Bool-cases (c == d)) [
  | inl e ↦ inl ([], rw ((==_iff c d).0 e) refl, rw e refl)
  | inr e ↦ inr (λ body h. single c d body e h, rw e refl)
]
drop_suffix-cases d (c ∷ x ∷ cs) = elim (drop_suffix-cases d (x ∷ cs)) [
  | inl (body, e, k) ↦ inl (c ∷ body, ap (λ t. c ∷ t) e, ap (λ t. c ∷ t) k)
  | inr (n, k) ↦ inr (λ body h. longer c x cs d body n h, ap (λ t. c ∷ t) k)
]

tidy-Tidied : (decl : Text) → Tidied decl (Style.tidy decl)
unfolding Style.tidy
tidy-Tidied decl = elim (drop_suffix-cases b';' (trim decl)) [
  | inl (body, e, k) ↦ rw k (stripped body e)
  | inr (n, k) ↦ rw (k, trim_end-trim decl) (kept n)
]

map-AllTidied : (decls : List Text) → AllTidied decls (map Style.tidy decls)
map-AllTidied [] = none_left
map-AllTidied (decl ∷ decls) = next (tidy-Tidied decl) (map-AllTidied decls)

-- A `style` built from declarations is the declarations, without blanks around them and without one
-- last semicolon and the blanks in front of it, that are not empty then, joined by a semicolon and a
-- space.
pub style-join :
    (decls : List Text)
    → (ts : List Text) × AllTidied decls ts
      × (Style.finish (push_all Style.push Style.new decls) ≡ join (chars "; ") (filled ts))
unfolding Style.finish Style.new
style-join decls = (
  map Style.tidy decls,
  map-AllTidied decls,
  style_text Style.new decls ∙ push_all-join (chars "; ") (map Style.tidy decls),
)
