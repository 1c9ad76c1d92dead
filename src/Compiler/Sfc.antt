-- ===== src/Compiler/Sfc.antt =====
-- The splitter of single-file components, crates/vue-rs-compiler/src/sfc.rs. An offset into the source
-- is the text from there on. The search loop takes one round more than the text is long.
pub mod Blocks
use Prim.Native.String.{String}
use vue_rs.Base.{
  ℕ, zero, suc, ◌+◌, Bool, true, false, not, ◌&&◌, ◌||◌, Option, none, some, List, [], ◌∷◌, ◌++◌,
  ◌==◌, if◌then◌else◌, maybe, front, length,
}
use vue_rs.Text.{Text, chars, is_alphanumeric, trim, strip_prefix}

pub data SfcError : Type 0 where
  unterminated_opening_tag missing_closing_tag : Text → SfcError
  missing_template : SfcError

pub data Result (A : Type 0) : Type 0 where
  ok : A → Result A
  err : SfcError → Result A
  starved : Result A

infixl 5 ◌>>=◌
abbrev pub ◌>>=◌ : {A B : Type 0} → Result A → (A → Result B) → Result B
ok a >>= f = f a
err e >>= f = err e
starved >>= f = starved

-- `str::find`: the text before the first match, and the text behind it.
unfoldable pub find : Text → Text → Option (Text × Text)
unfolding strip_prefix
find pat [] = maybe none (λ after. some ([], after)) (strip_prefix pat [])
find pat (c ∷ cs) = elim (strip_prefix pat (c ∷ cs)) [
  | some after ↦ some ([], after)
  | none ↦ maybe none (λ m. some (c ∷ m.0, m.1)) (find pat cs)
]

-- A character that makes the match the prefix of a longer name.
abbrev pub continues_name : Option ℕ → Bool
continues_name o = maybe false (λ c. is_alphanumeric c || c == b'-' || c == b'_') o

abbrev pub opening : Text → Text
opening tag = b'<' ∷ tag

abbrev pub closing : Text → Text
closing tag = b'<' ∷ b'/' ∷ tag ++ b'>' ∷ []

-- The body, from behind the name in the opening tag.
unfoldable pub read_block : Text → Text → Result (Option Text)
unfolding find
read_block tag after =
    maybe (err (unterminated_opening_tag tag))
      (λ head.
        maybe (err (missing_closing_tag tag)) (λ body. ok (some body.0))
          (find (closing tag) head.1))
      (find (b'>' ∷ []) after)

-- The loop of `extract_block`.
unfoldable pub search_block : ℕ → Text → Text → Result (Option Text)
unfolding find read_block
search_block zero tag source = starved
search_block (suc n) tag source = elim (find (opening tag) source) [
  | none ↦ ok none
  | some (before, after) ↦ elim (continues_name (front after)) [
    | true ↦ search_block n tag after
    | false ↦ read_block tag after
  ]
]

unfoldable pub extract_block : Text → Text → Result (Option Text)
unfolding search_block
extract_block source tag = search_block (suc (length source)) tag source

pub record Sfc : Type 0 where
  pub template : Text
  pub script : Option Text
  pub style : Option Text

abbrev pub map_option : (Text → Text) → Option Text → Option Text
map_option f o = maybe none (λ s. some (f s)) o

unfoldable pub split_sfc : Text → Result Sfc
unfolding extract_block trim
split_sfc source = do
  found ← extract_block source (chars "template")
  template ← maybe (err missing_template) ok found
  script ← extract_block source (chars "script")
  style ← extract_block source (chars "style")
  ok (record {
    template = trim template;
    script = map_option trim script;
    style = map_option trim style;
  })
