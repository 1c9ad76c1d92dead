-- ===== src/Tests/Compiler.antt =====
-- The template compiler on small inputs.
use vue_rs.Base.{ℕ, false, ◌≡◌, ◌≢◌, refl, none, [], ◌∷◌}
use vue_rs.Text.{Text, listed, chars, same_text, is_whitespace}
use vue_rs.Compiler.Template.{parse}
use vue_rs.Compiler.Template.Syntax.{dyn, event}
use vue_rs.Compiler.Template.Syntax
use vue_rs.Compiler.Template.Ends.{parse-ne-starved}
use vue_rs.Compiler.Sfc.{extract_block}
use vue_rs.Compiler.Sfc.Blocks.{Block, extract_block-Block}
use vue_rs.Compiler.Style.{scope_selector, scope_css}
use vue_rs.Compiler.Style.Places
use vue_rs.Compiler.Style.Places.{combinators, Pseudo, scope_selector-places}
use vue_rs.Compiler.Script.{
  Stream, ident, punct, literal, group, nil, cons, parenthesis, rewrite_stream,
}
use vue_rs.Compiler.Script.Renames.{Rewrites, rewrite_stream-Rewrites}
use vue_rs.Compiler.Props.{
  Ty, Args, Field, named, check_prop_fields, Handle, signal, path, bare_path, call_path,
  trait_object, handle_name,
}
use vue_rs.Compiler.Props
use vue_rs.Compiler.Props.ReadOnly
use vue_rs.Compiler.Props.ReadOnly.{
  Mentions, Occurs, is_plain, Member, first, check_prop_fields-accepts, check_prop_fields-refuses,
}

abbrev button : Text
button = chars "<p :a=\"x > 1\" @click=\"go\">n: {{ n }}</p>"

button_parsed :
    parse button
    ≡ Syntax.ok
        (Syntax.cons
          (Syntax.element
            (chars "p")
            (dyn (chars "a") (chars "x > 1") ∷ event (chars "click") (chars "go") ∷ [])
            (Syntax.cons
              (Syntax.static_text (chars "n: "))
              (Syntax.cons (Syntax.dyn_text (chars "n")) Syntax.nil)))
          Syntax.nil)
        []
unfolding parse is_whitespace same_text Syntax.peek Syntax.bump Syntax.advance Syntax.looking_at
button_parsed = refl

parse-ne-starved_example : parse (chars "<p>{{ unclosed") ≢ Syntax.starved
parse-ne-starved_example = parse-ne-starved (chars "<p>{{ unclosed")

abbrev source : Text
source = chars "<template-x/><template lang=\"p\"> <b/> </template>"

abbrev tag : Text
tag = chars "template"

extract_block-Block_example : Block tag source (chars " <b/> ")
unfolding extract_block
extract_block-Block_example = extract_block-Block source tag refl

scoped :
    scope_css (chars "ul li:hover, a { x: y }") (chars "3")
    ≡ chars "ul li[data-v-3]:hover, a[data-v-3]{ x: y }"
unfolding scope_css is_whitespace
scoped = refl

-- `a b[c d]:n(e f)`, its head, its compound selector and its pseudo-class.
abbrev head : Text
head = chars "a "

abbrev base : Text
base = chars "b[c d]"

abbrev pseudo : Text
pseudo = chars ":n(e f)"

spaced-Nested :
    (a b : ℕ)
    → listed a (chars "[]()") ≡ false
    → listed b (chars "[]()") ≡ false
    → Places.Nested [] (a ∷ b' ' ∷ b ∷ [])
spaced-Nested a b h k =
    Places.plain a h refl (Places.plain b' ' refl refl (Places.plain b k refl Places.nil))

base-Nested : Places.Nested (b':' ∷ combinators) base
base-Nested = Places.plain b'b' refl refl (
    Places.bracket b'[' b']' (chars "c d") (Places.square refl refl)
      (spaced-Nested b'c' b'd' refl refl) Places.nil)

pseudo-Pseudo : Pseudo pseudo
pseudo-Pseudo = Places.colon (chars "n(e f)") (
    Places.plain b'n' refl refl (
      Places.bracket b'(' b')' (chars "e f") (Places.round refl refl)
        (spaced-Nested b'e' b'f' refl refl) Places.nil))

scope_selector-places_example :
    scope_selector (chars "a b[c d]:n(e f)") (chars "[m]") ≡ chars "a b[c d][m]:n(e f)"
scope_selector-places_example =
    scope_selector-places {head = head} {base = base} {pseudo = pseudo} (chars "[m]")
      (Places.behind (chars "a") b' ' (Places.plain b'a' refl refl Places.nil) refl) base-Nested
      pseudo-Pseudo

-- `ref(0); ref`
abbrev script : Stream
script = cons (ident (chars "ref")) (
    cons (group parenthesis (cons (literal (chars "0")) nil))
      (cons (punct b';') (cons (ident (chars "ref")) nil)))

-- `signal(0); ref`
abbrev rewritten : Stream
rewritten = cons (ident (chars "signal")) (
    cons (group parenthesis (cons (literal (chars "0")) nil))
      (cons (punct b';') (cons (ident (chars "ref")) nil)))

rewrite_stream-Rewrites_example : Rewrites none none script rewritten
unfolding rewrite_stream same_text
rewrite_stream-Rewrites_example = rewrite_stream-Rewrites script

-- `count: u32` and `xs: Vec<Signal<u32>>`
abbrev plain : Field
plain = record { name = chars "count"; ty = bare_path (chars "u32") }

abbrev handles : Field
handles = record {
  name = chars "xs";
  ty = path (chars "Vec") (
      Props.type_arg (path (chars "Signal") (Props.type_arg (bare_path (chars "u32")) Props.nil))
        Props.nil);
}

-- `Vec<u32>`
abbrev numbers : Ty
numbers = path (chars "Vec") (Props.type_arg (bare_path (chars "u32")) Props.nil)

check_prop_fields-accepts_example : ¬ Occurs numbers
unfolding check_prop_fields handle_name is_plain
check_prop_fields-accepts_example =
    check_prop_fields-accepts (record { name = chars "xs"; ty = numbers } ∷ []) refl
      (record { name = chars "xs"; ty = numbers }) first refl

-- `Box<dyn Fn() -> Signal<i32>>`
abbrev boxed : Ty
boxed = path (chars "Box") (
    Props.type_arg
      (trait_object (
        Props.type_arg
          (call_path (chars "Fn") Props.nil
            (path (chars "Signal") (Props.type_arg (bare_path (chars "i32")) Props.nil)))
          Props.nil))
      Props.nil)

-- The handle in it is not found.
boxed_accepted : check_prop_fields (named (record { name = chars "f"; ty = boxed } ∷ [])) ≡ none
unfolding check_prop_fields handle_name
boxed_accepted = refl

boxed-Occurs : Occurs boxed
boxed-Occurs = ReadOnly.Occurs.in_path (
    ReadOnly.OccursIn.head (
      ReadOnly.Occurs.in_trait_object (
        ReadOnly.OccursIn.head
          (ReadOnly.Occurs.in_call_output (ReadOnly.Occurs.by_path (ReadOnly.is_signal refl))))))

check_prop_fields-refuses_example :
    (f : Field) × Member f (plain ∷ handles ∷ []) × (f.name ≡ chars "xs") × Mentions f.ty
unfolding check_prop_fields handle_name
check_prop_fields-refuses_example =
    check_prop_fields-refuses (plain ∷ handles ∷ []) {name = chars "xs"} {h = signal} refl
