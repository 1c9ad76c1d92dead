-- ===== src/Tests/Codegen.antt =====
-- The template code generator on small inputs.
use vue_rs.Base.{ℕ, ◌≡◌, ◌<◌, refl, Bool, true, false, Option, none, some, List, [], ◌∷◌, maybe}
use vue_rs.Text.{Text, chars, join, same_text, is_whitespace}
use vue_rs.Compiler.Template.Syntax.{Node, Nodes, Attr, fixed, dyn, event}
use vue_rs.Compiler.Template.Syntax
use vue_rs.Compiler.Codegen.Names.{split_top_level}
use vue_rs.Compiler.Codegen.Names.Pieces
use vue_rs.Compiler.Codegen.Names.Pieces.{AllNested, split_top_level-pieces}
use vue_rs.Compiler.Codegen.Tokens.{
  Stream, Syn, ident, punct, literal, group, alone, joint, parenthesis, nil, cons,
}
use vue_rs.Compiler.Codegen.Sugar.{expand_value_sugar}
use vue_rs.Compiler.Codegen.Code.{Code, create_anchor, codes, no_codes, unknown_event_modifier}
use vue_rs.Compiler.Codegen.Options.{build_event_options, is_keyboard_event, is_mouse_event}
use vue_rs.Compiler.Codegen.Options.Unknown.{error_of, first_unknown, build_event_options-error}
use vue_rs.Compiler.Codegen.Monad.{
  M, ok, ◌>>=◌, ◌>>◌, pure, fail, lift, new_ident, record_slot, starve, Element,
}
use vue_rs.Compiler.Codegen.Children.{Job, Arm, else_arms, gen_if_chain}
use vue_rs.Compiler.Codegen.Children.Arms.{returned, first_arm, holds_in, count}
use vue_rs.Compiler.Codegen.Children.Select.{gen_if_chain-selects, gen_if_chain-bounds}
use vue_rs.Compiler.Component.Builder.{
  FieldInfo, auto, Builder, required, gen_setters, new_builder, call_setters, builds, unwraps,
}
use vue_rs.Compiler.Component.Builder.Typed.{props_builder-whole}
use vue_rs.Compiler.Codegen.Code.{attr, dyn_attr, shown}
use vue_rs.Compiler.Codegen.Code
use vue_rs.Compiler.Codegen.Chain.{make_plan, attr_calls}
use vue_rs.Compiler.Codegen.Root.{root}
use vue_rs.Compiler.Component.Template.{template_and_slots}
use vue_rs.Compiler.Component.Template.Whole.{distinct_names, template_and_slots-distinct}
use vue_rs.Compiler.Template.{parse}

abbrev entries : Text
entries = chars "a, f(b, c), 'x,y'"

split : split_top_level entries b',' ≡ chars "a" ∷ chars " f(b, c)" ∷ chars " 'x,y'" ∷ []
unfolding split_top_level
split = refl

-- `a`, `f(b,c)` and `"x,y"`
entries-AllNested : AllNested (b',' ∷ []) (chars "a" ∷ chars "f(b,c)" ∷ chars "\"x,y\"" ∷ [])
entries-AllNested = Pieces.more (Pieces.plain b'a' refl refl Pieces.nil) (
    Pieces.more
      (Pieces.plain b'f' refl refl (
        Pieces.bracket b'(' b')' (chars "b,c") (Pieces.round refl refl)
          (Pieces.plain b'b' refl refl
            (Pieces.plain b',' refl refl (Pieces.plain b'c' refl refl Pieces.nil)))
          Pieces.nil))
      (Pieces.more
        (Pieces.string 34 (chars "x,y") (Pieces.double refl)
          (Pieces.Quoted.plain b'x' refl refl (
            Pieces.Quoted.plain b',' refl refl
              (Pieces.Quoted.plain b'y' refl refl Pieces.Quoted.nil)))
          Pieces.nil)
        Pieces.done))

split_top_level-pieces_example :
    split_top_level (chars "a,f(b,c),\"x,y\"") b','
    ≡ chars "a" ∷ chars "f(b,c)" ∷ chars "\"x,y\"" ∷ []
unfolding join
split_top_level-pieces_example =
    split_top_level-pieces b',' (chars "a") (chars "f(b,c)" ∷ chars "\"x,y\"" ∷ []) refl
      entries-AllNested

-- `$n += 1`
abbrev assignment : Stream
assignment = cons (punct b'$' alone) (
    cons (ident (chars "n"))
      (cons (punct b'+' joint) (cons (punct b'=' alone) (cons (literal (chars "1")) nil))))

-- `n.set(n.get() + (1))`
written :
    expand_value_sugar assignment
    ≡ some (
        cons (ident (chars "n")) (
          cons (punct b'.' alone) (
            cons (ident (chars "set")) (
              cons
                (group parenthesis (
                  cons (ident (chars "n")) (
                    cons (punct b'.' alone) (
                      cons (ident (chars "get")) (
                        cons (group parenthesis nil) (
                          cons
                            (punct b'+' alone)
                            (cons (group parenthesis (cons (literal (chars "1")) nil)) nil)))))))
                nil))))
unfolding expand_value_sugar
written = refl

-- A text is one token, and every expression parses.
abbrev any_syn : Syn
any_syn = record {
  lex = λ t. some (cons (literal t) nil);
  parse2 = λ s. some s;
  parses_ident = λ t. true;
  makes_ident = λ t. true;
  parse_array = λ t. none;
  to_uppercase = λ c. c ∷ [];
}

-- A slot that is used twice.
abbrev slots_text : Text
slots_text = chars "<slot/><p><slot/></p>"

abbrev fields : List (Text × Option Stream)
fields = (chars "default", none) ∷ []

template_and_slots-distinct_example : distinct_names fields ≡ true
unfolding template_and_slots parse is_whitespace same_text Syntax.peek Syntax.bump Syntax.advance
    Syntax.looking_at root ◌>>=◌ ◌>>◌ pure fail lift new_ident record_slot starve
template_and_slots-distinct_example = template_and_slots-distinct any_syn slots_text none [] refl

abbrev anchors : Job → M Code
anchors job = λ s. ok create_anchor s

abbrev branch : Element
branch = record { tag = chars "p"; attrs = []; children = Syntax.nil }

abbrev else_branch : Nodes
else_branch =
    Syntax.cons (Syntax.element (chars "p") (fixed (chars "v-else") [] ∷ []) Syntax.nil) Syntax.nil

abbrev is_a : Stream → Bool
is_a s = false

abbrev chain : List Arm
unfolding else_arms
chain = (some (chars "a"), branch) ∷ else_arms else_branch

gen_if_chain-selects_example :
    returned is_a ((cons (literal (chars "a")) nil, 0) ∷ []) (some 1)
    ≡ first_arm (holds_in any_syn is_a) 0 ((some (chars "a"), branch) ∷ else_arms else_branch)
unfolding gen_if_chain else_arms ◌>>=◌ pure lift
gen_if_chain-selects_example =
    gen_if_chain-selects any_syn is_a anchors (chars "a") branch else_branch []
      {sel = record { arms = (cons (literal (chars "a")) nil, 0) ∷ []; tail = some 1 }}
      {views = codes create_anchor (codes create_anchor no_codes)} {v = []} refl

gen_if_chain-bounds_example : 1 < count (codes create_anchor (codes create_anchor no_codes))
unfolding gen_if_chain else_arms ◌>>=◌ pure lift
gen_if_chain-bounds_example =
    gen_if_chain-bounds any_syn is_a anchors (chars "a") branch else_branch []
      {sel = record { arms = (cons (literal (chars "a")) nil, 0) ∷ []; tail = some 1 }}
      {views = codes create_anchor (codes create_anchor no_codes)} {v = []} {i = 1} refl refl

abbrev modifiers : List Text
modifiers = chars "stop" ∷ chars "left" ∷ chars "enter" ∷ []

build_event_options-error_example :
    error_of (build_event_options (chars "click") modifiers (chars "click.stop.left.enter"))
    ≡ maybe none
        (λ m. some (unknown_event_modifier m (chars "click.stop.left.enter")))
        (first_unknown
          (is_keyboard_event (chars "click"))
          (is_mouse_event (chars "click"))
          modifiers)
build_event_options-error_example =
    build_event_options-error (chars "click") (chars "click.stop.left.enter") modifiers

-- A required prop and one with a default.
abbrev props : List FieldInfo
props =
    record { ident = chars "id"; ty = nil; default = none }
    ∷ record { ident = chars "size"; ty = nil; default = some auto }
    ∷ []

abbrev first_set : Builder ℕ
first_set = record { markers = true ∷ []; values = some 7 ∷ none ∷ [] }

props_builder-whole_example : unwraps props first_set.values ≡ true
unfolding call_setters gen_setters required new_builder builds
props_builder-whole_example = props_builder-whole props ((0, 7) ∷ []) {b = first_set} refl refl

-- `class="a" :class.attr="b"`
abbrev two_classes : List Attr
two_classes = fixed (chars "class") (chars "a") ∷ dyn (chars "class.attr") (chars "b") ∷ []

class_twice :
    Code.◌>>=◌
      (make_plan any_syn (chars "p") two_classes none)
      (λ p. attr_calls any_syn p two_classes false false)
    ≡ Code.ok (
        attr (chars "class") (chars "a")
        ∷ dyn_attr (chars "class") (shown (cons (literal (chars "b")) nil))
        ∷ [])
unfolding make_plan attr_calls same_text
class_twice = refl
