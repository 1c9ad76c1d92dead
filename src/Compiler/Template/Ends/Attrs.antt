-- ===== src/Compiler/Template/Ends/Attrs.antt =====
-- How much text the attribute parser consumes.
use vue_rs.Base.{
  ℕ, ◌+◌, ◌≡◌, Bool, true, false, Option, none, some, [], ◌∷◌, if◌then◌else◌, maybe, length, arith,
}
use Prim.Native.String.{String}
use vue_rs.Text.{Text}
use vue_rs.Compiler.Template.Syntax.{
  ParseError, Outcome, Parser, pure, fail, ◌>>=◌, ◌>>◌, peek, bump, looking_at, advance, skip_ws,
  expect, split_name, read_name,
}
use vue_rs.Compiler.Template.Attrs.{
  read_bracketed, read_value, quoted_value, attr_value, dynamic_arg, attr_named, parse_attr,
}
use vue_rs.Compiler.Template.Ends.Lexer.{
  Eats, Eats-from, Eats-bind, skip_ws-Eats, expect-Eats, length-split_name, read_name-Eats,
  length-rest, advance-Eats, read_bracketed-Eats, read_value-Eats, eats, fails,
}

-- A parser that always answers and gives back no more text than it got.
pub record Answers {A : Type 0} (m : Parser A) : Type 0 where
  pub at : (cs : Text) → Eats 0 cs (m cs)

module _ {A : Type 0} where
  pub Answers-bind :
      {B : Type 0} {m : Parser A} {f : A → Parser B}
      → Answers m
      → ((a : A) → Answers (f a))
      → Answers (m >>= f)
  Answers-bind h k = record {
    at = λ cs. Eats-bind (h.at cs) λ a ds l. Eats-from 0 ((k a).at ds) l (omega arith);
  }

  pub Answers-then :
      {B : Type 0} {m : Parser A} {k : Parser B} → Answers m → Answers k → Answers (m >> k)
  Answers-then h k = Answers-bind h (λ _. k)

  pub Answers-pure : (a : A) → Answers (pure a)
  Answers-pure a = record { at = λ cs. eats (omega arith) }

  pub Answers-fail : (e : ParseError) → Answers (fail {A = A} e)
  Answers-fail e = record { at = λ cs. fails }

  pub Answers-if :
      {m k : Parser A} (b : Bool) → Answers m → Answers k → Answers (if b then m else k)
  Answers-if true h k = h
  Answers-if false h k = k

  pub Answers-if_at :
      {m k : Parser A} (b : Text → Bool)
      → Answers m
      → Answers k
      → Answers (λ cs. if b cs then m cs else k cs)
  Answers-if_at b h k = record { at = λ cs. go cs (b cs) (h.at cs) (k.at cs) }
    where
      go :
          (cs : Text) (t : Bool) {r q : Outcome A}
          → Eats 0 cs r
          → Eats 0 cs q
          → Eats 0 cs (if t then r else q)
      go cs true x y = x
      go cs false x y = y

  pub Answers-maybe :
      {B : Type 0} {m : Parser B} {f : A → Parser B} (o : Option A)
      → Answers m
      → ((a : A) → Answers (f a))
      → Answers (maybe m f o)
  Answers-maybe none h k = h
  Answers-maybe (some a) h k = k a

pub Answers-skip_ws : Answers skip_ws
Answers-skip_ws = record { at = skip_ws-Eats }

pub Answers-expect : (c : ℕ) → Answers (expect c)
Answers-expect c = record { at = λ cs. Eats-from 0 (expect-Eats c cs) (omega arith) (omega arith) }

pub Answers-read_name : Answers read_name
Answers-read_name = record { at = read_name-Eats }

pub Answers-read_value : (quote : ℕ) → Answers (read_value quote)
Answers-read_value quote = record { at = read_value-Eats quote }

pub Answers-read_bracketed : Answers read_bracketed
Answers-read_bracketed = record { at = read_bracketed-Eats }

pub Answers-bump : Answers bump
unfolding bump
Answers-bump = record { at = λ cs. eats (omega (arith, length-rest cs)) }

pub Answers-peek : Answers peek
unfolding peek
Answers-peek = record { at = λ cs. eats (omega arith) }

pub Answers-looking_at : (s : String) → Answers (looking_at s)
unfolding looking_at
Answers-looking_at s = record { at = λ cs. eats (omega arith) }

pub Answers-advance : (n : ℕ) → Answers (advance n)
Answers-advance n = record { at = advance-Eats n }

pub ruleset answering = (
  Answers-bind, Answers-then, Answers-pure, Answers-fail, Answers-if, Answers-if_at, Answers-maybe,
  Answers-skip_ws, Answers-expect, Answers-read_name, Answers-read_value, Answers-read_bracketed,
  Answers-bump, Answers-peek, Answers-looking_at, Answers-advance,
)

pub Answers-quoted_value : Answers quoted_value
unfolding quoted_value
Answers-quoted_value = search answering depth 20

pub Answers-attr_value : Answers attr_value
unfolding attr_value
Answers-attr_value = search (answering, Answers-quoted_value) depth 20

pub Answers-dynamic_arg : (raw : Text) → Answers (dynamic_arg raw)
unfolding dynamic_arg
Answers-dynamic_arg raw = search answering depth 20

pub Answers-attr_named : (raw : Text) → Answers (attr_named raw)
unfolding attr_named
Answers-attr_named raw = search (answering, Answers-attr_value, Answers-dynamic_arg) depth 20

-- Without a name there is no attribute.
pub attr_named-Eats :
    (name cs ds : Text) → length name + length ds ≡ length cs → Eats 1 cs (attr_named name ds)
unfolding attr_named peek
attr_named-Eats [] cs ds h = fails
attr_named-Eats (c ∷ name) cs ds h =
    Eats-from 1 ((Answers-attr_named (c ∷ name)).at ds) (omega arith) (omega arith)

pub parse_attr-Eats : (cs : Text) → Eats 1 cs (parse_attr cs)
unfolding parse_attr
parse_attr-Eats cs = attr_named-Eats (split_name cs).0 cs (split_name cs).1 (length-split_name cs)
