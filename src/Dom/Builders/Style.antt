-- ===== src/Dom/Builders/Style.antt =====
-- `StyleList`, crates/vue-rs-dom/src/style.rs.
use vue_rs.Base.{[], ◌++◌, if◌then◌else◌, is_empty}
use vue_rs.Text.{Text, chars, trim, trim_end, drop_suffix}
use vue_rs.Dom.Builders.{push_with}

pub record StyleList : Type 0 where
  pub text : Text

unfoldable pub new : StyleList
new = record { text = [] }

-- The declaration without its blanks and its last semicolon.
unfoldable pub tidy : Text → Text
unfolding trim trim_end drop_suffix
tidy decl = trim_end (drop_suffix b';' (trim decl))

unfoldable pub push : StyleList → Text → StyleList
unfolding tidy
push l decl = record { text = push_with (chars "; ") l.text (tidy decl) }

unfoldable pub push_prop : StyleList → Text → Text → StyleList
unfolding push trim
push_prop l prop value =
    let v = trim value in if is_empty v then l else push l (prop ++ (chars ": " ++ v))

unfoldable pub finish : StyleList → Text
finish l = l.text
