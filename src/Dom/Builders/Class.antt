-- ===== src/Dom/Builders/Class.antt =====
-- `ClassList`, crates/vue-rs-dom/src/class.rs.
use vue_rs.Base.{Bool, [], if◌then◌else◌}
use vue_rs.Text.{Text, chars}
use vue_rs.Dom.Builders.{push_with}

pub record ClassList : Type 0 where
  pub text : Text

unfoldable pub new : ClassList
new = record { text = [] }

unfoldable pub push : ClassList → Text → ClassList
push l class = record { text = push_with (chars " ") l.text class }

unfoldable pub push_if : ClassList → Text → Bool → ClassList
unfolding push
push_if l class cond = if cond then push l class else l

unfoldable pub finish : ClassList → Text
finish l = l.text
