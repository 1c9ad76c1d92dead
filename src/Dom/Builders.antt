-- ===== src/Dom/Builders.antt =====
-- The builders of `class` and `style` attributes, crates/vue-rs-dom/src/class.rs and style.rs: what
-- the two share.
pub mod Class
pub mod Style
pub mod Joined
use vue_rs.Base.{◌++◌, if◌then◌else◌, is_empty}
use vue_rs.Text.{Text}

-- A fragment behind what is there, unless it is empty.
abbrev pub push_with : Text → Text → Text → Text
push_with sep acc piece =
    if is_empty piece then acc else if is_empty acc then piece else acc ++ (sep ++ piece)
