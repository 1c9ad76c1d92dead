-- ===== src/Tests/Component.antt =====
-- A whole component compiled, on a small source.
use vue_rs.Base.{◌≢◌, refl, true, false, none, some, [], ◌∷◌}
use vue_rs.Text.{Text, chars, same_text, is_whitespace}
use vue_rs.Compiler.Props.{bare_path, handle_name, check_prop_fields}
use vue_rs.Compiler.Props.ReadOnly.{Occurs, is_plain, first}
use vue_rs.Compiler.Sfc.{extract_block, split_sfc}
use vue_rs.Compiler.Script
use vue_rs.Compiler.Template.Syntax
use vue_rs.Compiler.Template.{parse}
use vue_rs.Compiler.Codegen.Tokens.{ident, literal, nil, cons}
use vue_rs.Compiler.Codegen.Monad.{◌>>=◌, ◌>>◌, pure, fail, lift, new_ident, record_slot, starve}
use vue_rs.Compiler.Codegen.Root.{root}
use vue_rs.Compiler.Component.{StructField, ItemStruct, struct_item, sort_stmt}
use vue_rs.Compiler.Component.Template.{starved, template_and_slots}
use vue_rs.Compiler.Component.Assembly.{
  Rust, read_script, check_props, gen_props_builder, style_const, compile_component,
}
use vue_rs.Compiler.Component.Assembly.Safe.{
  compile_component-ne-starved, compile_component-ReadOnly,
}

-- `count: u32`
abbrev count : StructField
count = record {
  attrs = [];
  ident = chars "count";
  ty = bare_path (chars "u32");
  ty_tokens = cons (ident (chars "u32")) nil;
}

abbrev item_props : ItemStruct
item_props = record {
  ident = chars "ItemProps";
  is_generic = false;
  fields = some (count ∷ []);
  tokens = nil;
}

-- Parsers that accept everything, and read every script as the struct of props.
abbrev any_rust : Rust
any_rust = record {
  syn = record {
    lex = λ t. some (cons (literal t) nil);
    parse2 = λ s. some s;
    parses_ident = λ t. true;
    makes_ident = λ t. true;
    parse_array = λ t. none;
    to_uppercase = λ c. c ∷ [];
  };
  lex_script = λ t. some Script.nil;
  parse_block = λ s. some (struct_item item_props ∷ []);
  hash = λ t. t;
}

abbrev source : Text
source = chars "<template><slot/></template><script>s</script><style>p{}</style>"

compile_component-ne-starved_example :
    compile_component any_rust (chars "Item") source (chars "7") none ≢ starved
compile_component-ne-starved_example =
    compile_component-ne-starved any_rust (chars "Item") source (chars "7") none

compile_component-ReadOnly_example : ¬ Occurs (bare_path (chars "u32"))
unfolding is_plain compile_component split_sfc extract_block read_script check_props handle_name
    check_prop_fields template_and_slots gen_props_builder style_const sort_stmt parse is_whitespace
    same_text Syntax.peek Syntax.bump Syntax.advance Syntax.looking_at root ◌>>=◌ ◌>>◌ pure fail
    lift new_ident record_slot starve
compile_component-ReadOnly_example =
    compile_component-ReadOnly any_rust (chars "Item") source (chars "7") none {item = item_props}
      {fields = record { name = chars "count"; ty = bare_path (chars "u32") } ∷ []} refl refl refl
      (record { name = chars "count"; ty = bare_path (chars "u32") }) first refl
