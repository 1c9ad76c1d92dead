-- ===== src/Compiler/Codegen/Root.antt =====
-- Elements and the root of a template, `element`, `build_element`, `root_member` and `root` of
-- crates/vue-rs-compiler/src/codegen.rs. The recursion takes fuel: the weight of the template.

pub mod Runs
use vue_rs.Base.{
  ℕ, zero, suc, ◌+◌, Bool, true, false, ◌&&◌, ◌||◌, Option, none, some, List, [], ◌∷◌, ◌++◌, map,
  if◌then◌else◌, maybe, is_some,
}
use vue_rs.Text.{Text, chars, same_text}
use vue_rs.Compiler.Template.Syntax.{Attr, Node, Nodes, element, static_text, dyn_text, nil, cons}
use vue_rs.Compiler.Codegen.Names.{is_component}
use vue_rs.Compiler.Codegen.Tokens.{Stream, Syn}
use vue_rs.Compiler.Codegen.Code.{
  Open, static_tag, Code, Codes, el, create_text, dyn_text_node, create_fragment, Part, call,
  empty_template, component_is_placement, unsupported_at_root, to_codes, to_parts,
}
use vue_rs.Compiler.Codegen.Styles.{parse_expr}
use vue_rs.Compiler.Codegen.Attrs.{is, find_static, find_dyn}
use vue_rs.Compiler.Codegen.Chain.{make_plan, attr_calls, scope_calls}
use vue_rs.Compiler.Codegen.Children.{Job, whole, built, weight_nodes, weight, children, has}
use vue_rs.Compiler.Codegen.Component.{gen_slot, gen_component}
use vue_rs.Compiler.Codegen.Monad.{M, ◌>>=◌, ◌>>◌, pure, fail, starve, lift, Codegen, Element}

-- `v-html` and `v-text` own the content.
abbrev pub owns_content : List Attr → Bool
owns_content attrs = has attrs (chars "v-html") || has attrs (chars "v-text")

-- The directives that need an element around them.
abbrev pub directives : List Text
directives = chars "v-if" ∷ chars "v-else-if" ∷ chars "v-else" ∷ chars "v-for" ∷ []

-- The first directive among these that the element has.
unfoldable pub root_directive : List Attr → List Text → Option Text
unfolding find_static
root_directive attrs [] = none
root_directive attrs (d ∷ ds) = let r = root_directive attrs ds in if has attrs d then some d else r

module _ (syn : Syn) (cfg : Codegen) where
  unfoldable pub build_element : (Job → M Code) → Element → Open → Option Text → M Code
  unfolding make_plan attr_calls children scope_calls find_static
  build_element rec e tag ignore = do
    plan ← lift (make_plan syn e.tag e.attrs ignore)
    calls ← lift (attr_calls syn plan e.attrs false false)
    parts ← (if owns_content e.attrs then pure [] else children syn rec 0 e.children)
    pure (el tag (to_parts (map call (scope_calls cfg.scope ++ calls) ++ parts)))

  unfoldable pub element_step : (Job → M Code) → Element → M Code
  unfolding gen_slot gen_component is_component find_dyn same_text
  element_step rec e =
      if is "slot" e.tag
      then gen_slot syn cfg rec e
      else if is_component e.tag
      then gen_component syn rec e
      else if is "component" e.tag && is_some (find_dyn e.attrs (chars "is"))
      then fail component_is_placement
      else rec (built e (static_tag e.tag) none)

  -- `element` and `build_element`, as they call each other.
  unfoldable pub generate : ℕ → Job → M Code
  unfolding element_step build_element
  generate zero job = starve
  generate (suc n) (whole e) = element_step (generate n) e
  generate (suc n) (built e tag ignore) = build_element (generate n) e tag ignore

  unfoldable pub root_element : Element → M Code
  unfolding generate weight
  root_element e = generate (weight (whole e)) (whole e)

  unfoldable pub root_member : Node → M Code
  unfolding parse_expr root_directive root_element
  root_member (static_text t) = pure (create_text t)
  root_member (dyn_text expr) = lift (parse_expr syn expr) >>= (λ e. pure (dyn_text_node e))
  root_member (element tag attrs nodes) =
      maybe (root_element (record { tag = tag; attrs = attrs; children = nodes }))
        (λ d. fail (unsupported_at_root d)) (root_directive attrs directives)

  unfoldable pub root_members : Nodes → M (List Code)
  unfolding root_member
  root_members nil = pure []
  root_members (cons n ns) = do c ← root_member n; cs ← root_members ns; pure (c ∷ cs)

  unfoldable pub root : Nodes → M Code
  unfolding root_members root_element
  root nil = fail empty_template
  root (cons (element tag attrs nodes) nil) =
      root_element (record { tag = tag; attrs = attrs; children = nodes })
  root ns = root_members ns >>= (λ cs. pure (create_fragment (to_codes cs)))
