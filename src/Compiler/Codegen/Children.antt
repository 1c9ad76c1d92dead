-- ===== src/Compiler/Codegen/Children.antt =====
-- Children of an element and their control flow, `children`, `gen_if_chain`, `gen_dyn_component` and
-- `gen_for` of crates/vue-rs-compiler/src/codegen.rs. The calls of `element` and `build_element` are
-- the argument `rec`.
pub mod Runs
pub mod Arms
pub mod Select
use vue_rs.Base.{
  ℕ, zero, suc, ◌+◌, Bool, true, false, not, ◌&&◌, ◌||◌, Option, none, some, List, [], ◌∷◌, ◌++◌,
  if◌then◌else◌, maybe, is_some, length,
}
use vue_rs.Text.{Text, chars, same_text, trim}
use vue_rs.Compiler.Sfc.{find}
use vue_rs.Compiler.Template.Syntax.{Attr, Node, Nodes, element, static_text, dyn_text, nil, cons}
use vue_rs.Compiler.Codegen.Names.{strip_pair, split_once}
use vue_rs.Compiler.Codegen.Tokens.{Stream, Syn}
use vue_rs.Compiler.Codegen.Code.{
  Open, current_tag, Call, Selector, Code, Codes, Part, call, child, dyn_switch, dyn_for,
  dyn_for_indexed, dyn_element, Parts, else_if_alone, else_alone, for_without_key, for_syntax,
  for_tuple, invalid_for_item, invalid_for_index, invalid_for_binding, Result, require, to_codes,
}
use vue_rs.Compiler.Codegen.Code
use vue_rs.Compiler.Codegen.Styles.{parse_expr}
use vue_rs.Compiler.Codegen.Attrs.{is, find_static, find_dyn}
use vue_rs.Compiler.Codegen.Monad.{M, ◌>>=◌, ◌>>◌, pure, fail, lift, Element}

-- What is generated from an element: `element(el)`, or `build_element(el, open, ignore)`.
pub data Job : Type 0 where
  whole : Element → Job
  built : Element → Open → Option Text → Job

-- The size of the nodes, which the fuel is taken from: an element counts twice.
unfoldable pub weight_nodes : Nodes → ℕ
weight_nodes nil = 0
weight_nodes (cons (element tag attrs nodes) ns) = suc (suc (weight_nodes nodes)) + weight_nodes ns
weight_nodes (cons (static_text t) ns) = weight_nodes ns
weight_nodes (cons (dyn_text t) ns) = weight_nodes ns

unfoldable pub weight : Job → ℕ
unfolding weight_nodes
weight (whole e) = suc (suc (weight_nodes e.children))
weight (built e tag ignore) = suc (weight_nodes e.children)

-- An arm of a chain, with its condition.
abbrev pub Arm : Type 0
Arm = Option Text × Element

-- The arms that follow a `v-if`.
unfoldable pub else_arms : Nodes → List Arm
unfolding find_static
else_arms nil = []
else_arms (cons (element tag attrs nodes) ns) =
    let more = else_arms ns in
    let el : Element = record { tag = tag; attrs = attrs; children = nodes } in
    elim (find_static attrs (chars "v-else-if")) [
      | some cond ↦ (some cond, el) ∷ more
      | none ↦ if is_some (find_static attrs (chars "v-else")) then (none, el) ∷ [] else []
    ]
else_arms (cons (static_text t) ns) = []
else_arms (cons (dyn_text t) ns) = []

-- What the loop of `gen_if_chain` gathers.
pub record Switch : Type 0 where
  pub arms : List (Stream × ℕ)
  pub tail : Option ℕ
  pub views : List Code

abbrev pub has : List Attr → Text → Bool
has attrs name = is_some (find_static attrs name)

module _ (syn : Syn) where
  -- The condition of the arm `i`, behind its view.
  unfoldable pub add_arm : Option Text → ℕ → Code → Switch → Result Switch
  unfolding parse_expr
  add_arm none i view s =
      Code.ok (record { arms = s.arms; tail = some i; views = s.views ++ view ∷ [] })
  add_arm (some cond) i view s = Code.◌>>=◌ (parse_expr syn cond) (λ c.
      Code.ok
        (record { arms = s.arms ++ (c, i) ∷ []; tail = s.tail; views = s.views ++ view ∷ [] }))

  unfoldable pub add_arms : (Job → M Code) → ℕ → List Arm → Switch → M Switch
  unfolding add_arm
  add_arms rec i [] s = pure s
  add_arms rec i ((cond, el) ∷ arms) s = do
    view ← rec (whole el)
    t ← lift (add_arm cond i view s)
    add_arms rec (suc i) arms t

  unfoldable pub gen_if_chain : (Job → M Code) → List Arm → M Part
  unfolding add_arms
  gen_if_chain rec arms = do
    s ← add_arms rec 0 arms (record { arms = []; tail = none; views = [] })
    pure (dyn_switch (record { arms = s.arms; tail = s.tail }) (to_codes s.views))

  unfoldable pub gen_dyn_component : (Job → M Code) → Element → Text → M Part
  unfolding parse_expr
  gen_dyn_component rec el expr = do
    e ← lift (parse_expr syn expr)
    code ← rec (built el current_tag (some (chars "is")))
    pure (dyn_element e code)

  unfoldable pub parse_index_binding : Text → Result (Option (Stream × Stream))
  unfolding strip_pair split_once trim
  parse_index_binding binding = elim (strip_pair b'(' b')' binding) [
    | none ↦ Code.ok none
    | some inner ↦ Code.◌>>=◌ (require (for_tuple binding) (split_once b',' inner)) (λ p.
        Code.◌>>=◌ (require (invalid_for_item binding) (syn.lex (trim p.0))) (λ item.
          Code.◌>>=◌ (require (invalid_for_index binding) (syn.lex (trim p.1)))
            (λ index. Code.ok (some (item, index)))))
  ]

  -- The two forms of the call, once the parts are known.
  unfoldable pub for_part : Text → Stream → Stream → Code → Option (Stream × Stream) → M Part
  for_part binding iterable key view (some (item, index)) =
      pure (dyn_for_indexed iterable item index key view)
  for_part binding iterable key view none = do
    b ← lift (require (invalid_for_binding binding) (syn.lex binding))
    pure (dyn_for iterable b key view)

  unfoldable pub gen_for : (Job → M Code) → Element → Text → M Part
  unfolding find trim parse_expr find_dyn parse_index_binding for_part
  gen_for rec el for_expr = do
    sides ← lift (require (for_syntax for_expr) (find (chars " in ") for_expr))
    let binding = trim sides.0
    iterable ← lift (parse_expr syn (trim sides.1))
    key_expr ← lift (require for_without_key (find_dyn el.attrs (chars "key")))
    key ← lift (parse_expr syn key_expr)
    view ← rec (whole el)
    form ← lift (parse_index_binding binding)
    for_part binding iterable key view form

  -- The part of a plain child, or of `<component :is>` with its expression.
  unfoldable pub child_part : (Job → M Code) → Element → Option Text → M Part
  unfolding gen_dyn_component
  child_part rec el (some expr) = gen_dyn_component rec el expr
  child_part rec el none = rec (whole el) >>= (λ code. pure (child code))

  -- The part of an element that is not `v-for`, given the nodes that follow it.
  unfoldable pub plain_part : (Job → M Code) → Element → M Part
  unfolding find_static find_dyn child_part same_text
  plain_part rec el =
      if has el.attrs (chars "v-else-if")
      then fail else_if_alone
      else if has el.attrs (chars "v-else")
      then fail else_alone
      else child_part rec el
          (if is "component" el.tag then find_dyn el.attrs (chars "is") else none)

  unfoldable pub element_part : (Job → M Code) → Element → Nodes → M Part
  unfolding find_static gen_for gen_if_chain else_arms plain_part
  element_part rec el ns = elim (find_static el.attrs (chars "v-for")) [
    | some for_expr ↦ gen_for rec el for_expr
    | none ↦ elim (find_static el.attrs (chars "v-if")) [
      | some cond ↦ gen_if_chain rec ((some cond, el) ∷ else_arms ns)
      | none ↦ plain_part rec el
    ]
  ]

  -- One round of the loop of `children`, given the nodes that follow.
  unfoldable pub node_part : (Job → M Code) → Node → Nodes → M Part
  unfolding parse_expr element_part
  node_part rec (static_text t) ns = pure (call (Code.text t))
  node_part rec (dyn_text expr) ns =
      lift (parse_expr syn expr) >>= (λ e. pure (call (Code.dyn_text e)))
  node_part rec (element tag attrs nodes) ns =
      element_part rec (record { tag = tag; attrs = attrs; children = nodes }) ns

  -- How many of the nodes that follow belong to this one's chain.
  unfoldable pub taken : Node → Nodes → ℕ
  unfolding find_static else_arms
  taken (element tag attrs nodes) ns =
      if not (has attrs (chars "v-for")) && has attrs (chars "v-if")
      then length (else_arms ns)
      else 0
  taken (static_text t) ns = 0
  taken (dyn_text t) ns = 0

  -- The loop of `children`: the index `i`, which a chain moves on by more than one, is the number
  -- of nodes still to be passed over.
  unfoldable pub children : (Job → M Code) → ℕ → Nodes → M (List Part)
  unfolding node_part taken
  children rec k nil = pure []
  children rec (suc k) (cons n ns) = children rec k ns
  children rec zero (cons n ns) = do
    p ← node_part rec n ns
    ps ← children rec (taken n ns) ns
    pure (p ∷ ps)
