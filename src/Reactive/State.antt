-- ===== src/Reactive/State.antt =====
-- The data of runtime.rs: `State`, `Kind`, `Link`, `Node` and `Runtime`.
-- A value of `Box<dyn Any>` is an element of `V`. A closure that the host hands to the runtime is a
-- `Prog`: the tree of the calls of the public interface that it makes, each followed by what the
-- closure does with the answer. A closure of type `()` returns some value that nobody reads.
use vue_rs.Base.{ℕ, Bool, Option, List}
use vue_rs.Reactive.Arena.{NodeId, Arena}

pub data Freshness : Type 0 where
  clean check dirty : Freshness

-- `TypeId` of a context, an index into the link pool, and the name of a captured `RefCell`.
abbrev pub TypeId : Type 0
TypeId = ℕ

abbrev pub LinkId : Type 0
LinkId = ℕ

abbrev pub CellId : Type 0
CellId = ℕ

pub data Flush : Type 0 where
  pre post synchronous : Flush

pub data Prog (V : Type 0) : Type 0 where
  ret : V → Prog V
  -- `x.with(f)`, and `x.get()` where `f` returns its argument
  read : NodeId → (V → Prog V) → (V → Prog V) → Prog V
  write : NodeId → V → Prog V → Prog V
  update_in_place : NodeId → (V → V) → Prog V → Prog V
  write_through : NodeId → V → Prog V → Prog V
  new_signal : Option (V → V → Bool) → V → (NodeId → Prog V) → Prog V
  new_memo : Option (V → V → Bool) → Prog V → (NodeId → Prog V) → Prog V
  new_writable : (V → V → Bool) → Prog V → (V → Prog V) → (NodeId → Prog V) → Prog V
  new_effect : Prog V → Prog V → Prog V
  watch_source : Bool → Flush → (V → V → Bool) → Prog V → (V → Option V → Prog V) → Prog V → Prog V
  batched : Prog V → (V → Prog V) → Prog V
  untracked : Prog V → (V → Prog V) → Prog V
  tick : Prog V → Prog V → Prog V
  post : Prog V → Prog V → Prog V
  cleanup : Prog V → Prog V → Prog V
  -- `create_root` and, with the flag, `create_root_detached`
  root_scope : Bool → Prog V → (NodeId → Prog V) → Prog V
  child_scope : Prog V → (V → Prog V) → Prog V
  new_scope : Bool → (NodeId → Prog V) → Prog V
  run_scope : NodeId → Prog V → (Option V → Prog V) → Prog V
  dispose : NodeId → Prog V → Prog V
  current_scope : (Option NodeId → Prog V) → Prog V
  scope_dispose : Prog V → Prog V → Prog V
  provide : TypeId → V → Prog V → Prog V
  inject : TypeId → (Option V → Prog V) → Prog V
  mounted : Prog V → Prog V → Prog V
  run_mounted : Prog V → Prog V
  set_scheduler : Prog V → Prog V → Prog V
  clear_scheduler : Prog V → Prog V
  jobs : Prog V → Prog V
  -- A captured `RefCell<Option<T>>`, and an effect on the host (a DOM write, a print).
  new_cell : (CellId → Prog V) → Prog V
  cell_take : CellId → (Option V → Prog V) → Prog V
  cell_put : CellId → V → Prog V → Prog V
  host : V → Prog V → Prog V
  -- A call of another closure.
  call : Prog V → (V → Prog V) → Prog V

pub data Kind (V : Type 0) : Type 0 where
  signal : Kind V
  computed : Option (Prog V) → Kind V
  effect : Option (Prog V) → Bool → Kind V
  root : Kind V

pub record Link : Type 0 where
  pub dep : NodeId
  pub sub : NodeId
  pub prev_dep : Option LinkId
  pub next_dep : Option LinkId
  pub prev_sub : Option LinkId
  pub next_sub : Option LinkId

pub record Node (V : Type 0) : Type 0 where
  pub value : Option V
  pub state : Freshness
  pub deps : Option LinkId
  pub deps_tail : Option LinkId
  pub subs : Option LinkId
  pub subs_tail : Option LinkId
  pub owner : Option NodeId
  pub owned : List NodeId
  pub cleanups : List (Prog V)
  pub contexts : List (TypeId × V)
  pub eq : Option (V → V → Bool)
  pub setter : Option (V → Prog V)
  pub kind : Kind V

-- `RT`, with the counters as unbounded numbers. The last three fields are not in `Runtime`: the
-- thread-local `MOUNTED`, the captured cells, and the effects on the host so far, newest first.
pub record Runtime (V : Type 0) : Type 0 where
  pub nodes : Arena (Node V)
  pub links : List (Option Link)
  pub free_links : List LinkId
  pub observer : Option NodeId
  pub owner : Option NodeId
  pub batch_depth : ℕ
  pub pending : List NodeId
  pub sync_pending : List NodeId
  pub flushing : Bool
  pub reading_depth : ℕ
  pub post_flush : List (Prog V)
  pub scheduler : Option (Prog V)
  pub flush_scheduled : Bool
  pub mounted_queue : List (Prog V)
  pub cells : List (Option V)
  pub log : List V
