-- ===== src/Reactive/Restores.antt =====
-- What the calls of the runtime put back: the observer, the owner, and the two depth counters; and
-- what they keep of the arena and of the queues.
pub mod Links
pub mod Ownership
pub mod Propagation
pub mod Flush
pub mod Exec
use vue_rs.Base.{
  ℕ, zero, suc, ◌+◌, ◌-◌, ◌≡◌, refl, ◌∙◌, Bool, true, false, Option, none, some, List, [], ◌∷◌,
  arith, if◌then◌else◌, maybe, ◌||◌, ◌++◌, Bool-cases, inl, inr, rest,
}
use vue_rs.Reactive.Arena.{NodeId, same_id, Arena, modify}
use vue_rs.Reactive.Arena.Laws.{IsSound, modify-IsSound}
use vue_rs.Reactive.Links.{modify_node}
use vue_rs.Reactive.Propagation.{queued, push_once}
use vue_rs.Reactive.State.{Prog, Node, Runtime}
use vue_rs.Reactive.Monad.{
  Run, ok, panic, starved, M, pure, ◌>>=◌, ◌>>◌, crash, starve, gets, modify_rt, expect, skip,
  for_each, match_option, continue,
}

-- A queue holds no node twice.
abbrev pub Once : List NodeId → Type 0
Once [] = Unit
Once (x ∷ xs) = (queued x xs ≡ false) × Once xs

pub record Kept {V : Type 0} (s t : Runtime V) : Type 0 where
  pub observer : t.observer ≡ s.observer
  pub owner : t.owner ≡ s.owner
  pub batch_depth : t.batch_depth ≡ s.batch_depth
  pub reading_depth : t.reading_depth ≡ s.reading_depth
  pub sound : IsSound s.nodes → IsSound t.nodes
  pub pending : Once s.pending → Once t.pending
  pub sync_pending : Once s.sync_pending → Once t.sync_pending

-- If the run ends, it has put back what `Kept` names.
pub data Leaves {V A : Type 0} (s : Runtime V) : Run (Runtime V) A → Type 0 where
  returns : {a : A} {t : Runtime V} → Kept s t → Leaves s (ok a t)
  panics : Leaves s panic
  starves : Leaves s starved

pub record Restores {V A : Type 0} (m : M V A) : Type 0 where
  pub leaves : (s : Runtime V) → Leaves s (m s)

module _ {V : Type 0} where
  pub Kept-refl : (s : Runtime V) → Kept s s
  Kept-refl s = record {
    observer = refl;
    owner = refl;
    batch_depth = refl;
    reading_depth = refl;
    sound = λ h. h;
    pending = λ h. h;
    sync_pending = λ h. h;
  }

  pub Kept-trans : {s t u : Runtime V} → Kept s t → Kept t u → Kept s u
  Kept-trans p q = record {
    observer = q.observer ∙ p.observer;
    owner = q.owner ∙ p.owner;
    batch_depth = q.batch_depth ∙ p.batch_depth;
    reading_depth = q.reading_depth ∙ p.reading_depth;
    sound = λ h. q.sound (p.sound h);
    pending = λ h. q.pending (p.pending h);
    sync_pending = λ h. q.sync_pending (p.sync_pending h);
  }

  Leaves-trans :
      {A : Type 0} {s t : Runtime V} {r : Run (Runtime V) A} → Kept s t → Leaves t r → Leaves s r
  Leaves-trans p (returns q) = returns (Kept-trans p q)
  Leaves-trans p panics = panics
  Leaves-trans p starves = starves

  Leaves-continue :
      {A B : Type 0} {s : Runtime V} {r : Run (Runtime V) A} {f : A → M V B}
      → Leaves s r
      → ((a : A) → Restores (f a))
      → Leaves s (continue r (λ a t. f a t))
  Leaves-continue {f} (returns {a} {t} p) k = Leaves-trans p ((k a).leaves t)
  Leaves-continue panics k = panics
  Leaves-continue starves k = starves

  pub Restores-bind :
      {A B : Type 0} {m : M V A} {f : A → M V B}
      → Restores m
      → ((a : A) → Restores (f a))
      → Restores (m >>= f)
  Restores-bind h k = record { leaves = λ s. Leaves-continue (h.leaves s) k }

  pub Restores-then :
      {A B : Type 0} {m : M V A} {f : M V B} → Restores m → Restores f → Restores (m >> f)
  Restores-then h k = Restores-bind h (λ _. k)

  pub Restores-pure : {A : Type 0} (a : A) → Restores {V = V} (pure a)
  Restores-pure a = record { leaves = λ s. returns (Kept-refl s) }

  pub Restores-gets : {A : Type 0} (f : Runtime V → A) → Restores (gets f)
  Restores-gets f = record { leaves = λ s. returns (Kept-refl s) }

  -- A change of the other fields.
  pub Restores-modify :
      (f : Runtime V → Runtime V)
      → ((s : Runtime V) → (f s).observer ≡ s.observer)
      → ((s : Runtime V) → (f s).owner ≡ s.owner)
      → ((s : Runtime V) → (f s).batch_depth ≡ s.batch_depth)
      → ((s : Runtime V) → (f s).reading_depth ≡ s.reading_depth)
      → ((s : Runtime V) → (f s).nodes ≡ s.nodes)
      → ((s : Runtime V) → (f s).pending ≡ s.pending)
      → ((s : Runtime V) → (f s).sync_pending ≡ s.sync_pending)
      → Restores (modify_rt f)
  Restores-modify f o w b r n p q = record {
    leaves = λ s. returns (record {
      observer = o s;
      owner = w s;
      batch_depth = b s;
      reading_depth = r s;
      sound = λ h. rw (n s) h;
      pending = λ h. rw (p s) h;
      sync_pending = λ h. rw (q s) h;
    });
  }

  pub Restores-nodes :
      (f : Runtime V → Arena (Node V))
      → ((s : Runtime V) → IsSound s.nodes → IsSound (f s))
      → Restores (modify_rt λ s. record s { nodes = f s })
  Restores-nodes f h = record {
    leaves = λ s. returns (record {
      observer = refl;
      owner = refl;
      batch_depth = refl;
      reading_depth = refl;
      sound = h s;
      pending = λ h. h;
      sync_pending = λ h. h;
    });
  }

  pub Restores-pending :
      (f : Runtime V → List NodeId)
      → ((s : Runtime V) → Once s.pending → Once (f s))
      → Restores (modify_rt λ s. record s { pending = f s })
  Restores-pending f h = record {
    leaves = λ s. returns (record {
      observer = refl;
      owner = refl;
      batch_depth = refl;
      reading_depth = refl;
      sound = λ h. h;
      pending = h s;
      sync_pending = λ h. h;
    });
  }

  pub Restores-sync_pending :
      (f : Runtime V → List NodeId)
      → ((s : Runtime V) → Once s.sync_pending → Once (f s))
      → Restores (modify_rt λ s. record s { sync_pending = f s })
  Restores-sync_pending f h = record {
    leaves = λ s. returns (record {
      observer = refl;
      owner = refl;
      batch_depth = refl;
      reading_depth = refl;
      sound = λ h. h;
      pending = λ h. h;
      sync_pending = h s;
    });
  }

  pub Restores-modify_node : (id : NodeId) (f : Node V → Node V) → Restores (modify_node id f)
  Restores-modify_node id f =
      Restores-nodes (λ s. modify s.nodes id f) (λ s. modify-IsSound s.nodes id f)

  pub Restores-starve : {A : Type 0} → Restores {V = V} {A = A} starve
  Restores-starve = record { leaves = λ s. starves }

  pub Restores-expect : {A : Type 0} (o : Option A) → Restores {V = V} (expect o)
  Restores-expect none = record { leaves = λ s. panics }
  Restores-expect (some a) = Restores-pure a

  pub Restores-maybe :
      {A B : Type 0} {m : M V B} {f : A → M V B} (o : Option A)
      → Restores m
      → ((a : A) → Restores (f a))
      → Restores (match_option o m f)
  Restores-maybe none h k = h
  Restores-maybe (some a) h k = k a

  pub Restores-if :
      {A : Type 0} {m k : M V A} (b : Bool)
      → Restores m
      → Restores k
      → Restores (if b then m else k)
  Restores-if true h k = h
  Restores-if false h k = k

  pub Restores-for_each :
      {A B : Type 0} {f : A → M V B} (xs : List A)
      → ((a : A) → Restores (f a))
      → Restores (for_each f xs)
  Restores-for_each [] h = Restores-pure tt
  Restores-for_each (x ∷ xs) h = Restores-then (h x) (Restores-for_each xs h)

  Leaves-reset :
      {A : Type 0} {s t : Runtime V} {r : Run (Runtime V) A} (reset : Runtime V → Runtime V)
      → ((u : Runtime V) → Kept t u → Kept s (reset u))
      → Leaves t r
      → Leaves s (continue r λ a u. ok a (reset u))
  Leaves-reset reset h (returns {t} p) = returns (h t p)
  Leaves-reset reset h panics = panics
  Leaves-reset reset h starves = starves

  -- A body between a change of the scope and the change that undoes it.
  pub Restores-bracket :
      {A : Type 0} (enter : Runtime V → Runtime V) (reset : Runtime V → Runtime V → Runtime V)
      (body : M V A)
      → ((s u : Runtime V) → Kept (enter s) u → Kept s (reset s u))
      → Restores body
      → Restores (λ s. continue (body (enter s)) λ a u. ok a (reset s u))
  Restores-bracket enter reset body h b = record {
    leaves = λ s. Leaves-reset (reset s) (h s) (b.leaves (enter s));
  }

queued-append :
    (x id : NodeId) (ids : List NodeId) → queued x (ids ++ id ∷ []) ≡ (queued x ids || same_id x id)
queued-append x id [] = ground arith
queued-append x id (y ∷ ids) = ground (arith, queued-append x id ids)

Once-append :
    (id : NodeId) (ids : List NodeId) → Once ids → queued id ids ≡ false → Once (ids ++ id ∷ [])
Once-append id [] h k = (refl, tt)
Once-append id (x ∷ ids) h k =
    (ground (arith, queued-append x id ids), Once-append id ids h.1 (ground arith))

pub push_once-Once : (id : NodeId) (ids : List NodeId) → Once ids → Once (push_once id ids)
push_once-Once id ids h = elim (Bool-cases (queued id ids)) [
  | inl there ↦ rw there h
  | inr new ↦ rw new (Once-append id ids h new)
]

pub rest-Once : (ids : List NodeId) → Once ids → Once (rest ids)
rest-Once [] h = tt
rest-Once (x ∷ ids) h = h.1

pub ruleset restoring = (
  Restores-bind, Restores-then, Restores-pure, Restores-gets, Restores-modify, Restores-starve,
  Restores-expect, Restores-maybe, Restores-if, Restores-for_each, Restores-modify_node, refl,
)
