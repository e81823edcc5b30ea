-- ===== src/Queue/System.antt =====
-- include/amino/queue.h: threads over one queue, interleaved in any order, and what they do to a list.
use amino.Prelude.{ℕ, ◌≡◌, ◌⊎◌, List, [], ◌∷◌, ◌++◌, update}
use amino.Queue.Memory.{
  Owner, removed, Memory, Pc, idle, enq_load, enq_check, enq_next, enq_recheck, enq_help, enq_cas,
  enq_swing, deq_load, deq_check, deq_next, deq_recheck, deq_tail, deq_help, deq_data, deq_cas,
  Event, silent, enqueued, dequeued, found_empty, recycled,
}
use amino.Queue.Moves.{Move}

pub record System : Type 0 where
  pub mem : Memory
  pub pc : ℕ → Pc

pub data Step (s : System) : Event → System → Type 0 where
  -- A step of thread `t`.
  pick :
      (t : ℕ) {e : Event} {m : Memory} {p : Pc}
      → Move t s.mem (s.pc t) e m p
      → Step s e (record { mem = m; pc = update s.pc t p })
  -- The allocator takes back a removed node, and may give it out again.
  recycle :
      (a : ℕ)
      → s.mem.owner a ≡ removed
      → Step s
          (recycled a)
          (record s { mem = record s.mem { owner = update s.mem.owner a Owner.free } })

-- The constructor, whose dummy node has the address `dummy`.
abbrev pub init : ℕ → System
init dummy = record {
  mem = record {
    head = dummy;
    tail = dummy;
    value = λ _. 0;
    next = λ _. 0;
    owner = update (λ _. Owner.free) dummy Owner.linked;
  };
  pc = λ _. idle;
}

-- An execution, with its latest event first.
pub data Run (dummy : ℕ) : List Event → System → Type 0 where
  start : Run dummy [] (init dummy)
  later :
      {es : List Event} {s s' : System} {e : Event}
      → Run dummy es s
      → Step s e s'
      → Run dummy (e ∷ es) s'

-- The node `a` is one whose address the thread compares or follows after it made sure that the node was still in
-- place: it must stay what it is as long as the thread stands there.
abbrev pub Uses : Pc → ℕ → Type 0
Uses idle a = ⊥
Uses (enq_load d node) a = ⊥
Uses (enq_check d node pt) a = ⊥
Uses (enq_next d node pt) a = a ≡ pt
Uses (enq_recheck d node pt nx) a = a ≡ pt
Uses (enq_help d node pt nx) a = a ≡ pt
Uses (enq_cas d node pt) a = a ≡ pt
Uses (enq_swing node pt) a = a ≡ pt
Uses deq_load a = ⊥
Uses (deq_check ph) a = ⊥
Uses (deq_next ph) a = a ≡ ph
Uses (deq_recheck ph nx) a = a ≡ ph
Uses (deq_tail ph nx) a = a ≡ ph
Uses (deq_help ph nx) a = a ≡ ph
Uses (deq_data ph nx) a = (a ≡ ph) ⊎ (a ≡ nx)
Uses (deq_cas ph nx r) a = (a ≡ ph) ⊎ (a ≡ nx)

-- A step that takes a node back does so while no thread uses the node.
abbrev pub IsGuarded : {s s' : System} {e : Event} → Step s e s' → Type 0
IsGuarded (pick t mv) = Unit
IsGuarded {s} (recycle a h) = (t : ℕ) → Uses (s.pc t) a → ⊥

abbrev pub AllGuarded : {dummy : ℕ} {es : List Event} {s : System} → Run dummy es s → Type 0
AllGuarded start = Unit
AllGuarded (later r st) = AllGuarded r × IsGuarded st

-- `Spec e q q'`: the event `e` takes a queue that holds `q`, first element first, to one that holds `q'`.
abbrev pub Spec : Event → List ℕ → List ℕ → Type 0
Spec silent q q' = q' ≡ q
Spec (enqueued d) q q' = q' ≡ q ++ d ∷ []
Spec (dequeued r) q q' = q ≡ r ∷ q'
Spec found_empty q q' = (q' ≡ q) × (q ≡ [])
Spec (recycled a) q q' = q' ≡ q

pub data SpecRun : List Event → List ℕ → Type 0 where
  empty : SpecRun [] []
  next :
      {es : List Event} {e : Event} {q q' : List ℕ}
      → SpecRun es q
      → Spec e q q'
      → SpecRun (e ∷ es) q'
