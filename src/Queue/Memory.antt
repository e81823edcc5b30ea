-- ===== src/Queue/Memory.antt =====
-- include/amino/queue.h: the memory that the threads share, and where a thread stands.
use amino.Prelude.{ℕ}

-- What a node is used for; the program does not store this. `free` is the allocator's, `fresh t` is being
-- filled by thread t, `linked` stands in the queue, the dummy node included, `removed` stood in it.
pub data Owner : Type 0 where
  free : Owner
  fresh : ℕ → Owner
  linked : Owner
  removed : Owner

-- A node is named by its address, and 0 is NULL.
pub record Memory : Type 0 where
  pub head : ℕ
  pub tail : ℕ
  pub value : ℕ → ℕ  -- Node::data
  pub next : ℕ → ℕ  -- Node::next
  pub owner : ℕ → Owner

-- Where a thread stands, with its live locals: `pt` and `nx` are pTail and pTailNext in an enqueue, `ph`
-- and `nx` are pHead and pHeadNext in a dequeue, `r` is what it read from the node.
pub data Pc : Type 0 where
  idle : Pc
  enq_load : (d node : ℕ) → Pc
  enq_check : (d node pt : ℕ) → Pc
  enq_next : (d node pt : ℕ) → Pc
  enq_recheck : (d node pt nx : ℕ) → Pc
  enq_help : (d node pt nx : ℕ) → Pc
  enq_cas : (d node pt : ℕ) → Pc
  enq_swing : (node pt : ℕ) → Pc
  deq_load : Pc
  deq_check : (ph : ℕ) → Pc
  deq_next : (ph : ℕ) → Pc
  deq_recheck : (ph nx : ℕ) → Pc
  deq_tail : (ph nx : ℕ) → Pc
  deq_help : (ph nx : ℕ) → Pc
  deq_data : (ph nx : ℕ) → Pc
  deq_cas : (ph nx r : ℕ) → Pc

-- What a step does to the queue as its users see it.
pub data Event : Type 0 where
  silent : Event
  enqueued : ℕ → Event
  dequeued : ℕ → Event
  found_empty : Event
  recycled : ℕ → Event
