-- ===== src/Stack/Memory.antt =====
-- include/amino/stack.h: the memory that the threads share, and where a thread stands.
use amino.Prelude.{ℕ, List}

-- What a node is used for. The program does not store this: each step that hands a node on says so.
-- `free` is the allocator's, `fresh t` is being pushed by thread t, `linked` stands in the stack,
-- `taken t` was popped by thread t, `retired t` waits in the retired list of thread t.
pub data Owner : Type 0 where
  free : Owner
  fresh : ℕ → Owner
  linked : Owner
  taken : ℕ → Owner
  retired : ℕ → Owner

-- A node is named by its address, and 0 is NULL. `hp t` is the hazard pointer of thread t (K = 1).
pub record Memory : Type 0 where
  pub top : ℕ
  pub value : ℕ → ℕ  -- StackNode::data
  pub next : ℕ → ℕ  -- StackNode::next
  pub hp : ℕ → ℕ
  pub owner : ℕ → Owner

-- Where a thread stands, with its live locals. `old` and `new` are oldTop and newTop. The last
-- argument `v` of a constructor that has one is no local: it records the value that the operation
-- took effect with, to be compared with the value `r` that is read later.
pub data Pc : Type 0 where
  idle : Pc
  push_load : (d node : ℕ) → Pc
  push_link : (d node old : ℕ) → Pc
  push_cas : (d node old : ℕ) → Pc
  pop_load : Pc
  pop_employ : (old : ℕ) → Pc
  pop_check : (old : ℕ) → Pc
  pop_next : (old : ℕ) → Pc
  pop_cas : (old new : ℕ) → Pc
  pop_retire : (old v : ℕ) → Pc
  pop_read : (old v : ℕ) → Pc
  pop_delete : (old r v : ℕ) → Pc
  scan_hp : (r v k : ℕ) → List ℕ → Pc  -- k hazard pointers are copied to plist
  scan_free : (r v : ℕ) → List ℕ → Pc
  pop_return : (r v : ℕ) → Pc
  peek_load : Pc
  peek_employ : (old : ℕ) → Pc
  peek_check : (old : ℕ) → Pc
  peek_read : (old v : ℕ) → Pc
  peek_retire : (r v : ℕ) → Pc
  peek_return : (r v : ℕ) → Pc

-- What a step does to the stack as its users see it.
pub data Event : Type 0 where
  silent : Event
  pushed : ℕ → Event
  popped : ℕ → Event
  peeked : ℕ → Event
  found_empty : Event
