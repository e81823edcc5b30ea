-- ===== src/Queue/Moves.antt =====
-- include/amino/queue.h: one step of thread `t`, in each operation. The hazard pointers, which only tell the
-- allocator what to keep, and `delNode` are no steps here: System.antt lets the allocator take back any removed node
-- at any time, and the theorems say which nodes it must not take.
use amino.Prelude.{ℕ, ◌≡◌, ◌≢◌, update}
use amino.Queue.Memory.{
  free, fresh, linked, removed, Memory, Pc, idle, enq_load, enq_check, enq_next, enq_recheck,
  enq_help, enq_cas, enq_swing, deq_load, deq_check, deq_next, deq_recheck, deq_tail, deq_help,
  deq_data, deq_cas, Event, silent, enqueued, dequeued, found_empty,
}

-- `enqueue`. The allocator may hand out any node that it owns; the constructor and the write of the data
-- touch that node alone and belong to the first step.
pub data EnqueueMove (t : ℕ) (m : Memory) : Pc → Event → Memory → Pc → Type 0 where
  alloc :
      (d node : ℕ)
      → node ≢ 0
      → m.owner node ≡ free
      → EnqueueMove t m idle silent
          (record m {
            value = update m.value node d;
            next = update m.next node 0;
            owner = update m.owner node (fresh t);
          })
          (enq_load d node)
  load_tail : {d node : ℕ} → EnqueueMove t m (enq_load d node) silent m (enq_check d node m.tail)
  changed :
      {d node pt : ℕ}
      → m.tail ≢ pt
      → EnqueueMove t m (enq_check d node pt) silent m (enq_load d node)
  checked :
      {d node pt : ℕ}
      → m.tail ≡ pt
      → EnqueueMove t m (enq_check d node pt) silent m (enq_next d node pt)
  load_next :
      {d node pt : ℕ}
      → EnqueueMove t m (enq_next d node pt) silent m (enq_recheck d node pt (m.next pt))
  moved :
      {d node pt nx : ℕ}
      → m.tail ≢ pt
      → EnqueueMove t m (enq_recheck d node pt nx) silent m (enq_load d node)
  behind :
      {d node pt nx : ℕ}
      → m.tail ≡ pt
      → nx ≢ 0
      → EnqueueMove t m (enq_recheck d node pt nx) silent m (enq_help d node pt nx)
  at_end :
      {d node pt : ℕ}
      → m.tail ≡ pt
      → EnqueueMove t m (enq_recheck d node pt 0) silent m (enq_cas d node pt)
  help_win :
      {d node pt nx : ℕ}
      → m.tail ≡ pt
      → EnqueueMove t m (enq_help d node pt nx) silent (record m { tail = nx }) (enq_load d node)
  help_lose :
      {d node pt nx : ℕ}
      → m.tail ≢ pt
      → EnqueueMove t m (enq_help d node pt nx) silent m (enq_load d node)
  cas_win :
      {d node pt : ℕ}
      → m.next pt ≡ 0
      → EnqueueMove t m
          (enq_cas d node pt)
          (enqueued d)
          (record m { next = update m.next pt node; owner = update m.owner node linked })
          (enq_swing node pt)
  cas_lose :
      {d node pt : ℕ}
      → m.next pt ≢ 0
      → EnqueueMove t m (enq_cas d node pt) silent m (enq_load d node)
  swing_win :
      {node pt : ℕ}
      → m.tail ≡ pt
      → EnqueueMove t m (enq_swing node pt) silent (record m { tail = node }) idle
  swing_lose : {node pt : ℕ} → m.tail ≢ pt → EnqueueMove t m (enq_swing node pt) silent m idle

-- `dequeue`. It finds the queue empty when it reads NULL from the `next` of the head.
pub data DequeueMove (t : ℕ) (m : Memory) : Pc → Event → Memory → Pc → Type 0 where
  call : DequeueMove t m idle silent m deq_load
  load_head : DequeueMove t m deq_load silent m (deq_check m.head)
  changed : {ph : ℕ} → m.head ≢ ph → DequeueMove t m (deq_check ph) silent m deq_load
  checked : {ph : ℕ} → m.head ≡ ph → DequeueMove t m (deq_check ph) silent m (deq_next ph)
  load_null : {ph : ℕ} → m.next ph ≡ 0 → DequeueMove t m (deq_next ph) found_empty m idle
  load_next :
      {ph : ℕ} → m.next ph ≢ 0 → DequeueMove t m (deq_next ph) silent m (deq_recheck ph (m.next ph))
  moved : {ph nx : ℕ} → m.head ≢ ph → DequeueMove t m (deq_recheck ph nx) silent m deq_load
  stayed : {ph nx : ℕ} → m.head ≡ ph → DequeueMove t m (deq_recheck ph nx) silent m (deq_tail ph nx)
  tail_behind :
      {ph nx : ℕ} → m.tail ≡ ph → DequeueMove t m (deq_tail ph nx) silent m (deq_help ph nx)
  tail_ahead :
      {ph nx : ℕ} → m.tail ≢ ph → DequeueMove t m (deq_tail ph nx) silent m (deq_data ph nx)
  help_win :
      {ph nx : ℕ}
      → m.tail ≡ ph
      → DequeueMove t m (deq_help ph nx) silent (record m { tail = nx }) deq_load
  help_lose : {ph nx : ℕ} → m.tail ≢ ph → DequeueMove t m (deq_help ph nx) silent m deq_load
  read : {ph nx : ℕ} → DequeueMove t m (deq_data ph nx) silent m (deq_cas ph nx (m.value nx))
  cas_win :
      {ph nx r : ℕ}
      → m.head ≡ ph
      → DequeueMove t m
          (deq_cas ph nx r)
          (dequeued r)
          (record m { head = nx; owner = update m.owner ph removed })
          idle
  cas_lose : {ph nx r : ℕ} → m.head ≢ ph → DequeueMove t m (deq_cas ph nx r) silent m deq_load

pub data Move (t : ℕ) (m : Memory) : Pc → Event → Memory → Pc → Type 0 where
  enqueue : {p p' : Pc} {e : Event} {m' : Memory} → EnqueueMove t m p e m' p' → Move t m p e m' p'
  dequeue : {p p' : Pc} {e : Event} {m' : Memory} → DequeueMove t m p e m' p' → Move t m p e m' p'
