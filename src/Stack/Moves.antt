-- ===== src/Stack/Moves.antt =====
-- include/amino/stack.h, include/amino/smr.h: one step of thread `t`, in each operation.
use amino.Prelude.{
  ℕ, suc, ◌≡◌, ◌≢◌, ◌<◌, ◌≤◌, false, List, [], ◌∷◌, ◌==◌, if◌then◌else◌, update, contains,
}
use amino.Stack.Memory.{
  free, fresh, linked, taken, retired, Memory, Pc, idle, push_load, push_link, push_cas, pop_load,
  pop_employ, pop_check, pop_next, pop_cas, pop_retire, pop_read, pop_delete, scan_hp, scan_free,
  pop_return, peek_load, peek_employ, peek_check, peek_read, peek_retire, peek_return, Event,
  silent, pushed, popped, peeked, found_empty,
}

-- `LockFreeStack::push`. The allocator may hand out any node that it owns; the constructor and
-- the write of the data touch that node alone and belong to the first step.
pub data PushMove (t : ℕ) (m : Memory) : Pc → Event → Memory → Pc → Type 0 where
  alloc :
      (d node : ℕ)
      → node ≢ 0
      → m.owner node ≡ free
      → PushMove t m idle silent
          (record m {
            value = update m.value node d;
            next = update m.next node 0;
            owner = update m.owner node (fresh t);
          })
          (push_load d node)
  load_top : {d node : ℕ} → PushMove t m (push_load d node) silent m (push_link d node m.top)
  link :
      {d node old : ℕ}
      → PushMove t m
          (push_link d node old)
          silent
          (record m { next = update m.next node old })
          (push_cas d node old)
  cas_win :
      {d node old : ℕ}
      → m.top ≡ old
      → PushMove t m
          (push_cas d node old)
          (pushed d)
          (record m { top = node; owner = update m.owner node linked })
          idle
  cas_lose :
      {d node old : ℕ}
      → m.top ≢ old
      → PushMove t m (push_cas d node old) silent m (push_load d node)

-- `LockFreeStack::pop`, up to its call of `delNode`. An empty stack leaves the hazard pointer set.
pub data PopMove (t : ℕ) (m : Memory) : Pc → Event → Memory → Pc → Type 0 where
  call : PopMove t m idle silent m pop_load
  load_null : m.top ≡ 0 → PopMove t m pop_load found_empty m idle
  load_top : m.top ≢ 0 → PopMove t m pop_load silent m (pop_employ m.top)
  employ :
      {old : ℕ}
      → PopMove t m (pop_employ old) silent (record m { hp = update m.hp t old }) (pop_check old)
  changed : {old : ℕ} → m.top ≢ old → PopMove t m (pop_check old) silent m pop_load
  checked : {old : ℕ} → m.top ≡ old → PopMove t m (pop_check old) silent m (pop_next old)
  load_next : {old : ℕ} → PopMove t m (pop_next old) silent m (pop_cas old (m.next old))
  cas_win :
      {old new : ℕ}
      → m.top ≡ old
      → PopMove t m
          (pop_cas old new)
          (popped (m.value old))
          (record m { top = new; owner = update m.owner old (taken t) })
          (pop_retire old (m.value old))
  cas_lose : {old new : ℕ} → m.top ≢ old → PopMove t m (pop_cas old new) silent m pop_load
  retire :
      {old v : ℕ}
      → PopMove t m (pop_retire old v) silent (record m { hp = update m.hp t 0 }) (pop_read old v)
  read : {old v : ℕ} → PopMove t m (pop_read old v) silent m (pop_delete old (m.value old) v)
  answer : {r v : ℕ} → PopMove t m (pop_return r v) silent m idle

-- `SMR::delNode` and `SMR::scan` in a pop of thread `t`, among the hazard pointers of `n` threads.
-- Whether the retired list is long enough to be scanned, and the order in which its nodes are
-- looked up in plist, are left open.
pub data ReclaimMove (n t : ℕ) (m : Memory) : Pc → Event → Memory → Pc → Type 0 where
  keep :
      {old r v : ℕ}
      → ReclaimMove n t m
          (pop_delete old r v)
          silent
          (record m { owner = update m.owner old (retired t) })
          (pop_return r v)
  scan :
      {old r v : ℕ}
      → ReclaimMove n t m
          (pop_delete old r v)
          silent
          (record m { owner = update m.owner old (retired t) })
          (scan_hp r v 0 [])
  copy_hp :
      {r v k : ℕ} {plist : List ℕ}
      → k < n
      → ReclaimMove n t m
          (scan_hp r v k plist)
          silent
          m
          (scan_hp r v (suc k) (if m.hp k == 0 then plist else m.hp k ∷ plist))
  copied :
      {r v k : ℕ} {plist : List ℕ}
      → n ≤ k
      → ReclaimMove n t m (scan_hp r v k plist) silent m (scan_free r v plist)
  release :
      {r v : ℕ} {plist : List ℕ} (a : ℕ)
      → m.owner a ≡ retired t
      → contains a plist ≡ false
      → ReclaimMove n t m
          (scan_free r v plist)
          silent
          (record m { owner = update m.owner a free })
          (scan_free r v plist)
  finish :
      {r v : ℕ} {plist : List ℕ} → ReclaimMove n t m (scan_free r v plist) silent m (pop_return r v)

-- `LockFreeStack::peekTop`. It takes effect at the second load of `top`.
pub data PeekMove (t : ℕ) (m : Memory) : Pc → Event → Memory → Pc → Type 0 where
  call : PeekMove t m idle silent m peek_load
  load_null : m.top ≡ 0 → PeekMove t m peek_load found_empty m idle
  load_top : m.top ≢ 0 → PeekMove t m peek_load silent m (peek_employ m.top)
  employ :
      {old : ℕ}
      → PeekMove t m (peek_employ old) silent (record m { hp = update m.hp t old }) (peek_check old)
  changed : {old : ℕ} → m.top ≢ old → PeekMove t m (peek_check old) silent m peek_load
  checked :
      {old : ℕ}
      → m.top ≡ old
      → PeekMove t m (peek_check old) (peeked (m.value old)) m (peek_read old (m.value old))
  read : {old v : ℕ} → PeekMove t m (peek_read old v) silent m (peek_retire (m.value old) v)
  retire :
      {r v : ℕ}
      → PeekMove t m (peek_retire r v) silent (record m { hp = update m.hp t 0 }) (peek_return r v)
  answer : {r v : ℕ} → PeekMove t m (peek_return r v) silent m idle

pub data Move (n t : ℕ) (m : Memory) : Pc → Event → Memory → Pc → Type 0 where
  push : {p p' : Pc} {e : Event} {m' : Memory} → PushMove t m p e m' p' → Move n t m p e m' p'
  pop : {p p' : Pc} {e : Event} {m' : Memory} → PopMove t m p e m' p' → Move n t m p e m' p'
  reclaim :
      {p p' : Pc} {e : Event} {m' : Memory} → ReclaimMove n t m p e m' p' → Move n t m p e m' p'
  peek : {p p' : Pc} {e : Event} {m' : Memory} → PeekMove t m p e m' p' → Move n t m p e m' p'
