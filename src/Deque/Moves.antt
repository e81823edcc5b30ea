-- ===== src/Deque/Moves.antt =====
-- include/amino/deque.h: one step of thread `t`, in each operation. `e` is the end that the call works on:
-- `pushRight`, `popRight` and `stabilizeRight` are those at the right end. The hazard pointers, which only tell the
-- allocator what to keep, and `delNode` are left out: a node is not given out again. `copyTo` reads both
-- words of the anchor at once.
use amino.Prelude.{ℕ, ◌+◌, ◌≡◌, ◌≢◌, update}
use amino.Blocking.{End, Event, silent, added, removed, found_empty}
use amino.Deque.Memory.{
  opp, stable, pushing, Anchor, end_of, anchor_of, free, fresh, pushed, Memory, link, set_link,
  After, done, push, pop, Pc, idle, push_load, push_first, push_link, push_cas, pop_load, pop_one,
  pop_one_cas, pop_left, pop_right, pop_check, pop_prev, pop_recheck, pop_cas, pop_read, pop_return,
  stab_left, stab_right, stab_check, stab_prev, stab_end, stab_recheck, stab_next, stab_again,
  stab_fix, stab_cas, resume,
}

-- `pushRight` and `pushLeft`. The allocator may hand out any node that it owns; the constructor and the write
-- of the data belong to the first step.
pub data PushMove (t : ℕ) (m : Memory) : Pc → Event → Memory → Pc → Type 0 where
  alloc :
      (e : End) (d node : ℕ)
      → node ≢ 0
      → m.owner node ≡ free
      → PushMove t m idle silent
          (record m {
            value = update m.value node d;
            to_left = update m.to_left node 0;
            to_right = update m.to_right node 0;
            owner = update m.owner node (fresh t);
          })
          (push_load e d node)
  load_empty :
      {e : End} {d node : ℕ}
      → end_of e m.anchor ≡ 0
      → PushMove t m (push_load e d node) silent m (push_first e d node m.anchor)
  load_stable :
      {e : End} {d node : ℕ}
      → end_of e m.anchor ≢ 0
      → m.anchor.status ≡ stable
      → PushMove t m (push_load e d node) silent m (push_link e d node m.anchor)
  load_unstable :
      {e : End} {d node : ℕ} (e' : End)
      → end_of e m.anchor ≢ 0
      → m.anchor.status ≡ pushing e'
      → PushMove t m (push_load e d node) silent m (stab_left e' m.anchor (push e d node))
  first_win :
      {e : End} {d node : ℕ} {old : Anchor}
      → m.anchor ≡ old
      → PushMove t m
          (push_first e d node old)
          (added e d)
          (record m {
            anchor = anchor_of e node node stable;
            owner = update m.owner node (pushed m.pushes);
            pushes = m.pushes + 1;
          })
          idle
  first_lose :
      {e : End} {d node : ℕ} {old : Anchor}
      → m.anchor ≢ old
      → PushMove t m (push_first e d node old) silent m (push_load e d node)
  store_link :
      {e : End} {d node : ℕ} {old : Anchor}
      → PushMove t m
          (push_link e d node old)
          silent
          (set_link (opp e) node (end_of e old) m)
          (push_cas e d node old)
  cas_win :
      {e : End} {d node : ℕ} {old : Anchor}
      → m.anchor ≡ old
      → PushMove t m
          (push_cas e d node old)
          (added e d)
          (record m {
            anchor = anchor_of e node (end_of (opp e) old) (pushing e);
            owner = update m.owner node (pushed m.pushes);
            pushes = m.pushes + 1;
          })
          (stab_left e (anchor_of e node (end_of (opp e) old) (pushing e)) done)
  cas_lose :
      {e : End} {d node : ℕ} {old : Anchor}
      → m.anchor ≢ old
      → PushMove t m (push_cas e d node old) silent m (push_load e d node)

-- `popRight` and `popLeft`. Both test the right pointer for the empty deque, and again in `pop_recheck`.
pub data PopMove (t : ℕ) (m : Memory) : Pc → Event → Memory → Pc → Type 0 where
  call : (e : End) → PopMove t m idle silent m (pop_load e)
  load_empty : {e : End} → m.anchor.at_right ≡ 0 → PopMove t m (pop_load e) (found_empty e) m idle
  load_one :
      {e : End}
      → m.anchor.at_right ≢ 0
      → m.anchor.at_left ≡ m.anchor.at_right
      → PopMove t m (pop_load e) silent m (pop_one e m.anchor)
  load_stable :
      {e : End}
      → m.anchor.at_right ≢ 0
      → m.anchor.at_left ≢ m.anchor.at_right
      → m.anchor.status ≡ stable
      → PopMove t m (pop_load e) silent m (pop_left e m.anchor)
  load_unstable :
      {e : End} (e' : End)
      → m.anchor.at_right ≢ 0
      → m.anchor.at_left ≢ m.anchor.at_right
      → m.anchor.status ≡ pushing e'
      → PopMove t m (pop_load e) silent m (stab_left e' m.anchor (pop e))
  one_stays :
      {e : End} {old : Anchor}
      → end_of e m.anchor ≡ end_of e old
      → PopMove t m (pop_one e old) silent m (pop_one_cas e old)
  one_moved :
      {e : End} {old : Anchor}
      → end_of e m.anchor ≢ end_of e old
      → PopMove t m (pop_one e old) silent m (pop_load e)
  one_win :
      {e : End} {old : Anchor}
      → m.anchor ≡ old
      → PopMove t m
          (pop_one_cas e old)
          (removed e (m.value (end_of e old)))
          (record m { anchor = anchor_of e 0 0 old.status })
          (pop_read (end_of e old) (m.value (end_of e old)))
  one_lose :
      {e : End} {old : Anchor}
      → m.anchor ≢ old
      → PopMove t m (pop_one_cas e old) silent m (pop_load e)
  left_stays :
      {e : End} {old : Anchor}
      → m.anchor.at_left ≡ old.at_left
      → PopMove t m (pop_left e old) silent m (pop_right e old)
  left_moved :
      {e : End} {old : Anchor}
      → m.anchor.at_left ≢ old.at_left
      → PopMove t m (pop_left e old) silent m (pop_load e)
  right_stays :
      {e : End} {old : Anchor}
      → m.anchor.at_right ≡ old.at_right
      → PopMove t m (pop_right e old) silent m (pop_check e old)
  right_moved :
      {e : End} {old : Anchor}
      → m.anchor.at_right ≢ old.at_right
      → PopMove t m (pop_right e old) silent m (pop_load e)
  check_same :
      {e : End} {old : Anchor}
      → m.anchor ≡ old
      → PopMove t m (pop_check e old) silent m (pop_prev e old)
  check_changed :
      {e : End} {old : Anchor}
      → m.anchor ≢ old
      → PopMove t m (pop_check e old) silent m (pop_load e)
  load_prev :
      {e : End} {old : Anchor}
      → PopMove t m (pop_prev e old) silent m (pop_recheck e old (link (opp e) m (end_of e old)))
  prev_stays :
      {e : End} {old : Anchor} {prev : ℕ}
      → m.anchor.at_right ≡ old.at_right
      → PopMove t m (pop_recheck e old prev) silent m (pop_cas e old prev)
  prev_moved :
      {e : End} {old : Anchor} {prev : ℕ}
      → m.anchor.at_right ≢ old.at_right
      → PopMove t m (pop_recheck e old prev) silent m (pop_load e)
  cas_win :
      {e : End} {old : Anchor} {prev : ℕ}
      → m.anchor ≡ old
      → PopMove t m
          (pop_cas e old prev)
          (removed e (m.value (end_of e old)))
          (record m { anchor = anchor_of e prev (end_of (opp e) old) old.status })
          (pop_read (end_of e old) (m.value (end_of e old)))
  cas_lose :
      {e : End} {old : Anchor} {prev : ℕ}
      → m.anchor ≢ old
      → PopMove t m (pop_cas e old prev) silent m (pop_load e)
  read : {x v : ℕ} → PopMove t m (pop_read x v) silent m (pop_return (m.value x) v)
  answer : {r v : ℕ} → PopMove t m (pop_return r v) silent m idle

-- `stabilizeRight` and `stabilizeLeft`, for the anchor `a` that was found pushing at end `e`.
pub data StabilizeMove (t : ℕ) (m : Memory) : Pc → Event → Memory → Pc → Type 0 where
  left_stays :
      {e : End} {a : Anchor} {k : After}
      → m.anchor.at_left ≡ a.at_left
      → StabilizeMove t m (stab_left e a k) silent m (stab_right e a k)
  left_moved :
      {e : End} {a : Anchor} {k : After}
      → m.anchor.at_left ≢ a.at_left
      → StabilizeMove t m (stab_left e a k) silent m (resume k)
  right_stays :
      {e : End} {a : Anchor} {k : After}
      → m.anchor.at_right ≡ a.at_right
      → StabilizeMove t m (stab_right e a k) silent m (stab_check e a k)
  right_moved :
      {e : End} {a : Anchor} {k : After}
      → m.anchor.at_right ≢ a.at_right
      → StabilizeMove t m (stab_right e a k) silent m (resume k)
  check_same :
      {e : End} {a : Anchor} {k : After}
      → m.anchor ≡ a
      → StabilizeMove t m (stab_check e a k) silent m (stab_prev e a k)
  check_changed :
      {e : End} {a : Anchor} {k : After}
      → m.anchor ≢ a
      → StabilizeMove t m (stab_check e a k) silent m (resume k)
  load_prev :
      {e : End} {a : Anchor} {k : After}
      → StabilizeMove t m (stab_prev e a k) silent m (stab_end e a (link (opp e) m (end_of e a)) k)
  end_stays :
      {e : End} {a : Anchor} {prev : ℕ} {k : After}
      → end_of e m.anchor ≡ end_of e a
      → StabilizeMove t m (stab_end e a prev k) silent m (stab_recheck e a prev k)
  end_moved :
      {e : End} {a : Anchor} {prev : ℕ} {k : After}
      → end_of e m.anchor ≢ end_of e a
      → StabilizeMove t m (stab_end e a prev k) silent m (resume k)
  recheck_same :
      {e : End} {a : Anchor} {prev : ℕ} {k : After}
      → m.anchor ≡ a
      → StabilizeMove t m (stab_recheck e a prev k) silent m (stab_next e a prev k)
  recheck_changed :
      {e : End} {a : Anchor} {prev : ℕ} {k : After}
      → m.anchor ≢ a
      → StabilizeMove t m (stab_recheck e a prev k) silent m (resume k)
  next_right :
      {e : End} {a : Anchor} {prev : ℕ} {k : After}
      → link e m prev ≡ end_of e a
      → StabilizeMove t m (stab_next e a prev k) silent m (stab_cas e a k)
  next_wrong :
      {e : End} {a : Anchor} {prev : ℕ} {k : After}
      → link e m prev ≢ end_of e a
      → StabilizeMove t m (stab_next e a prev k) silent m (stab_again e a prev (link e m prev) k)
  again_same :
      {e : End} {a : Anchor} {prev next : ℕ} {k : After}
      → m.anchor ≡ a
      → StabilizeMove t m (stab_again e a prev next k) silent m (stab_fix e a prev next k)
  again_changed :
      {e : End} {a : Anchor} {prev next : ℕ} {k : After}
      → m.anchor ≢ a
      → StabilizeMove t m (stab_again e a prev next k) silent m (resume k)
  fix_win :
      {e : End} {a : Anchor} {prev next : ℕ} {k : After}
      → link e m prev ≡ next
      → StabilizeMove t m
          (stab_fix e a prev next k)
          silent
          (set_link e prev (end_of e a) m)
          (stab_cas e a k)
  fix_lose :
      {e : End} {a : Anchor} {prev next : ℕ} {k : After}
      → link e m prev ≢ next
      → StabilizeMove t m (stab_fix e a prev next k) silent m (resume k)
  cas_win :
      {e : End} {a : Anchor} {k : After}
      → m.anchor ≡ a
      → StabilizeMove t m
          (stab_cas e a k)
          silent
          (record m { anchor = record a { status = stable } })
          (resume k)
  cas_lose :
      {e : End} {a : Anchor} {k : After}
      → m.anchor ≢ a
      → StabilizeMove t m (stab_cas e a k) silent m (resume k)

pub data Move (t : ℕ) (m : Memory) : Pc → Event → Memory → Pc → Type 0 where
  pushes : {p p' : Pc} {e : Event} {m' : Memory} → PushMove t m p e m' p' → Move t m p e m' p'
  pops : {p p' : Pc} {e : Event} {m' : Memory} → PopMove t m p e m' p' → Move t m p e m' p'
  stabilizes :
      {p p' : Pc} {e : Event} {m' : Memory} → StabilizeMove t m p e m' p' → Move t m p e m' p'
