-- ===== src/Ordered/Moves.antt =====
-- include/amino/ordered_list.h: one step of thread `t`, in each operation. The hazard pointers, which only tell the
-- allocator what to keep, and `delNode` are no steps here: System.antt lets the allocator take back any unlinked node
-- at any time, and the theorems say which nodes it must not take. The data of a node that a thread uses does not
-- change, so it is read together with the check that follows.
use amino.Prelude.{ℕ, Bool, true, false, ◌≡◌, ◌≢◌, ◌<◌, update}
use amino.Ordered.Memory.{
  free, fresh, linked, unlinked, Memory, Points, Differs, Goal, inserting, removing, searching,
  cleaning, key_of, Event, silent, called, added, removed, Pc, idle, find_load, find_check, loop,
  reread, recheck, unlink, add_store, add_cas, remove_mark, remove_cut, on_found, found_event,
  on_missing, missing_event,
}

-- `find`, from the head on.
pub data FindMove (t : ℕ) (m : Memory) : Pc → Event → Memory → Pc → Type 0 where
  load : {g : Goal} → FindMove t m (find_load g) silent m (find_check g (m.next 0))
  head_same :
      {g : Goal} {cur : ℕ}
      → Points m 0 cur
      → FindMove t m (find_check g cur) silent m (loop g 0 cur)
  head_changed :
      {g : Goal} {cur : ℕ}
      → Differs m 0 cur
      → FindMove t m (find_check g cur) silent m (find_load g)
  at_end :
      {g : Goal} {prev cur : ℕ}
      → cur ≡ 0
      → FindMove t m (loop g prev cur) (missing_event t g) m (on_missing g prev cur)
  load_next :
      {g : Goal} {prev cur : ℕ}
      → cur ≢ 0
      → FindMove t m (loop g prev cur) silent m (reread g prev cur (m.next cur) (m.marked cur))
  next_same :
      {g : Goal} {prev cur next : ℕ} {cmark : Bool}
      → m.next cur ≡ next
      → m.marked cur ≡ cmark
      → FindMove t m (reread g prev cur next cmark) silent m (recheck g prev cur next cmark)
  next_changed :
      {g : Goal} {prev cur next : ℕ} {cmark : Bool}
      → ((m.next cur ≡ next) × (m.marked cur ≡ cmark) → ⊥)
      → FindMove t m (reread g prev cur next cmark) silent m (find_load g)
  prev_changed :
      {g : Goal} {prev cur next : ℕ} {cmark : Bool}
      → Differs m prev cur
      → FindMove t m (recheck g prev cur next cmark) silent m (find_load g)
  passes :
      {g : Goal} {prev cur next : ℕ} {cmark : Bool}
      → Points m prev cur
      → cmark ≡ false
      → m.key cur < key_of g
      → FindMove t m (recheck g prev cur next cmark) silent m (loop g cur next)
  finds :
      {g : Goal} {prev cur next : ℕ} {cmark : Bool}
      → Points m prev cur
      → cmark ≡ false
      → m.key cur ≡ key_of g
      → FindMove t m (recheck g prev cur next cmark) (found_event t g) m (on_found g prev cur next)
  beyond :
      {g : Goal} {prev cur next : ℕ} {cmark : Bool}
      → Points m prev cur
      → cmark ≡ false
      → key_of g < m.key cur
      → FindMove t m (recheck g prev cur next cmark) (missing_event t g) m (on_missing g prev cur)
  dead :
      {g : Goal} {prev cur next : ℕ} {cmark : Bool}
      → Points m prev cur
      → cmark ≡ true
      → FindMove t m (recheck g prev cur next cmark) silent m (unlink g prev cur next)
  unlink_win :
      {g : Goal} {prev cur next : ℕ}
      → Points m prev cur
      → FindMove t m
          (unlink g prev cur next)
          silent
          (record m { next = update m.next prev next; owner = update m.owner cur unlinked })
          (loop g prev next)
  unlink_lose :
      {g : Goal} {prev cur next : ℕ}
      → Differs m prev cur
      → FindMove t m (unlink g prev cur next) silent m (find_load g)

-- `add`. The allocator may hand out any node that it owns; the constructor belongs to the first step.
pub data AddMove (t : ℕ) (m : Memory) : Pc → Event → Memory → Pc → Type 0 where
  alloc :
      (d node : ℕ)
      → node ≢ 0
      → m.owner node ≡ free
      → AddMove t m idle
          (called t)
          (record m {
            key = update m.key node d;
            next = update m.next node 0;
            marked = update m.marked node false;
            owner = update m.owner node (fresh t);
          })
          (find_load (inserting d node))
  store :
      {d node prev cur : ℕ}
      → AddMove t m
          (add_store d node prev cur)
          silent
          (record m { next = update m.next node cur })
          (add_cas d node prev cur)
  cas_win :
      {d node prev cur : ℕ}
      → Points m prev cur
      → AddMove t m
          (add_cas d node prev cur)
          (added d)
          (record m { next = update m.next prev node; owner = update m.owner node linked })
          idle
  cas_lose :
      {d node prev cur : ℕ}
      → Differs m prev cur
      → AddMove t m (add_cas d node prev cur) silent m (find_load (inserting d node))

-- `remove` and `search`.
pub data RemoveMove (t : ℕ) (m : Memory) : Pc → Event → Memory → Pc → Type 0 where
  call : (d : ℕ) → RemoveMove t m idle (called t) m (find_load (removing d))
  call_search : (d : ℕ) → RemoveMove t m idle (called t) m (find_load (searching d))
  mark_win :
      {d prev cur next : ℕ}
      → Points m cur next
      → RemoveMove t m
          (remove_mark d prev cur next)
          (removed d)
          (record m { marked = update m.marked cur true })
          (remove_cut d prev cur next)
  mark_lose :
      {d prev cur next : ℕ}
      → Differs m cur next
      → RemoveMove t m (remove_mark d prev cur next) silent m (find_load (removing d))
  cut_win :
      {d prev cur next : ℕ}
      → Points m prev cur
      → RemoveMove t m
          (remove_cut d prev cur next)
          silent
          (record m { next = update m.next prev next; owner = update m.owner cur unlinked })
          idle
  cut_lose :
      {d prev cur next : ℕ}
      → Differs m prev cur
      → RemoveMove t m (remove_cut d prev cur next) silent m (find_load (cleaning d))

pub data Move (t : ℕ) (m : Memory) : Pc → Event → Memory → Pc → Type 0 where
  finding : {p p' : Pc} {e : Event} {m' : Memory} → FindMove t m p e m' p' → Move t m p e m' p'
  adding : {p p' : Pc} {e : Event} {m' : Memory} → AddMove t m p e m' p' → Move t m p e m' p'
  taking : {p p' : Pc} {e : Event} {m' : Memory} → RemoveMove t m p e m' p' → Move t m p e m' p'
