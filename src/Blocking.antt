-- ===== src/Blocking.antt =====
-- include/amino/bdeque.h: the blocking deque, as steps of any number of threads. What the class inherits
-- is a list with its left end first, each call of it one step; the mutex and the condition variable are
-- those of POSIX: `wait` gives the mutex back as it falls asleep, and may wake by itself.
pub mod Invariant
pub mod Preserve
pub mod Progress
pub mod Order
mod Tests
use amino.Prelude.{
  ℕ, ◌≡◌, ◌≢◌, Bool, true, false, List, [], ◌∷◌, ◌++◌, Option, none, some, ◌==◌, if◌then◌else◌,
}
use amino.Scheduler.Queue.{push_left, pop_left, pop_right}

pub data End : Type 0 where
  left : End
  right : End

-- `LockFreeDeque::pushLeft` and `pushRight`.
unfoldable pub push_end : End → ℕ → List ℕ → List ℕ
unfolding push_left
push_end left d q = push_left d q
push_end right d q = q ++ d ∷ []

-- `LockFreeDeque::popLeft` and `popRight`.
unfoldable pub pop_end : End → List ℕ → Option (ℕ × List ℕ)
unfolding pop_left pop_right
pop_end left q = pop_left q
pop_end right q = elim (pop_right q) [ none ↦ none | some (r, d) ↦ some (d, r) ]

-- Where a thread stands: outside, in a push, or in a take.
pub data Pc : Type 0 where
  idle : Pc
  push_lock : End → ℕ → Pc
  push_add : End → ℕ → Pc
  push_notify : Pc
  push_unlock : Pc
  take_pop : End → Pc
  take_lock : End → Pc
  take_empty : End → Pc
  take_asleep : End → Pc
  take_awake : End → Pc
  take_unlock : End → Pc

pub data Event : Type 0 where
  silent : Event
  added : End → ℕ → Event
  removed : End → ℕ → Event
  found_empty : End → Event
  notified : Event

-- The deque and the holder of its mutex.
pub record Shared : Type 0 where
  pub items : List ℕ
  pub holder : Option ℕ

-- One step of thread `t`. The last five are those of the calls that do not block.
pub data Move (t : ℕ) (s : Shared) : Pc → Event → Shared → Pc → Type 0 where
  call_push : (e : End) (d : ℕ) → Move t s idle silent s (push_lock e d)
  push_locks :
      {e : End} {d : ℕ}
      → s.holder ≡ none
      → Move t s (push_lock e d) silent (record s { holder = some t }) (push_add e d)
  push_adds :
      {e : End} {d : ℕ}
      → Move t s (push_add e d) (added e d) (record s { items = push_end e d s.items }) push_notify
  push_notifies : Move t s push_notify notified s push_unlock
  push_unlocks : Move t s push_unlock silent (record s { holder = none }) idle
  call_take : (e : End) → Move t s idle silent s (take_pop e)
  take_pops :
      {e : End} {d : ℕ} {q : List ℕ}
      → pop_end e s.items ≡ some (d, q)
      → Move t s (take_pop e) (removed e d) (record s { items = q }) idle
  take_misses :
      {e : End} → pop_end e s.items ≡ none → Move t s (take_pop e) (found_empty e) s (take_lock e)
  take_locks :
      {e : End}
      → s.holder ≡ none
      → Move t s (take_lock e) silent (record s { holder = some t }) (take_empty e)
  take_sleeps :
      {e : End}
      → s.items ≡ []
      → Move t s (take_empty e) silent (record s { holder = none }) (take_asleep e)
  take_stays : {e : End} → s.items ≢ [] → Move t s (take_empty e) silent s (take_unlock e)
  take_relocks :
      {e : End}
      → s.holder ≡ none
      → Move t s (take_awake e) silent (record s { holder = some t }) (take_unlock e)
  take_unlocks :
      {e : End} → Move t s (take_unlock e) silent (record s { holder = none }) (take_pop e)
  pops :
      (e : End) {d : ℕ} {q : List ℕ}
      → pop_end e s.items ≡ some (d, q)
      → Move t s idle (removed e d) (record s { items = q }) idle
  misses : (e : End) → pop_end e s.items ≡ none → Move t s idle (found_empty e) s idle

pub record System : Type 0 where
  pub shared : Shared
  pub pcs : ℕ → Pc

-- `notify_all` wakes every thread that sleeps.
unfoldable pub woken : Event → Pc → Pc
woken notified (take_asleep e) = take_awake e
woken notified p = p
woken silent p = p
woken (added e d) p = p
woken (removed e d) p = p
woken (found_empty e) p = p

pub data Step : System → Event → System → Type 0 where
  moves :
      (t : ℕ) {s : System} {e : Event} {m : Shared} {p : Pc}
      → Move t s.shared (s.pcs t) e m p
      → Step s e (record { shared = m; pcs = λ u. if u == t then p else woken e (s.pcs u) })
  wakes :
      (t : ℕ) (e : End) {s : System}
      → s.pcs t ≡ take_asleep e
      → Step s silent (record s { pcs = λ u. if u == t then take_awake e else s.pcs u })

pub init : System
init = record { shared = record { items = []; holder = none }; pcs = λ t. idle }

pub data Run : List Event → System → Type 0 where
  start : Run [] init
  later : {es : List Event} {e : Event} {s s' : System} → Run es s → Step s e s' → Run (e ∷ es) s'
