-- ===== src/Future.antt =====
-- include/amino/future.h, include/amino/ftask.h: a future and the task that fills it, as steps of any number of
-- threads. The mutex is recursive, so the inner locks of `setAvailable` and `getAvailable` are no steps
-- of their own where the thread holds it already. What the task of the user returns is any value.
pub mod Invariant
pub mod Moves
pub mod Preserve
pub mod Result
pub mod Progress
mod Tests
use amino.Prelude.{
  ℕ, ◌≡◌, Bool, true, false, List, [], ◌∷◌, Option, none, some, ◌==◌, if◌then◌else◌,
}

-- Where a thread stands: outside, in `FutureTask::run`, in `get()`, or in `get(milli, result)`.
pub data Pc : Type 0 where
  idle : Pc
  run_store : ℕ → Pc
  run_lock : Pc
  run_set : Pc
  run_notify : Pc
  run_unlock : Pc
  get_check : Pc
  get_lock : Pc
  get_recheck : Pc
  get_asleep : Pc
  get_awake : Pc
  get_release : Pc
  get_leave : Pc
  get_return : Pc
  timed_check : Pc
  timed_lock : Pc
  timed_wait : Pc
  timed_asleep : Pc
  timed_awake : Pc
  timed_late : Pc
  timed_take : Pc
  timed_fail : Pc
  timed_read : Pc

pub data Event : Type 0 where
  silent : Event
  notified : Event
  stored : ℕ → Event
  returned : ℕ → Event
  timed_returned : ℕ → Event
  timed_out : Event

-- `isAvail`, `f_result`, and the holder of `f_mutex`.
pub record Shared : Type 0 where
  pub is_avail : Bool
  pub result : ℕ
  pub holder : Option ℕ

-- One step of thread `t`. `get` wakes, and sees that it woke without reason, only in its loop.
pub data Move (t : ℕ) (s : Shared) : Pc → Event → Shared → Pc → Type 0 where
  call_run : (v : ℕ) → Move t s idle silent s (run_store v)
  run_stores : {v : ℕ} → Move t s (run_store v) (stored v) (record s { result = v }) run_lock
  run_locks : s.holder ≡ none → Move t s run_lock silent (record s { holder = some t }) run_set
  run_sets : Move t s run_set silent (record s { is_avail = true }) run_notify
  run_notifies : Move t s run_notify notified s run_unlock
  run_unlocks : Move t s run_unlock silent (record s { holder = none }) idle
  call_get : Move t s idle silent s get_check
  get_finds : s.holder ≡ none → s.is_avail ≡ true → Move t s get_check silent s get_return
  get_misses : s.holder ≡ none → s.is_avail ≡ false → Move t s get_check silent s get_lock
  get_locks : s.holder ≡ none → Move t s get_lock silent (record s { holder = some t }) get_recheck
  get_breaks : s.is_avail ≡ true → Move t s get_recheck silent s get_leave
  get_waits :
      s.is_avail ≡ false → Move t s get_recheck silent (record s { holder = none }) get_asleep
  get_relocks :
      s.holder ≡ none → Move t s get_awake silent (record s { holder = some t }) get_release
  get_releases : Move t s get_release silent (record s { holder = none }) get_check
  get_leaves : Move t s get_leave silent (record s { holder = none }) get_return
  get_returns : Move t s get_return (returned s.result) s idle
  call_timed : Move t s idle silent s timed_check
  timed_finds : s.is_avail ≡ true → Move t s timed_check silent s timed_read
  timed_misses : s.is_avail ≡ false → Move t s timed_check silent s timed_lock
  timed_locks :
      s.holder ≡ none → Move t s timed_lock silent (record s { holder = some t }) timed_wait
  timed_waits : Move t s timed_wait silent (record s { holder = none }) timed_asleep
  times_out : Move t s timed_asleep silent s timed_late
  timed_relocks :
      s.holder ≡ none → Move t s timed_awake silent (record s { holder = some t }) timed_take
  late_relocks :
      s.holder ≡ none → Move t s timed_late silent (record s { holder = some t }) timed_fail
  timed_takes : Move t s timed_take (timed_returned s.result) (record s { holder = none }) idle
  timed_fails : Move t s timed_fail timed_out (record s { holder = none }) idle
  timed_reads : Move t s timed_read (timed_returned s.result) s idle

pub record System : Type 0 where
  pub shared : Shared
  pub pcs : ℕ → Pc

abbrev pub wake : Pc → Pc
wake get_asleep = get_awake
wake timed_asleep = timed_awake
wake p = p

-- `notify_all` wakes every thread that sleeps.
abbrev pub woken : Event → Pc → Pc
woken notified p = wake p
woken e p = p

pub data Step : System → Event → System → Type 0 where
  moves :
      (t : ℕ) {s : System} {e : Event} {m : Shared} {p : Pc}
      → Move t s.shared (s.pcs t) e m p
      → Step s e (record { shared = m; pcs = λ u. if u == t then p else woken e (s.pcs u) })
  -- A wake-up that nobody asked for.
  wakes :
      (t : ℕ) {s : System}
      → Step s silent (record s { pcs = λ u. if u == t then wake (s.pcs u) else s.pcs u })

-- The constructor; `f_result` is not set there.
abbrev pub init : ℕ → System
init v = record { shared = record { is_avail = false; result = v; holder = none }; pcs = λ t. idle }

-- An execution, with its latest event first.
pub data Run (v : ℕ) : List Event → System → Type 0 where
  start : Run v [] (init v)
  later :
      {es : List Event} {e : Event} {s s' : System} → Run v es s → Step s e s' → Run v (e ∷ es) s'
