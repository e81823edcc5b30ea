-- ===== src/Future/Invariant.antt =====
-- include/amino/future.h: the mutex, and what a thread knows where it stands.
use amino.Prelude.{ℕ, ◌≡◌, Bool, true, false, List, [], ◌∷◌, Option, none, some, ◌⊎◌}
use amino.Monitor.{IsOwned}
use amino.Future.{
  Pc, idle, run_store, run_lock, run_set, run_notify, run_unlock, get_check, get_lock, get_recheck,
  get_asleep, get_awake, get_release, get_leave, get_return, timed_check, timed_lock, timed_wait,
  timed_asleep, timed_awake, timed_late, timed_take, timed_fail, timed_read, Event, silent,
  notified, stored, returned, timed_returned, timed_out, System,
}

-- Whether a thread holds the mutex.
abbrev pub has_lock : Pc → Bool
has_lock idle = false
has_lock (run_store v) = false
has_lock run_lock = false
has_lock run_set = true
has_lock run_notify = true
has_lock run_unlock = true
has_lock get_check = false
has_lock get_lock = false
has_lock get_recheck = true
has_lock get_asleep = false
has_lock get_awake = false
has_lock get_release = true
has_lock get_leave = true
has_lock get_return = false
has_lock timed_check = false
has_lock timed_lock = false
has_lock timed_wait = true
has_lock timed_asleep = false
has_lock timed_awake = false
has_lock timed_late = false
has_lock timed_take = true
has_lock timed_fail = true
has_lock timed_read = false

-- Whether a thread sleeps in `get()`.
abbrev pub is_asleep : Pc → Bool
is_asleep idle = false
is_asleep (run_store v) = false
is_asleep run_lock = false
is_asleep run_set = false
is_asleep run_notify = false
is_asleep run_unlock = false
is_asleep get_check = false
is_asleep get_lock = false
is_asleep get_recheck = false
is_asleep get_asleep = true
is_asleep get_awake = false
is_asleep get_release = false
is_asleep get_leave = false
is_asleep get_return = false
is_asleep timed_check = false
is_asleep timed_lock = false
is_asleep timed_wait = false
is_asleep timed_asleep = false
is_asleep timed_awake = false
is_asleep timed_late = false
is_asleep timed_take = false
is_asleep timed_fail = false
is_asleep timed_read = false

-- Whether a thread has seen `isAvail` set, or has set it.
abbrev pub has_seen : Pc → Bool
has_seen idle = false
has_seen (run_store v) = false
has_seen run_lock = false
has_seen run_set = false
has_seen run_notify = true
has_seen run_unlock = true
has_seen get_check = false
has_seen get_lock = false
has_seen get_recheck = false
has_seen get_asleep = false
has_seen get_awake = false
has_seen get_release = false
has_seen get_leave = true
has_seen get_return = true
has_seen timed_check = false
has_seen timed_lock = false
has_seen timed_wait = false
has_seen timed_asleep = false
has_seen timed_awake = false
has_seen timed_late = false
has_seen timed_take = false
has_seen timed_fail = false
has_seen timed_read = true

-- Whether a thread has stored a result that it has not announced.
abbrev pub has_stored : Pc → Bool
has_stored idle = false
has_stored (run_store v) = false
has_stored run_lock = true
has_stored run_set = true
has_stored run_notify = false
has_stored run_unlock = false
has_stored get_check = false
has_stored get_lock = false
has_stored get_recheck = false
has_stored get_asleep = false
has_stored get_awake = false
has_stored get_release = false
has_stored get_leave = false
has_stored get_return = false
has_stored timed_check = false
has_stored timed_lock = false
has_stored timed_wait = false
has_stored timed_asleep = false
has_stored timed_awake = false
has_stored timed_late = false
has_stored timed_take = false
has_stored timed_fail = false
has_stored timed_read = false

-- What the last run stored, in an execution with its latest event first.
abbrev pub last_stored : List Event → Option ℕ
last_stored [] = none
last_stored (silent ∷ es) = last_stored es
last_stored (notified ∷ es) = last_stored es
last_stored (stored v ∷ es) = some v
last_stored (returned v ∷ es) = last_stored es
last_stored (timed_returned v ∷ es) = last_stored es
last_stored (timed_out ∷ es) = last_stored es

-- What holds in every execution.
pub record IsSound (es : List Event) (s : System) : Type 0 where
  pub owned : IsOwned has_lock s.shared.holder s.pcs
  pub sleeps :
      (t : ℕ)
      → is_asleep (s.pcs t) ≡ true
      → (s.shared.is_avail ≡ false) ⊎ ((u : ℕ) × (s.pcs u ≡ run_notify))
  pub seen : (t : ℕ) → has_seen (s.pcs t) ≡ true → s.shared.is_avail ≡ true
  pub kept : (t : ℕ) → has_stored (s.pcs t) ≡ true → last_stored es ≡ some s.shared.result
  pub filled : s.shared.is_avail ≡ true → last_stored es ≡ some s.shared.result
