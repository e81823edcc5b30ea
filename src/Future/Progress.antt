-- ===== src/Future/Progress.antt =====
-- include/amino/future.h: no call is stuck.
use amino.Prelude.{
  ℕ, ◌≡◌, ◌≢◌, refl, sym, ◌∙◌, subst, true, false, List, arith, none, inl, inr, ◌⊎◌, Option-cases,
  Bool-cases,
}
use amino.Future.{
  Pc, idle, run_store, run_lock, run_set, run_notify, run_unlock, get_check, get_lock, get_recheck,
  get_asleep, get_awake, get_release, get_leave, get_return, timed_check, timed_lock, timed_wait,
  timed_asleep, timed_awake, timed_late, timed_take, timed_fail, timed_read, Event, Shared, Move,
  run_stores, run_locks, run_sets, run_notifies, run_unlocks, get_finds, get_misses, get_locks,
  get_breaks, get_waits, get_relocks, get_releases, get_leaves, get_returns, timed_finds,
  timed_misses, timed_locks, timed_waits, times_out, timed_relocks, late_relocks, timed_takes,
  timed_fails, timed_reads, System, Run,
}
use amino.Future.Invariant.{has_lock, is_asleep, IsSound}
use amino.Future.Preserve.{Run-IsSound}

-- Some thread that is inside a call can take its next step, other than to wake by itself.
pub record CanGo (s : System) : Type 0 where
  pub who : ℕ
  pub event : Event
  pub shared : Shared
  pub pc : Pc
  pub busy : s.pcs who ≢ idle
  pub move : Move who s.shared (s.pcs who) event shared pc

go :
    (s : System) (u : ℕ) {p q : Pc} {e : Event} {m : Shared}
    → s.pcs u ≡ p
    → p ≢ idle
    → Move u s.shared p e m q
    → CanGo s
go s u {p} {q} {e} {m} f busy mv = record {
  who = u;
  event = e;
  shared = m;
  pc = q;
  busy = λ z. busy (sym f ∙ z);
  move = subst (λ r. Move u s.shared r e m q) (sym f) mv;
}

-- By whether the result is available.
either :
    (s : System)
    → (s.shared.is_avail ≡ true → CanGo s)
    → (s.shared.is_avail ≡ false → CanGo s)
    → CanGo s
either s there missing = elim (Bool-cases (s.shared.is_avail)) [
  | inl z ↦ there z
  | inr z ↦ missing z
]

-- The thread with the mutex is never stuck.
holder_goes : (s : System) (u : ℕ) (p : Pc) → s.pcs u ≡ p → has_lock p ≡ true → CanGo s
holder_goes s u idle f l = absurd (ground arith)
holder_goes s u (run_store v) f l = absurd (ground arith)
holder_goes s u run_lock f l = absurd (ground arith)
holder_goes s u run_set f l = go s u f (λ z. ground (arith, z)) run_sets
holder_goes s u run_notify f l = go s u f (λ z. ground (arith, z)) run_notifies
holder_goes s u run_unlock f l = go s u f (λ z. ground (arith, z)) run_unlocks
holder_goes s u get_check f l = absurd (ground arith)
holder_goes s u get_lock f l = absurd (ground arith)
holder_goes s u get_recheck f l =
    either s (λ z. go s u f (λ z. ground (arith, z)) (get_breaks z))
      (λ z. go s u f (λ z. ground (arith, z)) (get_waits z))
holder_goes s u get_asleep f l = absurd (ground arith)
holder_goes s u get_awake f l = absurd (ground arith)
holder_goes s u get_release f l = go s u f (λ z. ground (arith, z)) get_releases
holder_goes s u get_leave f l = go s u f (λ z. ground (arith, z)) get_leaves
holder_goes s u get_return f l = absurd (ground arith)
holder_goes s u timed_check f l = absurd (ground arith)
holder_goes s u timed_lock f l = absurd (ground arith)
holder_goes s u timed_wait f l = go s u f (λ z. ground (arith, z)) timed_waits
holder_goes s u timed_asleep f l = absurd (ground arith)
holder_goes s u timed_awake f l = absurd (ground arith)
holder_goes s u timed_late f l = absurd (ground arith)
holder_goes s u timed_take f l = go s u f (λ z. ground (arith, z)) timed_takes
holder_goes s u timed_fail f l = go s u f (λ z. ground (arith, z)) timed_fails
holder_goes s u timed_read f l = absurd (ground arith)

-- A thread that wants the mutex gets it, or its holder goes on.
lock_or_holder :
    (es : List Event) (s : System) → IsSound es s → (s.shared.holder ≡ none → CanGo s) → CanGo s
lock_or_holder es s ok free = elim (Option-cases s.shared.holder) [
  | inl f ↦ free f
  | inr (u, f) ↦ holder_goes s u (s.pcs u) refl (ok.owned.owned u f)
]

thread_goes :
    (es : List Event) (s : System) (t : ℕ) (p : Pc)
    → IsSound es s
    → s.pcs t ≡ p
    → p ≢ idle
    → CanGo s ⊎ ((is_asleep p ≡ true) × (s.shared.is_avail ≡ false))
thread_goes es s t idle ok f busy = absurd (busy refl)
thread_goes es s t (run_store v) ok f busy = inl (go s t f busy run_stores)
thread_goes es s t run_lock ok f busy =
    inl (lock_or_holder es s ok (λ z. go s t f busy (run_locks z)))
thread_goes es s t run_set ok f busy = inl (holder_goes s t run_set f refl)
thread_goes es s t run_notify ok f busy = inl (holder_goes s t run_notify f refl)
thread_goes es s t run_unlock ok f busy = inl (holder_goes s t run_unlock f refl)
thread_goes es s t get_check ok f busy = inl (
    lock_or_holder es s ok
      (λ z. either s (λ a. go s t f busy (get_finds z a)) (λ a. go s t f busy (get_misses z a))))
thread_goes es s t get_lock ok f busy =
    inl (lock_or_holder es s ok (λ z. go s t f busy (get_locks z)))
thread_goes es s t get_recheck ok f busy = inl (holder_goes s t get_recheck f refl)
thread_goes es s t get_asleep ok f busy = elim (ok.sleeps t (rw f refl)) [
  | inl z ↦ inr (refl, z)
  | inr (u, g) ↦ inl (holder_goes s u run_notify g refl)
]
thread_goes es s t get_awake ok f busy =
    inl (lock_or_holder es s ok (λ z. go s t f busy (get_relocks z)))
thread_goes es s t get_release ok f busy = inl (holder_goes s t get_release f refl)
thread_goes es s t get_leave ok f busy = inl (holder_goes s t get_leave f refl)
thread_goes es s t get_return ok f busy = inl (go s t f busy get_returns)
thread_goes es s t timed_check ok f busy =
    inl (either s (λ a. go s t f busy (timed_finds a)) (λ a. go s t f busy (timed_misses a)))
thread_goes es s t timed_lock ok f busy =
    inl (lock_or_holder es s ok (λ z. go s t f busy (timed_locks z)))
thread_goes es s t timed_wait ok f busy = inl (holder_goes s t timed_wait f refl)
thread_goes es s t timed_asleep ok f busy = inl (go s t f busy times_out)
thread_goes es s t timed_awake ok f busy =
    inl (lock_or_holder es s ok (λ z. go s t f busy (timed_relocks z)))
thread_goes es s t timed_late ok f busy =
    inl (lock_or_holder es s ok (λ z. go s t f busy (late_relocks z)))
thread_goes es s t timed_take ok f busy = inl (holder_goes s t timed_take f refl)
thread_goes es s t timed_fail ok f busy = inl (holder_goes s t timed_fail f refl)
thread_goes es s t timed_read ok f busy = inl (go s t f busy timed_reads)

-- No deadlock: in every execution, if a thread is inside a call, then some thread inside a call can take its next
-- step, or that thread sleeps in `get()` and the result is not available.
pub future_no_deadlock :
    (v : ℕ) (es : List Event) (s : System) (t : ℕ)
    → Run v es s
    → s.pcs t ≢ idle
    → CanGo s ⊎ ((is_asleep (s.pcs t) ≡ true) × (s.shared.is_avail ≡ false))
future_no_deadlock v es s t run busy = thread_goes es s t (s.pcs t) (Run-IsSound run) refl busy
