-- ===== src/Blocking/Progress.antt =====
-- include/amino/bdeque.h: no wake-up is lost, no call is stuck, and the calls behave as those of a list.
use amino.Prelude.{
  ℕ, ◌≡◌, ◌≢◌, refl, sym, ◌∙◌, subst, true, List, [], ◌∷◌, arith, none, some, inl, inr, ◌⊎◌,
  Option-cases,
}
use amino.Blocking.{
  End, pop_end, Pc, idle, push_lock, push_add, push_notify, push_unlock, take_pop, take_lock,
  take_empty, take_asleep, take_awake, take_unlock, Event, Shared, Move, push_locks, push_adds,
  push_notifies, push_unlocks, take_pops, take_misses, take_locks, take_sleeps, take_stays,
  take_relocks, take_unlocks, System, Run,
}
use amino.Blocking.Invariant.{has_lock, is_asleep, IsSound}
use amino.Blocking.Preserve.{Run-IsSound}

-- No wake-up is lost: in every execution, if a thread sleeps in `takeLeft` or `takeRight` while the deque is not
-- empty, then some thread holds the mutex and is about to call `notify_all`.
pub no_lost_wakeup :
    (es : List Event) (s : System) (t : ℕ) (e : End)
    → Run es s
    → s.pcs t ≡ take_asleep e
    → s.shared.items ≢ []
    → (u : ℕ) × (s.pcs u ≡ push_notify) × (s.shared.holder ≡ some u)
no_lost_wakeup es s t e run f full =
    let ok = Run-IsSound run in
    elim (ok.sleeps t (rw f refl)) [
      | inl z ↦ absurd (full z)
      | inr (u, g) ↦ (u, g, ok.owned.owns u (rw g refl))
    ]

-- Some thread that is inside a call can take its next step, other than to wake by itself.
pub record CanGo (s : System) : Type 0 where
  pub who : ℕ
  pub event : Event
  pub shared : Shared
  pub pc : Pc
  pub busy : s.pcs who ≢ idle
  pub move : Move who s.shared (s.pcs who) event shared pc

go :
    (s : System) (u : ℕ) {p q : Pc} {e : Event} {m : Shared}
    → s.pcs u ≡ p
    → p ≢ idle
    → Move u s.shared p e m q
    → CanGo s
go s u {p} {q} {e} {m} f busy mv = record {
  who = u;
  event = e;
  shared = m;
  pc = q;
  busy = λ z. busy (sym f ∙ z);
  move = subst (λ r. Move u s.shared r e m q) (sym f) mv;
}

items-cases : (q : List ℕ) → (q ≡ []) ⊎ (q ≢ [])
items-cases [] = inl refl
items-cases (d ∷ q) = inr (λ z. ground (arith, z))

-- The thread with the mutex is never stuck.
holder_goes : (s : System) (u : ℕ) (p : Pc) → s.pcs u ≡ p → has_lock p ≡ true → CanGo s
holder_goes s u idle f l = absurd (ground arith)
holder_goes s u (push_lock e d) f l = absurd (ground arith)
holder_goes s u (push_add e d) f l = go s u f (λ z. ground (arith, z)) push_adds
holder_goes s u push_notify f l = go s u f (λ z. ground (arith, z)) push_notifies
holder_goes s u push_unlock f l = go s u f (λ z. ground (arith, z)) push_unlocks
holder_goes s u (take_pop e) f l = absurd (ground arith)
holder_goes s u (take_lock e) f l = absurd (ground arith)
holder_goes s u (take_empty e) f l = elim (items-cases s.shared.items) [
  | inl z ↦ go s u f (λ z. ground (arith, z)) (take_sleeps z)
  | inr full ↦ go s u f (λ z. ground (arith, z)) (take_stays full)
]
holder_goes s u (take_asleep e) f l = absurd (ground arith)
holder_goes s u (take_awake e) f l = absurd (ground arith)
holder_goes s u (take_unlock e) f l = go s u f (λ z. ground (arith, z)) take_unlocks

-- A thread that wants the mutex gets it, or its holder goes on.
lock_or_holder : (s : System) → IsSound s → (s.shared.holder ≡ none → CanGo s) → CanGo s
lock_or_holder s ok free = elim (Option-cases s.shared.holder) [
  | inl f ↦ free f
  | inr (u, f) ↦ holder_goes s u (s.pcs u) refl (ok.owned.owned u f)
]

thread_goes :
    (s : System) (t : ℕ) (p : Pc)
    → IsSound s
    → s.pcs t ≡ p
    → p ≢ idle
    → CanGo s ⊎ ((is_asleep p ≡ true) × (s.shared.items ≡ []))
thread_goes s t idle ok f busy = absurd (busy refl)
thread_goes s t (push_lock e d) ok f busy =
    inl (lock_or_holder s ok (λ z. go s t f busy (push_locks z)))
thread_goes s t (push_add e d) ok f busy = inl (holder_goes s t (push_add e d) f refl)
thread_goes s t push_notify ok f busy = inl (holder_goes s t push_notify f refl)
thread_goes s t push_unlock ok f busy = inl (holder_goes s t push_unlock f refl)
thread_goes s t (take_pop e) ok f busy = elim (Option-cases (pop_end e s.shared.items)) [
  | inl z ↦ inl (go s t f busy (take_misses z))
  | inr ((d, q), z) ↦ inl (go s t f busy (take_pops z))
]
thread_goes s t (take_lock e) ok f busy =
    inl (lock_or_holder s ok (λ z. go s t f busy (take_locks z)))
thread_goes s t (take_empty e) ok f busy = inl (holder_goes s t (take_empty e) f refl)
thread_goes s t (take_asleep e) ok f busy = elim (ok.sleeps t (rw f refl)) [
  | inl z ↦ inr (refl, z)
  | inr (u, g) ↦ inl (holder_goes s u push_notify g refl)
]
thread_goes s t (take_awake e) ok f busy =
    inl (lock_or_holder s ok (λ z. go s t f busy (take_relocks z)))
thread_goes s t (take_unlock e) ok f busy = inl (holder_goes s t (take_unlock e) f refl)

-- No deadlock: in every execution, if a thread is inside a call, then some thread inside a call can take its next
-- step, or that thread sleeps in a take and the deque is empty.
pub no_deadlock :
    (es : List Event) (s : System) (t : ℕ)
    → Run es s
    → s.pcs t ≢ idle
    → CanGo s ⊎ ((is_asleep (s.pcs t) ≡ true) × (s.shared.items ≡ []))
no_deadlock es s t run busy = thread_goes s t (s.pcs t) (Run-IsSound run) refl busy
