-- ===== src/Scheduler/Signal.antt =====
-- include/amino/ws_scheduler.h: as long as nobody shuts it down, `getTask` never gives the end signal.
use amino.Prelude.{
  ℕ, zero, suc, ◌+◌, ◌-◌, ◌%◌, ◌^◌, ◌≡◌, ◌≢◌, false, subst, List, [], ◌∷◌, ◌++◌, arith, some, ◌==◌,
  if◌then◌else◌, Option-cases, inl, inr, ℕ_discrete, All,
}
use amino.Scheduler.Queue.{push_left, pop_left, pop_right, pop_right_lem, pop_left_lem}
use amino.Scheduler.{
  Scheduler, Outcome, task, ended, new, put, int_mod, add_task_at, add_task, take_right, steal_loop,
  stealing, get_task,
}

abbrev pub IsReal : List ℕ → Type 0
IsReal q = All (λ t. t ≢ 0) q

abbrev pub HasNoNull : Scheduler → Type 0
HasNoNull s = (i : ℕ) → IsReal (s.queues i)

-- The outcome is not the end signal, and none is left behind.
abbrev pub IsBusy : Outcome × Scheduler → Type 0
IsBusy r = (r.0 ≢ ended) × ((i : ℕ) → IsReal (r.1.queues i))

All-unsnoc : (q : List ℕ) (t : ℕ) → IsReal (q ++ t ∷ []) → IsReal q × (t ≢ 0)
All-unsnoc [] t h = (tt, h.0)
All-unsnoc (a ∷ q) t h = let r = All-unsnoc q t h.1 in ((h.0, r.0), r.1)

put-HasNoNull :
    (s : Scheduler) (i : ℕ) (q : List ℕ) → HasNoNull s → IsReal q → HasNoNull (put s i q)
unfolding put
put-HasNoNull s i q h a j = elim (ℕ_discrete i j) [
  | yes e ↦ subst IsReal (ground (arith, e)) a
  | no ne ↦ subst IsReal (ground (arith, ne)) (h j)
]

real_task : (t : ℕ) → t ≢ 0 → (if t == 0 then ended else task t) ≢ ended
real_task t h e = ground (arith, h, e)

pops-IsBusy :
    (me : ℕ) (s : Scheduler) (q : List ℕ) (t : ℕ)
    → HasNoNull s
    → pop_right (s.queues me) ≡ some (q, t)
    → (t ≢ 0) × HasNoNull (put s me q)
pops-IsBusy me s q t h e =
    let a = All-unsnoc q t (subst IsReal (pop_right_lem (s.queues me) q t e) (h me)) in
    (a.1, put-HasNoNull s me q h a.0)

take_right-IsBusy : (me : ℕ) (s : Scheduler) → HasNoNull s → IsBusy (take_right me s)
unfolding take_right put
take_right-IsBusy me s h = elim (Option-cases (pop_right (s.queues me))) [
  | inl e ↦ rw (e, take_right) ((λ z. ground (arith, z)), h)
  | inr (p, e) ↦
      let (q, t) = p in
      let (nz, k) = pops-IsBusy me s q t h e in rw (e, take_right) (real_task t nz, k)
]

steal_loop-IsBusy : (n i me : ℕ) (s : Scheduler) → HasNoNull s → IsBusy (steal_loop n i me s)
unfolding steal_loop
steal_loop-IsBusy zero i me s h = take_right-IsBusy me s h
steal_loop-IsBusy (suc n) i me s h =
    elim (Option-cases (pop_left (s.queues ((i + me) % s.thread_num)))) [
      | inl e ↦ rw (e, steal_loop) (steal_loop-IsBusy n (i + 1) me s h)
      | inr (p, e) ↦
          let (t, q) = p in
          rw (e, steal_loop)
            (stolen t q (subst IsReal (pop_left_lem (s.queues victim) q t e) (h victim)))
    ]
  where
    victim : ℕ
    victim = (i + me) % s.thread_num

    stolen :
        (t : ℕ) (q : List ℕ)
        → IsReal (t ∷ q)
        → IsBusy (
            if t == 0
            then take_right me (put s victim (push_left t q))
            else (task t, put s victim q))
    stolen t q a =
        let false_test : (t == 0) ≡ false = ground (arith, a.0) in
        rw false_test ((λ z. ground (arith, z)), put-HasNoNull s victim q h a.1)

pub get_task-IsBusy : (me : ℕ) (s : Scheduler) → HasNoNull s → IsBusy (get_task me s)
unfolding get_task stealing
get_task-IsBusy me s h = elim (Option-cases (pop_right (s.queues me))) [
  | inl e ↦ rw (e, get_task) (steal_loop-IsBusy (s.thread_num - 1) 0 me s h)
  | inr (p, e) ↦
      let (q, t) = p in
      let (nz, k) = pops-IsBusy me s q t h e in
      let false_test : (t == 0) ≡ false = ground (arith, nz) in
      rw (e, get_task) (rw false_test ((λ z. ground (arith, z)), k))
]

pub add_task-HasNoNull : (t : ℕ) (s : Scheduler) → t ≢ 0 → HasNoNull s → HasNoNull (add_task t s)
unfolding add_task add_task_at push_left
add_task-HasNoNull t s nz h =
    let i = int_mod s.rand_ind s.thread_num in
    put-HasNoNull (record s { rand_ind = (s.rand_ind + 1) % 2 ^ 32 }) i (t ∷ s.queues i) h (nz, h i)

pub new-HasNoNull : (n : ℕ) → HasNoNull (new n)
unfolding new
new-HasNoNull n i = tt
