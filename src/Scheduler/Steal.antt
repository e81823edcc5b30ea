-- ===== src/Scheduler/Steal.antt =====
-- `stealing` in include/amino/ws_scheduler.h: which queues it tries.
use native.Mathlib.Nat.{mod-eq_of_lt, mod-eq-sub-mod}
use amino.Prelude.{
  ◌<◌, ◌≤◌, ltb, List, ap, ◌∙◌, ℕ, zero, suc, ◌↔◌, ◌+◌, ◌-◌, ◌%◌, ◌≡◌, ◌≢◌, refl, [], arith, ◌==◌,
  if◌then◌else◌, times, Option-cases, inl, inr, Bool-cases,
}
use amino.Scheduler.Queue.{
  pop_right, pop_left, is_empty, pop_right-none, pop_right-times, pop_left-none, pop_left_lem,
  push_left,
}
use amino.Scheduler.{
  Scheduler, Outcome, task, blocked, take_right, steal_loop, stealing, get_task, put, rotate,
}

-- The queues that `m` rounds from round `i` on try for worker `me` are empty.
abbrev pub AllEmpty : ℕ → ℕ → ℕ → Scheduler → Type 0
AllEmpty zero i me s = s.queues me ≡ []
AllEmpty (suc m) i me s = (s.queues ((i + me) % s.thread_num) ≡ []) × AllEmpty m (i + 1) me s

-- No end signal stands in a queue.
abbrev pub IsRunning : Scheduler → Type 0
IsRunning s = (i : ℕ) → times 0 (s.queues i) ≡ 0

own_empty : (m i me : ℕ) (s : Scheduler) → AllEmpty m i me s → s.queues me ≡ []
own_empty zero i me s e = e
own_empty (suc m) i me s e = own_empty m (i + 1) me s e.1

take_right-blocks : (me : ℕ) (s : Scheduler) → s.queues me ≡ [] → (take_right me s).0 ≡ blocked
unfolding take_right pop_right
take_right-blocks me s e = rw (e, take_right) refl

steal_loop-blocks :
    (m i me : ℕ) (s : Scheduler) → AllEmpty m i me s → (steal_loop m i me s).0 ≡ blocked
unfolding steal_loop pop_left
steal_loop-blocks zero i me s e = take_right-blocks me s e
steal_loop-blocks (suc m) i me s e = rw (e.0, steal_loop) (steal_loop-blocks m (i + 1) me s e.1)

-- A call that gets a task does not wait.
got_no_wait :
    (t : ℕ) (r : Outcome × Scheduler) (s : Scheduler)
    → t ≢ 0
    → (if t == 0 then r else (task t, s)).0 ≢ blocked
got_no_wait t r s real b = elim (Bool-cases (t == 0)) [
  | inl z ↦ real (ground (arith, z))
  | inr nz ↦ absurd (ground (arith, (rw nz at b)))
]

blocks-own_empty :
    (me : ℕ) (s : Scheduler) → IsRunning s → (take_right me s).0 ≡ blocked → s.queues me ≡ []
unfolding take_right
blocks-own_empty me s run b = elim (Option-cases (pop_right (s.queues me))) [
  | inl f ↦ pop_right-none (s.queues me) f
  | inr (p, f) ↦
      let real : p.1 ≢ 0 = ground (arith, pop_right-times 0 (s.queues me) p.0 p.1 f, run me) in
      absurd (ground (arith, real, (rw (f, take_right) at b)))
]

steal_loop-AllEmpty :
    (m i me : ℕ) (s : Scheduler)
    → IsRunning s
    → (steal_loop m i me s).0 ≡ blocked
    → AllEmpty m i me s
unfolding steal_loop
steal_loop-AllEmpty zero i me s run b = blocks-own_empty me s run b
steal_loop-AllEmpty (suc m) i me s run b =
    let victim = (i + me) % s.thread_num in
    elim (Option-cases (pop_left (s.queues victim))) as (λ _. AllEmpty (suc m) i me s) [
      | inl f ↦ (
        pop_left-none (s.queues victim) f,
        steal_loop-AllEmpty m (i + 1) me s run (rw (f, steal_loop) at b),
      )
      | inr (p, f) ↦
          let real : p.0 ≢ 0 =
            ground (arith, pop_left_lem (s.queues victim) p.1 p.0 f, run victim) in
          absurd (got_no_wait p.0 _ _ real (rw (f, steal_loop) at b))
    ]

waits_iff :
    (me : ℕ) (s : Scheduler)
    → IsRunning s
    → ((get_task me s).0 ≡ blocked) ↔ AllEmpty (s.thread_num - 1) 0 me s
unfolding get_task stealing pop_right
waits_iff me s run = (λ b. waits_only b, λ e. waits e)
  where
    waits : AllEmpty (s.thread_num - 1) 0 me s → (get_task me s).0 ≡ blocked
    waits e =
        rw (own_empty (s.thread_num - 1) 0 me s e, get_task)
          (steal_loop-blocks (s.thread_num - 1) 0 me s e)

    waits_only : (get_task me s).0 ≡ blocked → AllEmpty (s.thread_num - 1) 0 me s
    waits_only b =
        elim (Option-cases (pop_right (s.queues me))) as (λ _. AllEmpty (s.thread_num - 1) 0 me s) [
          | inl f ↦ steal_loop-AllEmpty (s.thread_num - 1) 0 me s run (rw (f, get_task) at b)
          | inr (p, f) ↦
              let real : p.1 ≢ 0 =
                ground (arith, pop_right-times 0 (s.queues me) p.0 p.1 f, run me) in
              absurd (got_no_wait p.1 _ _ real (rw (f, get_task) at b))
        ]

-- What a call gets from its own queue depends on that queue alone.
take_right-same :
    (me : ℕ) (s s' : Scheduler)
    → s'.queues me ≡ s.queues me
    → (take_right me s').0 ≡ (take_right me s).0
unfolding take_right
take_right-same me s s' e = elim (Option-cases (pop_right (s.queues me))) [
  | inl f ↦ rw (e, f, take_right) refl
  | inr (p, f) ↦ rw (e, f, take_right) refl
]

-- The queue that the rounds leave out: me + n - 1 modulo n.
abbrev pub skipped : ℕ → Scheduler → ℕ
skipped me s = (me + (s.thread_num - 1)) % s.thread_num

wrap : (x n : ℕ) → n ≤ x → x < n + n → x % n ≡ x - n
wrap x n h lt = mod-eq-sub-mod h ∙ mod-eq_of_lt (omega arith)

skipped_lem : (me n : ℕ) → me < n → (me + (n - 1)) % n ≡ (if me == 0 then n - 1 else me - 1)
skipped_lem me n lt = elim (Bool-cases (me == 0)) [
  | inl zero_me ↦
      let e : me ≡ 0 = ground (arith, zero_me) in
      rw zero_me (ap (λ z. (z + (n - 1)) % n) e ∙ mod-eq_of_lt (omega arith) ∙ omega arith)
  | inr more ↦
      let pos : 1 ≤ me = ground (arith, more) in
      rw more (wrap (me + (n - 1)) n (omega arith) (omega arith) ∙ omega arith)
]

tried_lem :
    (k me n : ℕ) → me < n → k < n → (k + me) % n ≡ (if ltb (k + me) n then k + me else k + me - n)
tried_lem k me n lt h = elim (Bool-cases (ltb (k + me) n)) [
  | inl low ↦ rw low (mod-eq_of_lt (ground (arith, low)))
  | inr high ↦ rw high (wrap (k + me) n (ground (arith, high)) (omega arith))
]

not_tried : (k me n : ℕ) → me < n → k < n - 1 → (k + me) % n ≢ (me + (n - 1)) % n
not_tried k me n lt h e =
    let a = skipped_lem me n lt in
    let b = tried_lem k me n lt (omega arith) in ground (arith, e, a, b)

not_own : (me n : ℕ) → me < n → 2 ≤ n → me ≢ (me + (n - 1)) % n
not_own me n lt two e = let a = skipped_lem me n lt in ground (arith, e, a)

steal_loop-same :
    (m i me : ℕ) (s : Scheduler) (q : List ℕ)
    → me < s.thread_num
    → 2 ≤ s.thread_num
    → i + m ≤ s.thread_num - 1
    → (steal_loop m i me (put s (skipped me s) q)).0 ≡ (steal_loop m i me s).0
unfolding steal_loop put
steal_loop-same zero i me s q lt two h =
    let own = not_own me s.thread_num lt two in
    let same : (put s (skipped me s) q).queues me ≡ s.queues me = ground (arith, own) in
    take_right-same me s (put s (skipped me s) q) same
steal_loop-same (suc m) i me s q lt two h =
    let victim = (i + me) % s.thread_num in
    let own = not_own me s.thread_num lt two in
    let other = not_tried i me s.thread_num lt (omega arith) in
    let same : (put s (skipped me s) q).queues victim ≡ s.queues victim = ground (arith, other) in
    elim (Option-cases (pop_left (s.queues victim))) [
      | inl f ↦ rw (same, f, steal_loop) (steal_loop-same m (i + 1) me s q lt two (omega arith))
      | inr (p, f) ↦ elim (Bool-cases (p.0 == 0)) [
        | inl signal ↦
            rw (same, f, steal_loop, signal)
              (take_right-same me (put s victim (push_left p.0 p.1))
                (put (put s (skipped me s) q) victim (push_left p.0 p.1)) (ground (arith, own)))
        | inr work ↦ rw (same, f, steal_loop, work) refl
      ]
    ]

rotate-same : (me : ℕ) (x : List ℕ) (s s' : Scheduler) → (rotate me x s').0 ≡ (rotate me x s).0
unfolding rotate
rotate-same me x s s' = elim (Option-cases (pop_right (push_left 0 x))) [
  | inl f ↦ rw (f, rotate) refl
  | inr (p, f) ↦ rw (f, rotate) refl
]

get_task-same :
    (me : ℕ) (s : Scheduler) (q : List ℕ)
    → me < s.thread_num
    → 2 ≤ s.thread_num
    → (get_task me (put s (skipped me s) q)).0 ≡ (get_task me s).0
unfolding get_task stealing put
get_task-same me s q lt two =
    let own = not_own me s.thread_num lt two in
    let same : (put s (skipped me s) q).queues me ≡ s.queues me = ground (arith, own) in
    elim (Option-cases (pop_right (s.queues me))) [
      | inl f ↦
          rw (same, f, get_task) (steal_loop-same (s.thread_num - 1) 0 me s q lt two (omega arith))
      | inr (p, f) ↦ elim (Bool-cases (p.1 == 0)) [
        | inl signal ↦ elim (Bool-cases (is_empty p.0)) [
          | inl last ↦ rw (same, f, get_task, signal, last) refl
          | inr more ↦
              rw (same, f, get_task, signal, more) (rotate-same me p.0 s (put s (skipped me s) q))
        ]
        | inr work ↦ rw (same, f, get_task, work) refl
      ]
    ]

-- With n threads, at least two, and while no end signal stands in a queue: `getTask(me)` waits exactly if the queues of
-- the numbers me, me + 1, …, me + n - 2 (modulo n) are empty; and whatever `q` is put in the place of the queue of
-- number me + n - 1, the outcome of the call is the same. So a worker waits although that queue holds tasks, and
-- with two threads the outcome depends on the worker's own queue alone.
pub get_task_waits :
    (me : ℕ) (s : Scheduler) (q : List ℕ)
    → me < s.thread_num
    → 2 ≤ s.thread_num
    → IsRunning s
    → (((get_task me s).0 ≡ blocked) ↔ AllEmpty (s.thread_num - 1) 0 me s)
      × ((get_task me (put s (skipped me s) q)).0 ≡ (get_task me s).0)
get_task_waits me s q lt two run = (waits_iff me s run, get_task-same me s q lt two)
