-- ===== src/Scheduler/Conserve.antt =====
-- include/amino/ws_scheduler.h: no task is lost and none is handed out twice.
use amino.Prelude.{
  ℕ, zero, suc, ◌+◌, ◌-◌, ◌%◌, ◌^◌, ◌≡◌, ◌≢◌, ◌≤◌, ◌<◌, refl, List, [], ◌∷◌, arith, some, ◌==◌,
  if◌then◌else◌, update, times, Option-cases, Bool-cases, inl, inr, dec_lt,
}
use amino.Scheduler.Queue.{push_left, pop_left, pop_right, is_empty, pop_right-times, pop_left_lem}
use amino.Scheduler.{
  Scheduler, Outcome, task, ended, blocked, failed, new, put, int_mod, add_task_at, shutdown_loop,
  take_right, steal_loop, stealing, rotate, get_task,
}

-- How often task `a` stands in the first `n` queues.
pub queued : ℕ → ℕ → (ℕ → List ℕ) → ℕ
queued a zero q = 0
queued a (suc n) q = queued a n q + times a (q n)

queued-update_of_le :
    (a n i : ℕ) (q : ℕ → List ℕ) (l : List ℕ) → n ≤ i → queued a n (update q i l) ≡ queued a n q
unfolding queued
queued-update_of_le a zero i q l h = refl
queued-update_of_le a (suc n) i q l h = ground (arith, queued-update_of_le a n i q l)

pub queued-update :
    (a n i : ℕ) (q : ℕ → List ℕ) (l : List ℕ)
    → i < n
    → queued a n (update q i l) + times a (q i) ≡ queued a n q + times a l
unfolding queued
queued-update a zero i q l h = absurd (omega arith)
queued-update a (suc n) i q l h = elim (dec_lt i n) [
  | yes below ↦ ground (arith, queued-update a n i q l below)
  | no last ↦ ground (arith, queued-update_of_le a n i q l)
]

pub queued-new : (a m n : ℕ) → queued a m (new n).queues ≡ 0
unfolding queued new
queued-new a zero n = refl
queued-new a (suc m) n = ground (arith, queued-new a m n)

-- How often task `a` is handed out.
abbrev pub handed : ℕ → Outcome → ℕ
handed a (task t) = if t == a then 1 else 0
handed a ended = 0
handed a blocked = 0
handed a failed = 0

int_mod_lt : (index m n : ℕ) → index < 2 ^ 31 → m ≡ n → 0 < n → int_mod index m < n
unfolding int_mod
int_mod_lt index m n small e pos = let lt : index % m < n = grind arith in ground (arith, lt)

module _ (a : ℕ) (real : a ≢ 0) (n : ℕ) where
  -- Of task `a` the result and the queues hold together as many as the queues held before, and only the
  -- queues changed.
  abbrev Kept : Scheduler → Outcome × Scheduler → Type 0
  Kept s r =
      (handed a r.0 + queued a n r.1.queues ≡ queued a n s.queues)
      × (r.1 ≡ record s { queues = r.1.queues })

  take_right-Kept : (me : ℕ) (s : Scheduler) → me < n → Kept s (take_right me s)
  unfolding take_right put
  take_right-Kept me s lt = elim (Option-cases (pop_right (s.queues me))) [
    | inl e ↦ rw (e, take_right) (omega arith, refl)
    | inr (p, e) ↦
        let (q, t) = p in
        rw (e, take_right)
          (
            ground
                (arith, pop_right-times a (s.queues me) q t e, queued-update a n me s.queues q lt),
            refl,
          )
  ]

  -- A NULL that went to the left end counts for nothing.
  null_back-Kept :
      (me victim : ℕ) (s : Scheduler) (q : List ℕ)
      → me < n
      → victim < n
      → times a (s.queues victim) ≡ times a q
      → Kept s (take_right me (put s victim (push_left 0 q)))
  unfolding put push_left
  null_back-Kept me victim s q lt vlt e =
      let k = take_right-Kept me (put s victim (push_left 0 q)) lt in
      (ground (arith, k.0, queued-update a n victim s.queues (0 ∷ q) vlt), k.1)

  stolen-Kept :
      (me victim t : ℕ) (s : Scheduler) (q : List ℕ)
      → me < n
      → victim < n
      → s.queues victim ≡ t ∷ q
      → Kept s (
          if t == 0 then take_right me (put s victim (push_left t q)) else (task t, put s victim q))
  unfolding put push_left
  stolen-Kept me victim t s q lt vlt e = elim (Bool-cases (t == 0)) [
    | inl signal ↦
        let null : t ≡ 0 = ground (arith, signal) in
        let same : times a (s.queues victim) ≡ times a q = ground (arith, e, null) in
        rw signal (rw null (null_back-Kept me victim s q lt vlt same))
    | inr work ↦ rw work (ground (arith, queued-update a n victim s.queues q vlt), refl)
  ]

  steal_loop-Kept :
      (m i me : ℕ) (s : Scheduler) → me < n → s.thread_num ≡ n → Kept s (steal_loop m i me s)
  unfolding steal_loop
  steal_loop-Kept zero i me s lt e = take_right-Kept me s lt
  steal_loop-Kept (suc m) i me s lt e =
      elim (Option-cases (pop_left (s.queues ((i + me) % s.thread_num)))) [
        | inl none_there ↦ rw (none_there, steal_loop) (steal_loop-Kept m (i + 1) me s lt e)
        | inr (p, f) ↦
            rw (f, steal_loop)
              (stolen-Kept me victim p.0 s p.1 lt victim_lt (pop_left_lem _ p.1 p.0 f))
      ]
    where
      victim : ℕ
      victim = (i + me) % s.thread_num

      victim_lt : victim < n
      victim_lt = grind arith

  null_adds_nothing : (q : List ℕ) → times a (push_left 0 q) ≡ times a q
  unfolding push_left
  null_adds_nothing q = ground arith

  rotate-Kept :
      (me : ℕ) (s : Scheduler) (q : List ℕ)
      → me < n
      → times a (s.queues me) ≡ times a q
      → Kept s (rotate me q s)
  unfolding rotate put
  rotate-Kept me s q lt e = elim (Option-cases (pop_right (push_left 0 q))) [
    | inl f ↦
        rw (f, rotate)
          (
            ground
                (arith, queued-update a n me s.queues (push_left 0 q) lt, null_adds_nothing q, e),
            refl,
          )
    | inr (p, f) ↦
        let (r, t) = p in
        rw (f, rotate)
          (
            ground (
              arith,
              pop_right-times a (push_left 0 q) r t f,
              null_adds_nothing q,
              queued-update a n me s.queues r lt,
              e,
            ),
            ground arith,
          )
  ]

  got-Kept :
      (me t : ℕ) (s : Scheduler) (q : List ℕ)
      → me < n
      → pop_right (s.queues me) ≡ some (q, t)
      → Kept s (
          if t == 0
          then (if is_empty q then (ended, put s me q) else rotate me q s)
          else (task t, put s me q))
  unfolding put
  got-Kept me t s q lt f =
      let parts = pop_right-times a (s.queues me) q t f in
      let at = queued-update a n me s.queues q lt in
      elim (Bool-cases (t == 0)) [
        | inl signal ↦
            let same : times a (s.queues me) ≡ times a q = ground (arith, parts, signal) in
            elim (Bool-cases (is_empty q)) [
              | inl last ↦ rw (signal, last) (ground (arith, at, same), refl)
              | inr more ↦ rw (signal, more) (rotate-Kept me s q lt same)
            ]
        | inr work ↦ rw work (ground (arith, at, parts), refl)
      ]

  pub get_task-Kept : (me : ℕ) (s : Scheduler) → me < n → s.thread_num ≡ n → Kept s (get_task me s)
  unfolding get_task stealing
  get_task-Kept me s lt e = elim (Option-cases (pop_right (s.queues me))) [
    | inl f ↦ rw (f, get_task) (steal_loop-Kept (s.thread_num - 1) 0 me s lt e)
    | inr (p, f) ↦ rw (f, get_task) (got-Kept me p.1 s p.0 lt f)
  ]

  -- `t` joins the queue of number `index % n`.
  pub add_task_at-queued :
      (index t : ℕ) (s : Scheduler)
      → 0 < n
      → s.thread_num ≡ n
      → index < 2 ^ 31
      → queued a n (add_task_at index t s).queues ≡ queued a n s.queues + times a (t ∷ [])
  unfolding add_task_at put push_left
  add_task_at-queued index t s pos_n e small =
      let i = int_mod index s.thread_num in
      let i_lt : i < n = int_mod_lt index s.thread_num n small e pos_n in
      ground (arith, queued-update a n i s.queues (t ∷ s.queues i) i_lt)

  pub shutdown_loop-queued :
      (m i : ℕ) (s : Scheduler)
      → i + m ≤ n
      → queued a n (shutdown_loop m i s).queues ≡ queued a n s.queues
  unfolding shutdown_loop put push_left
  shutdown_loop-queued zero i s h = refl
  shutdown_loop-queued (suc m) i s h =
      let next = put s i (0 ∷ s.queues i) in
      ground (
        arith,
        shutdown_loop-queued m (i + 1) next (omega arith),
        queued-update a n i s.queues (0 ∷ s.queues i) (omega arith),
      )
