-- ===== src/Blocking/Invariant.antt =====
-- include/amino/bdeque.h: the mutex, and what a sleeping thread may rely on.
use amino.Prelude.{
  ℕ, ◌≡◌, ◌≢◌, refl, Bool, true, false, List, [], ◌∷◌, arith, none, some, inl, inr, ◌⊎◌,
  Option-cases,
}
use amino.Scheduler.Queue.{pop_left, pop_right, pop_right-none}
use amino.Monitor.{Passes, stays, takes, gives, IsOwned}
use amino.Blocking.{
  End, left, right, pop_end, Pc, idle, push_lock, push_add, push_notify, push_unlock, take_pop,
  take_lock, take_empty, take_asleep, take_awake, take_unlock, Event, silent, added, removed,
  found_empty, notified, Shared, Move, call_push, push_locks, push_adds, push_notifies,
  push_unlocks, call_take, take_pops, take_misses, take_locks, take_sleeps, take_stays,
  take_relocks, take_unlocks, pops, misses, System, woken,
}

-- Whether a thread holds the mutex, and whether it sleeps.
abbrev pub has_lock : Pc → Bool
has_lock idle = false
has_lock (push_lock e d) = false
has_lock (push_add e d) = true
has_lock push_notify = true
has_lock push_unlock = true
has_lock (take_pop e) = false
has_lock (take_lock e) = false
has_lock (take_empty e) = true
has_lock (take_asleep e) = false
has_lock (take_awake e) = false
has_lock (take_unlock e) = true

abbrev pub is_asleep : Pc → Bool
is_asleep idle = false
is_asleep (push_lock e d) = false
is_asleep (push_add e d) = false
is_asleep push_notify = false
is_asleep push_unlock = false
is_asleep (take_pop e) = false
is_asleep (take_lock e) = false
is_asleep (take_empty e) = false
is_asleep (take_asleep e) = true
is_asleep (take_awake e) = false
is_asleep (take_unlock e) = false

pub pop_end-none : (e : End) (q : List ℕ) → pop_end e q ≡ none → q ≡ []
unfolding pop_end pop_left
pop_end-none left [] h = refl
pop_end-none left (d ∷ q) h = absurd (ground arith)
pop_end-none right q h = elim (Option-cases (pop_right q)) [
  | inl f ↦ pop_right-none q f
  | inr (p, f) ↦ absurd (ground (arith, (rw (f, pop_end) at h)))
]

pop_end-empty : (e : End) (d : ℕ) (q r : List ℕ) → pop_end e q ≡ some (d, r) → q ≢ []
unfolding pop_end pop_left pop_right
pop_end-empty left d [] r h z = absurd (ground arith)
pop_end-empty left d (u ∷ q) r h z = absurd (ground arith)
pop_end-empty right d [] r h z = absurd (ground arith)
pop_end-empty right d (u ∷ q) r h z = absurd (ground arith)

-- The mutex is with the thread that holds it, and if a thread sleeps while the deque is not empty, another
-- one is about to wake it.
pub record IsSound (s : System) : Type 0 where
  pub owned : IsOwned has_lock s.shared.holder s.pcs
  pub sleeps :
      (t : ℕ)
      → is_asleep (s.pcs t) ≡ true
      → (s.shared.items ≡ []) ⊎ ((u : ℕ) × (s.pcs u ≡ push_notify))

pub Move-Passes :
    {t : ℕ} {s m : Shared} {p q : Pc} {e : Event}
    → Move t s p e m q
    → Passes t s.holder (has_lock p) m.holder (has_lock q)
Move-Passes (call_push e d) = stays
Move-Passes (push_locks f) = takes f
Move-Passes push_adds = stays
Move-Passes push_notifies = stays
Move-Passes push_unlocks = gives
Move-Passes (call_take e) = stays
Move-Passes (take_pops f) = stays
Move-Passes (take_misses f) = stays
Move-Passes (take_locks f) = takes f
Move-Passes (take_sleeps f) = gives
Move-Passes (take_stays f) = stays
Move-Passes (take_relocks f) = takes f
Move-Passes take_unlocks = gives
Move-Passes (pops e f) = stays
Move-Passes (misses e f) = stays

-- Sleepers after a step that does not notify: they slept before on a deque that stays empty, or `t` fell
-- asleep on an empty one, or `t` has just added something.
pub Move-sleeps :
    {t : ℕ} {s m : Shared} {p q : Pc} {e : Event}
    → Move t s p e m q
    → s.items ≡ []
    → (m.items ≡ []) ⊎ (q ≡ push_notify)
Move-sleeps (call_push e d) z = inl z
Move-sleeps (push_locks f) z = inl z
Move-sleeps push_adds z = inr refl
Move-sleeps push_notifies z = inl z
Move-sleeps push_unlocks z = inl z
Move-sleeps (call_take e) z = inl z
Move-sleeps (take_pops {e} {d} {q} f) z = absurd (pop_end-empty e d _ q f z)
Move-sleeps (take_misses f) z = inl z
Move-sleeps (take_locks f) z = inl z
Move-sleeps (take_sleeps f) z = inl z
Move-sleeps (take_stays f) z = inl z
Move-sleeps (take_relocks f) z = inl z
Move-sleeps take_unlocks z = inl z
Move-sleeps (pops e {d} {q} f) z = absurd (pop_end-empty e d _ q f z)
Move-sleeps (misses e f) z = inl z

-- A thread falls asleep on an empty deque only.
pub Move-asleep :
    {t : ℕ} {s m : Shared} {p q : Pc} {e : Event}
    → Move t s p e m q
    → is_asleep q ≡ true
    → m.items ≡ []
Move-asleep (call_push e d) a = absurd (ground arith)
Move-asleep (push_locks f) a = absurd (ground arith)
Move-asleep push_adds a = absurd (ground arith)
Move-asleep push_notifies a = absurd (ground arith)
Move-asleep push_unlocks a = absurd (ground arith)
Move-asleep (call_take e) a = absurd (ground arith)
Move-asleep (take_pops f) a = absurd (ground arith)
Move-asleep (take_misses f) a = absurd (ground arith)
Move-asleep (take_locks f) a = absurd (ground arith)
Move-asleep (take_sleeps f) a = f
Move-asleep (take_stays f) a = absurd (ground arith)
Move-asleep (take_relocks f) a = absurd (ground arith)
Move-asleep take_unlocks a = absurd (ground arith)
Move-asleep (pops e f) a = absurd (ground arith)
Move-asleep (misses e f) a = absurd (ground arith)

pub Move-notifies :
    {t : ℕ} {s m : Shared} {q : Pc} {e : Event} → Move t s push_notify e m q → e ≡ notified
Move-notifies push_notifies = refl

pub woken-has_lock : (e : Event) (p : Pc) → has_lock (woken e p) ≡ has_lock p
unfolding woken
woken-has_lock silent p = refl
woken-has_lock (added e d) p = refl
woken-has_lock (removed e d) p = refl
woken-has_lock (found_empty e) p = refl
woken-has_lock notified idle = refl
woken-has_lock notified (push_lock e d) = refl
woken-has_lock notified (push_add e d) = refl
woken-has_lock notified push_notify = refl
woken-has_lock notified push_unlock = refl
woken-has_lock notified (take_pop e) = refl
woken-has_lock notified (take_lock e) = refl
woken-has_lock notified (take_empty e) = refl
woken-has_lock notified (take_asleep e) = refl
woken-has_lock notified (take_awake e) = refl
woken-has_lock notified (take_unlock e) = refl

pub none_asleep : (p : Pc) → is_asleep (woken notified p) ≡ false
unfolding woken
none_asleep idle = refl
none_asleep (push_lock e d) = refl
none_asleep (push_add e d) = refl
none_asleep push_notify = refl
none_asleep push_unlock = refl
none_asleep (take_pop e) = refl
none_asleep (take_lock e) = refl
none_asleep (take_empty e) = refl
none_asleep (take_asleep e) = refl
none_asleep (take_awake e) = refl
none_asleep (take_unlock e) = refl

-- A thread that sleeps after the step of another one slept before, and was not notified.
pub asleep-woken :
    (e : Event) (p : Pc) → is_asleep (woken e p) ≡ true → (is_asleep p ≡ true) × (e ≢ notified)
unfolding woken
asleep-woken silent p a = (a, λ f. ground arith)
asleep-woken (added e d) p a = (a, λ f. ground arith)
asleep-woken (removed e d) p a = (a, λ f. ground arith)
asleep-woken (found_empty e) p a = (a, λ f. ground arith)
asleep-woken notified p a = absurd (ground (arith, none_asleep p))

pub woken-push_notify : (e : Event) → woken e push_notify ≡ push_notify
unfolding woken
woken-push_notify silent = refl
woken-push_notify (added e d) = refl
woken-push_notify (removed e d) = refl
woken-push_notify (found_empty e) = refl
woken-push_notify notified = refl
