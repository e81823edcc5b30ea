-- ===== src/Future/Moves.antt =====
-- include/amino/future.h: each step of a thread, for each part of the invariant.
use amino.Prelude.{ℕ, ◌≡◌, refl, true, false, List, ◌∷◌, arith, some, inl, inr, ◌⊎◌}
use amino.Monitor.{Passes, stays, takes, gives}
use amino.Future.{
  Pc, run_notify, Event, notified, Shared, Move, call_run, run_stores, run_locks, run_sets,
  run_notifies, run_unlocks, call_get, get_finds, get_misses, get_locks, get_breaks, get_waits,
  get_relocks, get_releases, get_leaves, get_returns, call_timed, timed_finds, timed_misses,
  timed_locks, timed_waits, times_out, timed_relocks, late_relocks, timed_takes, timed_fails,
  timed_reads,
}
use amino.Future.Invariant.{has_lock, is_asleep, has_seen, has_stored, last_stored}

pub Move-Passes :
    {t : ℕ} {s m : Shared} {p q : Pc} {e : Event}
    → Move t s p e m q
    → Passes t s.holder (has_lock p) m.holder (has_lock q)
Move-Passes (call_run f) = stays
Move-Passes run_stores = stays
Move-Passes (run_locks f) = takes f
Move-Passes run_sets = stays
Move-Passes run_notifies = stays
Move-Passes run_unlocks = gives
Move-Passes call_get = stays
Move-Passes (get_finds f g) = stays
Move-Passes (get_misses f g) = stays
Move-Passes (get_locks f) = takes f
Move-Passes (get_breaks f) = stays
Move-Passes (get_waits f) = gives
Move-Passes (get_relocks f) = takes f
Move-Passes get_releases = gives
Move-Passes get_leaves = gives
Move-Passes get_returns = stays
Move-Passes call_timed = stays
Move-Passes (timed_finds f) = stays
Move-Passes (timed_misses f) = stays
Move-Passes (timed_locks f) = takes f
Move-Passes timed_waits = gives
Move-Passes times_out = stays
Move-Passes (timed_relocks f) = takes f
Move-Passes (late_relocks f) = takes f
Move-Passes timed_takes = gives
Move-Passes timed_fails = gives
Move-Passes timed_reads = stays

-- Once set, `isAvail` stays set.
pub Move-avail :
    {t : ℕ} {s m : Shared} {p q : Pc} {e : Event}
    → Move t s p e m q
    → s.is_avail ≡ true
    → m.is_avail ≡ true
Move-avail (call_run f) a = a
Move-avail run_stores a = a
Move-avail (run_locks f) a = a
Move-avail run_sets a = refl
Move-avail run_notifies a = a
Move-avail run_unlocks a = a
Move-avail call_get a = a
Move-avail (get_finds f g) a = a
Move-avail (get_misses f g) a = a
Move-avail (get_locks f) a = a
Move-avail (get_breaks f) a = a
Move-avail (get_waits f) a = a
Move-avail (get_relocks f) a = a
Move-avail get_releases a = a
Move-avail get_leaves a = a
Move-avail get_returns a = a
Move-avail call_timed a = a
Move-avail (timed_finds f) a = a
Move-avail (timed_misses f) a = a
Move-avail (timed_locks f) a = a
Move-avail timed_waits a = a
Move-avail times_out a = a
Move-avail (timed_relocks f) a = a
Move-avail (late_relocks f) a = a
Move-avail timed_takes a = a
Move-avail timed_fails a = a
Move-avail timed_reads a = a

pub Move-seen :
    {t : ℕ} {s m : Shared} {p q : Pc} {e : Event}
    → Move t s p e m q
    → (has_seen p ≡ true → s.is_avail ≡ true)
    → has_seen q ≡ true
    → m.is_avail ≡ true
Move-seen (call_run f) k l = ground (arith, k)
Move-seen run_stores k l = ground (arith, k)
Move-seen (run_locks f) k l = ground (arith, k)
Move-seen run_sets k l = refl
Move-seen run_notifies k l = ground (arith, k)
Move-seen run_unlocks k l = ground (arith, k)
Move-seen call_get k l = ground (arith, k)
Move-seen (get_finds f g) k l = g
Move-seen (get_misses f g) k l = ground (arith, k)
Move-seen (get_locks f) k l = ground (arith, k)
Move-seen (get_breaks f) k l = f
Move-seen (get_waits f) k l = ground (arith, k)
Move-seen (get_relocks f) k l = ground (arith, k)
Move-seen get_releases k l = ground (arith, k)
Move-seen get_leaves k l = ground (arith, k)
Move-seen get_returns k l = ground (arith, k)
Move-seen call_timed k l = ground (arith, k)
Move-seen (timed_finds f) k l = f
Move-seen (timed_misses f) k l = ground (arith, k)
Move-seen (timed_locks f) k l = ground (arith, k)
Move-seen timed_waits k l = ground (arith, k)
Move-seen times_out k l = ground (arith, k)
Move-seen (timed_relocks f) k l = ground (arith, k)
Move-seen (late_relocks f) k l = ground (arith, k)
Move-seen timed_takes k l = ground (arith, k)
Move-seen timed_fails k l = ground (arith, k)
Move-seen timed_reads k l = ground (arith, k)

-- The result is that of the last run, as long as it was before and through every store.
pub Move-keeps :
    {t : ℕ} {s m : Shared} {p q : Pc} {e : Event} (es : List Event)
    → Move t s p e m q
    → last_stored es ≡ some s.result
    → last_stored (e ∷ es) ≡ some m.result
Move-keeps es (call_run f) l = l
Move-keeps es run_stores l = refl
Move-keeps es (run_locks f) l = l
Move-keeps es run_sets l = l
Move-keeps es run_notifies l = l
Move-keeps es run_unlocks l = l
Move-keeps es call_get l = l
Move-keeps es (get_finds f g) l = l
Move-keeps es (get_misses f g) l = l
Move-keeps es (get_locks f) l = l
Move-keeps es (get_breaks f) l = l
Move-keeps es (get_waits f) l = l
Move-keeps es (get_relocks f) l = l
Move-keeps es get_releases l = l
Move-keeps es get_leaves l = l
Move-keeps es get_returns l = l
Move-keeps es call_timed l = l
Move-keeps es (timed_finds f) l = l
Move-keeps es (timed_misses f) l = l
Move-keeps es (timed_locks f) l = l
Move-keeps es timed_waits l = l
Move-keeps es times_out l = l
Move-keeps es (timed_relocks f) l = l
Move-keeps es (late_relocks f) l = l
Move-keeps es timed_takes l = l
Move-keeps es timed_fails l = l
Move-keeps es timed_reads l = l

pub Move-kept :
    {t : ℕ} {s m : Shared} {p q : Pc} {e : Event} (es : List Event)
    → Move t s p e m q
    → (has_stored p ≡ true → last_stored es ≡ some s.result)
    → has_stored q ≡ true
    → last_stored (e ∷ es) ≡ some m.result
Move-kept es (call_run f) k l = absurd (ground arith)
Move-kept es run_stores k l = refl
Move-kept es (run_locks f) k l = k refl
Move-kept es run_sets k l = absurd (ground arith)
Move-kept es run_notifies k l = absurd (ground arith)
Move-kept es run_unlocks k l = absurd (ground arith)
Move-kept es call_get k l = absurd (ground arith)
Move-kept es (get_finds f g) k l = absurd (ground arith)
Move-kept es (get_misses f g) k l = absurd (ground arith)
Move-kept es (get_locks f) k l = absurd (ground arith)
Move-kept es (get_breaks f) k l = absurd (ground arith)
Move-kept es (get_waits f) k l = absurd (ground arith)
Move-kept es (get_relocks f) k l = absurd (ground arith)
Move-kept es get_releases k l = absurd (ground arith)
Move-kept es get_leaves k l = absurd (ground arith)
Move-kept es get_returns k l = absurd (ground arith)
Move-kept es call_timed k l = absurd (ground arith)
Move-kept es (timed_finds f) k l = absurd (ground arith)
Move-kept es (timed_misses f) k l = absurd (ground arith)
Move-kept es (timed_locks f) k l = absurd (ground arith)
Move-kept es timed_waits k l = absurd (ground arith)
Move-kept es times_out k l = absurd (ground arith)
Move-kept es (timed_relocks f) k l = absurd (ground arith)
Move-kept es (late_relocks f) k l = absurd (ground arith)
Move-kept es timed_takes k l = absurd (ground arith)
Move-kept es timed_fails k l = absurd (ground arith)
Move-kept es timed_reads k l = absurd (ground arith)

pub Move-filled :
    {t : ℕ} {s m : Shared} {p q : Pc} {e : Event} (es : List Event)
    → Move t s p e m q
    → (has_stored p ≡ true → last_stored es ≡ some s.result)
    → (s.is_avail ≡ true → last_stored es ≡ some s.result)
    → m.is_avail ≡ true
    → last_stored (e ∷ es) ≡ some m.result
Move-filled es (call_run f) k l a = l a
Move-filled es run_stores k l a = refl
Move-filled es (run_locks f) k l a = l a
Move-filled es run_sets k l a = k refl
Move-filled es run_notifies k l a = l a
Move-filled es run_unlocks k l a = l a
Move-filled es call_get k l a = l a
Move-filled es (get_finds f g) k l a = l a
Move-filled es (get_misses f g) k l a = l a
Move-filled es (get_locks f) k l a = l a
Move-filled es (get_breaks f) k l a = l a
Move-filled es (get_waits f) k l a = l a
Move-filled es (get_relocks f) k l a = l a
Move-filled es get_releases k l a = l a
Move-filled es get_leaves k l a = l a
Move-filled es get_returns k l a = l a
Move-filled es call_timed k l a = l a
Move-filled es (timed_finds f) k l a = l a
Move-filled es (timed_misses f) k l a = l a
Move-filled es (timed_locks f) k l a = l a
Move-filled es timed_waits k l a = l a
Move-filled es times_out k l a = l a
Move-filled es (timed_relocks f) k l a = l a
Move-filled es (late_relocks f) k l a = l a
Move-filled es timed_takes k l a = l a
Move-filled es timed_fails k l a = l a
Move-filled es timed_reads k l a = l a

-- A thread falls asleep only while `isAvail` is not set.
pub Move-sleeps :
    {t : ℕ} {s m : Shared} {p q : Pc} {e : Event}
    → Move t s p e m q
    → is_asleep q ≡ true
    → m.is_avail ≡ false
Move-sleeps (call_run f) a = absurd (ground arith)
Move-sleeps run_stores a = absurd (ground arith)
Move-sleeps (run_locks f) a = absurd (ground arith)
Move-sleeps run_sets a = absurd (ground arith)
Move-sleeps run_notifies a = absurd (ground arith)
Move-sleeps run_unlocks a = absurd (ground arith)
Move-sleeps call_get a = absurd (ground arith)
Move-sleeps (get_finds f g) a = absurd (ground arith)
Move-sleeps (get_misses f g) a = absurd (ground arith)
Move-sleeps (get_locks f) a = absurd (ground arith)
Move-sleeps (get_breaks f) a = absurd (ground arith)
Move-sleeps (get_waits f) a = f
Move-sleeps (get_relocks f) a = absurd (ground arith)
Move-sleeps get_releases a = absurd (ground arith)
Move-sleeps get_leaves a = absurd (ground arith)
Move-sleeps get_returns a = absurd (ground arith)
Move-sleeps call_timed a = absurd (ground arith)
Move-sleeps (timed_finds f) a = absurd (ground arith)
Move-sleeps (timed_misses f) a = absurd (ground arith)
Move-sleeps (timed_locks f) a = absurd (ground arith)
Move-sleeps timed_waits a = absurd (ground arith)
Move-sleeps times_out a = absurd (ground arith)
Move-sleeps (timed_relocks f) a = absurd (ground arith)
Move-sleeps (late_relocks f) a = absurd (ground arith)
Move-sleeps timed_takes a = absurd (ground arith)
Move-sleeps timed_fails a = absurd (ground arith)
Move-sleeps timed_reads a = absurd (ground arith)

pub Move-unset :
    {t : ℕ} {s m : Shared} {p q : Pc} {e : Event}
    → Move t s p e m q
    → s.is_avail ≡ false
    → (m.is_avail ≡ false) ⊎ (q ≡ run_notify)
Move-unset (call_run f) a = inl a
Move-unset run_stores a = inl a
Move-unset (run_locks f) a = inl a
Move-unset run_sets a = inr refl
Move-unset run_notifies a = inl a
Move-unset run_unlocks a = inl a
Move-unset call_get a = inl a
Move-unset (get_finds f g) a = inl a
Move-unset (get_misses f g) a = inl a
Move-unset (get_locks f) a = inl a
Move-unset (get_breaks f) a = inl a
Move-unset (get_waits f) a = inl a
Move-unset (get_relocks f) a = inl a
Move-unset get_releases a = inl a
Move-unset get_leaves a = inl a
Move-unset get_returns a = inl a
Move-unset call_timed a = inl a
Move-unset (timed_finds f) a = inl a
Move-unset (timed_misses f) a = inl a
Move-unset (timed_locks f) a = inl a
Move-unset timed_waits a = inl a
Move-unset times_out a = inl a
Move-unset (timed_relocks f) a = inl a
Move-unset (late_relocks f) a = inl a
Move-unset timed_takes a = inl a
Move-unset timed_fails a = inl a
Move-unset timed_reads a = inl a

pub Move-notifies :
    {t : ℕ} {s m : Shared} {q : Pc} {e : Event} → Move t s run_notify e m q → e ≡ notified
Move-notifies run_notifies = refl
