-- ===== src/Future/Preserve.antt =====
-- include/amino/future.h: every step keeps the invariant.
use amino.Prelude.{
  ℕ, ◌≡◌, ◌≢◌, refl, sym, ◌∙◌, ap, subst, Bool, true, false, List, ◌∷◌, arith, some, ◌==◌, ==_iff,
  if◌then◌else◌, inl, inr, ◌⊎◌, Bool-cases,
}
use amino.Monitor.{Passes, IsOwned, IsOwned-step}
use amino.Future.{
  Pc, run_notify, Event, silent, notified, Shared, Move, System, wake, woken, Step, moves, wakes,
  Run, start, later,
}
use amino.Future.Invariant.{has_lock, is_asleep, has_seen, has_stored, last_stored, IsSound}
use amino.Future.Moves.{
  Move-Passes, Move-avail, Move-seen, Move-keeps, Move-kept, Move-filled, Move-sleeps, Move-unset,
  Move-notifies,
}

-- A thread that another one wakes, or not, stands where it knows as much as before.
module _ (e : Event) (p : Pc) where
  woken-has_lock : has_lock (woken e p) ≡ has_lock p
  woken-has_lock = ground arith

  woken-has_seen : has_seen (woken e p) ≡ has_seen p
  woken-has_seen = ground arith

  woken-has_stored : has_stored (woken e p) ≡ has_stored p
  woken-has_stored = ground arith

  asleep-woken : is_asleep (woken e p) ≡ true → (is_asleep p ≡ true) × (e ≢ notified)
  asleep-woken a = (ground arith, λ n. ground arith)

  woken-run_notify : p ≡ run_notify → woken e p ≡ run_notify
  woken-run_notify n = ground arith

module _ (es : List Event) (t : ℕ) (s : System) (e : Event) (m : Shared) (p : Pc)
    (mv : Move t s.shared (s.pcs t) e m p) (ok : IsSound es s) where
  abbrev after : ℕ → Pc
  after u = if u == t then p else woken e (s.pcs u)

  at_t : after t ≡ p
  at_t = rw ((==_iff t t).1 refl) refl

  away : (u : ℕ) → u ≢ t → after u ≡ woken e (s.pcs u)
  away u n = ground (arith, n)

  -- A fact about the place of each thread, from the one before.
  everywhere : (P : Pc → Type 0) → P p → ((u : ℕ) → P (woken e (s.pcs u))) → (u : ℕ) → P (after u)
  everywhere P here there u = elim (Bool-cases (u == t)) [
    | inl y ↦ rw y here
    | inr n ↦ rw n (there u)
  ]

  moved-IsOwned : IsOwned has_lock m.holder after
  moved-IsOwned =
      IsOwned-step has_lock t s.pcs after s.shared.holder m.holder
        (subst (λ q. Passes t s.shared.holder (has_lock (s.pcs t)) m.holder (has_lock q)) (sym at_t)
          (Move-Passes mv))
        (λ u n. ap has_lock (away u n) ∙ woken-has_lock e (s.pcs u)) ok.owned

  still_notifies : (u : ℕ) → e ≢ notified → s.pcs u ≡ run_notify → after u ≡ run_notify
  still_notifies u quiet f = elim (Bool-cases (u == t)) [
    | inl y ↦
        let here : u ≡ t = ground (arith, y) in
        absurd (
          quiet
            (Move-notifies (subst (λ q. Move t s.shared q e m p) (ap (s.pcs) (sym here) ∙ f) mv)))
    | inr n ↦ rw n (woken-run_notify e (s.pcs u) f)
  ]

  moved-sleeps :
      (u : ℕ)
      → is_asleep (after u) ≡ true
      → (m.is_avail ≡ false) ⊎ ((w : ℕ) × (after w ≡ run_notify))
  moved-sleeps =
      everywhere
        (λ q. is_asleep q ≡ true → (m.is_avail ≡ false) ⊎ ((w : ℕ) × (after w ≡ run_notify)))
        (λ a. inl (Move-sleeps mv a)) others
    where
      others :
          (u : ℕ)
          → is_asleep (woken e (s.pcs u)) ≡ true
          → (m.is_avail ≡ false) ⊎ ((w : ℕ) × (after w ≡ run_notify))
      others u a =
          let slept = asleep-woken e (s.pcs u) a in
          elim (ok.sleeps u slept.0) [
            | inl z ↦ elim (Move-unset mv z) [
              | inl still ↦ inl still
              | inr sets ↦ inr (t, at_t ∙ sets)
            ]
            | inr (w, f) ↦ inr (w, still_notifies w slept.1 f)
          ]

  moves-IsSound : IsSound (e ∷ es) (record { shared = m; pcs = after })
  moves-IsSound = record {
    owned = moved-IsOwned;
    sleeps = moved-sleeps;
    seen =
        everywhere (λ q. has_seen q ≡ true → m.is_avail ≡ true) (Move-seen mv (ok.seen t))
          (λ u l. Move-avail mv (ok.seen u (sym (woken-has_seen e (s.pcs u)) ∙ l)));
    kept =
        everywhere (λ q. has_stored q ≡ true → last_stored (e ∷ es) ≡ some m.result)
          (Move-kept es mv (ok.kept t))
          (λ u l. Move-keeps es mv (ok.kept u (sym (woken-has_stored e (s.pcs u)) ∙ l)));
    filled = Move-filled es mv (ok.kept t) ok.filled;
  }

module _ (es : List Event) (t : ℕ) (s : System) (ok : IsSound es s) where
  abbrev by_itself : ℕ → Pc
  by_itself u = if u == t then wake (s.pcs u) else s.pcs u

  -- A fact about places that a wake-up does not change.
  unchanged :
      (f : Pc → Bool) → ((p : Pc) → f (wake p) ≡ f p) → (u : ℕ) → f (by_itself u) ≡ f (s.pcs u)
  unchanged f same u = elim (Bool-cases (u == t)) [
    | inl y ↦ rw y (same (s.pcs u))
    | inr n ↦ rw n refl
  ]

  was_asleep : (u : ℕ) → is_asleep (by_itself u) ≡ true → is_asleep (s.pcs u) ≡ true
  was_asleep u a = elim (Bool-cases (u == t)) [
    | inl y ↦ absurd (ground (arith, asleep-woken notified (s.pcs u), (rw y at a)))
    | inr n ↦ (rw n at a)
  ]

  notifies_still : (u : ℕ) → s.pcs u ≡ run_notify → by_itself u ≡ run_notify
  notifies_still u f = elim (Bool-cases (u == t)) [
    | inl y ↦ rw y (woken-run_notify notified (s.pcs u) f)
    | inr n ↦ rw n f
  ]

  wakes-IsSound : IsSound (silent ∷ es) (record s { pcs = by_itself })
  wakes-IsSound = record {
    owned = record {
      owns = λ u l. ok.owned.owns u (sym (unchanged has_lock (woken-has_lock notified) u) ∙ l);
      owned = λ u h. unchanged has_lock (woken-has_lock notified) u ∙ ok.owned.owned u h;
    };
    sleeps = λ u a. elim (ok.sleeps u (was_asleep u a)) [
      | inl z ↦ inl z
      | inr (w, f) ↦ inr (w, notifies_still w f)
    ];
    seen = λ u l. ok.seen u (sym (unchanged has_seen (woken-has_seen notified) u) ∙ l);
    kept = λ u l. ok.kept u (sym (unchanged has_stored (woken-has_stored notified) u) ∙ l);
    filled = ok.filled;
  }

Step-IsSound :
    {es : List Event} {s : System} {e : Event} {s' : System}
    → Step s e s'
    → IsSound es s
    → IsSound (e ∷ es) s'
Step-IsSound {es} (moves t {s} {e} {m} {p} mv) ok = moves-IsSound es t s e m p mv ok
Step-IsSound {es} (wakes t {s}) ok = wakes-IsSound es t s ok

pub Run-IsSound : {v : ℕ} {es : List Event} {s : System} → Run v es s → IsSound es s
Run-IsSound start = record {
  owned = record { owns = λ t l. absurd (ground arith); owned = λ t h. absurd (ground arith) };
  sleeps = λ t a. inl refl;
  seen = λ t l. absurd (ground arith);
  kept = λ t l. absurd (ground arith);
  filled = λ a. absurd (ground arith);
}
Run-IsSound (later run st) = Step-IsSound st (Run-IsSound run)
