-- ===== src/Blocking/Preserve.antt =====
-- include/amino/bdeque.h: every step keeps the invariant.
use amino.Prelude.{
  ℕ, ◌≡◌, ◌≢◌, refl, sym, ◌∙◌, ap, subst, true, List, [], arith, some, ◌==◌, if◌then◌else◌, inl,
  inr, ◌⊎◌, Bool-cases, ==_iff,
}
use amino.Monitor.{Passes, IsOwned, IsOwned-step}
use amino.Blocking.{
  End, Pc, push_notify, take_asleep, take_awake, Event, notified, Shared, Move, System, woken, Step,
  moves, wakes, init, Run, start, later,
}
use amino.Blocking.Invariant.{
  has_lock, is_asleep, IsSound, Move-Passes, Move-sleeps, Move-asleep, Move-notifies,
  woken-has_lock, asleep-woken, woken-push_notify,
}

module _ (t : ℕ) (s : System) (e : Event) (m : Shared) (p : Pc)
    (mv : Move t s.shared (s.pcs t) e m p) (ok : IsSound s) where
  abbrev after : ℕ → Pc
  after u = if u == t then p else woken e (s.pcs u)

  at_t : after t ≡ p
  at_t = rw ((==_iff t t).1 refl) refl

  away : (u : ℕ) → u ≢ t → after u ≡ woken e (s.pcs u)
  away u n = ground (arith, n)

  moved-IsOwned : IsOwned has_lock m.holder after
  moved-IsOwned =
      IsOwned-step has_lock t s.pcs after s.shared.holder m.holder
        (subst (λ q. Passes t s.shared.holder (has_lock (s.pcs t)) m.holder (has_lock q)) (sym at_t)
          (Move-Passes mv))
        (λ u n. ap has_lock (away u n) ∙ woken-has_lock e (s.pcs u)) ok.owned

  -- Who was about to notify still is, unless this step notifies.
  still_notifies : (u : ℕ) → e ≢ notified → s.pcs u ≡ push_notify → after u ≡ push_notify
  still_notifies u quiet f = elim (Bool-cases (u == t)) [
    | inl y ↦
        let here : u ≡ t = ground (arith, y) in
        absurd (
          quiet
            (Move-notifies (subst (λ q. Move t s.shared q e m p) (ap (s.pcs) (sym here) ∙ f) mv)))
    | inr n ↦ rw (n, f) (woken-push_notify e)
  ]

  moved-sleeps :
      (u : ℕ) → is_asleep (after u) ≡ true → (m.items ≡ []) ⊎ ((w : ℕ) × (after w ≡ push_notify))
  moved-sleeps u a = elim (Bool-cases (u == t)) [
    | inl y ↦ inl (Move-asleep mv (rw y at a))
    | inr n ↦
        let slept = asleep-woken e (s.pcs u) (rw n at a) in
        elim (ok.sleeps u slept.0) [
          | inl z ↦ elim (Move-sleeps mv z) [
            | inl still ↦ inl still
            | inr adds ↦ inr (t, rw ((==_iff t t).1 refl) adds)
          ]
          | inr (w, f) ↦ inr (w, still_notifies w slept.1 f)
        ]
  ]

  pub moves-IsSound : IsSound (record { shared = m; pcs = after })
  moves-IsSound = record { owned = moved-IsOwned; sleeps = moved-sleeps }

-- A thread that wakes by itself holds nothing and sleeps no longer.
wakes-IsSound :
    (t : ℕ) (e : End) (s : System)
    → s.pcs t ≡ take_asleep e
    → IsSound s
    → IsSound (record s { pcs = λ u. if u == t then take_awake e else s.pcs u })
wakes-IsSound t e s f ok = record {
  owned = record {
    owns = λ u l. elim (Bool-cases (u == t)) [
      | inl y ↦ absurd (ground (arith, (rw y at l)))
      | inr n ↦ ok.owned.owns u (rw n at l)
    ];
    owned = λ u h.
        elim (Bool-cases (u == t))
          as (λ _. has_lock (if u == t then take_awake e else s.pcs u) ≡ true) [
            | inl y ↦ absurd (asleep_no_lock u y h)
            | inr n ↦ rw n (ok.owned.owned u h)
          ];
  };
  sleeps = λ u a. elim (Bool-cases (u == t)) [
    | inl y ↦ absurd (ground (arith, (rw y at a)))
    | inr n ↦ elim (ok.sleeps u (rw n at a)) [
      | inl z ↦ inl z
      | inr (w, g) ↦ inr (w, other_notifies w g)
    ]
  ];
}
  where
    asleep_no_lock : (u : ℕ) → u == t ≡ true → s.shared.holder ≡ some u → ⊥
    asleep_no_lock u y h =
        let here : u ≡ t = ground (arith, y) in
        let locked : has_lock (s.pcs t) ≡ true = ok.owned.owned t (h ∙ ap some here) in
        ground (arith, (rw f at locked))

    other_notifies :
        (w : ℕ) → s.pcs w ≡ push_notify → (if w == t then take_awake e else s.pcs w) ≡ push_notify
    other_notifies w g = elim (Bool-cases (w == t)) [
      | inl y ↦
          let here : w ≡ t = ground (arith, y) in
          let both : take_asleep e ≡ push_notify = sym f ∙ ap (s.pcs) (sym here) ∙ g in
          absurd (ground (arith, both))
      | inr n ↦ rw n g
    ]

Step-IsSound : {s : System} {e : Event} {s' : System} → Step s e s' → IsSound s → IsSound s'
Step-IsSound (moves t {s} {e} {m} {p} mv) ok = moves-IsSound t s e m p mv ok
Step-IsSound (wakes t e {s} f) ok = wakes-IsSound t e s f ok

pub Run-IsSound : {es : List Event} {s : System} → Run es s → IsSound s
unfolding init
Run-IsSound start = record {
  owned = record { owns = λ t l. absurd (ground arith); owned = λ t h. absurd (ground arith) };
  sleeps = λ t a. inl refl;
}
Run-IsSound (later run st) = Step-IsSound st (Run-IsSound run)
