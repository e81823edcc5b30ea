-- ===== src/Monitor.antt =====
-- A mutex and the threads that use it, for the classes of include/amino that wait on a condition variable
-- (include/amino/mutex.h, condition.h: wrappers of POSIX). `h` names the thread that holds the mutex.
pub mod Deadline
mod Tests
use amino.Prelude.{
  ℕ, ◌≡◌, ◌≢◌, ◌↔◌, refl, sym, ◌∙◌, ap, Bool, true, false, arith, Option, none, some, ◌==◌, inl,
  inr, Bool-cases,
}

-- What a step of thread `t` does to the mutex: it stays, `t` takes the free mutex, or `t` gives it back.
-- The Booleans tell whether `t` stands where it holds the mutex, before and after.
pub data Passes (t : ℕ) (h : Option ℕ) : Bool → Option ℕ → Bool → Type 0 where
  stays : {b : Bool} → Passes t h b h b
  takes : h ≡ none → Passes t h false (some t) true
  gives : Passes t h true none false

Passes-owns :
    {t : ℕ} {h h' : Option ℕ} {b b' : Bool}
    → Passes t h b h' b'
    → (b ≡ true → h ≡ some t)
    → b' ≡ true
    → h' ≡ some t
Passes-owns stays own l = own l
Passes-owns (takes f) own l = refl
Passes-owns gives own l = absurd (ground arith)

Passes-owned :
    {t : ℕ} {h h' : Option ℕ} {b b' : Bool}
    → Passes t h b h' b'
    → (h ≡ some t → b ≡ true)
    → h' ≡ some t
    → b' ≡ true
Passes-owned stays owned l = owned l
Passes-owned (takes f) owned l = refl
Passes-owned gives owned l = absurd (ground arith)

Passes-others :
    {t : ℕ} {h h' : Option ℕ} {b b' : Bool} (u : ℕ)
    → Passes t h b h' b'
    → u ≢ t
    → (b ≡ true → h ≡ some t)
    → (h ≡ some u) ↔ (h' ≡ some u)
Passes-others u stays n own = (λ f. f, λ f. f)
Passes-others u (takes f) n own = (λ g. absurd (ground arith), λ g. absurd (ground arith))
Passes-others u gives n own = (λ g. absurd (ground (arith, own refl)), λ g. absurd (ground arith))

-- The mutex is with the thread that stands where `has_lock` says so, and with no other.
pub record IsOwned {P : Type 0} (has_lock : P → Bool) (h : Option ℕ) (pcs : ℕ → P) : Type 0 where
  pub owns : (t : ℕ) → has_lock (pcs t) ≡ true → h ≡ some t
  pub owned : (t : ℕ) → h ≡ some t → has_lock (pcs t) ≡ true

-- A step of thread `t` that leaves the other threads where they hold, or do not hold, the mutex.
pub IsOwned-step :
    {P : Type 0} (has_lock : P → Bool) (t : ℕ) (pcs pcs' : ℕ → P) (h h' : Option ℕ)
    → Passes t h (has_lock (pcs t)) h' (has_lock (pcs' t))
    → ((u : ℕ) → u ≢ t → has_lock (pcs' u) ≡ has_lock (pcs u))
    → IsOwned has_lock h pcs
    → IsOwned has_lock h' pcs'
IsOwned-step {P} has_lock t pcs pcs' h h' passes same ok = record { owns = owns; owned = owned }
  where
    owns : (u : ℕ) → has_lock (pcs' u) ≡ true → h' ≡ some u
    owns u l = elim (Bool-cases (u == t)) [
      | inl y ↦
          let here : u ≡ t = ground (arith, y) in
          Passes-owns passes (ok.owns t) (ap (λ z. has_lock (pcs' z)) (sym here) ∙ l)
          ∙ ap some (sym here)
      | inr n ↦
          let away : u ≢ t = ground (arith, n) in
          (Passes-others u passes away (ok.owns t)).0 (ok.owns u (sym (same u away) ∙ l))
    ]

    owned : (u : ℕ) → h' ≡ some u → has_lock (pcs' u) ≡ true
    owned u f = elim (Bool-cases (u == t)) [
      | inl y ↦
          let here : u ≡ t = ground (arith, y) in
          ap (λ z. has_lock (pcs' z)) here ∙ Passes-owned passes (ok.owned t) (f ∙ ap some here)
      | inr n ↦
          let away : u ≢ t = ground (arith, n) in
          same u away ∙ ok.owned u ((Passes-others u passes away (ok.owns t)).1 f)
    ]
