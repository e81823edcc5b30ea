-- ===== src/Future/Result.antt =====
-- include/amino/future.h: what `get()` returns, and that it is told.
use amino.Prelude.{ℕ, ◌≡◌, refl, ◌∙◌, ap, true, List, ◌∷◌, arith, some, inl, inr}
use amino.Future.{
  Pc, run_notify, get_asleep, get_return, Event, returned, Shared, Move, get_returns, System, Step,
  moves, Run, later,
}
use amino.Future.Invariant.{last_stored, IsSound}
use amino.Future.Preserve.{Run-IsSound}

returns_result :
    {t : ℕ} {s m : Shared} {p q : Pc} {v : ℕ}
    → Move t s p (returned v) m q
    → (p ≡ get_return) × (s.result ≡ v)
returns_result get_returns = (refl, refl)

returned_stored :
    {es : List Event} {s s' : System} (v : ℕ)
    → IsSound es s
    → Step s (returned v) s'
    → last_stored es ≡ some v
returned_stored v ok (moves t mv) =
    let r = returns_result mv in ok.filled (ok.seen t (rw r.0 refl)) ∙ ap some r.1

-- In every execution, when `get()` returns, the task has run, and what it returns is what the last run of the
-- task before it stored: never a value from before the task ran.
pub get_returns_stored :
    (v w : ℕ) (es : List Event) (s : System) → Run w (returned v ∷ es) s → last_stored es ≡ some v
get_returns_stored v w es s (later run st) = returned_stored v (Run-IsSound run) st

-- No wake-up of `get()` is lost: in every execution, if a thread sleeps in it although the result is available,
-- then some thread holds the mutex and is about to call `notify_all`.
pub get_not_lost :
    (v : ℕ) (es : List Event) (s : System) (t : ℕ)
    → Run v es s
    → s.pcs t ≡ get_asleep
    → s.shared.is_avail ≡ true
    → (u : ℕ) × (s.pcs u ≡ run_notify) × (s.shared.holder ≡ some u)
get_not_lost v es s t run f a =
    let ok = Run-IsSound run in
    elim (ok.sleeps t (rw f refl)) [
      | inl z ↦ absurd (ground (arith, z, a))
      | inr (u, g) ↦ (u, g, ok.owned.owns u (rw g refl))
    ]
