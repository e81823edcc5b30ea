-- ===== src/Monitor/Deadline.antt =====
-- include/amino/condition.h: the deadline that `timed_wait` hands to POSIX, which refuses a time whose
-- nanoseconds are a second or more.
use amino.Prelude.{ℕ, ◌+◌, ◌-◌, ◌*◌, ◌/◌, ◌%◌, ◌≡◌, ◌<◌, ◌↔◌, arith}

-- `struct timespec`
pub record Time : Type 0 where
  pub tv_sec : ℕ
  pub tv_nsec : ℕ

pub deadline : Time → ℕ → Time
deadline now milli = record {
  tv_sec = now.tv_sec + milli / 1000;
  tv_nsec = now.tv_nsec + (milli % 1000) * 1_000_000;
}

abbrev pub nanoseconds : Time → ℕ
nanoseconds t = t.tv_sec * 1_000_000_000 + t.tv_nsec

-- A time that POSIX accepts.
abbrev pub IsProper : Time → Type 0
IsProper t = t.tv_nsec < 1_000_000_000

-- The deadline is `milli` milliseconds after now; but POSIX accepts it only if the part of them that is less
-- than a second does not pass the end of the running second.
pub deadline_lem :
    (now : Time) (milli : ℕ)
    → (nanoseconds (deadline now milli) ≡ nanoseconds now + milli * 1_000_000)
      × (IsProper (deadline now milli) ↔ (now.tv_nsec < 1_000_000_000 - (milli % 1000) * 1_000_000))
unfolding deadline
deadline_lem now milli = (omega arith, (λ h. omega arith, λ h. omega arith))
