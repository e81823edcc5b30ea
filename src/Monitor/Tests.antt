-- ===== src/Monitor/Tests.antt =====
-- Half a second from the last tenth of a second on.
use amino.Prelude.{◌+◌, ◌-◌, ◌*◌, ◌%◌, ◌≡◌, ◌<◌, ◌↔◌}
use amino.Monitor.Deadline.{Time, deadline, nanoseconds, IsProper, deadline_lem}

abbrev late : Time
late = record { tv_sec = 5; tv_nsec = 900_000_000 }

deadline_lem_example :
    (nanoseconds (deadline late 500) ≡ nanoseconds late + 500 * 1_000_000)
    × (IsProper (deadline late 500) ↔ (late.tv_nsec < 1_000_000_000 - (500 % 1000) * 1_000_000))
deadline_lem_example = deadline_lem late 500
