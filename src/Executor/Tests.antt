-- ===== src/Executor/Tests.antt =====
-- A pool of two threads: a task is submitted and run, and the pool is halted.
use amino.Prelude.{◌≡◌, false, [], ◌∷◌, arith, List}
use amino.Executor.{start, finished, PoolCall, submits, halts, works, act_all}
use amino.Executor.Halt.{halt_never_finishes}

abbrev halted : List PoolCall
halted = submits 5 ∷ works 0 ∷ halts ∷ works 0 ∷ works 1 ∷ works 0 ∷ []

halt_never_finishes_example :
    (finished (act_all halted (start 2)) ≡ false) × ((act_all halted (start 2)).active_count ≡ 2)
halt_never_finishes_example =
    halt_never_finishes 2 halted (omega arith) (ground arith, (tt, (tt, (tt, (tt, (tt, tt))))))
