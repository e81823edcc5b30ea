-- ===== src/Queue.antt =====
-- include/amino/queue.h: LockFreeQueue, as steps of any number of threads. A step is one access of shared memory.
pub mod Memory
pub mod Moves
pub mod System
pub mod Invariant
pub mod Grows
pub mod Shape
pub mod Good
pub mod Enqueue
pub mod Dequeue
pub mod Recycle
pub mod Preserve
pub mod Safety
pub mod Whole
mod Reuse
mod Tests
