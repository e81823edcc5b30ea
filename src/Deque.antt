-- ===== src/Deque.antt =====
-- include/amino/deque.h: LockFreeDeque, as steps of any number of threads. A step is one access of shared memory. What
-- the code writes once for the left and once for the right end is written once here, for an end.
pub mod Memory
pub mod Moves
pub mod System
pub mod Views
pub mod Shape
pub mod Lists
pub mod Ends
pub mod Invariant
pub mod Grows
pub mod Good
pub mod Kept
pub mod Turn
pub mod Publish
pub mod Push
pub mod Pop
pub mod Newest
pub mod Fix
pub mod Stabilize
pub mod Preserve
pub mod Safety
pub mod Whole
mod Tests
