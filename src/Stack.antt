-- ===== src/Stack.antt =====
-- include/amino/stack.h: the lock-free stack, its threads interleaved one shared access at a time,
-- with the hazard pointers of include/amino/smr.h that guard its nodes.
pub mod Memory
pub mod Moves
pub mod Spec
pub mod System
pub mod Invariant
pub mod Run
pub mod Safety
pub mod Whole
mod Tests
