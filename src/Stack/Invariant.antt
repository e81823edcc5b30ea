-- ===== src/Stack/Invariant.antt =====
-- include/amino/stack.h: what holds between any two steps of the stack's threads.
mod Defs
mod Moves
mod Shape
mod Push
mod Pop
mod Reclaim
mod Peek
mod Preserve
pub use Defs.*
pub use Preserve.*
