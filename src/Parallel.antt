-- ===== src/Parallel.antt =====
-- include/amino/foreach.h, transform.h, accumulate.h: an algorithm over a range is cut into slices,
-- one task for each, which an executor runs in some order.
pub mod Slices
pub mod ForEach
pub mod Transform
pub mod Accumulate
pub mod Sort
mod Tests
