-- ===== src/Ordered.antt =====
-- include/amino/ordered_list.h: OrderedList, as steps of any number of threads. A step is one access of shared memory.
pub mod Memory
pub mod Moves
pub mod System
pub mod Splice
pub mod Live
pub mod Invariant
pub mod Grows
pub mod Good
pub mod Cut
pub mod Find
pub mod Update
pub mod Alloc
pub mod Calls
pub mod Recycle
pub mod Preserve
pub mod Safety
pub mod Whole
mod Tests
