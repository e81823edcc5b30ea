-- ===== src/HashSet.antt =====
-- include/amino/lockfree_set.h: the split-ordered hash set: its arithmetic on 32-bit words, and its calls.
pub mod Bits
pub mod Word
pub mod Reverse
pub mod Parent
pub mod Order
pub mod Nodes
pub mod Sorted
pub mod Removal
pub mod Table
pub mod Buckets
pub mod Valid
pub mod Initialize
pub mod Elements
pub mod Growth
pub mod Answers
pub mod Start
pub mod Safety
mod Tests
