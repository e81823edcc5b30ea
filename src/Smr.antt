-- ===== src/Smr.antt =====
-- include/amino/smr.h: safe memory reclamation by hazard pointers, one operation at a time. What
-- concurrent threads see of it is in Stack.
pub mod Record
pub mod Scan
pub mod Domain
mod Tests
