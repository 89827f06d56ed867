-- ===== src/Programs.antt =====
-- The programs and the versions of their rules.
pub mod Store
pub mod Groups
pub mod Graph
pub mod Delete
pub mod Service
pub mod Versions
pub mod Inserted
pub mod Publishing
pub mod Versioned
pub mod Undeletable
pub mod Reach
pub mod Numbers
pub mod Final
pub mod Order
pub mod Tests
