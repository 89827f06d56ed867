-- ===== src/Members.antt =====
-- The members of a partner, their enrollments and their add-on rules.
pub mod Store
pub mod Identifiers
pub mod Assignments
pub mod Service
pub mod Stored
pub mod Resolved
pub mod Enrolled
pub mod Reach
pub mod Tests
