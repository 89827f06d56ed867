-- ===== src/System.antt =====
-- The services of accts-api/application together.
mod Untouched
mod Assignments
pub mod Reach
mod Tests
