-- ===== src/Db.antt =====
-- The database: its tables, and the statements of the repositories as actions on it.
pub mod Result
pub mod State
pub mod Accounts
pub mod Inversion
pub mod Char
pub mod Frame
