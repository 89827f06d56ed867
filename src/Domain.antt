-- ===== src/Domain.antt =====
-- The types and the pure functions of accts-api/domain.
pub mod Errors
pub mod Constants
pub mod Text
pub mod Types
pub mod Balance
pub mod Config
pub mod Rules
pub mod Publish
pub mod Acyclic
pub mod Programs
pub mod Members
pub mod Transactions
