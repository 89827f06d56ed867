-- ===== src/Rewards.antt =====
-- The rule engine: accts-api/application/rule_engine.go, and the statements of
-- accts-api/adapters/postgres/internal/repository/rule.go and transaction.go that it runs.
pub mod Store
pub mod Candidate
pub mod Groups
pub mod Engine
pub mod Marks
pub mod Totals
pub mod Purchase
pub mod Refund
pub mod Best
pub mod Bounds
pub mod Reversal
pub mod Frame
mod Tests
