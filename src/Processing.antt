-- ===== src/Processing.antt =====
-- The processing of transaction events into rewards:
-- accts-api/application/reward_processing_service.go.
pub mod Store
pub mod Selection
pub mod Cache
pub mod Service
pub mod Frame
pub mod Balanced
pub mod Once
pub mod Settled
pub mod Reversed
pub mod Refunds
pub mod Cached
pub mod Counts
pub mod Tests
