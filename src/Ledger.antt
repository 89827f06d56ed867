-- ===== src/Ledger.antt =====
-- The ledger: accts-api/adapters/postgres/internal/repository/ledger.go and
-- accts-api/application/ledger_service.go.
pub mod Store
pub mod Service
pub mod Posting
pub mod Reconciled
pub mod Adjustments
mod Tests
