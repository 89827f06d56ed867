-- ===== src/Transactions.antt =====
-- The ingestion of transactions: accts-api/application/transaction_service.go and
-- accts-api/adapters/postgres/internal/repository/transaction.go.
pub mod Store
pub mod Service
pub mod Ingested
pub mod Idempotent
pub mod Tests
