-- ===== src/Redemption.antt =====
-- The redemption lifecycle: `RedemptionStore` and `CatalogStore` of
-- accts-api/adapters/postgres/internal/repository/merchant_ops.go, and `RedemptionService` of
-- accts-api/application/merchant_services.go.
pub mod Store
pub mod Service
pub mod Effects
pub mod Backed
pub mod Preservation
pub mod Transfers
pub mod Lifecycle
pub mod Progress
pub mod Reach
pub mod Cafe
mod Tests
