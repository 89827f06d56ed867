-- ===== src/Domain/Types.antt =====
-- The structs of accts-api/domain/types.go that the ledger and the redemptions use. The columns
-- created_at and updated_at are left out; tables are kept in the order of insertion, newest first.
use paisa.Prelude.{String, Option, List}
use paisa.Prelude.Int.{ℤ}
use paisa.Domain.Constants.{EntryType, RedemptionStatus, Status}

pub record Partner : Type 0 where
  pub id : String
  pub partner_key : String
  pub name : String
  pub status : Status

pub record AuthContext : Type 0 where
  pub partner_id : String
  pub partner_key : String
  pub partner_name : String
  pub actor_type : String
  pub actor_id : String
  pub scopes : List String

pub record Member : Type 0 where
  pub id : String
  pub partner_id : String
  pub external_customer_id : String
  pub status : Status

pub record MemberAccount : Type 0 where
  pub id : String
  pub partner_id : String
  pub member_id : String
  pub status : Status

pub record BalanceSnapshot : Type 0 where
  pub member_account_id : String
  pub partner_id : String
  pub available_points : ℤ
  pub reserved_points : ℤ
  pub expired_points : ℤ

pub record LedgerEntry : Type 0 where
  pub id : String
  pub partner_id : String
  pub member_account_id : String
  pub program_id : String
  pub entry_type : EntryType
  pub available_delta : ℤ
  pub reserved_delta : ℤ
  pub expired_delta : ℤ
  pub source_type : String
  pub source_id : String
  pub reason : String
  pub created_by_type : String
  pub created_by_id : String

-- `ports.LedgerEntryInput`
pub record LedgerEntryInput : Type 0 where
  pub partner_id : String
  pub member_account_id : String
  pub program_id : String
  pub entry_type : EntryType
  pub available_delta : ℤ
  pub reserved_delta : ℤ
  pub expired_delta : ℤ
  pub source_type : String
  pub source_id : String
  pub reason : String
  pub created_by_type : String
  pub created_by_id : String

-- `ports.LedgerPostResult`
pub record LedgerPostResult : Type 0 where
  pub ledger_entry_id : String
  pub balance : BalanceSnapshot

pub record AdjustmentRequest : Type 0 where
  pub available_delta : ℤ
  pub reserved_delta : ℤ
  pub expired_delta : ℤ
  pub reason : String
  pub source_id : String

pub record CatalogItem : Type 0 where
  pub id : String
  pub partner_id : String
  pub program_id : String
  pub location_id : String
  pub name : String
  pub description : String
  pub points_cost : ℤ
  pub reward_type : String
  pub status : Status
  pub expires_after_minutes : ℤ

pub record Redemption : Type 0 where
  pub id : String
  pub partner_id : String
  pub member_id : String
  pub member_account_id : String
  pub catalog_item_id : String
  pub catalog_item_name : String
  pub code : String
  pub status : RedemptionStatus
  pub points_cost : ℤ
  pub reservation_expires_at : Option ℤ
  pub failure_reason : String

pub record RedemptionRequest : Type 0 where
  pub member_id : String
  pub catalog_item_id : String

pub record RedemptionActionResult : Type 0 where
  pub redemption : Redemption
  pub ledger_entry_id : String
  pub balance : BalanceSnapshot
