-- ===== src/Domain/Transactions.antt =====
-- The structs of accts-api/domain/types.go and accts-api/ports/stores.go on transactions and the
-- rewards for them. Times are in nanoseconds.
use paisa.Prelude.{String, Bool, List}
use paisa.Prelude.Int.{ℤ}
use paisa.Domain.Constants.{EventStatus}
use paisa.Domain.Config.{Fields}
use paisa.Domain.Rules.{SelectedAward}

pub record LineItemInput : Type 0 where
  pub external_line_id : String
  pub sku : String
  pub category : String
  pub quantity : ℤ
  pub subtotal_minor : ℤ
  pub tax_minor : ℤ
  pub total_minor : ℤ
  pub eligible_minor : ℤ

pub record TransactionCreateInput : Type 0 where
  pub partner_id : String
  pub member_id : String
  pub external_transaction_id : String
  pub original_external_transaction_id : String
  pub type : String
  pub currency : String
  pub subtotal_minor : ℤ
  pub tax_minor : ℤ
  pub total_minor : ℤ
  pub eligible_minor : ℤ
  pub occurred_at : ℤ
  pub raw_payload : Fields
  pub payload_hash : String

-- A row of the table transaction_events: what it was created from, its id and its status.
pub record TransactionRow : Type 0 where
  pub id : String
  pub status : EventStatus
  pub input : TransactionCreateInput

pub record TransactionIdentity : Type 0 where
  pub id : String
  pub payload_hash : String

pub record RewardProcessingEvent : Type 0 where
  pub id : String
  pub partner_id : String
  pub member_id : String
  pub external_transaction_id : String
  pub original_external_transaction_id : String
  pub type : String
  pub currency : String
  pub subtotal_minor : ℤ
  pub tax_minor : ℤ
  pub total_minor : ℤ
  pub eligible_minor : ℤ
  pub occurred_at : ℤ
  pub raw_payload : Fields
  pub lines : List LineItemInput

pub record RuleLimitUsage : Type 0 where
  pub partner_id : String
  pub rule_limit_id : String
  pub member_id : String
  pub period_key : String
  pub used_points : ℤ
  pub used_basis_amount_minor : ℤ

pub record RuleLimitUsageDelta : Type 0 where
  pub limit_id : String
  pub usage_points : ℤ
  pub usage_basis : ℤ

pub record TransactionIngestRequest : Type 0 where
  pub external_transaction_id : String
  pub external_customer_id : String
  pub original_external_transaction_id : String
  pub type : String
  pub currency : String
  pub subtotal_minor : ℤ
  pub tax_minor : ℤ
  pub total_minor : ℤ
  pub eligible_minor : ℤ
  pub occurred_at : String
  pub line_items : List LineItemInput

-- A row of reward_calculations; one that failed has no program and no rule version.
pub record RewardCalculation : Type 0 where
  pub id : String
  pub partner_id : String
  pub transaction_event_id : String
  pub program_id : String
  pub rule_version_id : String
  pub succeeded : Bool
  pub points_delta : ℤ
  pub basis_amount_minor : ℤ
  pub selected_awards : List SelectedAward
  pub failure_reason : String
