-- ===== src/Domain/Constants.antt =====
-- The string constants of accts-api/domain/constants.go, as enumerations.
use paisa.Prelude.{ℕ, String, eqb, Bool, true, false}

-- `Entry...`
pub data EntryType : Type 0 where
  earn refund adjustment redemption_reserve redemption_capture : EntryType
  reservation_release points_expiration : EntryType

-- `Redemption...`
pub data RedemptionStatus : Type 0 where
  requested reserved validated captured released expired voided : RedemptionStatus

-- `Status...`, of partners, members, accounts and catalog items; the column holds any text.
pub data Status : Type 0 where
  active suspended closed : Status
  other : String → Status

-- `Status...`, of transaction events.
pub data EventStatus : Type 0 where
  accepted processing processed failed : EventStatus

-- `RuleDraft`, `RulePublished` and `RuleArchived`.
pub data RuleStatus : Type 0 where
  draft published archived : RuleStatus

abbrev pub rule_status_code : RuleStatus → ℕ
rule_status_code draft = 0
rule_status_code published = 1
rule_status_code archived = 2

abbrev pub rule_status_eq : RuleStatus → RuleStatus → Bool
rule_status_eq a b = eqb (rule_status_code a) (rule_status_code b)

-- `RuleScopeProgramBase` and `RuleScopeMemberAddOn`.
abbrev pub program_base : String
program_base = "program_base"

abbrev pub member_add_on : String
member_add_on = "member_add_on"

abbrev pub is_active : Status → Bool
is_active active = true
is_active _ = false

abbrev pub is_reserved : RedemptionStatus → Bool
is_reserved reserved = true
is_reserved _ = false

-- `status != reserved && status != validated` is the negation.
abbrev pub is_open : RedemptionStatus → Bool
is_open reserved = true
is_open validated = true
is_open _ = false
