-- ===== src/Domain/Members.antt =====
-- The structs of accts-api/domain/types.go on members' identifiers, enrollments and assignments of
-- rules, and on the requests about them. Times are in nanoseconds.
use paisa.Prelude.{String, Bool, Option, List}
use paisa.Prelude.Int.{ℤ}
use paisa.Domain.Types.{Member, MemberAccount}

-- A row of member_identifiers.
pub record MemberIdentifier : Type 0 where
  pub partner_id : String
  pub member_id : String
  pub type : String
  pub value_hash : String

-- The status of an enrollment or an assignment is a text: active, ended, or what a request gives.
pub record ProgramEnrollment : Type 0 where
  pub id : String
  pub partner_id : String
  pub member_id : String
  pub program_id : String
  pub program_name : String
  pub status : String
  pub started_at : ℤ
  pub ended_at : Option ℤ
  pub effective_at : Option ℤ
  pub change_reason : String
  pub created_by_type : String
  pub created_by_id : String

pub record MemberRuleAssignment : Type 0 where
  pub id : String
  pub partner_id : String
  pub member_id : String
  pub program_enrollment_id : String
  pub rule_version_id : String
  pub rule_set_key : String
  pub name : String
  pub description : String
  pub program_id : String
  pub status : String
  pub starts_at : ℤ
  pub ends_at : Option ℤ
  pub reason : String
  pub created_by_type : String
  pub created_by_id : String

pub record EnrollmentRequest : Type 0 where
  pub program_id : String
  pub effective_at : String
  pub change_reason : String
  pub created_by_type : String
  pub created_by_id : String

pub record MemberRuleAssignmentRequest : Type 0 where
  pub rule_version_id : String
  pub starts_at : String
  pub reason : String
  pub created_by_type : String
  pub created_by_id : String

pub record MemberRuleAssignmentUpdateRequest : Type 0 where
  pub status : String
  pub ends_at : String
  pub reason : String

pub record IdentifierRequest : Type 0 where
  pub type : String
  pub value : String

-- `MemberRequest` and `ResolveMemberRequest` have the same fields.
pub record MemberRequest : Type 0 where
  pub external_customer_id : String
  pub identifiers : List IdentifierRequest
  pub program_id : String

pub record MemberCreateResult : Type 0 where
  pub member : Member
  pub account : MemberAccount

pub record ResolveMemberResult : Type 0 where
  pub member : Member
  pub account : MemberAccount
  pub created : Bool
