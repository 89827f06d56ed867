-- ===== src/Processing/Selection.antt =====
-- The rules that apply to a member: `ActiveProgramAndPublishedRules` and
-- `ActiveProgramAndPublishedRuleSet` of accts-api/adapters/postgres/internal/repository/rule.go.
use paisa.Prelude.{
  String, ◌==◌, Bool, true, false, ◌&&◌, Option, none, some, List, [], ◌∷◌, map, any, find, keep,
}
use paisa.Prelude.Int.{ℤ, ltb_ℤ}
use paisa.Domain.Constants.{published, is_active, rule_status_eq, program_base, member_add_on}
use paisa.Domain.Members.{ProgramEnrollment, MemberRuleAssignment}
use paisa.Domain.Programs.{RuleVersion}
use paisa.Db.State.{Db, Tx, pure, query_row, ◌>>=◌}
use paisa.Programs.Store.{order_by, is_published_in}
use paisa.Members.Store.{is_enrolled}
use paisa.Members.Assignments.{in_force}

-- `ports.RuleSetSelection`
pub record RuleSetSelection : Type 0 where
  pub program_id : String
  pub base_rule_version_id : String
  pub add_on_rule_version_ids : List String
  pub rule_version_ids : List String

-- The joins of the first query: partner, member, account and program are active.
abbrev pub all_active : Db → ProgramEnrollment → Bool
all_active db e =
    any (λ p. p.id == e.partner_id && is_active p.status) db.partners
    && any (λ m. m.id == e.member_id && is_active m.status) db.members
    && any (λ a. a.member_id == e.member_id && is_active a.status) db.member_accounts
    && any (λ p. p.id == e.program_id && is_active p.status) db.programs

abbrev program_of : Option ProgramEnrollment → Option String
program_of none = none
program_of (some e) = some e.program_id

abbrev pub active_program : Db → String → String → Option String
active_program db partner_id member_id = program_of (
    find (λ e. e.partner_id == partner_id && is_enrolled member_id e && all_active db e)
      db.program_enrollments)

-- Whether `v` was published later than `w`; a missing time counts as the latest.
abbrev published_later : Option ℤ → Option ℤ → Bool
published_later none (some t) = true
published_later (some s) (some t) = ltb_ℤ t s
published_later _ none = false

abbrev first_id : List RuleVersion → Option String
first_id [] = none
first_id (v ∷ vs) = some v.id

abbrev pub base_version : Db → String → String → Option String
base_version db partner_id program_id = first_id (
    order_by (λ v w. published_later v.published_at w.published_at)
      (keep (is_published_in partner_id program_id program_base) db.rule_versions))

-- `ActiveProgramAndPublishedRules`
unfoldable pub active_program_and_published_rules : String → String → Tx (String × String)
active_program_and_published_rules partner_id member_id = do
  program_id ← query_row (λ db. active_program db partner_id member_id)
  version_id ← query_row (λ db. base_version db partner_id program_id)
  pure (program_id, version_id)

abbrev or_blank : Option String → String
or_blank none = ""
or_blank (some s) = s

abbrev pub blank_base : Db → String → Option String → String × String
blank_base db partner_id none = ("", "")
blank_base db partner_id (some program_id) =
    (program_id, or_blank (base_version db partner_id program_id))

-- The two ids that it returns with or without an error, which `processRefundEvent` drops.
unfoldable pub rules_or_blank : String → String → Tx (String × String)
rules_or_blank partner_id member_id db =
    pure (blank_base db partner_id (active_program db partner_id member_id)) db

-- The joins and the condition of the second query.
abbrev pub add_on_applies : Db → ℤ → String → MemberRuleAssignment → Bool
add_on_applies db now program_id a =
    in_force now a
    && any
        (λ e. e.id == a.program_enrollment_id && e.status == "active" && e.program_id == program_id)
        db.program_enrollments
    && any
        (λ v.
          v.id == a.rule_version_id
          && rule_status_eq v.status published
          && v.scope == member_add_on)
        db.rule_versions

abbrev version_id_of : MemberRuleAssignment → String
version_id_of a = a.rule_version_id

abbrev pub add_ons : Db → ℤ → String → String → String → List String
add_ons db now partner_id member_id program_id = map version_id_of (
    order_by (λ a b. ltb_ℤ a.starts_at b.starts_at)
      (keep
        (λ a.
          a.partner_id == partner_id
          && a.member_id == member_id
          && add_on_applies db now program_id a)
        db.member_rule_assignments))

-- `ActiveProgramAndPublishedRuleSet`
unfoldable pub active_program_and_published_rule_set : ℤ → String → String → Tx RuleSetSelection
unfolding active_program_and_published_rules
active_program_and_published_rule_set now partner_id member_id = do
  base ← active_program_and_published_rules partner_id member_id
  ids ← (λ db. pure (add_ons db now partner_id member_id base.0) db)
  pure (record {
    program_id = base.0;
    base_rule_version_id = base.1;
    add_on_rule_version_ids = ids;
    rule_version_ids = base.1 ∷ ids;
  })
