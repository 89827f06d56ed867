-- ===== src/Members/Assignments.antt =====
-- The assignments of rules in accts-api/adapters/postgres/internal/repository/member.go.
use paisa.Prelude.{
  String, ◌==◌, Bool, true, not, ◌&&◌, ◌||◌, Option, none, some, List, [], ◌∷◌, any, find, keep,
  update_first, if◌then◌else◌,
}
use paisa.Prelude.Int.{ℤ, ltb_ℤ, leb_ℤ}
use paisa.Domain.Errors.{app_error_from_db}
use paisa.Domain.Constants.{published, rule_status_eq, member_add_on}
use paisa.Domain.Programs.{RuleVersion}
use paisa.Domain.Members.{
  ProgramEnrollment, MemberRuleAssignment, MemberRuleAssignmentRequest,
  MemberRuleAssignmentUpdateRequest,
}
use paisa.Db.State.{Tx, pure, fail, query_row, lift, ◌>>=◌, ◌>>◌}
use paisa.Ledger.Store.{duplicate_key}
use paisa.Programs.Store.{order_by, check_violation}
use paisa.Members.Store.{Cast, time_or_null, or_system, is_enrolled}

-- The join with program_rule_versions, which gives the names of the version.
abbrev pub with_version : List RuleVersion → MemberRuleAssignment → Option MemberRuleAssignment
with_version versions a = elim (find (λ v. v.id == a.rule_version_id) versions) [
  | none ↦ none
  | some v ↦ some (record a {
    rule_set_key = v.rule_set_key;
    name = v.name;
    description = v.description;
    program_id = v.program_id;
  })
]

abbrev versioned : List RuleVersion → Option MemberRuleAssignment → Option MemberRuleAssignment
versioned versions none = none
versioned versions (some a) = with_version versions a

abbrev pub is_assignment : String → String → String → MemberRuleAssignment → Bool
is_assignment partner_id member_id assignment_id a =
    a.id == assignment_id && a.partner_id == partner_id && a.member_id == member_id

-- `ruleAssignmentByID`
unfoldable pub rule_assignment_by_id : String → String → String → Tx MemberRuleAssignment
rule_assignment_by_id partner_id member_id assignment_id = query_row (λ db.
    versioned db.rule_versions
      (find (is_assignment partner_id member_id assignment_id) db.member_rule_assignments))

-- `active_enrollment` and `selected_rule`: the enrollment that the new row takes its id from. A
-- member has one active enrollment at most.
abbrev pub selectable : String → ProgramEnrollment → String → RuleVersion → Bool
selectable partner_id e rule_version_id v =
    v.partner_id == partner_id
    && v.id == rule_version_id
    && v.scope == member_add_on
    && rule_status_eq v.status published
    && v.program_id == e.program_id

abbrev selected :
    String → String → List RuleVersion → Option ProgramEnrollment → Option ProgramEnrollment
selected partner_id rule_version_id versions none = none
selected partner_id rule_version_id versions (some e) =
    if any (selectable partner_id e rule_version_id) versions then some e else none

unfoldable pub selected_enrollment : String → String → String → Tx ProgramEnrollment
selected_enrollment partner_id member_id rule_version_id = query_row (λ db.
    selected partner_id rule_version_id db.rule_versions
      (find (λ e. e.partner_id == partner_id && is_enrolled member_id e) db.program_enrollments))

abbrev pub new_assignment :
    String → String → String → String → ℤ → MemberRuleAssignmentRequest → MemberRuleAssignment
new_assignment id partner_id member_id enrollment_id starts_at body = record {
  id = id;
  partner_id = partner_id;
  member_id = member_id;
  program_enrollment_id = enrollment_id;
  rule_version_id = body.rule_version_id;
  rule_set_key = "";
  name = "";
  description = "";
  program_id = "";
  status = "active";
  starts_at = starts_at;
  ends_at = none;
  reason = body.reason;
  created_by_type = or_system body.created_by_type;
  created_by_id = body.created_by_id;
}

-- The keys of the table: its id, and the member with the version among the active rows.
abbrev pub assignment_clashes : MemberRuleAssignment → MemberRuleAssignment → Bool
assignment_clashes row a =
    a.id == row.id
    || (a.status == "active"
        && a.member_id == row.member_id
        && a.rule_version_id == row.rule_version_id)

unfoldable pub insert_assignment : MemberRuleAssignment → Tx (Unit {0})
insert_assignment row db =
    if any (assignment_clashes row) db.member_rule_assignments
    then fail (app_error_from_db duplicate_key) db
    else pure tt (record db { member_rule_assignments = row ∷ db.member_rule_assignments })

abbrev or_now : ℤ → Option ℤ → ℤ
or_now now none = now
or_now now (some t) = t

-- `CreateRuleAssignment`: without an enrollment and a version that fit, no row is returned.
unfoldable pub create_rule_assignment_row :
    Cast → String → ℤ → String → String → MemberRuleAssignmentRequest → Tx MemberRuleAssignment
create_rule_assignment_row cast id now partner_id member_id body = do
  enrollment ← selected_enrollment partner_id member_id body.rule_version_id
  starts_at ← lift (time_or_null cast body.starts_at)
  insert_assignment
      (new_assignment id partner_id member_id enrollment.id (or_now now starts_at) body)
  rule_assignment_by_id partner_id member_id id

-- `COALESCE(NULLIF(text, '')::timestamptz, ends_at, now())`
abbrev ending : ℤ → Option ℤ → Option ℤ → Option ℤ
ending now (some t) old = some t
ending now none (some t) = some t
ending now none none = some now

abbrev pub changed_assignment :
    ℤ → String → Option ℤ → String → MemberRuleAssignment → MemberRuleAssignment
changed_assignment now status ends_at reason a = record a {
  status = status;
  ends_at = ending now ends_at a.ends_at;
  reason = if reason == "" then a.reason else reason;
}

-- Whether the update makes a second active row of the member with the version.
abbrev second_active : MemberRuleAssignment → MemberRuleAssignment → Bool
second_active row a =
    not (a.id == row.id)
    && a.status == "active"
    && a.member_id == row.member_id
    && a.rule_version_id == row.rule_version_id

abbrev pub new_status : String → String
new_status status = if status == "" then "ended" else status

unfoldable pub change_assignment :
    ℤ → String → Option ℤ → String → MemberRuleAssignment → Tx (Unit {0})
change_assignment now status ends_at reason row db =
    if not (status == "active" || status == "ended")
    then fail (app_error_from_db check_violation) db
    else if status == "active" && any (second_active row) db.member_rule_assignments
    then fail (app_error_from_db duplicate_key) db
    else pure tt (record db {
      member_rule_assignments =
          update_first (is_assignment row.partner_id row.member_id row.id)
            (changed_assignment now status ends_at reason) db.member_rule_assignments;
    })

-- The statement of `UpdateRuleAssignment`, on the row that it finds.
unfoldable pub change_found :
    Cast → ℤ → MemberRuleAssignmentUpdateRequest → Option MemberRuleAssignment → Tx (Unit {0})
change_found cast now body none = pure tt
change_found cast now body (some row) = do
  ends_at ← lift (time_or_null cast body.ends_at)
  change_assignment now (new_status body.status) ends_at body.reason row

-- `UpdateRuleAssignment`
unfoldable pub update_rule_assignment_row :
    Cast
    → ℤ
    → String
    → String
    → String
    → MemberRuleAssignmentUpdateRequest
    → Tx MemberRuleAssignment
update_rule_assignment_row cast now partner_id member_id id body = do
  row ← (λ db. pure (find (is_assignment partner_id member_id id) db.member_rule_assignments) db)
  change_found cast now body row
  rule_assignment_by_id partner_id member_id id

-- The condition of `ActiveRuleAssignments` on the row itself.
abbrev pub in_force : ℤ → MemberRuleAssignment → Bool
in_force now a =
    a.status == "active"
    && leb_ℤ a.starts_at now
    && elim a.ends_at [ none ↦ true | some t ↦ ltb_ℤ now t ]

abbrev pub enrollment_active : List ProgramEnrollment → String → Bool
enrollment_active enrollments id = any (λ e. e.id == id && e.status == "active") enrollments

abbrev versioned_all : List RuleVersion → List MemberRuleAssignment → List MemberRuleAssignment
versioned_all versions [] = []
versioned_all versions (a ∷ rest) =
    let others = versioned_all versions rest in
    elim (with_version versions a) [ none ↦ others | some b ↦ b ∷ others ]

-- `ActiveRuleAssignments`
unfoldable pub active_rule_assignments : ℤ → String → String → Tx (List MemberRuleAssignment)
active_rule_assignments now partner_id member_id db =
    pure
      (order_by (λ a b. ltb_ℤ a.starts_at b.starts_at)
        (versioned_all db.rule_versions (
          keep
            (λ a.
              a.partner_id == partner_id
              && a.member_id == member_id
              && in_force now a
              && enrollment_active db.program_enrollments a.program_enrollment_id)
            db.member_rule_assignments)))
      db
