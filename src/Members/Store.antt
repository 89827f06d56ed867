-- ===== src/Members/Store.antt =====
-- `MemberStore` of accts-api/adapters/postgres/internal/repository/member.go, but for the
-- assignments of rules. The id of a new row and the time of the call are arguments. An optional
-- text is '' where its column is null.
use paisa.Prelude.{
  String, ◌==◌, Bool, ◌&&◌, ◌||◌, Option, none, some, List, [], ◌∷◌, map, any, find, keep,
  if◌then◌else◌,
}
use paisa.Prelude.Int.{ℤ, ltb_ℤ}
use paisa.Domain.Errors.{Error, other, app_error_from_db}
use paisa.Domain.Constants.{active}
use paisa.Domain.Types.{Member, MemberAccount}
use paisa.Domain.Programs.{Program}
use paisa.Domain.Members.{MemberIdentifier, ProgramEnrollment, EnrollmentRequest}
use paisa.Db.State.{Tx, pure, fail, query_row, lift, ◌>>=◌}
use paisa.Db.Result.{Result, ok, err}
use paisa.Ledger.Store.{duplicate_key}
use paisa.Programs.Store.{order_by}

abbrev pub new_member : String → String → String → Member
new_member id partner_id external_customer_id = record {
  id = id;
  partner_id = partner_id;
  external_customer_id = external_customer_id;
  status = active;
}

-- The keys of the table: its id, and the partner with the customer's id.
abbrev pub member_clashes : Member → Member → Bool
member_clashes row m =
    m.id == row.id
    || (m.partner_id == row.partner_id && m.external_customer_id == row.external_customer_id)

-- `Create`
unfoldable pub create_member_row : String → String → String → Tx Member
create_member_row id partner_id external_customer_id db =
    let row = new_member id partner_id external_customer_id in
    if any (member_clashes row) db.members
    then fail (app_error_from_db duplicate_key) db
    else pure row (record db { members = row ∷ db.members })

abbrev pub new_account : String → String → String → MemberAccount
new_account id partner_id member_id = record {
  id = id;
  partner_id = partner_id;
  member_id = member_id;
  status = active;
}

-- `CreateAccount`: a member has one account.
unfoldable pub create_account_row : String → String → String → Tx MemberAccount
create_account_row id partner_id member_id db =
    let row = new_account id partner_id member_id in
    if any (λ a. a.id == id || a.member_id == member_id) db.member_accounts
    then fail (app_error_from_db duplicate_key) db
    else pure row (record db { member_accounts = row ∷ db.member_accounts })

abbrev pub is_identifier : String → String → String → MemberIdentifier → Bool
is_identifier partner_id type value_hash i =
    i.partner_id == partner_id && i.type == type && i.value_hash == value_hash

abbrev pub new_identifier : String → String → String → String → MemberIdentifier
new_identifier partner_id member_id type value_hash = record {
  partner_id = partner_id;
  member_id = member_id;
  type = type;
  value_hash = value_hash;
}

-- `InsertIdentifierHash`: an identifier that is there already stays with its member.
unfoldable pub insert_identifier_hash : String → String → String → String → Tx (Unit {0})
insert_identifier_hash partner_id member_id type value_hash db =
    if any (is_identifier partner_id type value_hash) db.member_identifiers
    then pure tt db
    else pure tt (record db {
      member_identifiers =
          new_identifier partner_id member_id type value_hash ∷ db.member_identifiers;
    })

-- `List`: newest first.
unfoldable pub list_member_rows : String → Tx (List Member)
list_member_rows partner_id db = pure (keep (λ m. m.partner_id == partner_id) db.members) db

abbrev member_of : List Member → Option MemberIdentifier → Option Member
member_of members none = none
member_of members (some i) = find (λ m. m.id == i.member_id) members

-- `GetByIdentifierHash`
unfoldable pub member_by_identifier_hash : String → String → String → Tx Member
member_by_identifier_hash partner_id type value_hash = query_row (λ db.
    member_of db.members (find (is_identifier partner_id type value_hash) db.member_identifiers))

abbrev pub is_enrolled : String → ProgramEnrollment → Bool
is_enrolled member_id e = e.member_id == member_id && e.status == "active"

abbrev pub end_if : ℤ → (ProgramEnrollment → Bool) → ProgramEnrollment → ProgramEnrollment
end_if now test e = if test e then record e { status = "ended"; ended_at = some now } else e

-- `EndActiveEnrollment`
unfoldable pub end_active_enrollment : ℤ → String → String → Tx (Unit {0})
end_active_enrollment now partner_id member_id db = pure tt (record db {
  program_enrollments =
      map (end_if now (λ e. e.partner_id == partner_id && is_enrolled member_id e))
        db.program_enrollments;
})

-- The cast of a text to a time, by the database: `none` where it is no time.
abbrev pub Cast : Type 0
Cast = String → Option ℤ

abbrev pub bad_time : Error
bad_time = other "pq: invalid input syntax for type timestamp with time zone"

-- `NULLIF(text, '')::timestamptz`
unfoldable pub time_or_null : Cast → String → Result (Option ℤ)
time_or_null cast text =
    if text == ""
    then ok none
    else elim (cast text) [ some t ↦ ok (some t) | none ↦ err (app_error_from_db bad_time) ]

-- `COALESCE(NULLIF(text, ''), 'system')`
abbrev pub or_system : String → String
or_system text = if text == "" then "system" else text

abbrev pub new_enrollment :
    String → ℤ → String → String → String → Option ℤ → EnrollmentRequest → ProgramEnrollment
new_enrollment id now partner_id member_id program_id effective_at body = record {
  id = id;
  partner_id = partner_id;
  member_id = member_id;
  program_id = program_id;
  program_name = "";
  status = "active";
  started_at = now;
  ended_at = none;
  effective_at = effective_at;
  change_reason = body.change_reason;
  created_by_type = or_system body.created_by_type;
  created_by_id = body.created_by_id;
}

-- The row is new where its id is, and its member has no active enrollment.
unfoldable pub insert_enrollment : ProgramEnrollment → Tx ProgramEnrollment
insert_enrollment row db =
    if any (λ e. e.id == row.id || is_enrolled row.member_id e) db.program_enrollments
    then fail (app_error_from_db duplicate_key) db
    else pure row (record db { program_enrollments = row ∷ db.program_enrollments })

-- `CreateEnrollment`
unfoldable pub create_enrollment :
    Cast → String → ℤ → String → String → String → EnrollmentRequest → Tx ProgramEnrollment
create_enrollment cast id now partner_id member_id program_id body = do
  effective_at ← lift (time_or_null cast body.effective_at)
  insert_enrollment (new_enrollment id now partner_id member_id program_id effective_at body)

-- The join with programs, which gives the program's name.
abbrev pub with_program_name : List Program → ProgramEnrollment → Option ProgramEnrollment
with_program_name programs e = elim (find (λ p. p.id == e.program_id) programs) [
  | none ↦ none
  | some p ↦ some (record e { program_name = p.name })
]

abbrev named : List Program → Option ProgramEnrollment → Option ProgramEnrollment
named programs none = none
named programs (some e) = with_program_name programs e

-- `ActiveEnrollment`
unfoldable pub active_enrollment : String → String → Tx ProgramEnrollment
active_enrollment partner_id member_id = query_row (λ db.
    named db.programs
      (find (λ e. e.partner_id == partner_id && is_enrolled member_id e) db.program_enrollments))

abbrev named_all : List Program → List ProgramEnrollment → List ProgramEnrollment
named_all programs [] = []
named_all programs (e ∷ es) =
    let rest = named_all programs es in
    elim (with_program_name programs e) [ none ↦ rest | some f ↦ f ∷ rest ]

-- `ListEnrollments`
unfoldable pub list_enrollments : String → String → Tx (List ProgramEnrollment)
list_enrollments partner_id member_id db =
    pure
      (order_by (λ e f. ltb_ℤ f.started_at e.started_at)
        (named_all db.programs (
          keep (λ e. e.partner_id == partner_id && e.member_id == member_id)
            db.program_enrollments)))
      db
