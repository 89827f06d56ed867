-- ===== src/Members/Service.antt =====
-- accts-api/application/member_service.go. The ids of new rows, the time of the call and the
-- customer's id that the code makes up from a new UUID are arguments.
use paisa.Prelude.{String, ◌==◌, Bool, true, false, ◌&&◌, ◌||◌, List, [], ◌∷◌, if◌then◌else◌}
use paisa.Prelude.Int.{ℤ}
use paisa.Domain.Errors.{invalid_error, is_error_kind, not_found}
use paisa.Domain.Constants.{active}
use paisa.Domain.Text.{trim_space}
use paisa.Domain.Types.{Member}
use paisa.Domain.Members.{
  MemberRuleAssignment, EnrollmentRequest, MemberRuleAssignmentRequest,
  MemberRuleAssignmentUpdateRequest, IdentifierRequest, MemberRequest, MemberCreateResult,
  ResolveMemberResult,
}
use paisa.Db.Result.{ok, err}
use paisa.Db.State.{Tx, pure, fail, lift, fail_if, ◌>>=◌, ◌>>◌, within_tx}
use paisa.Db.Accounts.{partner_by_key, ensure_active_status, member_by_id, account_id}
use paisa.Ledger.Store.{create_balance_snapshot}
use paisa.Transactions.Store.{member_by_external_id}
use paisa.Programs.Store.{ensure_program_partner}
use paisa.Members.Identifiers.{Hashing, hash_identifier}
use paisa.Members.Store.{
  Cast, create_member_row, create_account_row, insert_identifier_hash, list_member_rows,
  member_by_identifier_hash, end_active_enrollment, create_enrollment,
}
use paisa.Members.Assignments.{create_rule_assignment_row, update_rule_assignment_row}

-- What `enrollMember` stores where it is given no request.
abbrev pub blank_request : EnrollmentRequest
blank_request = record {
  program_id = "";
  effective_at = "";
  change_reason = "";
  created_by_type = "";
  created_by_id = "";
}

abbrev pub blank : IdentifierRequest → Bool
blank i = trim_space i.type == "" || trim_space i.value == ""

-- The member that is found, with its account.
unfoldable pub resolved : String → Member → Tx ResolveMemberResult
resolved partner_id member = do
  account ← account_id partner_id member.id
  pure (record {
    member = member;
    account = record {
      id = account;
      partner_id = partner_id;
      member_id = member.id;
      status = active;
    };
    created = false;
  })

-- What follows a look-up: the member that it finds, the next step where there is none, or its
-- error.
unfoldable pub or_else : String → Tx Member → Tx ResolveMemberResult → Tx ResolveMemberResult
or_else partner_id look_up next db = elim (look_up db).0 [
  | ok member ↦ resolved partner_id member db
  | err e ↦ if is_error_kind e not_found then next db else fail e db
]

abbrev pub none_given : List IdentifierRequest → Bool
none_given [] = true
none_given _ = false

module _ (hashing : Hashing) where
  -- The loop of `CreateMember` over the identifiers.
  unfoldable pub insert_identifiers : String → String → List IdentifierRequest → Tx (Unit {0})
  insert_identifiers partner_id member_id [] = pure tt
  insert_identifiers partner_id member_id (i ∷ is) =
      let type = trim_space (hashing.to_lower i.type) in
      (if i.type == "" || i.value == ""
        then pure tt
        else insert_identifier_hash partner_id member_id type
            (hash_identifier hashing type i.value))
      >> insert_identifiers partner_id member_id is

  abbrev pub type_of : IdentifierRequest → String
  type_of i = hashing.to_lower (trim_space i.type)

  -- The loop of `ResolveOrCreateMemberForPartnerID` that stores the identifiers.
  unfoldable pub store_identifiers : String → String → List IdentifierRequest → Tx (Unit {0})
  store_identifiers partner_id member_id [] = pure tt
  store_identifiers partner_id member_id (i ∷ is) =
      (if blank i
        then pure tt
        else insert_identifier_hash partner_id member_id (type_of i)
            (hash_identifier hashing (type_of i) i.value))
      >> store_identifiers partner_id member_id is

  -- The loop over the identifiers, before `next`.
  unfoldable pub resolve_identifiers :
      String → List IdentifierRequest → Tx ResolveMemberResult → Tx ResolveMemberResult
  resolve_identifiers partner_id [] next = next
  resolve_identifiers partner_id (i ∷ is) next =
      let rest = resolve_identifiers partner_id is next in
      if blank i
      then rest
      else or_else partner_id
          (member_by_identifier_hash partner_id (type_of i)
            (hash_identifier hashing (type_of i) i.value))
          rest

-- The ids of a new member's rows.
pub record NewIds : Type 0 where
  pub member : String
  pub account : String
  pub enrollment : String

module _ (cast : Cast) (now : ℤ) where
  unfoldable pub enroll_member :
      String → String → String → String → EnrollmentRequest → Tx (Unit {0})
  enroll_member id partner_id member_id program_id body = do
    ensure_program_partner partner_id program_id
    end_active_enrollment now partner_id member_id
    _ ← create_enrollment cast id now partner_id member_id program_id body
    pure tt

  -- The last step of a creation: a program to enroll in may be given.
  abbrev pub enroll_if : String → String → String → String → Tx (Unit {0})
  enroll_if id partner_id member_id program_id =
      if program_id == ""
      then pure tt
      else enroll_member id partner_id member_id program_id blank_request

  module _ (hashing : Hashing) where
    -- `CreateMember`
    unfoldable pub create_member : NewIds → String → MemberRequest → Tx MemberCreateResult
    create_member ids partner_key body = within_tx (do
      partner ← partner_by_key partner_key
      lift (ensure_active_status "partner" partner.status)
      member ← create_member_row ids.member partner.id body.external_customer_id
      account ← create_account_row ids.account partner.id member.id
      create_balance_snapshot account.id partner.id
      insert_identifiers hashing partner.id member.id body.identifiers
      enroll_if ids.enrollment partner.id member.id body.program_id
      pure (record { member = member; account = account }))

    -- The transaction of `ResolveOrCreateMemberForPartnerID`.
    unfoldable pub create_resolved :
        NewIds → String → String → MemberRequest → Tx ResolveMemberResult
    create_resolved ids made_up partner_id body = within_tx (do
      let trimmed = trim_space body.external_customer_id
      member ← create_member_row ids.member partner_id (if trimmed == "" then made_up else trimmed)
      account ← create_account_row ids.account partner_id member.id
      create_balance_snapshot account.id partner_id
      store_identifiers hashing partner_id member.id body.identifiers
      enroll_if ids.enrollment partner_id member.id body.program_id
      pure (record { member = member; account = account; created = true }))

    -- `ResolveOrCreateMemberForPartnerID`
    unfoldable pub resolve_or_create_for_partner :
        NewIds → String → String → MemberRequest → Tx ResolveMemberResult
    resolve_or_create_for_partner ids made_up partner_id body =
        let by_identifiers =
          resolve_identifiers hashing partner_id body.identifiers
            (create_resolved ids made_up partner_id body) in
        fail_if (none_given body.identifiers && trim_space body.external_customer_id == "")
          (invalid_error "at least one customer identifier is required")
        >> (if body.external_customer_id == ""
            then by_identifiers
            else or_else partner_id (member_by_external_id partner_id body.external_customer_id)
                by_identifiers)

    -- `ResolveOrCreateMember`
    unfoldable pub resolve_or_create_member :
        NewIds → String → String → MemberRequest → Tx ResolveMemberResult
    resolve_or_create_member ids made_up partner_key body = do
      partner ← partner_by_key partner_key
      resolve_or_create_for_partner ids made_up partner.id body

  -- `UpdateEnrollment`
  unfoldable pub update_enrollment : String → String → String → EnrollmentRequest → Tx (Unit {0})
  update_enrollment id partner_key member_id body = within_tx (do
    partner ← partner_by_key partner_key
    lift (ensure_active_status "partner" partner.status)
    member ← member_by_id partner.id member_id
    lift (ensure_active_status "member" member.status)
    enroll_member id partner.id member_id body.program_id body)

  -- `CreateRuleAssignment`
  unfoldable pub create_rule_assignment :
      String → String → String → MemberRuleAssignmentRequest → Tx MemberRuleAssignment
  create_rule_assignment id partner_key member_id body = within_tx (do
    partner ← partner_by_key partner_key
    lift (ensure_active_status "partner" partner.status)
    member ← member_by_id partner.id member_id
    lift (ensure_active_status "member" member.status)
    create_rule_assignment_row cast id now partner.id member_id body)

  -- `UpdateRuleAssignment`
  unfoldable pub update_rule_assignment :
      String → String → String → MemberRuleAssignmentUpdateRequest → Tx MemberRuleAssignment
  update_rule_assignment partner_key member_id id body = within_tx (do
    partner ← partner_by_key partner_key
    update_rule_assignment_row cast now partner.id member_id id body)

-- `ListMembers`
unfoldable pub list_members : String → Tx (List Member)
list_members partner_key = do partner ← partner_by_key partner_key; list_member_rows partner.id

-- `GetMember`
unfoldable pub get_member : String → String → Tx Member
get_member partner_key member_id = do
  partner ← partner_by_key partner_key
  member_by_id partner.id member_id
