-- ===== src/Members/Tests.antt =====
-- Runs of the operations on members.
use paisa.Prelude.{◌≡◌, refl, none, some, [], ◌∷◌, true, false}
use paisa.Prelude.Int.{pos}
use paisa.Domain.Errors.{is_error_kind, app_error_from_db}
use paisa.Domain.Text.{trim_space}
use paisa.Domain.Members.{MemberRequest, ResolveMemberResult, EnrollmentRequest}
use paisa.Db.Result.{ok}
use paisa.Db.State.{query_row, Db, within_tx, ◌>>=◌}
use paisa.Db.Accounts.{partner_by_key, account_id, member_by_id, ensure_active_status}
use paisa.Ledger.Store.{create_balance_snapshot}
use paisa.Redemption.Backed.{IsConsistent, money-Preserves}
use paisa.Redemption.Cafe.{cafe, cafe-IsConsistent}
use paisa.Programs.Store.{ensure_program_partner}
use paisa.Programs.Store.{new_program}
use paisa.Programs.Tests.{with_program, visits}
use paisa.Prelude.{keep, length}
use paisa.Domain.Constants.{active}
use paisa.Members.Store.{new_enrollment, is_enrolled}
use paisa.Transactions.Store.{member_by_external_id}
use paisa.Members.Identifiers.{
  Hashing, normalize_identifier_value, hash_identifier_value, hash_identifier,
}
use paisa.Members.Store.{
  Cast, new_member, new_account, create_member_row, create_account_row, insert_identifier_hash,
  member_by_identifier_hash, end_active_enrollment, time_or_null, insert_enrollment,
  create_enrollment,
}
use paisa.Members.Service.{
  NewIds, or_else, resolved, enroll_member, store_identifiers, resolve_identifiers, create_resolved,
  resolve_or_create_for_partner, resolve_or_create_member, update_enrollment,
}
use paisa.Members.Enrolled.{update_enrollment-succeeds}
use paisa.Members.Resolved.{resolve_or_create_member-again}
use paisa.Members.Reach.{Step, Steps-IsConsistent, here, next}

abbrev pub hashing : Hashing
hashing = record { to_lower = λ s. s; sha256_hex = λ s. s }

phone_test : normalize_identifier_value hashing "phone" " (555) 010-9999" ≡ "+15550109999"
unfolding normalize_identifier_value trim_space
phone_test = refl

abbrev pub no_cast : Cast
no_cast = λ s. none

abbrev new_ids : NewIds
new_ids = record { member = "m2"; account = "a2"; enrollment = "n2" }

abbrev guest : MemberRequest
guest = record {
  external_customer_id = "c2";
  identifiers = record { type = "email"; value = "a@b.c" } ∷ [];
  program_id = "g1";
}

abbrev first_reply : ResolveMemberResult
first_reply = record {
  member = new_member "m2" "p1" "c2";
  account = new_account "a2" "p1" "m2";
  created = true;
}

abbrev guest_joined : Db
guest_joined =
    (resolve_or_create_member no_cast (pos 5) hashing new_ids "made up" "cafe" guest with_program).1

resolve_or_create_member-again_example :
    resolve_or_create_member no_cast (pos 6) hashing new_ids "made up" "cafe" guest guest_joined
    ≡ (ok (record first_reply { created = false }), guest_joined)
unfolding resolve_or_create_member resolve_or_create_for_partner or_else resolved
    resolve_identifiers create_resolved create_member_row create_account_row create_balance_snapshot
    store_identifiers insert_identifier_hash enroll_member ensure_program_partner
    end_active_enrollment create_enrollment time_or_null insert_enrollment partner_by_key account_id
    member_by_external_id member_by_identifier_hash hash_identifier hash_identifier_value
    normalize_identifier_value trim_space is_error_kind app_error_from_db within_tx ◌>>=◌
resolve_or_create_member-again_example =
    resolve_or_create_member-again no_cast hashing (pos 5) (pos 6) new_ids new_ids "made up"
      "made up" "cafe" guest first_reply with_program guest_joined refl refl refl

abbrev move : EnrollmentRequest
move = record {
  program_id = "g1";
  effective_at = "";
  change_reason = "";
  created_by_type = "";
  created_by_id = "";
}

abbrev moved : Db
moved = (update_enrollment no_cast (pos 7) "n3" "cafe" "m2" move guest_joined).1

-- The member of the café is in the program.
abbrev enrolled_before : Db
enrolled_before = record with_program {
  program_enrollments = new_enrollment "n1" (pos 5) "p1" "m1" "g1" none move ∷ [];
}

update_enrollment-succeeds_example :
    (db' : Db) × (update_enrollment no_cast (pos 7) "n3" "cafe" "m1" move enrolled_before
      ≡ (ok tt, db'))
    × (keep (is_enrolled "m1") db'.program_enrollments
        ≡ new_enrollment "n3" (pos 7) "p1" "m1" "g1" none move ∷ [])
    × (length db'.program_enrollments ≡ 2)
unfolding partner_by_key member_by_id ensure_active_status time_or_null query_row
update_enrollment-succeeds_example =
    update_enrollment-succeeds no_cast (pos 7) "n3" "cafe" "m1" move enrolled_before
      (record { id = "p1"; partner_key = "cafe"; name = "Cafe"; status = active })
      (record { id = "m1"; partner_id = "p1"; external_customer_id = "c1"; status = active })
      (new_program "g1" "p1" visits) none refl refl refl refl refl refl refl ((λ _. refl), tt)

Steps-IsConsistent_example : IsConsistent moved
Steps-IsConsistent_example =
    Steps-IsConsistent no_cast hashing
      (next (Step.resolve {db = with_program} (pos 5) new_ids "made up" "cafe" guest)
        (next (Step.enroll (pos 7) "n3" "cafe" "m2" move) here))
      (money-Preserves (λ (db : Db). (ok tt, record db { programs = with_program.programs }))
        (λ _. refl) cafe cafe-IsConsistent)

-- The enrollments of the member after the move: the first has ended.
moved_statuses :
    moved.program_enrollments
    ≡ record {
      id = "n3";
      partner_id = "p1";
      member_id = "m2";
      program_id = "g1";
      program_name = "";
      status = "active";
      started_at = pos 7;
      ended_at = none;
      effective_at = none;
      change_reason = "";
      created_by_type = "system";
      created_by_id = "";
    }
      ∷ record {
        id = "n2";
        partner_id = "p1";
        member_id = "m2";
        program_id = "g1";
        program_name = "";
        status = "ended";
        started_at = pos 5;
        ended_at = some (pos 7);
        effective_at = none;
        change_reason = "";
        created_by_type = "system";
        created_by_id = "";
      }
      ∷ []
unfolding update_enrollment member_by_id ensure_active_status resolve_or_create_member
    resolve_or_create_for_partner or_else resolved resolve_identifiers create_resolved
    create_member_row create_account_row create_balance_snapshot store_identifiers
    insert_identifier_hash enroll_member ensure_program_partner end_active_enrollment
    create_enrollment time_or_null insert_enrollment partner_by_key account_id member_by_external_id
    member_by_identifier_hash hash_identifier hash_identifier_value normalize_identifier_value
    trim_space is_error_kind app_error_from_db within_tx ◌>>=◌
moved_statuses = refl
