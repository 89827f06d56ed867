-- ===== src/Members/Stored.antt =====
-- What the operations of accts-api/application/member_service.go leave alone.
use paisa.Prelude.{String, ◌==◌, ◌≡◌, refl, List, [], ◌∷◌, arith}
use paisa.Prelude.Int.{ℤ}
use paisa.Domain.Types.{BalanceSnapshot}
use paisa.Domain.Members.{MemberIdentifier, ProgramEnrollment, EnrollmentRequest, IdentifierRequest}
use paisa.Db.State.{Db, pure}
use paisa.Db.Frame.{Keeps, >>=-Keeps, query_row-Keeps, lift-Keeps, if-Keeps}
use paisa.Ledger.Store.{create_balance_snapshot}
use paisa.Ledger.Adjustments.{blank as new_snapshot}
use paisa.Programs.Store.{ensure_program_partner}
use paisa.Members.Identifiers.{Hashing}
use paisa.Members.Store.{
  Cast, insert_identifier_hash, new_identifier, end_active_enrollment, create_enrollment,
  insert_enrollment,
}
use paisa.Members.Service.{
  insert_identifiers, store_identifiers, enroll_member, enroll_if, blank_request,
}

-- A part of the database without its enrollments.
abbrev pub IsUnenrolled : {B : Type 0} → (Db → B) → Type 0
IsUnenrolled part =
    (db : Db) (es : List ProgramEnrollment)
    → part (record db { program_enrollments = es }) ≡ part db

-- A part of the database without its identifiers.
abbrev pub IsAnonymous : {B : Type 0} → (Db → B) → Type 0
IsAnonymous part =
    (db : Db) (is : List MemberIdentifier) → part (record db { member_identifiers = is }) ≡ part db

-- A part of the database without its balances.
abbrev pub IsUnbalanced : {B : Type 0} → (Db → B) → Type 0
IsUnbalanced part =
    (db : Db) (bs : List BalanceSnapshot) → part (record db { balance_snapshots = bs }) ≡ part db

module _ {B : Type 0} (part : Db → B) where
  pub create_balance_snapshot-Keeps :
      IsUnbalanced part
      → (account partner : String) → Keeps part (create_balance_snapshot account partner)
  unfolding create_balance_snapshot
  create_balance_snapshot-Keeps h account partner db =
      ground (arith, h db (new_snapshot account partner ∷ db.balance_snapshots))

  module _ (apart : IsAnonymous part) where
    insert_identifier_hash-Keeps :
        (p m type hash : String) → Keeps part (insert_identifier_hash p m type hash)
    unfolding insert_identifier_hash
    insert_identifier_hash-Keeps p m type hash db =
        ground (arith, apart db (new_identifier p m type hash ∷ db.member_identifiers))

    pub insert_identifiers-Keeps :
        (hashing : Hashing) (p m : String) (is : List IdentifierRequest)
        → Keeps part (insert_identifiers hashing p m is)
    unfolding insert_identifiers
    insert_identifiers-Keeps hashing p m [] = λ _. refl
    insert_identifiers-Keeps hashing p m (i ∷ is) =
        >>=-Keeps part _ _ (if-Keeps part _ _ _ (λ _. refl) (insert_identifier_hash-Keeps p m _ _))
          (λ _. insert_identifiers-Keeps hashing p m is)

    pub store_identifiers-Keeps :
        (hashing : Hashing) (p m : String) (is : List IdentifierRequest)
        → Keeps part (store_identifiers hashing p m is)
    unfolding store_identifiers
    store_identifiers-Keeps hashing p m [] = λ _. refl
    store_identifiers-Keeps hashing p m (i ∷ is) =
        >>=-Keeps part _ _ (if-Keeps part _ _ _ (λ _. refl) (insert_identifier_hash-Keeps p m _ _))
          (λ _. store_identifiers-Keeps hashing p m is)

  module _ (apart : IsUnenrolled part) where
    end_active_enrollment-Keeps :
        (now : ℤ) (p m : String) → Keeps part (end_active_enrollment now p m)
    unfolding end_active_enrollment
    end_active_enrollment-Keeps now p m db = apart db _

    insert_enrollment-Keeps : (row : ProgramEnrollment) → Keeps part (insert_enrollment row)
    unfolding insert_enrollment
    insert_enrollment-Keeps row db = ground (arith, apart db (row ∷ db.program_enrollments))

    pub enroll_member-Keeps :
        (cast : Cast) (now : ℤ) (id p m g : String) (body : EnrollmentRequest)
        → Keeps part (enroll_member cast now id p m g body)
    unfolding enroll_member ensure_program_partner create_enrollment
    enroll_member-Keeps cast now id p m g body =
        >>=-Keeps part _ _ (>>=-Keeps part _ _ (query_row-Keeps part _) (λ _ _. refl)) (λ _.
          >>=-Keeps part _ _ (end_active_enrollment-Keeps now p m) (λ _.
            >>=-Keeps part _ _
              (>>=-Keeps part _ _ (lift-Keeps part _) (λ _. insert_enrollment-Keeps _))
              (λ _ _. refl)))

    pub enroll_if-Keeps :
        (cast : Cast) (now : ℤ) (id p m g : String) → Keeps part (enroll_if cast now id p m g)
    enroll_if-Keeps cast now id p m g =
        if-Keeps part (g == "") (pure tt) (enroll_member cast now id p m g blank_request)
          (λ _. refl) (enroll_member-Keeps cast now id p m g blank_request)
