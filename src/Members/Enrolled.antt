-- ===== src/Members/Enrolled.antt =====
-- `UpdateEnrollment` of accts-api/application/member_service.go: a member changes programs.
use paisa.Prelude.{
  Option, length-map, String, ◌==◌, eq_refl, ◌≡◌, refl, ap, inl, inr, Bool, true, false, ◌&&◌, ◌||◌,
  some, List, [], ◌∷◌, All, map, any, find, keep, length, arith, Bool-cases, suc,
}
use paisa.Prelude.Int.{ℤ}
use paisa.Domain.Constants.{is_active}
use paisa.Domain.Types.{Partner, Member}
use paisa.Domain.Programs.{Program}
use paisa.Domain.Members.{ProgramEnrollment, EnrollmentRequest}
use paisa.Db.Result.{ok}
use paisa.Db.State.{Db, ◌>>=◌, lift, query_row, within_tx}
use paisa.Db.Accounts.{partner_by_key, member_by_id, ensure_active_status}
use paisa.Programs.Store.{is_program, ensure_program_partner}
use paisa.Members.Store.{
  Cast, is_enrolled, end_if, time_or_null, new_enrollment, end_active_enrollment, create_enrollment,
  insert_enrollment,
}
use paisa.Members.Service.{enroll_member, update_enrollment}

-- The active enrollments of a member are its partner's.
abbrev pub IsOwned : String → String → ProgramEnrollment → Type 0
IsOwned p m e = is_enrolled m e ≡ true → e.partner_id ≡ p

module _ (now : ℤ) (p m : String) where
  abbrev to_end : ProgramEnrollment → Bool
  to_end e = e.partner_id == p && is_enrolled m e

  same_id : (e : ProgramEnrollment) → (end_if now to_end e).id ≡ e.id
  same_id e = ground arith

  ended_inactive :
      (e : ProgramEnrollment) → IsOwned p m e → is_enrolled m (end_if now to_end e) ≡ false
  ended_inactive e own = elim (Bool-cases (is_enrolled m e)) [
    | inl t ↦ rw (own t, eq_refl p, t) (ground arith)
    | inr t ↦ ground (arith, t)
  ]

  none_left :
      (es : List ProgramEnrollment)
      → All (IsOwned p m) es
      → keep (is_enrolled m) (map (end_if now to_end) es) ≡ []
  none_left [] own = refl
  none_left (e ∷ es) own = rw (ended_inactive e own.0) (none_left es own.1)

  free :
      (id : String) (es : List ProgramEnrollment)
      → All (IsOwned p m) es
      → any (λ e. e.id == id) es ≡ false
      → any (λ e. e.id == id || is_enrolled m e) (map (end_if now to_end) es) ≡ false
  free id [] own fresh = refl
  free id (e ∷ es) own fresh =
      let rest = free id es own.1 (ground (arith, fresh)) in
      rw (same_id e, ended_inactive e own.0) (ground (arith, fresh, rest))

module _ (cast : Cast) (now : ℤ) (id partner_key m : String) (body : EnrollmentRequest) (db : Db)
    (partner : Partner) (member : Member) (program : Program) (effective_at : Option ℤ)
    (partner_found : partner_by_key partner_key db ≡ (ok partner, db))
    (partner_active : ensure_active_status "partner" partner.status ≡ ok tt)
    (member_found : member_by_id partner.id m db ≡ (ok member, db))
    (member_active : ensure_active_status "member" member.status ≡ ok tt)
    (program_found : find
        (λ p. is_program partner.id body.program_id p && is_active p.status)
        db.programs
      ≡ some program)
    (effective : time_or_null cast body.effective_at ≡ ok effective_at)
    (fresh : any (λ e. e.id == id) db.program_enrollments ≡ false)
    (own : All (IsOwned partner.id m) db.program_enrollments) where
  abbrev row : ProgramEnrollment
  row = new_enrollment id now partner.id m body.program_id effective_at body

  abbrev moved : Db
  moved = record db {
    program_enrollments = row ∷ map (end_if now (to_end now partner.id m)) db.program_enrollments;
  }

  enrolled : enroll_member cast now id partner.id m body.program_id body db ≡ (ok tt, moved)
  unfolding enroll_member ensure_program_partner create_enrollment insert_enrollment
      end_active_enrollment query_row lift ◌>>=◌
  enrolled =
      ground
        (arith, program_found, effective, free now partner.id m id db.program_enrollments own fresh)

  -- Where the partner, the member and the program are active, the times can be read, the id is
  -- new, and the active enrollments of the member are the partner's, a change of programs
  -- succeeds. There is then one enrollment more, and the new one, in the program that was asked
  -- for, is the only active one of the member.
  pub update_enrollment-succeeds :
      (db' : Db) × (update_enrollment cast now id partner_key m body db ≡ (ok tt, db'))
      × (keep (is_enrolled m) db'.program_enrollments ≡ row ∷ [])
      × (length db'.program_enrollments ≡ suc (length db.program_enrollments))
  unfolding update_enrollment within_tx lift ◌>>=◌
  update_enrollment-succeeds = (
    moved,
    ground (arith, partner_found, partner_active, member_found, member_active, enrolled),
    rw (eq_refl m, none_left now partner.id m db.program_enrollments own) refl,
    ap suc (length-map (end_if now (to_end now partner.id m)) db.program_enrollments),
  )
