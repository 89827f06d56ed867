-- ===== src/System/Assignments.antt =====
-- The calls on rule assignments of accts-api/application/member_service.go leave balances, entries
-- and redemptions alone.
use paisa.Prelude.{String, refl, Option, none, some, arith}
use paisa.Prelude.Int.{ℤ}
use paisa.Domain.Members.{
  MemberRuleAssignment, MemberRuleAssignmentRequest, MemberRuleAssignmentUpdateRequest,
}
use paisa.Db.Accounts.{partner_by_key, member_by_id}
use paisa.Db.Frame.{Keeps, >>=-Keeps, query_row-Keeps, lift-Keeps, within_tx-Keeps}
use paisa.Redemption.Backed.{money}
use paisa.Members.Store.{Cast}
use paisa.Members.Assignments.{
  selected_enrollment, insert_assignment, rule_assignment_by_id, create_rule_assignment_row,
  change_assignment, change_found, update_rule_assignment_row,
}
use paisa.Members.Service.{create_rule_assignment, update_rule_assignment}
use paisa.System.Untouched.{partner-money}

by_id-money : (p m id : String) → Keeps money (rule_assignment_by_id p m id)
unfolding rule_assignment_by_id
by_id-money p m id = query_row-Keeps money _

selected-money : (p m v : String) → Keeps money (selected_enrollment p m v)
unfolding selected_enrollment
selected-money p m v = query_row-Keeps money _

insert-money : (row : MemberRuleAssignment) → Keeps money (insert_assignment row)
unfolding insert_assignment
insert-money row db = ground arith

member-money : (p m : String) → Keeps money (member_by_id p m)
unfolding member_by_id
member-money p m = query_row-Keeps money _

change-money :
    (now : ℤ) (status : String) (ends_at : Option ℤ) (reason : String) (row : MemberRuleAssignment)
    → Keeps money (change_assignment now status ends_at reason row)
unfolding change_assignment
change-money now status ends_at reason row db = ground arith

module _ (cast : Cast) (now : ℤ) where
  create_row-money :
      (id p m : String) (body : MemberRuleAssignmentRequest)
      → Keeps money (create_rule_assignment_row cast id now p m body)
  unfolding create_rule_assignment_row
  create_row-money id p m body =
      >>=-Keeps money (selected_enrollment p m body.rule_version_id) _
        (selected-money p m body.rule_version_id)
        (λ enrollment.
          >>=-Keeps money _ _ (lift-Keeps money _)
            (λ starts_at. >>=-Keeps money _ _ (insert-money _) (λ _. by_id-money p m id)))

  pub create_rule_assignment-money :
      (id key m : String) (body : MemberRuleAssignmentRequest)
      → Keeps money (create_rule_assignment cast now id key m body)
  unfolding create_rule_assignment
  create_rule_assignment-money id key m body = within_tx-Keeps money _ (
      >>=-Keeps money (partner_by_key key) _ (partner-money key) (λ partner.
        >>=-Keeps money _ _ (lift-Keeps money _) (λ _.
          >>=-Keeps money (member_by_id partner.id m) _ (member-money partner.id m) (λ member.
            >>=-Keeps money _ _ (lift-Keeps money _)
              (λ _. create_row-money id partner.id m body)))))

  found-money :
      (body : MemberRuleAssignmentUpdateRequest) (row : Option MemberRuleAssignment)
      → Keeps money (change_found cast now body row)
  unfolding change_found
  found-money body none = λ _. refl
  found-money body (some row) =
      >>=-Keeps money _ _ (lift-Keeps money _)
        (λ ends_at. change-money now _ ends_at body.reason row)

  pub update_rule_assignment-money :
      (key m id : String) (body : MemberRuleAssignmentUpdateRequest)
      → Keeps money (update_rule_assignment cast now key m id body)
  unfolding update_rule_assignment update_rule_assignment_row
  update_rule_assignment-money key m id body = within_tx-Keeps money _ (
      >>=-Keeps money (partner_by_key key) _ (partner-money key) (λ partner.
        >>=-Keeps money _ _ (λ _. refl)
          (λ row.
            >>=-Keeps money (change_found cast now body row) _ (found-money body row)
              (λ _. by_id-money partner.id m id))))
