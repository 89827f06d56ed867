-- ===== src/Redemption/Tests.antt =====
-- The theorems on redemptions, at the data of a café's counter.
use paisa.Prelude.{inl, String, ◌==◌, ◌≡◌, refl, sym, ap, true, some, find, arith}
use paisa.Prelude.Int.{pos, ◌+ℤ◌, int_laws, ◌-ℤ◌, ◌≤ℤ◌}
use paisa.Domain.Errors.{invariant_error}
use paisa.Domain.Constants.{is_open, reserved, captured, released}
use paisa.Domain.Types.{Redemption, RedemptionActionResult}
use paisa.Db.Result.{Result, ok, err}
use paisa.Db.State.{Db}
use paisa.Redemption.Store.{is_row, set_status}
use paisa.Redemption.Service.{capture_redemption, release_redemption, validate_redemption}
use paisa.Redemption.Backed.{IsConsistent}
use paisa.Redemption.Transfers.{
  available_of, reserved_of, moved, create_redemption_moves, capture_redemption_moves,
  release_redemption_moves,
}
use paisa.Redemption.Reach.{Step, here, next, Reach-IsConsistent}
use paisa.Redemption.Progress.{capture_redemption-succeeds, release_redemption-succeeds}
use paisa.Redemption.Lifecycle.{settled_once, release-create}
use paisa.Redemption.Cafe.{
  auth, coffee, cafe, order, cafe-IsConsistent, row, balance, reply, ordered, order-reply, taken,
  capture-reply, cancelled, release-reply, ordered-IsConsistent,
}

Reach-IsConsistent_example : IsConsistent taken
Reach-IsConsistent_example = Reach-IsConsistent {start = cafe} {db = taken} cafe-IsConsistent (
    next
      (next here (
        Step.create "r1" "e1" "rdm_1" (pos 1000) auth order
          (sym (ap (λ (r : Result RedemptionActionResult × Db). r.1) order-reply))))
      (Step.capture "e2" auth "r1"
        (sym (ap (λ (r : Result RedemptionActionResult × Db). r.1) capture-reply))))

capture_redemption-succeeds_example :
    (res : RedemptionActionResult) × (db' : Db) × (capture_redemption "e2" auth "r1" ordered
      ≡ (ok res, db'))
capture_redemption-succeeds_example =
    capture_redemption-succeeds "e2" auth "r1" ordered row coffee (balance (pos 380) (pos 120)) refl
      refl refl refl ordered-IsConsistent (omega arith) refl

release_redemption-succeeds_example :
    (res : RedemptionActionResult) × (db' : Db) × (release_redemption "e2" auth "r1" ordered
      ≡ (ok res, db'))
unfolding ◌+ℤ◌
release_redemption-succeeds_example =
    release_redemption-succeeds "e2" auth "r1" ordered row coffee (balance (pos 380) (pos 120)) refl
      refl refl refl ordered-IsConsistent (omega arith) (omega int_laws) refl

create_redemption_moves_example :
    (row : Redemption) × (find (is_row auth.partner_id "r1") ordered.redemptions ≡ some row)
    × (row.status ≡ reserved)
    × (pos 0 ≤ℤ available_of row.member_account_id ordered)
    × ((a : String)
        → (available_of a ordered
            ≡ moved (row.member_account_id == a) (available_of a cafe) (pos 0 -ℤ row.points_cost))
          × (reserved_of a ordered
              ≡ moved (row.member_account_id == a) (reserved_of a cafe) row.points_cost))
create_redemption_moves_example =
    create_redemption_moves "r1" "e1" "rdm_1" (pos 1000) auth order cafe ordered
      (reply reserved "e1" (balance (pos 380) (pos 120))) cafe-IsConsistent.reconciled order-reply

capture_redemption_moves_example :
    (row : Redemption) × (find (is_row auth.partner_id "r1") ordered.redemptions ≡ some row)
    × (is_open row.status ≡ true)
    × (find (is_row auth.partner_id "r1") taken.redemptions ≡ some (set_status captured "" row))
    × ((a : String)
        → (available_of a taken ≡ available_of a ordered)
          × (reserved_of a taken
              ≡ moved
                  (row.member_account_id == a)
                  (reserved_of a ordered)
                  (pos 0 -ℤ row.points_cost)))
capture_redemption_moves_example =
    capture_redemption_moves "e2" auth "r1" ordered taken
      (reply captured "e2" (balance (pos 380) (pos 0))) ordered-IsConsistent capture-reply

release_redemption_moves_example :
    (row : Redemption) × (find (is_row auth.partner_id "r1") ordered.redemptions ≡ some row)
    × (is_open row.status ≡ true)
    × (find (is_row auth.partner_id "r1") cancelled.redemptions ≡ some (set_status released "" row))
    × ((a : String)
        → (available_of a cancelled
            ≡ moved (row.member_account_id == a) (available_of a ordered) row.points_cost)
          × (reserved_of a cancelled
              ≡ moved
                  (row.member_account_id == a)
                  (reserved_of a ordered)
                  (pos 0 -ℤ row.points_cost)))
release_redemption_moves_example =
    release_redemption_moves "e2" auth "r1" ordered cancelled
      (reply released "e2" (balance (pos 500) (pos 0))) ordered-IsConsistent release-reply

release-create_example :
    (available_of "a1" cancelled ≡ available_of "a1" cafe)
    × (reserved_of "a1" cancelled ≡ reserved_of "a1" cafe)
release-create_example =
    release-create "r1" "e1" "rdm_1" (pos 1000) auth order "e2" cafe ordered cancelled
      (reply reserved "e1" (balance (pos 380) (pos 120)))
      (reply released "e2" (balance (pos 500) (pos 0))) cafe-IsConsistent order-reply release-reply
      "a1"

settled_once_example :
    (capture_redemption "e3" auth "r1" taken
      ≡ (err (invariant_error "only reserved or validated redemptions can be captured"), taken))
    × (release_redemption "e3" auth "r1" taken
        ≡ (err (invariant_error "only reserved or validated redemptions can be released"), taken))
    × (validate_redemption (pos 2000) auth "r1" taken
        ≡ (err (invariant_error "only reserved redemptions can be validated"), taken))
settled_once_example =
    settled_once auth "r1" ordered taken (reply captured "e2" (balance (pos 380) (pos 0)))
      ordered-IsConsistent "e2" (inl capture-reply) "e3" (pos 2000)
