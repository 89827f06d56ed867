-- ===== src/Rewards/Refund.antt =====
-- The refund of a purchase whose calculation is there: the part of `processRefundEvent` of
-- accts-api/application/reward_processing_service.go that computes, and `Prorate` of
-- accts-api/domain/helpers.go.
use paisa.Prelude.{List, [], ◌∷◌, map, if◌then◌else◌}
use paisa.Prelude.Int.{ℤ, pos, ltb_ℤ, leb_ℤ, eqb_ℤ}
use paisa.Prelude.Word.{◌⊞◌, ◌⊟◌, ◌⊠◌, ◌⊘◌, neg}
use paisa.Domain.Rules.{SelectedAward}
use paisa.Rewards.Groups.{min_int}

-- `Prorate`
unfoldable pub prorate : ℤ → ℤ → ℤ → ℤ
prorate value numerator denominator =
    if eqb_ℤ denominator (pos 0) then pos 0 else (value ⊠ numerator) ⊘ denominator

-- The basis that a refund asks for: at least 1.
abbrev pub requested_basis : ℤ → ℤ
requested_basis eligible_minor = if leb_ℤ eligible_minor (pos 0) then pos 1 else eligible_minor

-- What earlier refunds have left of the original's basis.
abbrev pub remaining_basis : ℤ → ℤ → ℤ
remaining_basis original prior =
    let left = original ⊟ prior in if ltb_ℤ left (pos 0) then pos 0 else left

unfoldable pub effective_basis : ℤ → ℤ → ℤ → ℤ
effective_basis original prior eligible_minor =
    min_int (requested_basis eligible_minor) (remaining_basis original prior)

abbrev pub ratio_denominator : ℤ → ℤ → ℤ
ratio_denominator original effective = if leb_ℤ original (pos 0) then effective else original

-- One award of the original, reversed.
unfoldable pub reverse_award : ℤ → ℤ → SelectedAward → SelectedAward
unfolding prorate
reverse_award effective denominator award = record award {
  points = neg (prorate award.points effective denominator);
  basis_amount_minor = prorate award.basis_amount_minor effective denominator;
}

abbrev pub sum_reversed : ℤ → List SelectedAward → ℤ
sum_reversed total [] = total
sum_reversed total (a ∷ rest) = sum_reversed (total ⊞ a.points) rest

-- What a refund computes: the basis that is stored with it, the awards reversed, and their points.
pub record RefundPlan : Type 0 where
  pub calculation_basis : ℤ
  pub selected_awards : List SelectedAward
  pub total_points : ℤ

unfoldable pub plan_refund : ℤ → ℤ → ℤ → List SelectedAward → RefundPlan
unfolding effective_basis reverse_award
plan_refund original prior eligible_minor awards =
    let effective = effective_basis original prior eligible_minor in
    let reversed = map (reverse_award effective (ratio_denominator original effective)) awards in
    record {
      calculation_basis = effective;
      selected_awards = reversed;
      total_points = sum_reversed (pos 0) reversed;
    }
