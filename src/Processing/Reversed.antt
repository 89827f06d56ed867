-- ===== src/Processing/Reversed.antt =====
-- The stored refunds of one purchase: the rows that `PriorRefundedBasisForOriginal` of
-- accts-api/adapters/postgres/internal/repository/reward_calculation.go adds up.
use paisa.Prelude.{
  ℕ, ◌+◌, ◌*◌, ◌≤◌, String, ◌==◌, eq_iff, ◌≡◌, refl, inl, inr, Bool, true, false, ◌&&◌, List, [],
  ◌∷◌, any, arith, Bool-cases, if◌then◌else◌,
}
use paisa.Prelude.Int.{ℤ, pos, ◌+ℤ◌}
use paisa.Domain.Transactions.{TransactionRow, RewardProcessingEvent, RewardCalculation}
use paisa.Db.State.{Db}
use paisa.Rewards.Bounds.{plus-pos}
use paisa.Domain.Rules.{SelectedAward}
use paisa.Rewards.Reversal.{minus-add, minus, points_of, shares, shares_bound}
use paisa.Processing.Store.{is_calculation_of, is_other_refund, refunded}

-- A refund of the partner's purchase with this external id.
abbrev pub is_refund_of : String → String → TransactionRow → Bool
is_refund_of partner_id external_id t =
    t.input.partner_id == partner_id
    && t.input.type == "refund"
    && t.input.original_external_transaction_id == external_id

-- A calculation that succeeded, of such a refund.
abbrev pub reverses : List TransactionRow → String → String → RewardCalculation → Bool
reverses rows partner_id external_id c =
    c.succeeded && any (λ t. is_calculation_of t.id c && is_refund_of partner_id external_id t) rows

module _ (rows : List TransactionRow) (partner_id external_id : String) where
  -- The bases of the refunds, and their points.
  abbrev pub basis_refunded : List RewardCalculation → ℤ
  basis_refunded [] = pos 0
  basis_refunded (c ∷ cs) =
      let rest = basis_refunded cs in
      if reverses rows partner_id external_id c then rest +ℤ c.basis_amount_minor else rest

  abbrev pub points_refunded : List RewardCalculation → ℤ
  points_refunded [] = pos 0
  points_refunded (c ∷ cs) =
      let rest = points_refunded cs in
      if reverses rows partner_id external_id c then rest +ℤ c.points_delta else rest

-- For an event without a calculation, the refunds of the others are all the refunds.
same_refund :
    (event : RewardProcessingEvent) (c : RewardCalculation) (rows : List TransactionRow)
    → is_calculation_of event.id c ≡ false
    → any (λ t. is_calculation_of t.id c && is_other_refund event t) rows
      ≡ any
          (λ t.
            is_calculation_of t.id c
            && is_refund_of event.partner_id event.original_external_transaction_id t)
          rows
same_refund event c [] h = refl
same_refund event c (t ∷ ts) h = elim (Bool-cases (t.id == event.id)) [
  | inl same ↦
      let e = (eq_iff t.id event.id).0 same in
      let no_calc : is_calculation_of t.id c ≡ false = rw e h in
      ground (arith, no_calc, same_refund event c ts h)
  | inr other ↦ ground (arith, other, same_refund event c ts h)
]

pub prior_is_all :
    (event : RewardProcessingEvent) (rows : List TransactionRow) (cs : List RewardCalculation)
    → any (is_calculation_of event.id) cs ≡ false
    → refunded event rows cs
      ≡ basis_refunded rows event.partner_id event.original_external_transaction_id cs
prior_is_all event rows [] h = refl
prior_is_all event rows (c ∷ cs) h =
    let rest = prior_is_all event rows cs (ground (arith, h)) in
    let same = same_refund event c rows (ground (arith, h)) in rw (same, rest) refl

-- The event is stored as a refund of the original.
abbrev pub is_stored_refund : RewardProcessingEvent → Db → Bool
is_stored_refund event db =
    any
      (λ t.
        event.id == t.id && is_refund_of event.partner_id event.original_external_transaction_id t)
      db.transaction_events

-- What the stored refunds have taken of an original of basis `d` with `awards`.
pub record Bounded (awards : List SelectedAward) (d : ℕ) (partner_id external_id : String)
    (rows : List TransactionRow) (cs : List RewardCalculation) : Type 0 where
  pub basis : ℕ
  pub points : ℕ
  pub basis_is : basis_refunded rows partner_id external_id cs ≡ pos basis
  pub points_is : points_refunded rows partner_id external_id cs ≡ minus points
  pub left : basis ≤ d
  pub shared : points * d ≤ points_of awards * basis

module _ (awards : List SelectedAward) (d : ℕ) (partner_id external_id : String)
    (rows : List TransactionRow) (cs : List RewardCalculation) where
  -- One more refund of the original.
  pub one_more :
      (row : RewardCalculation) (e : ℕ) (inv : Bounded awards d partner_id external_id rows cs)
      → reverses rows partner_id external_id row ≡ true
      → row.basis_amount_minor ≡ pos e
      → row.points_delta ≡ minus (shares e d awards)
      → inv.basis + e ≤ d
      → Bounded awards d partner_id external_id rows (row ∷ cs)
  one_more row e inv counts basis points left = record {
    basis = inv.basis + e;
    points = inv.points + shares e d awards;
    basis_is = rw (counts, inv.basis_is, basis) (plus-pos inv.basis e);
    points_is = rw (counts, inv.points_is, points) (minus-add inv.points (shares e d awards));
    left = left;
    shared = grind (arith, inv.shared, shares_bound e d awards);
  }
