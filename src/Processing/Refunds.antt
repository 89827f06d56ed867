-- ===== src/Processing/Refunds.antt =====
-- Several refunds of one purchase: `processRefundEvent` of
-- accts-api/application/reward_processing_service.go, where it finds the original.
use mathlib.Core.Path.{subst, subst₂}
use paisa.Prelude.{
  ℕ, ◌^◌, ◌≤◌, ◌<◌, String, ◌==◌, ◌≡◌, refl, sym, ap, ◌∙◌, inl, inr, true, false, List, [], ◌∷◌,
  All, any, arith, Bool-cases,
}
use paisa.Prelude.Int.{ℤ, pos, ◌≤ℤ◌, -ℤ_parts, int_laws}
use paisa.Domain.Transactions.{TransactionRow, RewardProcessingEvent, RewardCalculation}
use paisa.Db.State.{Db, ◌>>=◌}
use paisa.Programs.Graph.{Graphs}
use paisa.Domain.Constants.{refund}
use paisa.Db.Result.{ok}
use paisa.Db.Inversion.{>>=-eq-ok}
use paisa.Rewards.Refund.{RefundPlan, plan_refund}
use paisa.Rewards.Reversal.{minus, points_of, IsEarned, plan_refund_exact, within_points}
use paisa.Processing.Store.{
  is_calculation_of, refunded, calculation_clashes, original_for_refund,
  prior_refunded_basis_for_original,
}
use paisa.Processing.Selection.{rules_or_blank, blank_base, active_program}
use paisa.Processing.Settled.{settle_points-stores}
use paisa.Processing.Service.{
  succeeded_row, settle_points, EventIds, Setting, refund_original, process_refund_event,
}
use paisa.Processing.Reversed.{
  basis_refunded, points_refunded, prior_is_all, is_stored_refund, Bounded, one_more,
}

prior-value :
    (event : RewardProcessingEvent) (db db' : Db) (prior : ℤ)
    → (event.original_external_transaction_id == "") ≡ false
    → prior_refunded_basis_for_original event db ≡ (ok prior, db')
    → (prior ≡ refunded event db.transaction_events db.reward_calculations) × (db' ≡ db)
unfolding prior_refunded_basis_for_original
prior-value event db db' prior named h = (ground (arith, named, h), ground (arith, named, h))

original-named :
    (event : RewardProcessingEvent) (db : Db) (found : RewardProcessingEvent × RewardCalculation)
    → (original_for_refund event db).0 ≡ ok found
    → (event.original_external_transaction_id == "") ≡ false
unfolding original_for_refund
original-named event db found h = elim (Bool-cases (event.original_external_transaction_id == "")) [
  | inl blank ↦ absurd (ground (arith, blank, h))
  | inr named ↦ named
]

unclashed :
    (row : RewardCalculation) (cs : List RewardCalculation)
    → any (calculation_clashes row) cs ≡ false
    → any (is_calculation_of row.transaction_event_id) cs ≡ false
unclashed row [] h = refl
unclashed row (c ∷ cs) h = ground (arith, h, unclashed row cs)

module _ (found : RewardProcessingEvent × RewardCalculation) (d : ℕ) where
  abbrev HasBounded : RewardProcessingEvent → Db → Type 0
  HasBounded event db =
      Bounded found.1.selected_awards d event.partner_id event.original_external_transaction_id
        db.transaction_events db.reward_calculations

module _ (found : RewardProcessingEvent × RewardCalculation) (d : ℕ)
    (eligible : found.0.eligible_minor ≡ pos d) (d_fits : d < 2 ^ 31) (positive : 0 < d)
    (earned : All IsEarned found.1.selected_awards)
    (fits : points_of found.1.selected_awards < 2 ^ 31) where
  -- The settlement of a refund whose plan comes from the prior basis in the database.
  settled-Bounded :
      (ids : EventIds) (event : RewardProcessingEvent) (g version : String) (prior : ℤ)
      (plan : RefundPlan) (db db' : Db) (c : String)
      → prior ≡ refunded event db.transaction_events db.reward_calculations
      → plan ≡ plan_refund found.0.eligible_minor prior event.eligible_minor found.1.selected_awards
      → is_stored_refund event db ≡ true
      → settle_points ids event refund "refund reversal"
          (succeeded_row ids.calculation event g version plan.total_points plan.calculation_basis
            plan.selected_awards)
          db
        ≡ (ok c, db')
      → HasBounded found d event db
      → HasBounded found d event db'
  settled-Bounded ids event g version prior plan db db' c value planned is_refund h inv =
      let row =
        succeeded_row ids.calculation event g version plan.total_points plan.calculation_basis
          plan.selected_awards in
      let (new, stored) = settle_points-stores ids event refund "refund reversal" row db db' c h in
      let basis : prior ≡ pos inv.basis =
        value
        ∙ prior_is_all event db.transaction_events db.reward_calculations
            (unclashed row db.reward_calculations new)
        ∙ inv.basis_is in
      let exact : plan
          ≡ plan_refund (pos d) (pos inv.basis) event.eligible_minor found.1.selected_awards =
        planned
        ∙ ap (λ o. plan_refund o prior event.eligible_minor found.1.selected_awards) eligible
        ∙ ap (λ o. plan_refund (pos d) o event.eligible_minor found.1.selected_awards) basis in
      let (e, left, basis_is, points_is) =
        plan_refund_exact d inv.basis event.eligible_minor found.1.selected_awards d_fits positive
          inv.left earned fits in
      subst
        (λ (q : List TransactionRow × List RewardCalculation).
          Bounded found.1.selected_awards d event.partner_id event.original_external_transaction_id
            q.0 q.1)
        (sym stored)
        (one_more found.1.selected_awards d event.partner_id event.original_external_transaction_id
          db.transaction_events db.reward_calculations row e inv is_refund
          (ap (λ (q : RefundPlan). q.calculation_basis) exact ∙ basis_is)
          (ap (λ (q : RefundPlan). q.total_points) exact ∙ points_is) left)

  refund_original-Bounded :
      (s : Setting) (cache : Graphs) (ids : EventIds) (event : RewardProcessingEvent)
      (g version : String) (db db' : Db) (c : String)
      → (event.original_external_transaction_id == "") ≡ false
      → is_stored_refund event db ≡ true
      → refund_original s cache ids event g version found db ≡ (ok c, db')
      → HasBounded found d event db
      → HasBounded found d event db'
  unfolding refund_original
  refund_original-Bounded s cache ids event g version db db' c named is_refund h inv =
      let (prior, m, e₁, h₁) = >>=-eq-ok (prior_refunded_basis_for_original event) _ h in
      let (value, same) = prior-value event db m prior named e₁ in
      settled-Bounded ids event _ _ prior _ m db' c
        (value
          ∙ ap (λ (q : Db). refunded event q.transaction_events q.reward_calculations) (sym same))
        refl (ap (is_stored_refund event) same ∙ is_refund) h₁
        (subst (HasBounded found d event) (sym same) inv)

  -- A refund that finds its original.
  process_refund_event-Bounded :
      (s : Setting) (cache : Graphs) (ids : EventIds) (event : RewardProcessingEvent) (db db' : Db)
      (c : String)
      → is_stored_refund event db ≡ true
      → (original_for_refund event db).0 ≡ ok found
      → process_refund_event s cache ids event db ≡ (ok c, db')
      → HasBounded found d event db
      → HasBounded found d event db'
  unfolding process_refund_event rules_or_blank ◌>>=◌
  process_refund_event-Bounded s cache ids event db db' c is_refund original h inv =
      let rules =
        blank_base db event.partner_id (active_program db event.partner_id event.member_id) in
      let run : refund_original s cache ids event rules.0 rules.1 found db ≡ (ok c, db') =
        ground (arith, original, h) in
      refund_original-Bounded s cache ids event rules.0 rules.1 db db' c
        (original-named event db found original) is_refund run inv

abbrev pub refunded_basis : String → String → Db → ℤ
refunded_basis p x db = basis_refunded db.transaction_events p x db.reward_calculations

abbrev pub refunded_points : String → String → Db → ℤ
refunded_points p x db = points_refunded db.transaction_events p x db.reward_calculations

-- A sequence of refunds of one original by the partner: each finds that original, is stored as a
-- refund of it, and succeeds. Between them, calls may do anything that leaves the sums over the stored
-- refunds of that original: the processing of other events, say, or a change of an event's status.
pub data Refunds (found : RewardProcessingEvent × RewardCalculation)
    (partner_id external_id : String) : Db → Db → Type 0 where
  here : {db : Db} → Refunds found partner_id external_id db db
  apart :
      {db db₁ db' : Db}
      → refunded_basis partner_id external_id db₁ ≡ refunded_basis partner_id external_id db
      → refunded_points partner_id external_id db₁ ≡ refunded_points partner_id external_id db
      → Refunds found partner_id external_id db₁ db'
      → Refunds found partner_id external_id db db'
  next :
      {db db₁ db' : Db} (s : Setting) (cache : Graphs) (ids : EventIds)
      (event : RewardProcessingEvent) (c : String)
      → event.partner_id ≡ partner_id
      → event.original_external_transaction_id ≡ external_id
      → is_stored_refund event db ≡ true
      → (original_for_refund event db).0 ≡ ok found
      → process_refund_event s cache ids event db ≡ (ok c, db₁)
      → Refunds found partner_id external_id db₁ db'
      → Refunds found partner_id external_id db db'

module _ (found : RewardProcessingEvent × RewardCalculation) (d : ℕ) (p x : String)
    (eligible : found.0.eligible_minor ≡ pos d) (d_fits : d < 2 ^ 31) (positive : 0 < d)
    (earned : All IsEarned found.1.selected_awards)
    (fits : points_of found.1.selected_awards < 2 ^ 31) where
  Refunds-Bounded :
      {db db' : Db}
      → Refunds found p x db db'
      → Bounded found.1.selected_awards d p x db.transaction_events db.reward_calculations
      → Bounded found.1.selected_awards d p x db'.transaction_events db'.reward_calculations
  Refunds-Bounded here inv = inv
  Refunds-Bounded (apart same_basis same_points rest) inv = Refunds-Bounded rest (record {
    basis = inv.basis;
    points = inv.points;
    basis_is = same_basis ∙ inv.basis_is;
    points_is = same_points ∙ inv.points_is;
    left = inv.left;
    shared = inv.shared;
  })
  Refunds-Bounded (next {db} {db₁} s cache ids event c partner external is_refund original h rest)
        inv =
      let to =
        λ (q : Db)
            (i : Bounded found.1.selected_awards d p x q.transaction_events q.reward_calculations).
          subst₂
            (λ a b.
              Bounded found.1.selected_awards d a b q.transaction_events q.reward_calculations)
            (sym partner) (sym external) i in
      Refunds-Bounded rest (
        subst₂
          (λ a b.
            Bounded found.1.selected_awards d a b db₁.transaction_events db₁.reward_calculations)
          partner external
          (process_refund_event-Bounded found d eligible d_fits positive earned fits s cache ids
            event db db₁ c is_refund original h (to db inv)))

  -- Where the basis of a purchase is positive, the points of its awards are not negative, and both
  -- fit 31 bits, the successful refunds that find it, one after another from a database without a
  -- refund of it, have together a basis between 0 and its own, and reverse between 0 and the points
  -- of its awards, whatever each asks for. Calls between them leave what its refunds add up to.
  pub refunds_at_most :
      {db db' : Db}
      → Refunds found p x db db'
      → refunded_basis p x db ≡ pos 0
      → refunded_points p x db ≡ pos 0
      → (pos 0 ≤ℤ refunded_basis p x db')
        × (refunded_basis p x db' ≤ℤ pos d)
        × (minus (points_of found.1.selected_awards) ≤ℤ refunded_points p x db')
        × (refunded_points p x db' ≤ℤ pos 0)
  refunds_at_most refunds no_basis no_points =
      let inv = Refunds-Bounded refunds (record {
        basis = 0;
        points = 0;
        basis_is = no_basis;
        points_is = no_points ∙ omega int_laws;
        left = omega arith;
        shared = omega arith;
      }) in
      let few : inv.points ≤ points_of found.1.selected_awards =
        within_points inv.points (points_of found.1.selected_awards) inv.basis d positive inv.shared
          inv.left in
      rw (inv.basis_is, inv.points_is)
        (
          omega arith,
          omega (arith, inv.left),
          omega (int_laws, few, -ℤ_parts (pos 0) (pos inv.points)),
          omega (int_laws, -ℤ_parts (pos 0) (pos inv.points)),
        )
