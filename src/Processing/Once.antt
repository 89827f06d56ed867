-- ===== src/Processing/Once.antt =====
-- An event is rewarded once: accts-api/application/reward_processing_service.go, on the unique
-- index of reward_calculations on its event.
use mathlib.Core.Path.{subst}
use paisa.Prelude.{
  String, ◌==◌, ◌≡◌, refl, ap, sym, ◌∙◌, inl, inr, true, List, [], ◌∷◌, any, ◌&&◌, Bool-cases,
  arith,
}
use paisa.Prelude.Word.{fits_integer}
use paisa.Domain.Errors.{Error, public_failure_reason, app_error_from_db}
use paisa.Domain.Constants.{EntryType, earn, refund}
use paisa.Domain.Transactions.{RewardProcessingEvent, RewardCalculation}
use paisa.Db.Result.{Result, ok, err}
use paisa.Db.State.{Db, Tx, fail}
use paisa.Db.Frame.{
  Keeps, >>=-Keeps, within_tx-Keeps, Preserves, Keeps-Preserves, Refuses, >>=-Refuses, Refuses->>=,
  if-Refuses, within_tx-Refuses,
}
use paisa.Rewards.Refund.{requested_basis}
use paisa.Ledger.Store.{duplicate_key, out_of_range}
use paisa.Ledger.Reconciled.{books}
use paisa.Redemption.Backed.{money-books}
use paisa.Programs.Graph.{Graphs}
use paisa.Transactions.Store.{mark_failed}
use paisa.Processing.Store.{
  ProcessingEventBundle, create_succeeded, create_failed, is_calculation_of, calculation_clashes,
  original_for_refund, prior_refunded_basis_for_original,
}
use paisa.Processing.Selection.{active_program_and_published_rule_set, rules_or_blank}
use paisa.Processing.Frame.{
  rule_set-Keeps, calculate_rule_set-Keeps, missing-Keeps, prior-Keeps, rules_or_blank-Keeps,
}
use paisa.Processing.Balanced.{create_failed-money, mark_failed-money, after_failure-db}
use paisa.Processing.Service.{
  EventIds, Setting, settle_points, calculate_rule_set_purchase, process_purchase_event,
  calculate_missing_original_refund, refund_fallback, refund_original, process_refund_event,
  process_event, with_lines, attempt, record_failure, after_failure, process_one_event,
}

abbrev calculations : Db → List RewardCalculation
calculations db = db.reward_calculations

-- The event has a calculation, which succeeded or failed.
abbrev pub IsCalculated : String → Db → Type 0
IsCalculated event_id db = any (is_calculation_of event_id) db.reward_calculations ≡ true

clash-any :
    (row : RewardCalculation) (cs : List RewardCalculation)
    → any (is_calculation_of row.transaction_event_id) cs ≡ true
    → any (calculation_clashes row) cs ≡ true
clash-any row [] h = h
clash-any row (c ∷ cs) h = ground (arith, clash-any row cs, h)

create_succeeded-Refuses :
    (row : RewardCalculation)
    → Refuses (IsCalculated row.transaction_event_id) (create_succeeded row)
unfolding create_succeeded
create_succeeded-Refuses row db h =
    let clash = clash-any row db.reward_calculations h in
    elim (Bool-cases (fits_integer row.points_delta && fits_integer row.basis_amount_minor)) [
      | inl fits ↦ (app_error_from_db duplicate_key, ground (arith, fits, clash))
      | inr bad ↦ (app_error_from_db out_of_range, ground (arith, bad))
    ]

Keeps-IsCalculated :
    (event_id : String) {A : Type 0} (m : Tx A)
    → Keeps calculations m
    → Preserves (IsCalculated event_id) m
Keeps-IsCalculated event_id =
    Keeps-Preserves calculations (λ cs. any (is_calculation_of event_id) cs ≡ true)

settle_points-Refuses :
    (ids : EventIds) (event : RewardProcessingEvent) (t : EntryType) (reason : String)
    (row : RewardCalculation)
    → Refuses (IsCalculated row.transaction_event_id) (settle_points ids event t reason row)
unfolding settle_points
settle_points-Refuses ids event t reason row =
    Refuses->>= (IsCalculated row.transaction_event_id) (create_succeeded row) _
      (create_succeeded-Refuses row)

module _ (s : Setting) (cache : Graphs) where
  purchase-Refuses :
      (ids : EventIds) (event : RewardProcessingEvent)
      → Refuses (IsCalculated event.id) (process_purchase_event s cache ids event)
  unfolding process_purchase_event
  purchase-Refuses ids event =
      >>=-Refuses (IsCalculated event.id)
        (active_program_and_published_rule_set s.now event.partner_id event.member_id) _
        (Keeps-IsCalculated event.id
          (active_program_and_published_rule_set s.now event.partner_id event.member_id)
          (rule_set-Keeps calculations s event.partner_id event.member_id))
        (λ rule_set.
          >>=-Refuses (IsCalculated event.id)
            (calculate_rule_set_purchase s cache event rule_set true) _
            (Keeps-IsCalculated event.id (calculate_rule_set_purchase s cache event rule_set true)
              (calculate_rule_set-Keeps calculations s (λ _ _. refl) cache event rule_set true))
            (λ c. settle_points-Refuses ids event earn "purchase earn" _))

  fallback-Refuses :
      (ids : EventIds) (event : RewardProcessingEvent) (g version : String)
      → Refuses (IsCalculated event.id) (refund_fallback s cache ids event g version)
  unfolding refund_fallback
  fallback-Refuses ids event g version =
      >>=-Refuses (IsCalculated event.id)
        (calculate_missing_original_refund s cache event version _) _
        (Keeps-IsCalculated event.id
          (calculate_missing_original_refund s cache event version
            (requested_basis event.eligible_minor))
          (missing-Keeps calculations s (λ _ _. refl) cache event version _))
        (λ f. settle_points-Refuses ids event refund "refund reversal" _)

  original-Refuses :
      (ids : EventIds) (event : RewardProcessingEvent) (g version : String)
      (found : RewardProcessingEvent × RewardCalculation)
      → Refuses (IsCalculated event.id) (refund_original s cache ids event g version found)
  unfolding refund_original
  original-Refuses ids event g version found =
      >>=-Refuses (IsCalculated event.id) (prior_refunded_basis_for_original event) _
        (Keeps-IsCalculated event.id (prior_refunded_basis_for_original event)
          (prior-Keeps calculations event))
        (λ prior. settle_points-Refuses ids event refund "refund reversal" _)

  refund_by-Refuses :
      (ids : EventIds) (event : RewardProcessingEvent) (g version : String)
      (r : Result (RewardProcessingEvent × RewardCalculation))
      → Refuses {A = String} (IsCalculated event.id) (λ db. elim r [
        | ok found ↦ refund_original s cache ids event g version found db
        | err _ ↦ refund_fallback s cache ids event g version db
      ])
  refund_by-Refuses ids event g version (ok found) = original-Refuses ids event g version found
  refund_by-Refuses ids event g version (err _) = fallback-Refuses ids event g version

  refund-Refuses :
      (ids : EventIds) (event : RewardProcessingEvent)
      → Refuses (IsCalculated event.id) (process_refund_event s cache ids event)
  unfolding process_refund_event
  refund-Refuses ids event =
      >>=-Refuses (IsCalculated event.id) (rules_or_blank event.partner_id event.member_id) _
        (Keeps-IsCalculated event.id (rules_or_blank event.partner_id event.member_id)
          (rules_or_blank-Keeps calculations event.partner_id event.member_id))
        (λ rules db.
          refund_by-Refuses ids event rules.0 rules.1 (original_for_refund event db).0 db)

  event-Refuses :
      (ids : EventIds) (event : RewardProcessingEvent)
      → Refuses (IsCalculated event.id) (process_event s cache ids event)
  unfolding process_event
  event-Refuses ids event =
      if-Refuses (IsCalculated event.id) (event.type == "refund")
        (process_refund_event s cache ids event) _ (refund-Refuses ids event)
        (if-Refuses (IsCalculated event.id) (event.type == "purchase")
          (process_purchase_event s cache ids event) (fail _) (purchase-Refuses ids event)
          (λ db _. (_, refl)))

  attempt-refused :
      (ids : EventIds) (event : RewardProcessingEvent) (db : Db)
      → IsCalculated event.id db
      → (e : Error) × (attempt s cache ids event db ≡ (err e, db))
  unfolding attempt
  attempt-refused ids event = within_tx-Refuses (IsCalculated event.id) _ (
      Refuses->>= (IsCalculated event.id) (process_event s cache ids event) _
        (event-Refuses ids event))

  pub failure-books :
      (ids : EventIds) (event : RewardProcessingEvent) (x : Error)
      → Keeps books (record_failure s cache ids event x)
  unfolding record_failure
  failure-books ids event x = within_tx-Keeps books _ (
      >>=-Keeps books (create_failed ids.failure event (public_failure_reason x)) _
        (money-books (create_failed ids.failure event (public_failure_reason x))
          (create_failed-money ids.failure event (public_failure_reason x)))
        (λ _. money-books (mark_failed event.id) (mark_failed-money event.id)))

  with_lines-id :
      (bundle : ProcessingEventBundle) → (with_lines s cache bundle).id ≡ bundle.event.id
  with_lines-id bundle = ground arith

  after_failure-err :
      (x : Error) (q : Result (Unit {0}) × Db)
      → (e : Error) × ((after_failure s cache x q).0 ≡ err e)
  after_failure-err x (ok _, db) = (x, refl)
  after_failure-err x (err y, db) = (y, refl)

  -- An event that already has a calculation fails when it is processed again, and the ledger and
  -- the balances stay as they were.
  pub process_one_event-once :
      (ids : EventIds) (bundle : ProcessingEventBundle) (db : Db)
      → IsCalculated bundle.event.id db
      → (e : Error) × ((process_one_event s cache ids bundle db).0 ≡ err e)
        × (books (process_one_event s cache ids bundle db).1 ≡ books db)
  unfolding process_one_event
  process_one_event-once ids bundle db h =
      let event = with_lines s cache bundle in
      let (x, refused) =
        attempt-refused ids event db
          (subst (λ i. IsCalculated i db) (sym (with_lines-id bundle)) h) in
      let q = record_failure s cache ids event x db in
      let run : process_one_event s cache ids bundle db ≡ after_failure s cache x q =
        ground (arith, refused) in
      let (e, failed) = after_failure-err x q in
      (
        e,
        ap (λ (r : Result (Unit {0}) × Db). r.0) run ∙ failed,
        ap (λ (r : Result (Unit {0}) × Db). books r.1) run
            ∙ ap books (after_failure-db s cache x q)
            ∙ failure-books ids event x db,
      )
