-- ===== src/Processing/Balanced.antt =====
-- The balances, entries and redemptions under the processing of
-- accts-api/application/reward_processing_service.go.
use paisa.Prelude.{
  ℕ, suc, String, ◌==◌, ◌≡◌, refl, ap, sym, ◌∙◌, inl, inr, true, List, [], ◌∷◌, arith,
}
use paisa.Prelude.Int.{ℤ, pos, eqb_ℤ}
use mathlib.Core.Path.{subst}
use paisa.Domain.Errors.{Error, public_failure_reason}
use paisa.Domain.Constants.{EntryType, earn, refund}
use paisa.Domain.Types.{LedgerEntryInput}
use paisa.Domain.Transactions.{RewardProcessingEvent, RewardCalculation}
use paisa.Db.Result.{Result, ok, err, Result-cases}
use paisa.Db.State.{Db, Tx, pure, fail, within_tx}
use paisa.Db.Accounts.{account_id}
use paisa.Db.Frame.{
  Keeps, query_row-Keeps, Preserves, within_tx-Keeps, >>=-Preserves, Keeping, Preserves-Keeping,
  >>=-Keeping, if-Keeping, within_tx-Keeping,
}
use paisa.Ledger.Store.{post_ledger_entry}
use paisa.Ledger.Posting.{post_ledger_entry-Posting}
use paisa.Redemption.Backed.{IsConsistent, money, money-Preserves}
use paisa.Redemption.Reach.{Posting-IsConsistent}
use paisa.Programs.Graph.{Graphs}
use paisa.Transactions.Store.{mark_processed, mark_failed}
use paisa.Processing.Store.{
  Arrange, ProcessingEventBundle, create_succeeded, create_failed, original_for_refund,
  prior_refunded_basis_for_original, claim_and_load_accepted_transactions,
}
use paisa.Processing.Selection.{active_program_and_published_rule_set, rules_or_blank}
use paisa.Processing.Frame.{
  rule_set-Keeps, calculate_rule_set-Keeps, missing-Keeps, prior-Keeps, rules_or_blank-Keeps,
}
use paisa.Processing.Service.{
  at_time, EventIds, Setting, settle_points, calculate_rule_set_purchase, process_purchase_event,
  calculate_missing_original_refund, refund_fallback, refund_original, process_refund_event,
  process_event, with_lines, attempt, record_failure, after_failure, process_one_event,
  process_bundles, process_transaction_events,
}

create_succeeded-money : (row : RewardCalculation) → Keeps money (create_succeeded row)
unfolding create_succeeded
create_succeeded-money row db = ground arith

account_id-money : (p m : String) → Keeps money (account_id p m)
unfolding account_id
account_id-money p m = query_row-Keeps money _

post-Keeping :
    (id : String) (input : LedgerEntryInput)
    → input.reserved_delta ≡ pos 0
    → Keeping IsConsistent (post_ledger_entry id input)
post-Keeping id input zero_delta db db' r inv e =
    Posting-IsConsistent id input db db' r zero_delta inv
      (post_ledger_entry-Posting id input db db' r e)

-- An action that leaves the books and the redemptions alone, as a step of a transaction.
quiet : {A : Type 0} (m : Tx A) → Keeps money m → Keeping IsConsistent m
quiet m h = Preserves-Keeping IsConsistent m (money-Preserves m h)

settle_points-Keeping :
    (ids : EventIds) (event : RewardProcessingEvent) (t : EntryType) (reason : String)
    (row : RewardCalculation)
    → Keeping IsConsistent (settle_points ids event t reason row)
unfolding settle_points
settle_points-Keeping ids event t reason row =
    >>=-Keeping IsConsistent (create_succeeded row) _
      (quiet (create_succeeded row) (create_succeeded-money row))
      (λ c.
        >>=-Keeping IsConsistent _ _
          (if-Keeping IsConsistent (eqb_ℤ row.points_delta (pos 0)) (pure tt) _
            (quiet (pure tt) (λ _. refl))
            (>>=-Keeping IsConsistent (account_id event.partner_id event.member_id) _
              (quiet (account_id event.partner_id event.member_id)
                (account_id-money event.partner_id event.member_id))
              (λ account.
                >>=-Keeping IsConsistent (post_ledger_entry ids.entry _) _
                  (post-Keeping ids.entry _ refl) (λ _. quiet (pure tt) (λ _. refl)))))
          (λ _. quiet (pure c) (λ _. refl)))

mark_processed-money : (id : String) → Keeps money (mark_processed id)
unfolding mark_processed
mark_processed-money id db = refl

pub mark_failed-money : (id : String) → Keeps money (mark_failed id)
unfolding mark_failed
mark_failed-money id db = refl

pub create_failed-money :
    (id : String) (event : RewardProcessingEvent) (reason : String)
    → Keeps money (create_failed id event reason)
unfolding create_failed
create_failed-money id event reason db = ground arith

module _ (s : Setting) where
  module _ (cache : Graphs) where
    purchase-Keeping :
        (ids : EventIds) (event : RewardProcessingEvent)
        → Keeping IsConsistent (process_purchase_event s cache ids event)
    unfolding process_purchase_event
    purchase-Keeping ids event =
        >>=-Keeping IsConsistent
          (active_program_and_published_rule_set s.now event.partner_id event.member_id) _
          (quiet (active_program_and_published_rule_set s.now event.partner_id event.member_id)
            (rule_set-Keeps money s event.partner_id event.member_id))
          (λ rule_set.
            >>=-Keeping IsConsistent (calculate_rule_set_purchase s cache event rule_set true) _
              (quiet (calculate_rule_set_purchase s cache event rule_set true)
                (calculate_rule_set-Keeps money s (λ _ _. refl) cache event rule_set true))
              (λ c. settle_points-Keeping ids event earn "purchase earn" _))

    fallback-Keeping :
        (ids : EventIds) (event : RewardProcessingEvent) (g version : String)
        → Keeping IsConsistent (refund_fallback s cache ids event g version)
    unfolding refund_fallback
    fallback-Keeping ids event g version =
        >>=-Keeping IsConsistent (calculate_missing_original_refund s cache event version _) _
          (quiet (calculate_missing_original_refund s cache event version _)
            (missing-Keeps money s (λ _ _. refl) cache event version _))
          (λ f. settle_points-Keeping ids event refund "refund reversal" _)

    original-Keeping :
        (ids : EventIds) (event : RewardProcessingEvent) (g version : String)
        (found : RewardProcessingEvent × RewardCalculation)
        → Keeping IsConsistent (refund_original s cache ids event g version found)
    unfolding refund_original
    original-Keeping ids event g version found =
        >>=-Keeping IsConsistent (prior_refunded_basis_for_original event) _
          (quiet (prior_refunded_basis_for_original event) (prior-Keeps money event))
          (λ prior. settle_points-Keeping ids event refund "refund reversal" _)

    -- The two ways of a refund, by what the search for the original returned.
    refund_by-Keeping :
        (ids : EventIds) (event : RewardProcessingEvent) (g version : String)
        (r : Result (RewardProcessingEvent × RewardCalculation))
        → Keeping {A = String} IsConsistent (λ db. elim r [
          | ok found ↦ refund_original s cache ids event g version found db
          | err _ ↦ refund_fallback s cache ids event g version db
        ])
    refund_by-Keeping ids event g version (ok found) = original-Keeping ids event g version found
    refund_by-Keeping ids event g version (err _) = fallback-Keeping ids event g version

    refund-Keeping :
        (ids : EventIds) (event : RewardProcessingEvent)
        → Keeping IsConsistent (process_refund_event s cache ids event)
    unfolding process_refund_event
    refund-Keeping ids event =
        >>=-Keeping IsConsistent (rules_or_blank event.partner_id event.member_id) _
          (quiet (rules_or_blank event.partner_id event.member_id)
            (rules_or_blank-Keeps money event.partner_id event.member_id))
          (λ rules db.
            refund_by-Keeping ids event rules.0 rules.1 (original_for_refund event db).0 db)

    event-Keeping :
        (ids : EventIds) (event : RewardProcessingEvent)
        → Keeping IsConsistent (process_event s cache ids event)
    unfolding process_event
    event-Keeping ids event =
        if-Keeping IsConsistent (event.type == "refund") (process_refund_event s cache ids event) _
          (refund-Keeping ids event)
          (if-Keeping IsConsistent (event.type == "purchase")
            (process_purchase_event s cache ids event) (fail _) (purchase-Keeping ids event)
            (quiet (fail _) (λ _. refl)))

    attempt-IsConsistent :
        (ids : EventIds) (event : RewardProcessingEvent)
        → Preserves IsConsistent (attempt s cache ids event)
    unfolding attempt
    attempt-IsConsistent ids event = within_tx-Keeping IsConsistent _ (
        >>=-Keeping IsConsistent (process_event s cache ids event) _ (event-Keeping ids event)
          (λ _. quiet (mark_processed event.id) (mark_processed-money event.id)))

    failure-IsConsistent :
        (ids : EventIds) (event : RewardProcessingEvent) (x : Error)
        → Preserves IsConsistent (record_failure s cache ids event x)
    unfolding record_failure
    failure-IsConsistent ids event x = within_tx-Keeping IsConsistent _ (
        >>=-Keeping IsConsistent (create_failed ids.failure event (public_failure_reason x)) _
          (quiet (create_failed ids.failure event (public_failure_reason x))
            (create_failed-money ids.failure event (public_failure_reason x)))
          (λ _. quiet (mark_failed event.id) (mark_failed-money event.id)))

    pub after_failure-db :
        (x : Error) (q : Result (Unit {0}) × Db) → (after_failure s cache x q).1 ≡ q.1
    after_failure-db x (ok _, db) = refl
    after_failure-db x (err y, db) = refl

    failed_is :
        (ids : EventIds) (bundle : ProcessingEventBundle) (x : Error) (db : Db)
        → let event = with_lines s cache bundle in
          (attempt s cache ids event db).0 ≡ err x
          → after_failure s cache x
              (record_failure s cache ids event x (attempt s cache ids event db).1)
            ≡ process_one_event s cache ids bundle db
    unfolding process_one_event
    failed_is ids bundle x db e = ground (arith, e)

    -- From a consistent database, the processing of one event leaves a consistent one, whatever
    -- its outcome and the content of the cache.
    pub process_one_event-IsConsistent :
        (ids : EventIds) (bundle : ProcessingEventBundle)
        → Preserves IsConsistent (process_one_event s cache ids bundle)
    unfolding process_one_event
    process_one_event-IsConsistent ids bundle db inv =
        let event = with_lines s cache bundle in
        let q = attempt s cache ids event db in
        let tried = attempt-IsConsistent ids event db inv in
        elim (Result-cases q.0) [
          | inl (u, e) ↦ subst IsConsistent (ground (arith, e)) tried
          | inr (x, e) ↦
              subst IsConsistent
                (sym (after_failure-db x (record_failure s cache ids event x q.1))
                  ∙ ap (λ (r : Result (Unit {0}) × Db). r.1) (failed_is ids bundle x db e))
                (failure-IsConsistent ids event x q.1 tried)
        ]

module _ (s : Setting) where
  process_bundles-IsConsistent :
      (caches : ℕ → Graphs) (ids : ℕ → EventIds) (nows : ℕ → ℤ) (index : ℕ)
      (bundles : List ProcessingEventBundle) (db : Db)
      → IsConsistent db
      → IsConsistent (process_bundles s caches ids nows index bundles db).1
  unfolding process_bundles
  process_bundles-IsConsistent caches ids nows index [] db inv = inv
  process_bundles-IsConsistent caches ids nows index (b ∷ bs) db inv =
      process_bundles-IsConsistent caches ids nows (suc index) bs _ (
        process_one_event-IsConsistent (at_time s (nows index)) (caches index) (ids index) b db inv)

  claim-money :
      (arrange : Arrange) (limit : ℕ)
      → Keeps money (claim_and_load_accepted_transactions arrange limit)
  unfolding claim_and_load_accepted_transactions
  claim-money arrange limit db = refl

  -- From a consistent database, a batch of processing leaves a consistent one, whatever the
  -- outcomes of its events, the times of their transactions, the order that the claim gives them
  -- in and the contents of the cache: the balances are the sums of the ledger's entries, and the
  -- reserved points of each account are the costs of its open redemptions.
  pub process_transaction_events-IsConsistent :
      (arrange : Arrange) (caches : ℕ → Graphs) (ids : ℕ → EventIds) (nows : ℕ → ℤ)
      → Preserves IsConsistent (process_transaction_events s arrange caches ids nows)
  unfolding process_transaction_events
  process_transaction_events-IsConsistent arrange caches ids nows =
      >>=-Preserves IsConsistent _ _
        (money-Preserves (within_tx (claim_and_load_accepted_transactions arrange 50)) (
          within_tx-Keeps money (claim_and_load_accepted_transactions arrange 50)
            (claim-money arrange 50)))
        (λ bundles db inv. process_bundles-IsConsistent caches ids nows 0 bundles db inv)
