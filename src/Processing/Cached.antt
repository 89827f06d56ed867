-- ===== src/Processing/Cached.antt =====
-- The processing of accts-api/application/reward_processing_service.go with and without the cache
-- of rule graphs.
use paisa.Prelude.{
  String, ◌==◌, ◌≡◌, refl, inl, inr, Bool, true, false, none, List, [], ◌∷◌, arith, if◌then◌else◌,
  sym, ◌∙◌,
}
use paisa.Prelude.Int.{ℤ}
use paisa.Domain.Errors.{Error}
use paisa.Domain.Transactions.{RewardProcessingEvent, RewardCalculation}
use paisa.Db.Result.{Result, ok, err, Result-cases}
use paisa.Db.State.{Db, Tx, fail, ◌>>=◌, within_tx}
use paisa.Db.Frame.{Keeps}
use paisa.Rewards.Refund.{requested_basis}
use paisa.Programs.Graph.{Graphs}
use paisa.Processing.Store.{ProcessingEventBundle, original_for_refund}
use paisa.Processing.Selection.{
  RuleSetSelection, active_program_and_published_rule_set, rules_or_blank,
}
use paisa.Processing.Cache.{
  IsCoherent, load_published_rule_graphs, load_published_rule_graphs-direct,
}
use paisa.Processing.Frame.{rule_set-Keeps, rules_or_blank-Keeps}
use paisa.Processing.Service.{
  EventIds, Setting, synthetic_refund_purchase, calculate_rule_set_purchase, process_purchase_event,
  calculate_missing_original_refund, refund_fallback, refund_original, process_refund_event,
  process_event, with_lines, attempt, record_failure, after_failure, process_one_event,
}

-- Two actions that agree on a database, before the same steps.
first_same :
    {A C : Type 0} (m m' : Tx A) (k : A → Tx C) (db : Db)
    → m db ≡ m' db
    → (m >>= k) db ≡ (m' >>= k) db
unfolding ◌>>=◌
first_same m m' k db h = elim (Result-cases (m db).0) [
  | inl (a, e) ↦ ground (arith, e, h)
  | inr (x, e) ↦ ground (arith, e, h)
]

-- Steps that agree on the database, after an action that leaves it as it was.
rest_same :
    {A C : Type 0} (m : Tx A) (k k' : A → Tx C) (db : Db)
    → Keeps (λ db. db) m
    → ((a : A) → k a db ≡ k' a db)
    → (m >>= k) db ≡ (m >>= k') db
unfolding ◌>>=◌
rest_same m k k' db h j = elim (Result-cases (m db).0) [
  | inl (a, e) ↦ ground (arith, e, h db, j a)
  | inr (x, e) ↦ ground (arith, e)
]

if_same :
    {A : Type 0} (b : Bool) (m m' n n' : Tx A) (db : Db)
    → m db ≡ m' db
    → n db ≡ n' db
    → (if b then m else n) db ≡ (if b then m' else n') db
if_same true m m' n n' db h k = h
if_same false m m' n n' db h k = k

within_tx-same :
    {A : Type 0} (m m' : Tx A) (db : Db) → m db ≡ m' db → within_tx m db ≡ within_tx m' db
unfolding within_tx
within_tx-same m m' db h = elim (Result-cases (m db).0) [
  | inl (a, e) ↦ ground (arith, e, h)
  | inr (x, e) ↦ ground (arith, e, h)
]

-- No graph is cached.
abbrev pub uncached : Graphs
uncached _ = none

module _ (s : Setting) (cache : Graphs) (db : Db) (coherent : IsCoherent db cache) where
  loaded-same :
      (ids : List String)
      → load_published_rule_graphs cache ids db ≡ load_published_rule_graphs uncached ids db
  loaded-same ids =
      load_published_rule_graphs-direct db cache ids coherent
      ∙ sym (load_published_rule_graphs-direct db uncached ids (λ id graph e. cc))

  rule_set-same :
      (event : RewardProcessingEvent) (rule_set : RuleSetSelection) (commit : Bool)
      → calculate_rule_set_purchase s cache event rule_set commit db
        ≡ calculate_rule_set_purchase s uncached event rule_set commit db
  unfolding calculate_rule_set_purchase
  rule_set-same event rule_set commit =
      first_same (load_published_rule_graphs cache rule_set.rule_version_ids)
        (load_published_rule_graphs uncached rule_set.rule_version_ids) _ db
        (loaded-same rule_set.rule_version_ids)

  purchase-same :
      (ids : EventIds) (event : RewardProcessingEvent)
      → process_purchase_event s cache ids event db ≡ process_purchase_event s uncached ids event db
  unfolding process_purchase_event
  purchase-same ids event =
      rest_same (active_program_and_published_rule_set s.now event.partner_id event.member_id) _ _
        db (rule_set-Keeps (λ db. db) s event.partner_id event.member_id)
        (λ rule_set.
          first_same (calculate_rule_set_purchase s cache event rule_set true)
            (calculate_rule_set_purchase s uncached event rule_set true) _ db
            (rule_set-same event rule_set true))

  missing-same :
      (event : RewardProcessingEvent) (version : String) (basis : ℤ)
      → calculate_missing_original_refund s cache event version basis db
        ≡ calculate_missing_original_refund s uncached event version basis db
  unfolding calculate_missing_original_refund
  missing-same event version basis =
      let purchase = synthetic_refund_purchase event basis in
      if_same (version == "") _ _ _ _ db
        (rest_same (active_program_and_published_rule_set s.now event.partner_id event.member_id) _
          _ db (rule_set-Keeps (λ db. db) s event.partner_id event.member_id)
          (λ rule_set.
            first_same (calculate_rule_set_purchase s cache purchase rule_set false)
              (calculate_rule_set_purchase s uncached purchase rule_set false) _ db
              (rule_set-same purchase rule_set false)))
        (first_same (load_published_rule_graphs cache (version ∷ []))
          (load_published_rule_graphs uncached (version ∷ [])) _ db (loaded-same (version ∷ [])))

  refund_by-same :
      (ids : EventIds) (event : RewardProcessingEvent) (g version : String)
      (r : Result (RewardProcessingEvent × RewardCalculation))
      → elim r as (λ _. Result String × Db) [
        | ok found ↦ refund_original s cache ids event g version found db
        | err _ ↦ refund_fallback s cache ids event g version db
      ]
        ≡ elim r as (λ _. Result String × Db) [
          | ok found ↦ refund_original s uncached ids event g version found db
          | err _ ↦ refund_fallback s uncached ids event g version db
        ]
  unfolding refund_original refund_fallback
  refund_by-same ids event g version (ok found) = refl
  refund_by-same ids event g version (err _) =
      first_same
        (calculate_missing_original_refund s cache event version
          (requested_basis event.eligible_minor))
        (calculate_missing_original_refund s uncached event version
          (requested_basis event.eligible_minor))
        _ db (missing-same event version (requested_basis event.eligible_minor))

  refund-same :
      (ids : EventIds) (event : RewardProcessingEvent)
      → process_refund_event s cache ids event db ≡ process_refund_event s uncached ids event db
  unfolding process_refund_event
  refund-same ids event =
      rest_same (rules_or_blank event.partner_id event.member_id) _ _ db
        (rules_or_blank-Keeps (λ db. db) event.partner_id event.member_id)
        (λ rules. refund_by-same ids event rules.0 rules.1 (original_for_refund event db).0)

  event-same :
      (ids : EventIds) (event : RewardProcessingEvent)
      → process_event s cache ids event db ≡ process_event s uncached ids event db
  unfolding process_event
  event-same ids event =
      if_same (event.type == "refund") _ _ _ _ db (refund-same ids event)
        (if_same (event.type == "purchase") _ _ (fail _) (fail _) db (purchase-same ids event) refl)

  attempt-same :
      (ids : EventIds) (event : RewardProcessingEvent)
      → attempt s cache ids event db ≡ attempt s uncached ids event db
  unfolding attempt
  attempt-same ids event = within_tx-same _ _ db (
      first_same (process_event s cache ids event) (process_event s uncached ids event) _ db
        (event-same ids event))

  after_failure-same :
      (x : Error) (q : Result (Unit {0}) × Db)
      → after_failure s cache x q ≡ after_failure s uncached x q
  after_failure-same x (ok _, db) = refl
  after_failure-same x (err y, db) = refl

  after_attempt-same :
      (ids : EventIds) (bundle : ProcessingEventBundle) (q : Result (Unit {0}) × Db)
      → attempt s cache ids (with_lines s cache bundle) db ≡ q
      → attempt s uncached ids (with_lines s uncached bundle) db ≡ q
      → process_one_event s cache ids bundle db ≡ process_one_event s uncached ids bundle db
  unfolding process_one_event record_failure
  after_attempt-same ids bundle (ok u, db') e f = ground (arith, e, f)
  after_attempt-same ids bundle (err x, db') e f = ground (
    arith,
    e,
    f,
    after_failure-same x (record_failure s cache ids (with_lines s cache bundle) x db'),
  )

  -- With a cache whose graphs are those of the database, an event is processed as it would be
  -- with no cache: the same outcome and the same database after it.
  pub process_one_event-uncached :
      (ids : EventIds) (bundle : ProcessingEventBundle)
      → process_one_event s cache ids bundle db ≡ process_one_event s uncached ids bundle db
  process_one_event-uncached ids bundle =
      after_attempt-same ids bundle (attempt s uncached ids (with_lines s uncached bundle) db)
        (attempt-same ids (with_lines s cache bundle)) refl
