-- ===== src/Processing/Service.antt =====
-- accts-api/application/reward_processing_service.go. The ids of new rows, the time, the two sorts
-- that are not stable and the content of the cache of rule graphs are arguments.
use Prim.Native.String.{◌++◌ as concat}
use paisa.Prelude.{
  ℕ, suc, String, ◌==◌, eqb, length, Bool, true, false, Option, none, some, List, [], ◌∷◌, ◌++◌,
  map, if◌then◌else◌,
}
use paisa.Prelude.Int.{ℤ, pos, eqb_ℤ}
use paisa.Prelude.Word.{◌⊞◌, neg}
use paisa.Domain.Errors.{Error, invalid_error, public_failure_reason}
use paisa.Domain.Constants.{EntryType, earn, refund, program_base, member_add_on}
use paisa.Domain.Config.{Runtime}
use paisa.Domain.Types.{LedgerEntryInput}
use paisa.Domain.Rules.{RuleGraph, RuleGraphGroup, RuleGraphRule, SelectedAward}
use paisa.Domain.Transactions.{RewardProcessingEvent, RewardCalculation}
use paisa.Db.Result.{Result, ok, err}
use paisa.Db.State.{Db, Tx, pure, fail, ◌>>=◌, ◌>>◌, within_tx}
use paisa.Db.Accounts.{account_id}
use paisa.Ledger.Store.{post_ledger_entry}
use paisa.Programs.Graph.{Graphs}
use paisa.Transactions.Store.{mark_processed, mark_failed}
use paisa.Rewards.Groups.{Calculation, TraceGroup}
use paisa.Rewards.Engine.{calculate_purchase}
use paisa.Rewards.Refund.{requested_basis, plan_refund}
use paisa.Processing.Store.{
  Arrange, ProcessingEventBundle, create_succeeded, create_failed, original_for_refund,
  prior_refunded_basis_for_original, claim_and_load_accepted_transactions,
}
use paisa.Processing.Selection.{
  RuleSetSelection, active_program_and_published_rule_set, rules_or_blank,
}
use paisa.Processing.Cache.{load_published_rule_graphs}

-- The ids of the rows that an event gets: its calculation, the one of its failure, and its entry.
pub record EventIds : Type 0 where
  pub calculation : String
  pub failure : String
  pub entry : String

-- A part of a rule set's calculation.
pub record Component : Type 0 where
  pub rule_version_id : String
  pub scope : String
  pub total_points : ℤ

pub record RuleSetCalculation : Type 0 where
  pub groups : List TraceGroup
  pub selected_awards : List SelectedAward
  pub components : List Component
  pub total_points : ℤ

-- `graphs[ruleVersionID]`: a missing graph is empty.
abbrev pub graph_or_empty : Option RuleGraph → RuleGraph
graph_or_empty (some graph) = graph
graph_or_empty none = record { groups = []; rules = []; limits = []; dependencies = [] }

-- `syntheticRefundPurchase`
abbrev pub synthetic_refund_purchase : RewardProcessingEvent → ℤ → RewardProcessingEvent
synthetic_refund_purchase event basis = record event { type = "purchase"; eligible_minor = basis }

-- The runtime, the two sorts of `calculatePurchase`, and the time.
pub record Setting : Type 0 where
  pub rt : Runtime
  pub sort_groups : List RuleGraphGroup → List RuleGraphGroup
  pub sort_rules : List RuleGraphRule → List RuleGraphRule
  pub now : ℤ

abbrev pub add_component : String → String → Calculation → RuleSetCalculation → RuleSetCalculation
add_component rule_version_id scope c r = record {
  groups = c.groups ++ r.groups;
  selected_awards = c.selected_awards ++ r.selected_awards;
  components =
      record { rule_version_id = rule_version_id; scope = scope; total_points = c.total_points }
      ∷ r.components;
  total_points = r.total_points;
}

-- A fallback award, with its points negated.
abbrev pub fallback_award : SelectedAward → SelectedAward
fallback_award award = record award { points = neg award.points }

-- What `calculateMissingOriginalRefund` returns.
abbrev pub Fallback : Type 0
Fallback = ℤ × List SelectedAward

-- Without an award to reverse, the points stand as one award of their own.
abbrev pub or_single : String → ℤ → ℤ → List SelectedAward → List SelectedAward
or_single rule_version_id basis points [] =
    if eqb_ℤ points (pos 0)
    then []
    else record {
      rule_id = "fallback_current_rules";
      rule_version_id = rule_version_id;
      basis_amount_minor = basis;
      points = points;
    }
      ∷ []
or_single rule_version_id basis points (a ∷ others) = a ∷ others

abbrev pub reward_entry :
    RewardProcessingEvent → String → String → EntryType → ℤ → String → String → LedgerEntryInput
reward_entry event account program_id entry_type points calculation_id reason = record {
  partner_id = event.partner_id;
  member_account_id = account;
  program_id = program_id;
  entry_type = entry_type;
  available_delta = points;
  reserved_delta = pos 0;
  expired_delta = pos 0;
  source_type = "reward_calculation";
  source_id = calculation_id;
  reason = reason;
  created_by_type = "";
  created_by_id = "";
}

-- The row of a calculation that succeeded.
abbrev pub succeeded_row :
    String
    → RewardProcessingEvent
    → String
    → String
    → ℤ
    → ℤ
    → List SelectedAward
    → RewardCalculation
succeeded_row id event program_id rule_version_id points basis awards = record {
  id = id;
  partner_id = event.partner_id;
  transaction_event_id = event.id;
  program_id = program_id;
  rule_version_id = rule_version_id;
  succeeded = true;
  points_delta = points;
  basis_amount_minor = basis;
  selected_awards = awards;
  failure_reason = "";
}

-- The last steps of a purchase and of a refund: the calculation, and the entry of its points.
unfoldable pub settle_points :
    EventIds → RewardProcessingEvent → EntryType → String → RewardCalculation → Tx String
settle_points ids event entry_type reason row = do
  calculation_id ← create_succeeded row
  (if eqb_ℤ row.points_delta (pos 0) then pure tt else (do
    account ← account_id event.partner_id event.member_id
    _ ← post_ledger_entry ids.entry (
        reward_entry event account row.program_id entry_type row.points_delta calculation_id reason)
    pure tt))
  pure calculation_id

-- `ProcessTransactionEventsResult`
pub record ProcessTransactionEventsResult : Type 0 where
  pub processed : ℕ
  pub failed : ℕ

abbrev pub count_one :
    Result (Unit {0}) → ProcessTransactionEventsResult → ProcessTransactionEventsResult
count_one (ok _) r = record r { processed = suc r.processed }
count_one (err _) r = record r { failed = suc r.failed }

-- The setting of a transaction at a time.
abbrev pub at_time : Setting → ℤ → Setting
at_time s now = record s { now = now }

module _ (s : Setting) where
  -- The loop of `calculateRuleSetPurchase`, from a running total on.
  unfoldable pub run_versions :
      RewardProcessingEvent → Graphs → Bool → String → ℤ → List String → Tx RuleSetCalculation
  run_versions event graphs commit scope total [] =
      pure (record { groups = []; selected_awards = []; components = []; total_points = total })
  run_versions event graphs commit scope total (id ∷ ids) = do
    c ←
        calculate_purchase s.rt event (graph_or_empty (graphs id)) s.sort_groups s.sort_rules id
          commit
    rest ← run_versions event graphs commit member_add_on (total ⊞ c.total_points) ids
    pure (add_component id scope c rest)

  module _ (cache : Graphs) where
    -- `calculateRuleSetPurchase`
    unfoldable pub calculate_rule_set_purchase :
        RewardProcessingEvent → RuleSetSelection → Bool → Tx RuleSetCalculation
    calculate_rule_set_purchase event rule_set commit = do
      graphs ← load_published_rule_graphs cache rule_set.rule_version_ids
      run_versions event graphs commit program_base (pos 0) rule_set.rule_version_ids

    -- `processPurchaseEvent`
    unfoldable pub process_purchase_event : EventIds → RewardProcessingEvent → Tx String
    process_purchase_event ids event = do
      rule_set ← active_program_and_published_rule_set s.now event.partner_id event.member_id
      calculation ← calculate_rule_set_purchase event rule_set true
      settle_points ids event earn "purchase earn" (
          succeeded_row ids.calculation event rule_set.program_id rule_set.base_rule_version_id
            calculation.total_points event.eligible_minor calculation.selected_awards)

    -- `calculateMissingOriginalRefund`. The awards of a rule set's calculation are of type JSONMap,
    -- which `SelectedAwardsFromCalculation` does not read from a slice of interfaces: none is found.
    unfoldable pub calculate_missing_original_refund :
        RewardProcessingEvent → String → ℤ → Tx Fallback
    calculate_missing_original_refund event rule_version_id basis =
        if rule_version_id == ""
        then (do
          rule_set ← active_program_and_published_rule_set s.now event.partner_id event.member_id
          calculation ←
              calculate_rule_set_purchase (synthetic_refund_purchase event basis) rule_set false
          pure (neg calculation.total_points, []))
        else (do
          graphs ← load_published_rule_graphs cache (rule_version_id ∷ [])
          c ←
              calculate_purchase s.rt (synthetic_refund_purchase event basis)
                (graph_or_empty (graphs rule_version_id)) s.sort_groups s.sort_rules rule_version_id
                false
          pure (
            neg c.total_points,
            or_single rule_version_id basis (neg c.total_points)
                (map fallback_award c.selected_awards),
          ))

    -- A refund without its original: the points of a purchase of the same basis, taken back.
    unfoldable pub refund_fallback : EventIds → RewardProcessingEvent → String → String → Tx String
    refund_fallback ids event program_id rule_version_id = do
      let basis = requested_basis event.eligible_minor
      f ← calculate_missing_original_refund event rule_version_id basis
      settle_points ids event refund "refund reversal"
          (succeeded_row ids.calculation event program_id rule_version_id f.0 basis f.1)

    -- A refund of the original `found`.
    unfoldable pub refund_original :
        EventIds
        → RewardProcessingEvent
        → String
        → String
        → RewardProcessingEvent × RewardCalculation
        → Tx String
    refund_original ids event program_id rule_version_id found = do
      prior ← prior_refunded_basis_for_original event
      let plan =
          plan_refund found.0.eligible_minor prior event.eligible_minor found.1.selected_awards
      settle_points ids event refund "refund reversal" (
          succeeded_row ids.calculation event
            (if program_id == "" then found.1.program_id else program_id)
            (if rule_version_id == "" then found.1.rule_version_id else rule_version_id)
            plan.total_points plan.calculation_basis plan.selected_awards)

    -- `processRefundEvent`: any error of the search for the original is taken for its absence.
    unfoldable pub process_refund_event : EventIds → RewardProcessingEvent → Tx String
    process_refund_event ids event = do
      rules ← rules_or_blank event.partner_id event.member_id
      (λ db. elim (original_for_refund event db).0 [
        | ok found ↦ refund_original ids event rules.0 rules.1 found db
        | err e ↦ refund_fallback ids event rules.0 rules.1 db
      ])

    -- The switch on the event's type.
    unfoldable pub process_event : EventIds → RewardProcessingEvent → Tx String
    process_event ids event =
        if event.type == "refund"
        then process_refund_event ids event
        else if event.type == "purchase"
        then process_purchase_event ids event
        else fail (invalid_error (concat "unsupported transaction type " event.type))

    abbrev pub with_lines : ProcessingEventBundle → RewardProcessingEvent
    with_lines bundle =
        if eqb (length bundle.event.lines) 0
        then record bundle.event { lines = bundle.line_items }
        else bundle.event

    -- The first transaction of `processOneEvent`.
    unfoldable pub attempt : EventIds → RewardProcessingEvent → Tx (Unit {0})
    attempt ids event = within_tx (do _ ← process_event ids event; mark_processed event.id)

    -- The second, after an error.
    unfoldable pub record_failure : EventIds → RewardProcessingEvent → Error → Tx (Unit {0})
    record_failure ids event e =
        within_tx
          (do _ ← create_failed ids.failure event (public_failure_reason e); mark_failed event.id)

    abbrev pub after_failure : Error → Result (Unit {0}) × Db → Result (Unit {0}) × Db
    after_failure e (ok _, db) = (err e, db)
    after_failure e (err x, db) = (err x, db)

    -- `processOneEvent`
    unfoldable pub process_one_event : EventIds → ProcessingEventBundle → Tx (Unit {0})
    process_one_event ids bundle db =
        let event = with_lines bundle in
        let (r, db') = attempt ids event db in
        elim r [ ok _ ↦ (ok tt, db') | err e ↦ after_failure e (record_failure ids event e db') ]

module _ (s : Setting) where
  -- The loop over the claimed events; `caches`, `ids` and `nows` are for the events by their
  -- index, since each has transactions, and so a time, of its own.
  unfoldable pub process_bundles :
      (ℕ → Graphs)
      → (ℕ → EventIds)
      → (ℕ → ℤ)
      → ℕ
      → List ProcessingEventBundle
      → Db
      → ProcessTransactionEventsResult × Db
  process_bundles caches ids nows index [] db = (record { processed = 0; failed = 0 }, db)
  process_bundles caches ids nows index (b ∷ bs) db =
      let (r, db₁) = process_one_event (at_time s (nows index)) (caches index) (ids index) b db in
      let (rest, db₂) = process_bundles caches ids nows (suc index) bs db₁ in
      (count_one r rest, db₂)

  -- `ProcessTransactionEvents`
  unfoldable pub process_transaction_events :
      Arrange → (ℕ → Graphs) → (ℕ → EventIds) → (ℕ → ℤ) → Tx ProcessTransactionEventsResult
  process_transaction_events arrange caches ids nows = do
    bundles ← within_tx (claim_and_load_accepted_transactions arrange 50)
    (λ db. let (r, db') = process_bundles caches ids nows 0 bundles db in (ok r, db'))
