-- ===== src/Processing/Tests.antt =====
-- Runs of the processing of transaction events.
use paisa.Prelude.{arith}
use paisa.Prelude.{ℕ, ◌≡◌, refl, none, some, [], ◌∷◌, length, map, ◌+◌, ◌≤◌}
use paisa.Prelude.Int.{pos}
use paisa.Domain.Errors.{Error}
use paisa.Domain.Constants.{processed, accepted, active, published, program_base}
use paisa.Domain.Config.{field, int, empty}
use paisa.Domain.Transactions.{TransactionRow}
use paisa.Domain.Programs.{RuleVersion}
use paisa.Db.Result.{Result, ok, err}
use paisa.Db.State.{Db}
use paisa.Ledger.Reconciled.{books}
use paisa.Redemption.Backed.{IsConsistent, money-Preserves}
use paisa.Redemption.Cafe.{cafe, cafe-IsConsistent, plain}
use paisa.Programs.Graph.{Graphs}
use paisa.Programs.Tests.{with_program}
use paisa.Processing.Store.{Arrange}
use paisa.Processing.Store.{ProcessingEventBundle, event_of, claimed}
use paisa.Processing.Service.{
  EventIds, Setting, ProcessTransactionEventsResult, succeeded_row, process_one_event,
  process_transaction_events,
}
use paisa.Processing.Cache.{
  direct, direct-IsCoherent, load_published_rule_graphs, load_published_rule_graphs-direct,
}
use paisa.Processing.Balanced.{process_transaction_events-IsConsistent}
use paisa.Processing.Once.{process_one_event-once}
use paisa.Processing.Cached.{uncached, process_one_event-uncached}
use paisa.Processing.Counts.{process_transaction_events-counts}
use paisa.Prelude.Int.{◌+ℤ◌}
use paisa.Prelude.Word.{wrap, ◌⊞◌}
use paisa.Domain.Text.{normalize_default}
use paisa.Domain.Balance.{apply_ledger_delta}
use paisa.Domain.Config.{
  lookup, string_slice_config, bool_config, string_from_any, config_int, int_from_any,
}
use paisa.Db.State.{within_tx, ◌>>=◌}
use paisa.Db.Accounts.{account_id}
use paisa.Ledger.Store.{post_ledger_entry, lock_balance, insert_entry, update_balance}
use paisa.Programs.Graph.{load_graphs, graph_of}
use paisa.Transactions.Store.{mark_processed}
use paisa.Rewards.Candidate.{basis_for_rule, evaluate_rule_candidate, raw_points_of}
use paisa.Rewards.Groups.{dependencies_satisfied}
use paisa.Rewards.Store.{commit_limit_usage}
use paisa.Rewards.Engine.{calculate_purchase}
use paisa.Processing.Cache.{load_missing, put_many, get_many}
use paisa.Processing.Store.{create_succeeded, claim_and_load_accepted_transactions}
use paisa.Processing.Selection.{
  active_program_and_published_rule_set, active_program_and_published_rules,
}
use paisa.Processing.Service.{
  process_bundles, attempt, process_event, process_purchase_event, calculate_rule_set_purchase,
  run_versions, settle_points,
}
use paisa.Processing.Refunds.{Refunds, refunds_at_most, refunded_basis, refunded_points}
use paisa.Processing.Service.{process_refund_event, refund_original}
use paisa.Processing.Store.{
  original_for_refund, load_for_processing, prior_refunded_basis_for_original,
}
use paisa.Processing.Selection.{rules_or_blank}
use paisa.Rewards.Reversal.{minus, points_of}
use paisa.Rewards.Refund.{plan_refund, effective_basis, reverse_award, prorate}
use paisa.Prelude.Word.{◌⊟◌, ◌⊠◌, ◌⊘◌}
use paisa.Prelude.Int.{negsuc, ◌-ℤ◌, ◌*ℤ◌, ◌/ℤ◌, ◌≤ℤ◌}
use paisa.Domain.Rules.{SelectedAward}
use paisa.Domain.Transactions.{RewardCalculation}
use paisa.Db.State.{query_row}

abbrev spring : RuleVersion
spring = record {
  id = "v1";
  partner_id = "p1";
  program_id = "g1";
  version = pos 1;
  status = published;
  scope = program_base;
  rule_set_key = "";
  name = "Spring";
  description = "";
  earn_basis = "total";
  published_at = some (pos 7);
}

abbrev bought : TransactionRow
bought = record {
  id = "t1";
  status = accepted;
  input = record {
    partner_id = "p1";
    member_id = "m1";
    external_transaction_id = "x1";
    original_external_transaction_id = "";
    type = "purchase";
    currency = "USD";
    subtotal_minor = pos 900;
    tax_minor = pos 100;
    total_minor = pos 1000;
    eligible_minor = pos 900;
    occurred_at = pos 1000;
    payload_hash = "h1";
    raw_payload = empty;
  };
}

-- The café has a program of 10 points for each visit, and its member has bought something.
abbrev pub visited : Db
visited = record with_program {
  rule_versions = spring ∷ [];
  rule_groups =
      record {
        id = "grp";
        rule_version_id = "v1";
        name = "Main";
        resolution_strategy = "stack";
        priority = pos 0;
      }
      ∷ [];
  earning_rules =
      record {
        id = "rule";
        rule_group_id = "grp";
        rule_key = "visit";
        name = "Visit";
        rule_type = "fixed_per_transaction";
        priority = pos 0;
        status = active;
        eligibility_config = empty;
        formula_config = field "points" (int (pos 10)) empty;
      }
      ∷ [];
  program_enrollments =
      record {
        id = "n1";
        partner_id = "p1";
        member_id = "m1";
        program_id = "g1";
        program_name = "";
        status = "active";
        started_at = pos 5;
        ended_at = none;
        effective_at = none;
        change_reason = "";
        created_by_type = "system";
        created_by_id = "";
      }
      ∷ [];
  transaction_events = bought ∷ [];
}

abbrev pub setting : Setting
setting = record { rt = plain; sort_groups = λ gs. gs; sort_rules = λ rs. rs; now = pos 2000 }

abbrev pub event_ids : ℕ → EventIds
event_ids _ = record { calculation = "c1"; failure = "f1"; entry = "e1" }

abbrev pub in_order : Arrange
in_order rows = rows

abbrev run : Result ProcessTransactionEventsResult × Db
run = process_transaction_events setting in_order (λ _. uncached) event_ids (λ _. pos 2000) visited

abbrev bundle : ProcessingEventBundle
bundle = record { event = event_of bought []; line_items = [] }

abbrev cached : Graphs
cached = direct visited ("v1" ∷ [])

-- The member has 500 points; the visit adds 10.
visit_balance : map (λ b. b.available_points) run.1.balance_snapshots ≡ pos 510 ∷ []
unfolding process_transaction_events process_bundles process_one_event attempt process_event
    process_purchase_event active_program_and_published_rule_set active_program_and_published_rules
    calculate_rule_set_purchase load_published_rule_graphs load_missing load_graphs graph_of
    put_many get_many run_versions settle_points create_succeeded
    claim_and_load_accepted_transactions mark_processed within_tx ◌>>=◌ string_slice_config lookup
    bool_config basis_for_rule account_id post_ledger_entry lock_balance insert_entry update_balance
    apply_ledger_delta wrap normalize_default string_from_any evaluate_rule_candidate raw_points_of
    config_int int_from_any calculate_purchase ◌⊞◌ ◌+ℤ◌ dependencies_satisfied commit_limit_usage
visit_balance = refl

load_published_rule_graphs-direct_example :
    load_published_rule_graphs cached ("v1" ∷ []) visited ≡ (ok cached, visited)
load_published_rule_graphs-direct_example =
    load_published_rule_graphs-direct visited cached ("v1" ∷ [])
      (direct-IsCoherent visited ("v1" ∷ []))

process_one_event-uncached_example :
    process_one_event setting cached (event_ids 0) bundle visited
    ≡ process_one_event setting uncached (event_ids 0) bundle visited
process_one_event-uncached_example =
    process_one_event-uncached setting cached visited (direct-IsCoherent visited ("v1" ∷ []))
      (event_ids 0) bundle

pub visited-IsConsistent : IsConsistent visited
visited-IsConsistent =
    money-Preserves
      (λ (db : Db). (
        ok tt,
        record visited {
          balance_snapshots = db.balance_snapshots;
          ledger_entries = db.ledger_entries;
          redemptions = db.redemptions;
        },
      ))
      (λ _. refl) cafe cafe-IsConsistent

process_transaction_events-IsConsistent_example : IsConsistent run.1
process_transaction_events-IsConsistent_example =
    process_transaction_events-IsConsistent setting in_order (λ _. uncached) event_ids
      (λ _. pos 2000) visited visited-IsConsistent

process_transaction_events-counts_example :
    (r : ProcessTransactionEventsResult) × (run.0 ≡ ok r)
    × (r.processed + r.failed ≡ length (claimed 50 visited.transaction_events))
    × (r.processed + r.failed ≤ 50)
    × (r.processed ≡ 0 → books run.1 ≡ books visited)
process_transaction_events-counts_example =
    process_transaction_events-counts setting in_order (λ _. refl) (λ _. uncached) event_ids
      (λ _. pos 2000) visited

-- The event was rewarded before.
abbrev rewarded : Db
rewarded = record visited {
  reward_calculations = succeeded_row "c0" bundle.event "g1" "v1" (pos 10) (pos 900) [] ∷ [];
}

process_one_event-once_example :
    (e : Error) × ((process_one_event setting uncached (event_ids 0) bundle rewarded).0 ≡ err e)
    × (books (process_one_event setting uncached (event_ids 0) bundle rewarded).1 ≡ books rewarded)
process_one_event-once_example =
    process_one_event-once setting uncached (event_ids 0) bundle rewarded refl

abbrev award : SelectedAward
award = record {
  rule_id = "rule";
  rule_version_id = "v1";
  basis_amount_minor = pos 900;
  points = pos 10;
}

abbrev original : RewardCalculation
original = succeeded_row "c0" bundle.event "g1" "v1" (pos 10) (pos 900) (award ∷ [])

-- Half of the purchase is brought back.
abbrev returned : TransactionRow
returned = record bought {
  id = "t2";
  input = record bought.input {
    external_transaction_id = "x2";
    original_external_transaction_id = "x1";
    type = "refund";
    eligible_minor = pos 450;
  };
}

-- Then more than the other half.
abbrev second : TransactionRow
second = record bought {
  id = "t3";
  input = record bought.input {
    external_transaction_id = "x3";
    original_external_transaction_id = "x1";
    type = "refund";
    eligible_minor = pos 600;
  };
}

abbrev before_refund : Db
before_refund = record visited {
  transaction_events = returned ∷ bought ∷ [];
  reward_calculations = original ∷ [];
}

abbrev after_refund : Db
after_refund =
    (process_refund_event setting uncached (event_ids 0) (event_of returned []) before_refund).1

-- The first refund is marked as processed before the second one, of more than is left, is asked for.
abbrev first_processed : Db
first_processed = record after_refund {
  transaction_events = second ∷ record returned { status = processed } ∷ bought ∷ [];
}

abbrev later_ids : EventIds
later_ids = record { calculation = "c2"; failure = "f2"; entry = "e2" }

abbrev after_second : Db
after_second =
    (process_refund_event setting uncached later_ids (event_of second []) first_processed).1

refunds_at_most_example :
    (pos 0 ≤ℤ refunded_basis "p1" "x1" after_second)
    × (refunded_basis "p1" "x1" after_second ≤ℤ pos 900)
    × (minus (points_of (award ∷ [])) ≤ℤ refunded_points "p1" "x1" after_second)
    × (refunded_points "p1" "x1" after_second ≤ℤ pos 0)
unfolding process_refund_event rules_or_blank original_for_refund load_for_processing query_row
    refund_original prior_refunded_basis_for_original plan_refund effective_basis reverse_award
    prorate settle_points create_succeeded account_id post_ledger_entry lock_balance insert_entry
    update_balance apply_ledger_delta wrap normalize_default ◌⊞◌ ◌⊟◌ ◌⊠◌ ◌⊘◌ ◌+ℤ◌ ◌-ℤ◌ ◌*ℤ◌ ◌/ℤ◌
    ◌>>=◌
refunds_at_most_example =
    refunds_at_most (bundle.event, original) 900 "p1" "x1" refl (omega arith) (omega arith)
      (omega arith, tt) (omega arith) {db = before_refund} {db' = after_second}
      (Refunds.next {db = before_refund} {db₁ = after_refund} setting uncached (event_ids 0)
        (event_of returned []) "c1" refl refl refl refl refl
        (Refunds.apart {db = after_refund} {db₁ = first_processed} refl refl (
          Refunds.next {db = first_processed} {db₁ = after_second} setting uncached later_ids
            (event_of second []) "c2" refl refl refl refl refl Refunds.here)))
      refl refl

all_refunded : refunded_points "p1" "x1" after_second ≡ negsuc 9
unfolding process_refund_event rules_or_blank original_for_refund load_for_processing query_row
    refund_original prior_refunded_basis_for_original plan_refund effective_basis reverse_award
    prorate settle_points create_succeeded account_id post_ledger_entry lock_balance insert_entry
    update_balance apply_ledger_delta wrap normalize_default ◌⊞◌ ◌⊟◌ ◌⊠◌ ◌⊘◌ ◌+ℤ◌ ◌-ℤ◌ ◌*ℤ◌ ◌/ℤ◌
    ◌>>=◌
all_refunded = refl
