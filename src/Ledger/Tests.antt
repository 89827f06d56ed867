-- ===== src/Ledger/Tests.antt =====
-- The theorems on the ledger, at the data of a café's counter.
use paisa.Prelude.{◌≡◌, refl, arith}
use paisa.Prelude.Int.{pos, ◌+ℤ◌}
use paisa.Prelude.Word.{◌⊞◌, wrap}
use paisa.Domain.Types.{AdjustmentRequest, LedgerEntryInput}
use paisa.Domain.Balance.{add_deltas}
use paisa.Db.Result.{ok}
use paisa.Ledger.Store.{create_balance_snapshot, post_ledger_entry}
use paisa.Ledger.Service.{adjustment_entry, create_adjustment}
use paisa.Ledger.Posting.{posted, post_ledger_entry-succeeds}
use paisa.Ledger.Reconciled.{IsReconciled}
use paisa.Ledger.Adjustments.{create_adjustment-IsReconciled, create_balance_snapshot-IsReconciled}
use paisa.Redemption.Cafe.{cafe, cafe-IsConsistent, balance}

abbrev gift : AdjustmentRequest
gift = record {
  available_delta = pos 25;
  reserved_delta = pos 0;
  expired_delta = pos 0;
  reason = "gift";
  source_id = "";
}

create_adjustment-IsReconciled_example :
    IsReconciled (create_adjustment "s1" "e1" "cafe" "m1" gift cafe).1
create_adjustment-IsReconciled_example =
    create_adjustment-IsReconciled "s1" "e1" "cafe" "m1" gift cafe cafe-IsConsistent.reconciled

create_balance_snapshot-IsReconciled_example :
    IsReconciled (create_balance_snapshot "a2" "p1" cafe).1
create_balance_snapshot-IsReconciled_example =
    create_balance_snapshot-IsReconciled "a2" "p1" cafe cafe-IsConsistent.reconciled

abbrev gift_entry : LedgerEntryInput
gift_entry = adjustment_entry "p1" "a1" gift "s1"

post_ledger_entry-succeeds_example : post_ledger_entry "e1" gift_entry cafe ≡ (
  ok (record {
    ledger_entry_id = "e1";
    balance = add_deltas (balance (pos 500) (pos 0)) (pos 25) (pos 0) (pos 0);
  }),
  posted "e1" gift_entry (balance (pos 500) (pos 0)) cafe,
)
unfolding ◌⊞◌ wrap ◌+ℤ◌
post_ledger_entry-succeeds_example =
    post_ledger_entry-succeeds "e1" gift_entry (balance (pos 500) (pos 0)) cafe refl refl
      (omega arith) (ground arith) refl
