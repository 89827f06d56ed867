-- ===== src/Redemption/Cafe.antt =====
-- Test data: a café's counter, where one member with 500 points orders a reward for 120.
use paisa.Prelude.{String, ◌==◌, true, ◌≡◌, refl, ap, some, List, [], ◌∷◌, arith}
use paisa.Prelude.Int.{ℤ, pos, negsuc, ◌+ℤ◌, ◌*ℤ◌, ◌-ℤ◌}
use paisa.Prelude.Word.{wrap, ◌⊞◌, ◌⊟◌, ◌⊠◌}
use paisa.Domain.Errors.{invariant_error}
use paisa.Domain.Constants.{
  EntryType, RedemptionStatus, redemption_reserve, redemption_capture, reservation_release, active,
  reserved, captured, released, adjustment,
}
use paisa.Domain.Text.{normalize_default}
use paisa.Domain.Config.{Runtime, bits}
use paisa.Domain.Types.{
  AuthContext, BalanceSnapshot, CatalogItem, LedgerEntry, Redemption, RedemptionRequest,
  RedemptionActionResult,
}
use paisa.Db.Result.{Result, ok, err}
use paisa.Domain.Balance.{apply_ledger_delta}
use paisa.Db.State.{Db, RedemptionEvent, within_tx, ◌>>=◌}
use paisa.Db.Accounts.{account_id}
use paisa.Ledger.Store.{get_balance, post_ledger_entry, lock_balance, insert_entry, update_balance}
use paisa.Redemption.Store.{catalog_item, get, create, update_status, insert_event}
use paisa.Redemption.Service.{
  expires_at, settle, post_reserve, create_redemption, capture_redemption, release_redemption,
}
use paisa.Redemption.Backed.{IsConsistent}
use paisa.Redemption.Preservation.{create_redemption-IsConsistent}

abbrev pub auth : AuthContext
auth = record {
  partner_id = "p1";
  partner_key = "cafe";
  partner_name = "Cafe";
  actor_type = "partner_user";
  actor_id = "u1";
  scopes = [];
}

-- A runtime for data without floats.
abbrev pub plain : Runtime
plain = record {
  atoi = λ s. pos 0;
  parse_float = λ s. bits 0;
  sprint = λ v. "";
  equal_fold = λ s t. s == t;
  split = λ s. s ∷ [];
  float_of_int = λ i. bits 0;
  int_of_float = λ f. pos 0;
  div_float = λ f g. f;
  mul_float = λ f g. f;
  floor = λ f. f;
  at_most_zero = λ f. true;
  is_zero = λ f. true;
  format = λ layout t. "2026-01-05";
}

abbrev pub coffee : CatalogItem
coffee = record {
  id = "coffee";
  partner_id = "p1";
  program_id = "";
  location_id = "";
  name = "Coffee";
  description = "";
  points_cost = pos 120;
  reward_type = "manual_discount";
  status = active;
  expires_after_minutes = pos 15;
}

abbrev pub opening : LedgerEntry
opening = record {
  id = "e0";
  partner_id = "p1";
  member_account_id = "a1";
  program_id = "";
  entry_type = adjustment;
  available_delta = pos 500;
  reserved_delta = pos 0;
  expired_delta = pos 0;
  source_type = "manual_adjustment";
  source_id = "s0";
  reason = "opening";
  created_by_type = "system";
  created_by_id = "";
}

abbrev pub cafe : Db
cafe = record {
  partners = record { id = "p1"; partner_key = "cafe"; name = "Cafe"; status = active } ∷ [];
  members =
      record { id = "m1"; partner_id = "p1"; external_customer_id = "c1"; status = active } ∷ [];
  member_accounts = record { id = "a1"; partner_id = "p1"; member_id = "m1"; status = active } ∷ [];
  balance_snapshots =
      record {
        member_account_id = "a1";
        partner_id = "p1";
        available_points = pos 500;
        reserved_points = pos 0;
        expired_points = pos 0;
      }
      ∷ [];
  ledger_entries = opening ∷ [];
  catalog_items = coffee ∷ [];
  redemptions = [];
  redemption_events = [];
  rule_limits = [];
  rule_limit_usage = [];
  transaction_events = [];
  programs = [];
  rule_versions = [];
  rule_groups = [];
  earning_rules = [];
  rule_dependencies = [];
  member_identifiers = [];
  program_enrollments = [];
  member_rule_assignments = [];
  reward_calculations = [];
  transaction_line_items = [];
}

abbrev pub order : RedemptionRequest
order = record { member_id = "m1"; catalog_item_id = "coffee" }

pub cafe-IsConsistent : IsConsistent cafe
unfolding ◌+ℤ◌
cafe-IsConsistent = record {
  reconciled = record {
    available = λ a. ground arith;
    reserved = λ a. ground arith;
    expired = λ a. ground arith;
    sound = omega arith;
  };
  backed = λ a. ground arith;
  costs = tt;
}

abbrev pub row : Redemption
row = record {
  id = "r1";
  partner_id = "p1";
  member_id = "m1";
  member_account_id = "a1";
  catalog_item_id = "coffee";
  catalog_item_name = "";
  code = "rdm_1";
  status = reserved;
  points_cost = pos 120;
  reservation_expires_at = some (pos 900_000_001_000);
  failure_reason = "";
}

abbrev pub balance : ℤ → ℤ → BalanceSnapshot
balance available_points reserved_points = record {
  member_account_id = "a1";
  partner_id = "p1";
  available_points = available_points;
  reserved_points = reserved_points;
  expired_points = pos 0;
}

abbrev pub reply : RedemptionStatus → String → BalanceSnapshot → RedemptionActionResult
reply status entry_id b = record {
  redemption = record row { catalog_item_name = "Coffee"; status = status };
  ledger_entry_id = entry_id;
  balance = b;
}

abbrev pub entry : String → EntryType → ℤ → ℤ → String → LedgerEntry
entry id entry_type available_delta reserved_delta reason = record {
  id = id;
  partner_id = "p1";
  member_account_id = "a1";
  program_id = "";
  entry_type = entry_type;
  available_delta = available_delta;
  reserved_delta = reserved_delta;
  expired_delta = pos 0;
  source_type = "redemption";
  source_id = "r1";
  reason = reason;
  created_by_type = "partner_user";
  created_by_id = "u1";
}

abbrev pub event : RedemptionStatus → List (String × String) → RedemptionEvent
event status details = record { redemption_id = "r1"; status = status; details = details }

-- The database after the member's order.
abbrev pub ordered : Db
ordered = record cafe {
  balance_snapshots = balance (pos 380) (pos 120) ∷ [];
  ledger_entries =
      entry "e1" redemption_reserve (negsuc 119) (pos 120) "redemption reserve" ∷ opening ∷ [];
  redemptions = row ∷ [];
  redemption_events = event reserved (("code", "rdm_1") ∷ []) ∷ [];
}

pub order-reply :
    create_redemption "r1" "e1" "rdm_1" (pos 1000) auth order cafe
    ≡ (ok (reply reserved "e1" (balance (pos 380) (pos 120))), ordered)
unfolding create_redemption settle capture_redemption release_redemption within_tx ◌>>=◌
    catalog_item account_id create update_status get post_reserve post_ledger_entry lock_balance
    insert_entry update_balance get_balance insert_event apply_ledger_delta expires_at wrap ◌⊞◌ ◌⊟◌
    ◌⊠◌ ◌+ℤ◌ ◌-ℤ◌ ◌*ℤ◌ normalize_default
order-reply = refl

abbrev pub taken : Db
taken = record ordered {
  balance_snapshots = balance (pos 380) (pos 0) ∷ [];
  ledger_entries =
      entry "e2" redemption_capture (pos 0) (negsuc 119) "redemption capture"
      ∷ ordered.ledger_entries;
  redemptions = record row { status = captured } ∷ [];
  redemption_events = event captured [] ∷ ordered.redemption_events;
}

pub capture-reply :
    capture_redemption "e2" auth "r1" ordered
    ≡ (ok (reply captured "e2" (balance (pos 380) (pos 0))), taken)
unfolding create_redemption settle capture_redemption release_redemption within_tx ◌>>=◌
    catalog_item account_id create update_status get post_reserve post_ledger_entry lock_balance
    insert_entry update_balance get_balance insert_event apply_ledger_delta expires_at wrap ◌⊞◌ ◌⊟◌
    ◌⊠◌ ◌+ℤ◌ ◌-ℤ◌ ◌*ℤ◌ normalize_default
capture-reply = refl

abbrev pub cancelled : Db
cancelled = record ordered {
  balance_snapshots = balance (pos 500) (pos 0) ∷ [];
  ledger_entries =
      entry "e2" reservation_release (pos 120) (negsuc 119) "redemption release"
      ∷ ordered.ledger_entries;
  redemptions = record row { status = released } ∷ [];
  redemption_events = event released [] ∷ ordered.redemption_events;
}

pub release-reply :
    release_redemption "e2" auth "r1" ordered
    ≡ (ok (reply released "e2" (balance (pos 500) (pos 0))), cancelled)
unfolding create_redemption settle capture_redemption release_redemption within_tx ◌>>=◌
    catalog_item account_id create update_status get post_reserve post_ledger_entry lock_balance
    insert_entry update_balance get_balance insert_event apply_ledger_delta expires_at wrap ◌⊞◌ ◌⊟◌
    ◌⊠◌ ◌+ℤ◌ ◌-ℤ◌ ◌*ℤ◌ normalize_default
release-reply = refl

pub ordered-IsConsistent : IsConsistent ordered
ordered-IsConsistent =
    rw (ap (λ (r : Result RedemptionActionResult × Db). r.1) order-reply) at (
      create_redemption-IsConsistent "r1" "e1" "rdm_1" (pos 1000) auth order cafe cafe-IsConsistent)

-- An order that costs more than the member has is refused, and leaves no row.
pub too_dear :
    create_redemption "r1" "e1" "rdm_1"
      (pos 1000)
      auth
      order
      (record cafe { catalog_items = record coffee { points_cost = pos 501 } ∷ [] })
    ≡ (
      err (invariant_error "redemption reserve cannot make available balance negative"),
      record cafe { catalog_items = record coffee { points_cost = pos 501 } ∷ [] },
    )
unfolding create_redemption settle capture_redemption release_redemption within_tx ◌>>=◌
    catalog_item account_id create update_status get post_reserve post_ledger_entry lock_balance
    insert_entry update_balance get_balance insert_event apply_ledger_delta expires_at wrap ◌⊞◌ ◌⊟◌
    ◌⊠◌ ◌+ℤ◌ ◌-ℤ◌ ◌*ℤ◌ normalize_default
too_dear = refl
