-- ===== src/Domain/Balance.antt =====
-- accts-api/domain/ledger.go: one ledger entry applied to a balance.
use paisa.Prelude.{Bool, true, false, ◌&&◌, ◌||◌, if◌then◌else◌}
use paisa.Prelude.Int.{ℤ, pos, ltb_ℤ}
use paisa.Prelude.Word.{◌⊞◌}
use paisa.Domain.Constants.{EntryType, redemption_reserve, points_expiration}
use paisa.Domain.Errors.{invariant_error}
use paisa.Domain.Types.{BalanceSnapshot}
use paisa.Db.Result.{Result, ok, err}

abbrev pub is_reserve : EntryType → Bool
is_reserve redemption_reserve = true
is_reserve _ = false

abbrev pub is_expiration : EntryType → Bool
is_expiration points_expiration = true
is_expiration _ = false

abbrev pub add_deltas : BalanceSnapshot → ℤ → ℤ → ℤ → BalanceSnapshot
add_deltas balance available_delta reserved_delta expired_delta = record balance {
  available_points = balance.available_points ⊞ available_delta;
  reserved_points = balance.reserved_points ⊞ reserved_delta;
  expired_points = balance.expired_points ⊞ expired_delta;
}

abbrev check_next : EntryType → BalanceSnapshot → Result BalanceSnapshot
check_next entry_type next =
    if ltb_ℤ next.reserved_points (pos 0) || ltb_ℤ next.expired_points (pos 0)
    then err (invariant_error "reserved/expired balances cannot become negative")
    else if is_reserve entry_type && ltb_ℤ next.available_points (pos 0)
    then err (invariant_error "redemption reserve cannot make available balance negative")
    else if is_expiration entry_type && ltb_ℤ next.available_points (pos 0)
    then err (invariant_error "points expiration cannot make available balance negative")
    else ok next

unfoldable pub apply_ledger_delta : BalanceSnapshot → EntryType → ℤ → ℤ → ℤ → Result BalanceSnapshot
apply_ledger_delta balance entry_type available_delta reserved_delta expired_delta =
    check_next entry_type (add_deltas balance available_delta reserved_delta expired_delta)
