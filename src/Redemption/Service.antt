-- ===== src/Redemption/Service.antt =====
-- `RedemptionService` of accts-api/application/merchant_services.go. Ids that the database
-- generates, the token, and the clock's times are arguments; a time is in nanoseconds.
use paisa.Prelude.{String, ◌==◌, Bool, false, not, ◌||◌, Option, some, none, [], ◌∷◌}
use paisa.Prelude.Int.{ℤ, pos, ◌+ℤ◌, ltb_ℤ}
use paisa.Prelude.Word.{◌⊠◌, neg}
use paisa.Domain.Errors.{invalid_error, invariant_error, error_text}
use paisa.Domain.Constants.{
  RedemptionStatus, reserved, validated, captured, released, is_active, is_open, is_reserved,
  redemption_reserve, redemption_capture, reservation_release, EntryType,
}
use paisa.Domain.Types.{
  AuthContext, CatalogItem, LedgerEntryInput, LedgerPostResult, Redemption, RedemptionRequest,
  RedemptionActionResult,
}
use paisa.Db.Result.{ok, err}
use paisa.Db.State.{Tx, pure, fail_if, ◌>>=◌, ◌>>◌, within_tx}
use paisa.Db.Accounts.{account_id}
use paisa.Ledger.Store.{get_balance, post_ledger_entry}
use paisa.Redemption.Store.{catalog_item, get, create, update_status, insert_event}

-- `time.Now().UTC().Add(time.Duration(minutes) * time.Minute)`
unfoldable pub expires_at : ℤ → ℤ → ℤ
expires_at now minutes = now +ℤ minutes ⊠ pos 60_000_000_000

abbrev pub reserve_entry : AuthContext → String → CatalogItem → String → LedgerEntryInput
reserve_entry auth account item redemption_id = record {
  partner_id = auth.partner_id;
  member_account_id = account;
  program_id = item.program_id;
  entry_type = redemption_reserve;
  available_delta = neg item.points_cost;
  reserved_delta = item.points_cost;
  expired_delta = pos 0;
  source_type = "redemption";
  source_id = redemption_id;
  reason = "redemption reserve";
  created_by_type = auth.actor_type;
  created_by_id = auth.actor_id;
}

-- The entries of a capture and of a release, which differ in these three values.
abbrev pub settle_entry : AuthContext → Redemption → EntryType → ℤ → String → LedgerEntryInput
settle_entry auth redemption entry_type available_delta reason = record {
  partner_id = auth.partner_id;
  member_account_id = redemption.member_account_id;
  program_id = "";
  entry_type = entry_type;
  available_delta = available_delta;
  reserved_delta = neg redemption.points_cost;
  expired_delta = pos 0;
  source_type = "redemption";
  source_id = redemption.id;
  reason = reason;
  created_by_type = auth.actor_type;
  created_by_id = auth.actor_id;
}

-- The posting of the reserve; if it fails the redemption is marked released, whatever comes of
-- that, and the error is passed on.
unfoldable pub post_reserve : AuthContext → String → String → LedgerEntryInput → Tx LedgerPostResult
post_reserve auth redemption_id entry_id input db =
    let (r, db') = post_ledger_entry entry_id input db in
    elim r [
      | ok a ↦ (ok a, db')
      | err e ↦ (err e, (update_status auth.partner_id redemption_id released (error_text e) db').1)
    ]

-- `CreateRedemption`
unfoldable pub create_redemption :
    String → String → String → ℤ → AuthContext → RedemptionRequest → Tx RedemptionActionResult
unfolding post_reserve
create_redemption redemption_id entry_id code now auth body = within_tx (do
  fail_if (body.member_id == "" || body.catalog_item_id == "")
      (invalid_error "memberId and catalogItemId are required")
  item ← catalog_item auth.partner_id body.catalog_item_id
  fail_if (not (is_active item.status)) (invariant_error "catalog item is not active")
  account ← account_id auth.partner_id body.member_id
  redemption ←
      create redemption_id auth.partner_id body.member_id account item.id item.points_cost code
        (expires_at now item.expires_after_minutes)
  entry ← post_reserve auth redemption.id entry_id (reserve_entry auth account item redemption.id)
  insert_event redemption.id reserved (("code", redemption.code) ∷ [])
  balance ← get_balance account
  pure (record {
    redemption = redemption;
    ledger_entry_id = entry.ledger_entry_id;
    balance = balance;
  }))

-- The lines that a capture and a release share: the entry, the new status, the event, the balance.
unfoldable pub settle :
    String
    → AuthContext
    → Redemption
    → LedgerEntryInput
    → RedemptionStatus
    → Tx RedemptionActionResult
settle entry_id auth redemption input status = do
  entry ← post_ledger_entry entry_id input
  updated ← update_status auth.partner_id redemption.id status ""
  insert_event updated.id status []
  balance ← get_balance updated.member_account_id
  pure (record { redemption = updated; ledger_entry_id = entry.ledger_entry_id; balance = balance })

-- `CaptureRedemption`
unfoldable pub capture_redemption : String → AuthContext → String → Tx RedemptionActionResult
capture_redemption entry_id auth redemption_id = within_tx (do
  redemption ← get auth.partner_id redemption_id
  fail_if (not (is_open redemption.status))
      (invariant_error "only reserved or validated redemptions can be captured")
  settle entry_id auth redemption
      (settle_entry auth redemption redemption_capture (pos 0) "redemption capture") captured)

-- `ReleaseRedemption`
unfoldable pub release_redemption : String → AuthContext → String → Tx RedemptionActionResult
release_redemption entry_id auth redemption_id = within_tx (do
  redemption ← get auth.partner_id redemption_id
  fail_if (not (is_open redemption.status))
      (invariant_error "only reserved or validated redemptions can be released")
  settle entry_id auth redemption
      (settle_entry auth redemption reservation_release redemption.points_cost "redemption release")
      released)

-- `ReservationExpiresAt != nil && ReservationExpiresAt.Before(now)`
abbrev pub has_expired : Option ℤ → ℤ → Bool
has_expired none now = false
has_expired (some t) now = ltb_ℤ t now

-- `changeStatusOnly`
unfoldable pub change_status_only :
    ℤ → AuthContext → String → RedemptionStatus → Tx RedemptionActionResult
change_status_only now auth redemption_id status = within_tx (do
  redemption ← get auth.partner_id redemption_id
  fail_if (not (is_reserved redemption.status))
      (invariant_error "only reserved redemptions can be validated")
  fail_if (has_expired redemption.reservation_expires_at now)
      (invariant_error "redemption reservation has expired")
  updated ← update_status auth.partner_id redemption.id status ""
  insert_event updated.id status []
  balance ← get_balance updated.member_account_id
  pure (record { redemption = updated; ledger_entry_id = ""; balance = balance }))

-- `ValidateRedemption`
unfoldable pub validate_redemption : ℤ → AuthContext → String → Tx RedemptionActionResult
unfolding change_status_only
validate_redemption now auth redemption_id = change_status_only now auth redemption_id validated
