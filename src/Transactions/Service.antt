-- ===== src/Transactions/Service.antt =====
-- `IngestTransaction` of accts-api/application/transaction_service.go. The id that the database
-- gives a new event and the time of the call are arguments.
use Prim.Native.String.{◌++◌ as concat}
use paisa.Prelude.{String, ◌==◌, ◌||◌, Option, none, some, List, map, if◌then◌else◌}
use paisa.Prelude.Int.{ℤ, pos, eqb_ℤ}
use paisa.Domain.Text.{normalize_default}
use paisa.Domain.Errors.{invalid_error, conflict_error}
use paisa.Domain.Config.{Value, Fields, empty, field, text, int}
use paisa.Domain.Transactions.{
  LineItemInput, TransactionCreateInput, TransactionIngestRequest, TransactionIdentity,
}
use paisa.Db.Result.{Result, ok, err}
use paisa.Db.State.{Tx, pure, fail, lift, fail_if, ◌>>=◌, ◌>>◌, within_tx}
use paisa.Db.Accounts.{partner_by_key, ensure_active_status}
use paisa.Transactions.Store.{
  TransactionEvent, member_by_external_id, create_if_not_exists, find_by_external_id,
  insert_line_items, get_event,
}

-- What the code takes from Go's library: json.Marshal of a request and of its lines, SHA-256 in
-- hexadecimal, fmt's %q, and time.Parse of an RFC3339 time.
pub record Codec : Type 0 where
  pub marshal : TransactionIngestRequest → Option String
  pub lines_value : List LineItemInput → Value
  pub sha256_hex : String → String
  pub quote : String → String
  pub parse_rfc3339 : String → Option ℤ

-- `ValidateTransactionType`
unfoldable pub validate_transaction_type : Codec → String → Result (Unit {0})
validate_transaction_type codec value =
    if value == "purchase" || value == "refund"
    then ok tt
    else err (invalid_error (concat "unsupported transaction type " (codec.quote value)))

-- `ParseOccurredAtStrict`
unfoldable pub parse_occurred_at_strict : Codec → ℤ → String → Result ℤ
parse_occurred_at_strict codec now value =
    if value == "" then ok now else elim (codec.parse_rfc3339 value) [
      | some t ↦ ok t
      | none ↦ err (invalid_error "occurredAt must be an RFC3339 timestamp")
    ]

-- `HashTransactionPayload`
unfoldable pub hash_transaction_payload : Codec → TransactionIngestRequest → String
hash_transaction_payload codec body =
    codec.sha256_hex (elim (codec.marshal body) [ some payload ↦ payload | none ↦ "{}" ])

-- `SanitizedTransactionPayload`
unfoldable pub sanitized_transaction_payload : Codec → TransactionIngestRequest → Fields
sanitized_transaction_payload codec body =
    field "externalTransactionId" (text body.external_transaction_id) (
      field "originalExternalTransactionId" (text body.original_external_transaction_id) (
        field "type" (text body.type) (
          field "currency" (text body.currency) (
            field "subtotalMinor" (int body.subtotal_minor) (
              field "taxMinor" (int body.tax_minor) (
                field "totalMinor" (int body.total_minor) (
                  field "eligibleMinor" (int body.eligible_minor) (
                    field "occurredAt" (text body.occurred_at)
                      (field "lineItems" (codec.lines_value body.line_items) empty)))))))))

-- The type and the currency are the defaults where they are blank.
abbrev pub normalized : TransactionIngestRequest → TransactionIngestRequest
normalized body = record body {
  type = normalize_default body.type "purchase";
  currency = normalize_default body.currency "USD";
}

abbrev pub input_of :
    Codec → String → String → ℤ → TransactionIngestRequest → TransactionCreateInput
input_of codec partner_id member_id occurred_at body = record {
  partner_id = partner_id;
  member_id = member_id;
  external_transaction_id = body.external_transaction_id;
  original_external_transaction_id = body.original_external_transaction_id;
  type = body.type;
  currency = body.currency;
  subtotal_minor = body.subtotal_minor;
  tax_minor = body.tax_minor;
  total_minor = body.total_minor;
  eligible_minor = body.eligible_minor;
  occurred_at = occurred_at;
  raw_payload = sanitized_transaction_payload codec body;
  payload_hash = hash_transaction_payload codec body;
}

-- A quantity of 0 stands for 1.
abbrev pub default_quantity : LineItemInput → LineItemInput
default_quantity line =
    if eqb_ℤ line.quantity (pos 0) then record line { quantity = pos 1 } else line

-- What an event that is there already gives: its id, if its payload is the same.
unfoldable pub accept_existing : String → TransactionIdentity → Tx String
accept_existing payload_hash existing =
    if existing.payload_hash == payload_hash
    then pure existing.id
    else fail (conflict_error "same external transaction id has a different payload")

-- The body of the transaction of `IngestTransaction`.
unfoldable pub store_event : String → TransactionCreateInput → List LineItemInput → Tx String
unfolding accept_existing
store_event new_id input lines = do
  created ← create_if_not_exists new_id input
  (if created.1
      then (do _ ← insert_line_items created.0 (map default_quantity lines); pure created.0)
      else (do
        existing ← find_by_external_id input.partner_id input.external_transaction_id
        accept_existing input.payload_hash existing))

-- `IngestTransaction`
unfoldable pub ingest_transaction :
    Codec → String → ℤ → String → TransactionIngestRequest → Tx TransactionEvent
unfolding store_event
ingest_transaction codec new_id now partner_key request = do
  let body = normalized request
  partner ← partner_by_key partner_key
  lift (ensure_active_status "partner" partner.status)
  fail_if (body.external_transaction_id == "") (invalid_error "externalTransactionId is required")
  lift (validate_transaction_type codec body.type)
  member ← member_by_external_id partner.id body.external_customer_id
  lift (ensure_active_status "member" member.status)
  occurred_at ← lift (parse_occurred_at_strict codec now body.occurred_at)
  event_id ←
      within_tx
        (store_event new_id (input_of codec partner.id member.id occurred_at body) body.line_items)
  get_event partner.id event_id
