-- ===== src/Transactions/Tests.antt =====
-- The theorems on ingestion, at one purchase in the café.
use paisa.Prelude.{◌≡◌, refl, none, some, [], ◌∷◌, eq_iff, arith}
use paisa.Prelude.Int.{pos}
use paisa.Domain.Text.{normalize_default}
use paisa.Domain.Errors.{conflict_error}
use paisa.Domain.Config.{null}
use paisa.Domain.Transactions.{TransactionCreateInput, TransactionRow, TransactionIngestRequest}
use paisa.Db.Result.{ok, err}
use paisa.Db.State.{Db, ◌>>=◌, within_tx}
use paisa.Db.Accounts.{partner_by_key, ensure_active_status}
use paisa.Redemption.Cafe.{cafe}
use paisa.Transactions.Store.{
  new_event, create_if_not_exists, insert_line_items, member_by_external_id, get_event,
}
use paisa.Transactions.Service.{
  Codec, input_of, store_event, ingest_transaction, validate_transaction_type,
  parse_occurred_at_strict, hash_transaction_payload,
}
use paisa.Transactions.Ingested.{store_event-other_payload}
use paisa.Transactions.Idempotent.{ingest_transaction-again}

-- A codec that tells requests apart by their ids alone.
abbrev pub codec : Codec
codec = record {
  marshal = λ body. some body.external_transaction_id;
  lines_value = λ lines. null;
  sha256_hex = λ s. s;
  quote = λ s. s;
  parse_rfc3339 = λ s. none;
}

abbrev lunch : TransactionIngestRequest
lunch = record {
  external_transaction_id = "x1";
  external_customer_id = "c1";
  original_external_transaction_id = "";
  type = "purchase";
  currency = "USD";
  subtotal_minor = pos 900;
  tax_minor = pos 100;
  total_minor = pos 1000;
  eligible_minor = pos 900;
  occurred_at = "";
  line_items = [];
}

abbrev row : TransactionRow
row = new_event "t1" (input_of codec "p1" "m1" (pos 1000) lunch)

abbrev served : Db
served = record cafe { transaction_events = row ∷ [] }

first_reply :
    ingest_transaction codec "t1" (pos 1000) "cafe" lunch cafe
    ≡ (ok (record { row = row; line_items = [] }), served)
unfolding ingest_transaction ◌>>=◌ normalize_default partner_by_key ensure_active_status
    validate_transaction_type member_by_external_id parse_occurred_at_strict within_tx
    create_if_not_exists insert_line_items get_event
first_reply = refl

ingest_transaction-again_example :
    ingest_transaction codec "t2" (pos 2000) "cafe" lunch served
    ≡ (ok (record { row = row; line_items = [] }), served)
ingest_transaction-again_example =
    ingest_transaction-again codec "cafe" lunch (pos 1000) (pos 2000) "t1" "t2" cafe served
      (record { row = row; line_items = [] }) first_reply

abbrev other_input : TransactionCreateInput
other_input = record (input_of codec "p1" "m1" (pos 1000) lunch) { payload_hash = "other" }

store_event-other_payload_example :
    store_event "t2" other_input [] served
    ≡ (err (conflict_error "same external transaction id has a different payload"), served)
unfolding hash_transaction_payload store_event create_if_not_exists insert_line_items ◌>>=◌
store_event-other_payload_example =
    store_event-other_payload "t1" "t2" "t1" (input_of codec "p1" "m1" (pos 1000) lunch) other_input
      [] [] cafe served refl refl refl (λ p. ground (arith, (eq_iff "other" "x1").1 p)) refl
