-- ===== src/System/Untouched.antt =====
-- The services that leave balances, entries and redemptions alone:
-- accts-api/application/program_service.go and transaction_service.go.
use paisa.Prelude.{String, ◌==◌, ◌≡◌, refl, ap, inl, inr, List, [], ◌∷◌, arith}
use paisa.Prelude.Int.{ℤ}
use paisa.Domain.Config.{Runtime}
use paisa.Domain.Rules.{RuleGraph}
use paisa.Domain.Programs.{RuleVersionRequest, ProgramRequest}
use paisa.Domain.Transactions.{LineItemInput, TransactionCreateInput, TransactionIngestRequest}
use paisa.Db.Result.{Result, Result-cases}
use paisa.Db.State.{Db}
use paisa.Db.Accounts.{partner_by_key}
use paisa.Db.Frame.{
  Keeps, >>=-Keeps, query_row-Keeps, lift-Keeps, fail_if-Keeps, if-Keeps, within_tx-Keeps,
}
use paisa.Redemption.Backed.{money}
use paisa.Programs.Store.{
  create_program_row, update_program_row, ensure_program_partner, next_rule_version_number,
  create_rule_version_row,
}
use paisa.Programs.Groups.{Format, RowIds}
use paisa.Programs.Service.{
  create_program, update_program, store_rule_version, create_rule_version, create_rule_package,
  as_package, publish_rule_version,
}
use paisa.Programs.Inserted.{insert_groups-Keeps}
use paisa.Programs.Undeletable.{delete_draft_program-Fails}
use paisa.Programs.Publishing.{publish_rule_version-Published, publish_rule_version-err}
use paisa.Programs.Reach.{Step}
use paisa.Transactions.Store.{
  create_if_not_exists, insert_line_item, insert_line_items, find_by_external_id,
  member_by_external_id, get_event,
}
use paisa.Domain.Errors.{invalid_error}
use paisa.Db.Accounts.{ensure_active_status}
use paisa.Db.State.{lift, fail_if, within_tx}
use paisa.Transactions.Service.{
  normalized, input_of, validate_transaction_type, parse_occurred_at_strict, Codec, accept_existing,
  store_event, ingest_transaction,
}

pub partner-money : (key : String) → Keeps money (partner_by_key key)
unfolding partner_by_key
partner-money key = query_row-Keeps money _

create_program_row-money :
    (id p : String) (body : ProgramRequest) → Keeps money (create_program_row id p body)
unfolding create_program_row
create_program_row-money id p body db = ground arith

update_program_row-money :
    (p g : String) (body : ProgramRequest) → Keeps money (update_program_row p g body)
unfolding update_program_row
update_program_row-money p g body =
    >>=-Keeps money _ _ (query_row-Keeps money _) (λ row db. ground arith)

create_rule_version_row-money :
    (id p g : String) (n : ℤ) (body : RuleVersionRequest)
    → Keeps money (create_rule_version_row id p g n body)
unfolding create_rule_version_row
create_rule_version_row-money id p g n body db = ground arith

next-money : (g s : String) → Keeps money (next_rule_version_number g s)
unfolding next_rule_version_number
next-money g s db = ground arith

create_rule_version-money :
    (format : Format) (ids : RowIds) (version_id partner_key program_id : String)
    (body : RuleVersionRequest)
    → Keeps money (create_rule_version format ids version_id partner_key program_id body)
unfolding create_rule_version store_rule_version ensure_program_partner
create_rule_version-money format ids version_id partner_key program_id body =
    within_tx-Keeps money _ (
      >>=-Keeps money _ _ (partner-money partner_key) (λ partner.
        >>=-Keeps money _ _ (lift-Keeps money _) (λ _.
          >>=-Keeps money _ _ (>>=-Keeps money _ _ (query_row-Keeps money _) (λ _ db. refl)) (λ _.
            >>=-Keeps money _ _ (next-money program_id _) (λ number.
              >>=-Keeps money _ _
                (create_rule_version_row-money version_id partner.id program_id number _)
                (λ version.
                  >>=-Keeps money _ _
                    (insert_groups-Keeps money (λ db gs rs ls ds. refl) format ids version.id 0 _)
                    (λ _ db. refl)))))))

module _ (rt : Runtime) (order : RuleGraph → List String) where
  publish-money :
      (now : ℤ) (key g i : String) → Keeps money (publish_rule_version rt order now key g i)
  publish-money now key g i db =
      let q = publish_rule_version rt order now key g i db in
      elim (Result-cases q.0) [
        | inl (v, e) ↦
            let (_, _, _, p) =
              publish_rule_version-Published rt order now key g i v db q.1 (ap (λ r. (r, q.1)) e) in
            ap money p.after
        | inr (x, e) ↦ ap money (publish_rule_version-err rt order now key g i db x e)
      ]

  -- A call of an operation on programs leaves balances, entries and redemptions as they were.
  pub program_step-money : {db db' : Db} → Step rt order db db' → money db' ≡ money db
  unfolding create_program update_program create_rule_package
  program_step-money (Step.create {db} id key body) =
      >>=-Keeps money _ _ (partner-money key)
        (λ partner.
          >>=-Keeps money _ _ (lift-Keeps money _)
            (λ _. create_program_row-money id partner.id body))
        db
  program_step-money (Step.update {db} key g body) =
      >>=-Keeps money _ _ (partner-money key)
        (λ partner.
          >>=-Keeps money _ _ (lift-Keeps money _)
            (λ _. update_program_row-money partner.id g body))
        db
  program_step-money (Step.delete {db} key g) =
      let (_, e) = delete_draft_program-Fails key g db in
      ap (λ (r : Result (Unit {0}) × Db). money r.1) e
  program_step-money (Step.add_version {db} format ids i key g body) =
      create_rule_version-money format ids i key g body db
  program_step-money (Step.add_package {db} format ids i key g body) =
      create_rule_version-money format ids i key g (as_package body) db
  program_step-money (Step.publish {db} now key g i) = publish-money now key g i db

insert_line_items-money :
    (id : String) (lines : List LineItemInput) → Keeps money (insert_line_items id lines)
unfolding insert_line_items insert_line_item
insert_line_items-money id [] = λ _. refl
insert_line_items-money id (line ∷ lines) =
    >>=-Keeps money (insert_line_item id line) _ (λ db. ground arith)
      (λ _. insert_line_items-money id lines)

create_if_not_exists-money :
    (id : String) (input : TransactionCreateInput) → Keeps money (create_if_not_exists id input)
unfolding create_if_not_exists
create_if_not_exists-money id input db = ground arith

store_event-money :
    (id : String) (input : TransactionCreateInput) (lines : List LineItemInput)
    → Keeps money (store_event id input lines)
unfolding store_event find_by_external_id accept_existing
store_event-money id input lines =
    >>=-Keeps money _ _ (create_if_not_exists-money id input) (λ created.
      if-Keeps money created.1 _ _
        (>>=-Keeps money _ _ (insert_line_items-money created.0 _) (λ _ _. refl))
        (>>=-Keeps money _ _ (query_row-Keeps money _)
          (λ existing. if-Keeps money _ _ _ (λ _. refl) (λ _. refl))))

member-money : (p c : String) → Keeps money (member_by_external_id p c)
unfolding member_by_external_id
member-money p c = query_row-Keeps money _

event-money : (p e : String) → Keeps money (get_event p e)
unfolding get_event
event-money p e = query_row-Keeps money _

-- Ingestion leaves balances, entries and redemptions as they were.
pub ingest_transaction-money :
    (codec : Codec) (new_id : String) (now : ℤ) (key : String) (request : TransactionIngestRequest)
    → Keeps money (ingest_transaction codec new_id now key request)
unfolding ingest_transaction
ingest_transaction-money codec new_id now key request =
    let body = normalized request in
    >>=-Keeps money (partner_by_key key) _ (partner-money key) (λ partner.
      >>=-Keeps money (lift (ensure_active_status "partner" partner.status)) _
        (lift-Keeps money (ensure_active_status "partner" partner.status))
        (λ _.
          >>=-Keeps money
            (fail_if (body.external_transaction_id == "")
              (invalid_error "externalTransactionId is required"))
            _
            (fail_if-Keeps money (body.external_transaction_id == "")
              (invalid_error "externalTransactionId is required"))
            (λ _.
              >>=-Keeps money (lift (validate_transaction_type codec body.type)) _
                (lift-Keeps money (validate_transaction_type codec body.type))
                (λ _.
                  >>=-Keeps money (member_by_external_id partner.id body.external_customer_id) _
                    (member-money partner.id body.external_customer_id)
                    (λ member.
                      >>=-Keeps money (lift (ensure_active_status "member" member.status)) _
                        (lift-Keeps money (ensure_active_status "member" member.status))
                        (λ _.
                          >>=-Keeps money
                            (lift (parse_occurred_at_strict codec now body.occurred_at)) _
                            (lift-Keeps money (parse_occurred_at_strict codec now body.occurred_at))
                            (λ occurred_at.
                              let input = input_of codec partner.id member.id occurred_at body in
                              >>=-Keeps money (within_tx (store_event new_id input body.line_items))
                                _
                                (within_tx-Keeps money (store_event new_id input body.line_items)
                                  (store_event-money new_id input body.line_items))
                                (λ event_id. event-money partner.id event_id))))))))
