-- ===== src/Transactions/Idempotent.antt =====
-- A second call of `IngestTransaction` with the same request.
use mathlib.Core.Path.{subst, subst₂}
use paisa.Prelude.{String, ◌==◌, ◌≡◌, sym, ◌∙◌, inl, inr, false, arith, Option-cases, Bool-cases}
use paisa.Prelude.Int.{ℤ}
use paisa.Domain.Types.{Partner, Member}
use paisa.Domain.Transactions.{TransactionIngestRequest}
use paisa.Db.Result.{ok}
use paisa.Db.State.{Db, lift, query_row, ◌>>=◌, within_tx}
use paisa.Db.Inversion.{
  partner_by_key-keeps, partner_by_key-same, >>=-eq-ok, within_tx-eq-ok, query_row-eq-ok,
  lift-eq-ok, fail_if-eq-ok,
}
use paisa.Db.Accounts.{partner_by_key, ensure_active_status}
use paisa.Transactions.Store.{TransactionEvent, member_by_external_id, get_event}
use paisa.Transactions.Service.{
  Codec, normalized, input_of, store_event, ingest_transaction, validate_transaction_type,
  parse_occurred_at_strict,
}
use paisa.Transactions.Ingested.{store_event-Stored, store_event-again}

member-same :
    (p c : String) (db db' : Db) {m : _}
    → db'.members ≡ db.members
    → member_by_external_id p c db ≡ (ok m, db)
    → member_by_external_id p c db' ≡ (ok m, db')
unfolding member_by_external_id query_row
member-same p c db db' s h = ground (arith, s, h)

parse-again :
    (codec : Codec) (now now' : ℤ) (value : String) (t : ℤ)
    → parse_occurred_at_strict codec now value ≡ ok t
    → (t' : ℤ) × (parse_occurred_at_strict codec now' value ≡ ok t')
unfolding parse_occurred_at_strict
parse-again codec now now' value t h = elim (Option-cases (codec.parse_rfc3339 value)) [
  | inl n ↦ (now', ground (arith, h, n))
  | inr (u, n) ↦ elim (Bool-cases (value == "")) [
    | inl e ↦ (now', ground (arith, e))
    | inr e ↦ (u, ground (arith, e, n))
  ]
]

member-keeps :
    (p c : String) (db db' : Db) {m : _} → member_by_external_id p c db ≡ (ok m, db') → db' ≡ db
unfolding member_by_external_id
member-keeps p c db db' h = (query_row-eq-ok _ h).1

get_event-keeps :
    (p i : String) (db db' : Db) (e : TransactionEvent) → get_event p i db ≡ (ok e, db') → db' ≡ db
unfolding get_event
get_event-keeps p i db db' e h = (query_row-eq-ok _ h).1

module _ (codec : Codec) (partner_key : String) (request : TransactionIngestRequest) where
  abbrev body : TransactionIngestRequest
  body = normalized request

  -- What a run that succeeds has read and stored.
  record Run (now : ℤ) (new_id : String) (db db' : Db) (e : TransactionEvent) : Type 0 where
    partner : Partner
    member : Member
    time : ℤ
    event_id : String
    found_partner : partner_by_key partner_key db ≡ (ok partner, db)
    active : ensure_active_status "partner" partner.status ≡ ok tt
    named : (body.external_transaction_id == "") ≡ false
    typed : validate_transaction_type codec body.type ≡ ok tt
    found_member : member_by_external_id partner.id body.external_customer_id db ≡ (ok member, db)
    active_member : ensure_active_status "member" member.status ≡ ok tt
    parsed : parse_occurred_at_strict codec now body.occurred_at ≡ ok time
    stored :
        store_event new_id (input_of codec partner.id member.id time body) body.line_items db
        ≡ (ok event_id, db')
    event : get_event partner.id event_id db' ≡ (ok e, db')

  ingest_transaction-Run :
      (now : ℤ) (new_id : String) (db db' : Db) (e : TransactionEvent)
      → ingest_transaction codec new_id now partner_key request db ≡ (ok e, db')
      → Run now new_id db db' e
  unfolding ingest_transaction
  ingest_transaction-Run now new_id db db' e h =
      let (partner, d₁, e₁, h₁) = >>=-eq-ok (partner_by_key partner_key) _ h in
      let (u₂, d₂, e₂, h₂) =
        >>=-eq-ok (lift (ensure_active_status "partner" partner.status)) _ h₁ in
      let (n, h₃) = fail_if-eq-ok _ _ _ h₂ in
      let (u₄, d₄, e₄, h₄) = >>=-eq-ok (lift (validate_transaction_type codec body.type)) _ h₃ in
      let (member, d₅, e₅, h₅) =
        >>=-eq-ok (member_by_external_id partner.id body.external_customer_id) _ h₄ in
      let (u₆, d₆, e₆, h₆) = >>=-eq-ok (lift (ensure_active_status "member" member.status)) _ h₅ in
      let (t, d₇, e₇, h₇) =
        >>=-eq-ok (lift (parse_occurred_at_strict codec now body.occurred_at)) _ h₆ in
      let (i, d₈, e₈, h₈) =
        >>=-eq-ok
          (within_tx
            (store_event new_id (input_of codec partner.id member.id t body) body.line_items))
          _ h₇ in
      let p₁ : d₁ ≡ db = partner_by_key-keeps partner_key db d₁ e₁ in
      let p₄ : d₄ ≡ db = (lift-eq-ok _ e₄).1 ∙ (lift-eq-ok _ e₂).1 ∙ p₁ in
      let p₅ : d₅ ≡ d₄ = member-keeps partner.id body.external_customer_id d₄ d₅ e₅ in
      let p₇ : d₇ ≡ db = (lift-eq-ok _ e₇).1 ∙ (lift-eq-ok _ e₆).1 ∙ p₅ ∙ p₄ in
      let p₈ : db' ≡ d₈ = get_event-keeps partner.id i d₈ db' e h₈ in
      record {
        partner = partner;
        member = member;
        time = t;
        event_id = i;
        found_partner = subst (λ d. partner_by_key partner_key db ≡ (ok partner, d)) p₁ e₁;
        active = (lift-eq-ok _ e₂).0;
        named = n;
        typed = (lift-eq-ok _ e₄).0;
        found_member =
            subst₂
              (λ a b. member_by_external_id partner.id body.external_customer_id a ≡ (ok member, b))
              p₄ (p₅ ∙ p₄) e₅;
        active_member = (lift-eq-ok _ e₆).0;
        parsed = (lift-eq-ok _ e₇).0;
        stored =
            subst₂
              (λ a b.
                store_event new_id (input_of codec partner.id member.id t body) body.line_items a
                ≡ (ok i, b))
              p₇ (sym p₈) (within_tx-eq-ok _ e₈);
        event = subst (λ d. get_event partner.id i d ≡ (ok e, db')) (sym p₈) h₈;
      }

  -- A request that was ingested gives, when it comes again to the database that the first left,
  -- the same event, and nothing is stored, whatever the time and the new id of the second call.
  pub ingest_transaction-again :
      (now now' : ℤ) (new_id new_id' : String) (db db' : Db) (e : TransactionEvent)
      → ingest_transaction codec new_id now partner_key request db ≡ (ok e, db')
      → ingest_transaction codec new_id' now' partner_key request db' ≡ (ok e, db')
  unfolding ingest_transaction within_tx ◌>>=◌
  ingest_transaction-again now now' new_id new_id' db db' e h =
      let r = ingest_transaction-Run now new_id db db' e h in
      let s =
        store_event-Stored new_id r.event_id (input_of codec r.partner.id r.member.id r.time body)
          body.line_items db db' r.stored in
      let (t, parsed) = parse-again codec now now' body.occurred_at r.time r.parsed in
      ground (
        arith,
        partner_by_key-same partner_key db db' s.accounts.partners r.found_partner,
        r.active,
        r.named,
        r.typed,
        member-same r.partner.id body.external_customer_id db db' s.accounts.members r.found_member,
        r.active_member,
        parsed,
        store_event-again new_id' r.event_id (input_of codec r.partner.id r.member.id t body)
            body.line_items db' s.row s.found s.same_id s.same_payload s.fits,
        r.event,
      )
