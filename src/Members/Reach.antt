-- ===== src/Members/Reach.antt =====
-- Sequences of the operations of accts-api/application/member_service.go.
use mathlib.Core.Path.{subst}
use paisa.Prelude.{
  String, ◌==◌, ◌≡◌, refl, ap, inl, inr, Bool, true, false, List, [], ◌∷◌, arith, if◌then◌else◌,
}
use paisa.Prelude.Int.{ℤ}
use paisa.Domain.Errors.{Error, is_error_kind, not_found}
use paisa.Domain.Types.{Member}
use paisa.Domain.Members.{EnrollmentRequest, IdentifierRequest, MemberRequest, ResolveMemberResult}
use paisa.Db.Result.{Result, err, Result-cases}
use paisa.Db.State.{Db, Tx, pure}
use paisa.Db.Accounts.{partner_by_key, account_id, member_by_id}
use paisa.Db.Frame.{
  Keeps, Preserves, >>=-Preserves, query_row-Preserves, lift-Preserves, fail_if-Preserves,
  within_tx-Preserves, if-Preserves,
}
use paisa.Ledger.Store.{create_balance_snapshot}
use paisa.Members.Identifiers.{Hashing}
use paisa.Redemption.Backed.{IsConsistent, money, money-Preserves}
use paisa.Redemption.Reach.{create_balance_snapshot-IsConsistent}
use paisa.Members.Store.{Cast, create_member_row, create_account_row}
use paisa.Members.Service.{
  NewIds, blank, blank_request, resolved, or_else, insert_identifiers, store_identifiers,
  resolve_identifiers, enroll_member, create_member, create_resolved, resolve_or_create_for_partner,
  resolve_or_create_member, update_enrollment,
}
use paisa.Members.Stored.{insert_identifiers-Keeps, store_identifiers-Keeps, enroll_member-Keeps}

-- What an invariant needs so that the operations preserve it: that each of their statements does.
record IsSturdy (cast : Cast) (hashing : Hashing) (P : Db → Type 0) : Type 0 where
  member : (id p c : String) → Preserves P (create_member_row id p c)
  account : (id p m : String) → Preserves P (create_account_row id p m)
  balance : (a p : String) → Preserves P (create_balance_snapshot a p)
  inserted :
      (p m : String) (is : List IdentifierRequest) → Preserves P (insert_identifiers hashing p m is)
  stored :
      (p m : String) (is : List IdentifierRequest) → Preserves P (store_identifiers hashing p m is)
  enrolled :
      (now : ℤ) (id p m g : String) (body : EnrollmentRequest)
      → Preserves P (enroll_member cast now id p m g body)

module _ (cast : Cast) (hashing : Hashing) (P : Db → Type 0) (s : IsSturdy cast hashing P) where
  partner-Preserves : (key : String) → Preserves P (partner_by_key key)
  unfolding partner_by_key
  partner-Preserves key = query_row-Preserves P _

  member-Preserves : (p m : String) → Preserves P (member_by_id p m)
  unfolding member_by_id
  member-Preserves p m = query_row-Preserves P _

  create_member-Preserves :
      (now : ℤ) (ids : NewIds) (key : String) (body : MemberRequest)
      → Preserves P (create_member cast now hashing ids key body)
  unfolding create_member
  create_member-Preserves now ids key body = within_tx-Preserves P _ (
      >>=-Preserves P _ _ (partner-Preserves key) (λ partner.
        >>=-Preserves P _ _ (lift-Preserves P _) (λ _.
          >>=-Preserves P _ _ (s.member ids.member partner.id body.external_customer_id) (λ m.
            >>=-Preserves P _ _ (s.account ids.account partner.id m.id) (λ a.
              >>=-Preserves P _ _ (s.balance a.id partner.id) (λ _.
                >>=-Preserves P _ _ (s.inserted partner.id m.id body.identifiers) (λ _.
                  >>=-Preserves P _ _
                    (if-Preserves P (body.program_id == "") (pure tt)
                      (enroll_member cast now ids.enrollment partner.id m.id body.program_id
                        blank_request)
                      (λ _ inv. inv)
                      (s.enrolled now ids.enrollment partner.id m.id body.program_id blank_request))
                    (λ _ _ inv. inv))))))))

  create_resolved-Preserves :
      (now : ℤ) (ids : NewIds) (made_up p : String) (body : MemberRequest)
      → Preserves P (create_resolved cast now hashing ids made_up p body)
  unfolding create_resolved
  create_resolved-Preserves now ids made_up p body = within_tx-Preserves P _ (
      >>=-Preserves P _ _ (s.member ids.member p _) (λ m.
        >>=-Preserves P _ _ (s.account ids.account p m.id) (λ a.
          >>=-Preserves P _ _ (s.balance a.id p) (λ _.
            >>=-Preserves P _ _ (s.stored p m.id body.identifiers) (λ _.
              >>=-Preserves P _ _
                (if-Preserves P (body.program_id == "") (pure tt)
                  (enroll_member cast now ids.enrollment p m.id body.program_id blank_request)
                  (λ _ inv. inv)
                  (s.enrolled now ids.enrollment p m.id body.program_id blank_request))
                (λ _ _ inv. inv))))))

  resolved-Preserves : (p : String) (m : Member) → Preserves P (resolved p m)
  unfolding resolved account_id
  resolved-Preserves p m = >>=-Preserves P _ _ (query_row-Preserves P _) (λ _ _ inv. inv)

  either :
      (b : Bool) (x : Error) (next : Tx ResolveMemberResult)
      → Preserves P next
      → (db : Db) → P db
      → P (if b then next db else (err x, db)).1
  either true x next h db inv = h db inv
  either false x next h db inv = inv

  or_else-Preserves :
      (p : String) (look_up : Tx Member) (next : Tx ResolveMemberResult)
      → Preserves P next
      → Preserves P (or_else p look_up next)
  unfolding or_else
  or_else-Preserves p look_up next h db inv = elim (Result-cases (look_up db).0) [
    | inl (m, e) ↦ subst P (ground (arith, e)) (resolved-Preserves p m db inv)
    | inr (x, e) ↦
        let same : (if is_error_kind x not_found then next db else (err x, db))
            ≡ or_else p look_up next db =
          ground (arith, e) in
        subst P (ap (λ (r : Result ResolveMemberResult × Db). r.1) same)
          (either (is_error_kind x not_found) x next h db inv)
  ]

  resolve_identifiers-Preserves :
      (p : String) (is : List IdentifierRequest) (next : Tx ResolveMemberResult)
      → Preserves P next
      → Preserves P (resolve_identifiers hashing p is next)
  unfolding resolve_identifiers
  resolve_identifiers-Preserves p [] next h = h
  resolve_identifiers-Preserves p (i ∷ is) next h =
      let rest = resolve_identifiers-Preserves p is next h in
      if-Preserves P (blank i) _ _ rest (or_else-Preserves p _ _ rest)

  resolve_or_create_member-Preserves :
      (now : ℤ) (ids : NewIds) (made_up key : String) (body : MemberRequest)
      → Preserves P (resolve_or_create_member cast now hashing ids made_up key body)
  unfolding resolve_or_create_member resolve_or_create_for_partner
  resolve_or_create_member-Preserves now ids made_up key body =
      >>=-Preserves P _ _ (partner-Preserves key) (λ partner.
        let found =
          resolve_identifiers-Preserves partner.id body.identifiers _
            (create_resolved-Preserves now ids made_up partner.id body) in
        >>=-Preserves P _ _ (fail_if-Preserves P _ _) (λ _.
          if-Preserves P (body.external_customer_id == "") _ _ found
            (or_else-Preserves partner.id _ _ found)))

  update_enrollment-Preserves :
      (now : ℤ) (id key m : String) (body : EnrollmentRequest)
      → Preserves P (update_enrollment cast now id key m body)
  unfolding update_enrollment
  update_enrollment-Preserves now id key m body = within_tx-Preserves P _ (
      >>=-Preserves P _ _ (partner-Preserves key) (λ partner.
        >>=-Preserves P _ _ (lift-Preserves P _) (λ _.
          >>=-Preserves P _ _ (member-Preserves partner.id m) (λ _.
            >>=-Preserves P _ _ (lift-Preserves P _)
              (λ _. s.enrolled now id partner.id m body.program_id body)))))

create_member_row-money : (id p c : String) → Keeps money (create_member_row id p c)
unfolding create_member_row
create_member_row-money id p c db = ground arith

create_account_row-money : (id p m : String) → Keeps money (create_account_row id p m)
unfolding create_account_row
create_account_row-money id p m db = ground arith

module _ (cast : Cast) (hashing : Hashing) where
  -- One call of an operation on members, whatever its outcome.
  pub data Step : Db → Db → Type 0 where
    create :
        {db : Db} (now : ℤ) (ids : NewIds) (key : String) (body : MemberRequest)
        → Step db (create_member cast now hashing ids key body db).1
    resolve :
        {db : Db} (now : ℤ) (ids : NewIds) (made_up key : String) (body : MemberRequest)
        → Step db (resolve_or_create_member cast now hashing ids made_up key body db).1
    enroll :
        {db : Db} (now : ℤ) (id key m : String) (body : EnrollmentRequest)
        → Step db (update_enrollment cast now id key m body db).1

  pub data Steps : Db → Db → Type 0 where
    here : {db : Db} → Steps db db
    next : {db db₁ db' : Db} → Step db db₁ → Steps db₁ db' → Steps db db'

  module _ (P : Db → Type 0) (s : IsSturdy cast hashing P) where
    step-keeps : {db db' : Db} → Step db db' → P db → P db'
    step-keeps (Step.create {db} now ids key body) inv =
        create_member-Preserves cast hashing P s now ids key body db inv
    step-keeps (Step.resolve {db} now ids made_up key body) inv =
        resolve_or_create_member-Preserves cast hashing P s now ids made_up key body db inv
    step-keeps (Step.enroll {db} now id key m body) inv =
        update_enrollment-Preserves cast hashing P s now id key m body db inv

    steps-keep : {db db' : Db} → Steps db db' → P db → P db'
    steps-keep here inv = inv
    steps-keep (next st ss) inv = steps-keep ss (step-keeps st inv)

  IsConsistent-IsSturdy : IsSturdy cast hashing IsConsistent
  IsConsistent-IsSturdy = record {
    member = λ id p c. money-Preserves (create_member_row id p c) (create_member_row-money id p c);
    account =
        λ id p m. money-Preserves (create_account_row id p m) (create_account_row-money id p m);
    balance = λ a p. create_balance_snapshot-IsConsistent a p;
    inserted = λ p m is.
        money-Preserves (insert_identifiers hashing p m is)
          (insert_identifiers-Keeps money (λ _ _. refl) hashing p m is);
    stored = λ p m is.
        money-Preserves (store_identifiers hashing p m is)
          (store_identifiers-Keeps money (λ _ _. refl) hashing p m is);
    enrolled = λ now id p m g body.
        money-Preserves (enroll_member cast now id p m g body)
          (enroll_member-Keeps money (λ _ _. refl) cast now id p m g body);
  }

  pub Step-IsConsistent : {db db' : Db} → Step db db' → IsConsistent db → IsConsistent db'
  Step-IsConsistent st inv = step-keeps IsConsistent IsConsistent-IsSturdy st inv

  -- After any sequence of calls that create, resolve or enroll members, on success and on failure,
  -- from a consistent database, the balances are the sums of the ledger's entries, and the
  -- reserved points of each account are the costs of its open redemptions.
  pub Steps-IsConsistent : {db db' : Db} → Steps db db' → IsConsistent db → IsConsistent db'
  Steps-IsConsistent ss inv = steps-keep IsConsistent IsConsistent-IsSturdy ss inv
