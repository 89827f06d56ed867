-- ===== src/Members/Resolved.antt =====
-- A second call of `ResolveOrCreateMember` of accts-api/application/member_service.go.
use mathlib.Core.Path.{subst}
use paisa.Prelude.{
  String, ◌==◌, eq_refl, ◌≡◌, refl, ap, sym, ◌∙◌, ◌⊎◌, inl, inr, true, false, ◌&&◌, List, [], ◌∷◌,
  arith, Bool-cases, if◌then◌else◌,
}
use paisa.Prelude.Int.{ℤ}
use paisa.Domain.Errors.{invalid_error}
use paisa.Domain.Text.{trim_space}
use paisa.Domain.Types.{Partner, Member, MemberAccount}
use paisa.Domain.Members.{IdentifierRequest, MemberRequest, ResolveMemberResult}
use paisa.Db.Result.{Result, ok, Result-cases}
use paisa.Db.State.{Db, Tx, fail_if, query_row, ◌>>=◌}
use paisa.Db.Accounts.{partner_by_key, account_id}
use paisa.Db.Inversion.{
  >>=-eq-ok, >>=-run, within_tx-eq-ok, partner_by_key-keeps, partner_by_key-same, account_id-keeps,
}
use paisa.Ledger.Store.{create_balance_snapshot}
use paisa.Transactions.Store.{member_by_external_id}
use paisa.Members.Identifiers.{Hashing, hash_identifier}
use paisa.Members.Store.{
  Cast, new_member, new_account, create_member_row, create_account_row, member_by_identifier_hash,
}
use paisa.Members.Service.{
  NewIds, blank, none_given, type_of, resolved, or_else, store_identifiers, resolve_identifiers,
  enroll_if, create_resolved, resolve_or_create_for_partner, resolve_or_create_member,
}
use paisa.Members.Stored.{create_balance_snapshot-Keeps, store_identifiers-Keeps, enroll_if-Keeps}

-- A search that found a member, whatever would have been done without it.
record Found (search : Tx ResolveMemberResult → Tx ResolveMemberResult) (r : ResolveMemberResult)
    (db db' : Db) : Type 0 where
  always : (next : Tx ResolveMemberResult) → search next db ≡ (ok r, db)
  same : db' ≡ db
  old : r.created ≡ false

-- A search that goes on to what is done without a member.
abbrev Missed : (Tx ResolveMemberResult → Tx ResolveMemberResult) → Db → Type 0
Missed search db = (next : Tx ResolveMemberResult) → search next db ≡ next db

resolved-keeps :
    (p : String) (m : Member) (r : ResolveMemberResult) (db db' : Db)
    → resolved p m db ≡ (ok r, db')
    → (db' ≡ db) × (r.created ≡ false)
unfolding resolved
resolved-keeps p m r db db' h =
    let (a, d₁, e₁, h₁) = >>=-eq-ok (account_id p m.id) _ h in
    let k = account_id-keeps p m.id db d₁ a e₁ in
    (sym (ap (λ (x : Result ResolveMemberResult × Db). x.1) h₁) ∙ k, ground (arith, h₁))

or_else-cases :
    (p : String) (look_up : Tx Member) (next : Tx ResolveMemberResult) (r : ResolveMemberResult)
    (db db' : Db)
    → or_else p look_up next db ≡ (ok r, db')
    → Found (or_else p look_up) r db db' ⊎ Missed (or_else p look_up) db
unfolding or_else
or_else-cases p look_up next r db db' h = elim (Result-cases (look_up db).0) [
  | inl (m, e) ↦
      let h' : resolved p m db ≡ (ok r, db') = ground (arith, e, h) in
      let (k, c) = resolved-keeps p m r db db' h' in
      inl (record { always = λ other. ground (arith, e, h', k); same = k; old = c })
  | inr (x, e) ↦ inr (λ other. ground (arith, e, h))
]

resolve_identifiers-cases :
    (hashing : Hashing) (p : String) (is : List IdentifierRequest) (next : Tx ResolveMemberResult)
    (r : ResolveMemberResult) (db db' : Db)
    → resolve_identifiers hashing p is next db ≡ (ok r, db')
    → Found (resolve_identifiers hashing p is) r db db'
      ⊎ Missed (resolve_identifiers hashing p is) db
unfolding resolve_identifiers
resolve_identifiers-cases hashing p [] next r db db' h = inr (λ other. refl)
resolve_identifiers-cases hashing p (i ∷ is) next r db db' h = elim (Bool-cases (blank i)) [
  | inl e ↦ elim (resolve_identifiers-cases hashing p is next r db db' (rw e at h)) [
    | inl f ↦ inl (record { always = λ other. rw e (f.always other); same = f.same; old = f.old })
    | inr k ↦ inr (λ other. rw e (k other))
  ]
  | inr e ↦
      let look_up =
        member_by_identifier_hash p (type_of hashing i)
          (hash_identifier hashing (type_of hashing i) i.value) in
      let rest = resolve_identifiers hashing p is in
      elim (or_else-cases p look_up (rest next) r db db' (rw e at h)) [
        | inl f ↦
            inl (record {
              always = λ other. rw e (f.always (rest other));
              same = f.same;
              old = f.old;
            })
        | inr pass ↦
            elim (resolve_identifiers-cases hashing p is next r db db'
              (sym (pass (rest next)) ∙ rw e at h)) [
                | inl f ↦ inl (record {
                  always = λ other. rw e (pass (rest other) ∙ f.always other);
                  same = f.same;
                  old = f.old;
                })
                | inr k ↦ inr (λ other. rw e (pass (rest other) ∙ k other))
              ]
      ]
]

-- What the creation of a member stores, and what it gives.
record Created (ids : NewIds) (made_up p : String) (body : MemberRequest) (r : ResolveMemberResult)
    (db db' : Db) : Type 0 where
  customer : String
  customer_is : customer ≡ (
      if trim_space body.external_customer_id == ""
      then made_up
      else trim_space body.external_customer_id)
  members : db'.members ≡ new_member ids.member p customer ∷ db.members
  accounts : db'.member_accounts ≡ new_account ids.account p ids.member ∷ db.member_accounts
  partners : db'.partners ≡ db.partners
  reply : r ≡ record {
    member = new_member ids.member p customer;
    account = new_account ids.account p ids.member;
    created = true;
  }

create_member_row-after :
    (id p c : String) (m : Member) (db db' : Db)
    → create_member_row id p c db ≡ (ok m, db')
    → (m ≡ new_member id p c) × (db' ≡ record db { members = new_member id p c ∷ db.members })
unfolding create_member_row
create_member_row-after id p c m db db' h = ground (arith, h)

create_account_row-after :
    (id p m : String) (a : MemberAccount) (db db' : Db)
    → create_account_row id p m db ≡ (ok a, db')
    → (a ≡ new_account id p m)
      × (db' ≡ record db { member_accounts = new_account id p m ∷ db.member_accounts })
unfolding create_account_row
create_account_row-after id p m a db db' h = ground (arith, h)

-- The part that the last steps of a creation leave alone.
abbrev People : Type 0
People = List Partner × List Member × List MemberAccount

abbrev people : Db → People
people db = (db.partners, db.members, db.member_accounts)

module _ (cast : Cast) (now : ℤ) (hashing : Hashing) where
  create_resolved-Created :
      (ids : NewIds) (made_up p : String) (body : MemberRequest) (r : ResolveMemberResult)
      (db db' : Db)
      → create_resolved cast now hashing ids made_up p body db ≡ (ok r, db')
      → Created ids made_up p body r db db'
  unfolding create_resolved
  create_resolved-Created ids made_up p body r db db' h =
      let trimmed = trim_space body.external_customer_id in
      let customer : String = if trimmed == "" then made_up else trimmed in
      let (m, d₁, e₁, h₁) =
        >>=-eq-ok (create_member_row ids.member p customer) _ (within_tx-eq-ok _ h) in
      let (a, d₂, e₂, h₂) = >>=-eq-ok (create_account_row ids.account p m.id) _ h₁ in
      let (_, d₃, e₃, h₃) = >>=-eq-ok (create_balance_snapshot a.id p) _ h₂ in
      let (_, d₄, e₄, h₄) = >>=-eq-ok (store_identifiers hashing p m.id body.identifiers) _ h₃ in
      let (_, d₅, e₅, h₅) =
        >>=-eq-ok (enroll_if cast now ids.enrollment p m.id body.program_id) _ h₄ in
      let (m_is, k₁) = create_member_row-after ids.member p customer m db d₁ e₁ in
      let (a_is, k₂) = create_account_row-after ids.account p m.id a d₁ d₂ e₂ in
      let kept : people d₅ ≡ people d₂ =
        sym (ap (λ (x : Result (Unit {0}) × Db). people x.1) e₅)
        ∙ enroll_if-Keeps people (λ _ _. refl) cast now ids.enrollment p m.id body.program_id d₄
        ∙ sym (ap (λ (x : Result (Unit {0}) × Db). people x.1) e₄)
        ∙ store_identifiers-Keeps people (λ _ _. refl) hashing p m.id body.identifiers d₃
        ∙ sym (ap (λ (x : Result (Unit {0}) × Db). people x.1) e₃)
        ∙ create_balance_snapshot-Keeps people (λ _ _. refl) a.id p d₂ in
      let last : db' ≡ d₅ = sym (ap (λ (x : Result ResolveMemberResult × Db). x.1) h₅) in
      let account_member : new_account ids.account p m.id ≡ new_account ids.account p ids.member =
        ap (λ (x : Member). new_account ids.account p x.id) m_is in
      record {
        customer = customer;
        customer_is = refl;
        members =
            ap (λ (d : Db). d.members) last
            ∙ ap (λ (q : People). q.1) kept
            ∙ ap (λ (d : Db). d.members) k₂
            ∙ ap (λ (d : Db). d.members) k₁;
        accounts =
            ap (λ (d : Db). d.member_accounts) last
            ∙ ap (λ (q : People). q.2) kept
            ∙ ap (λ (d : Db). d.member_accounts) k₂
            ∙ ap (λ (x : MemberAccount). x ∷ d₁.member_accounts) account_member
            ∙ ap (λ (d : Db). new_account ids.account p ids.member ∷ d.member_accounts) k₁;
        partners =
            ap (λ (d : Db). d.partners) last
            ∙ ap (λ (q : People). q.0) kept
            ∙ ap (λ (d : Db). d.partners) k₂
            ∙ ap (λ (d : Db). d.partners) k₁;
        reply = ground (arith, h₅, m_is, a_is, account_member);
      }

looked_up :
    (id p c : String) (db : Db) (ms : List Member)
    → db.members ≡ new_member id p c ∷ ms
    → member_by_external_id p c db ≡ (ok (new_member id p c), db)
unfolding member_by_external_id query_row
looked_up id p c db ms e = ground (arith, e, eq_refl p, eq_refl c)

account_found :
    (id account p c : String) (db : Db) (ms : List Member) (accounts : List MemberAccount)
    → db.members ≡ new_member id p c ∷ ms
    → db.member_accounts ≡ new_account account p id ∷ accounts
    → account_id p id db ≡ (ok account, db)
unfolding account_id query_row
account_found id account p c db ms accounts e k = ground (arith, e, k, eq_refl p, eq_refl id)

-- The member that was created is found by the customer's id that it was created with.
found_again :
    (ids : NewIds) (made_up p : String) (body : MemberRequest) (r : ResolveMemberResult)
    (db db' : Db)
    → Created ids made_up p body r db db'
    → (next : Tx ResolveMemberResult)
    → trim_space body.external_customer_id ≡ body.external_customer_id
    → (body.external_customer_id == "") ≡ false
    → or_else p (member_by_external_id p body.external_customer_id) next db'
      ≡ (ok (record r { created = false }), db')
unfolding or_else resolved ◌>>=◌
found_again ids made_up p body r db db' c next plain given =
    let ext = body.external_customer_id in
    let same : c.customer ≡ ext = c.customer_is ∙ rw (plain, given) refl in
    let members = c.members ∙ ap (λ x. new_member ids.member p x ∷ db.members) same in
    ground (
      arith,
      looked_up ids.member p ext db' db.members members,
      account_found ids.member ids.account p ext db' db.members db.member_accounts members
          c.accounts,
      c.reply,
      same,
    )

marked_old : (r : ResolveMemberResult) → r.created ≡ false → r ≡ record r { created = false }
marked_old r e = ground (arith, e)

module _ (cast : Cast) (hashing : Hashing) (p : String) (body : MemberRequest)
    (plain : trim_space body.external_customer_id ≡ body.external_customer_id)
    (given : (body.external_customer_id == "") ≡ false) where
  -- The two look-ups, before `next`.
  abbrev search : Tx ResolveMemberResult → Tx ResolveMemberResult
  search next =
      or_else p (member_by_external_id p body.external_customer_id)
        (resolve_identifiers hashing p body.identifiers next)

  some_given :
      (db : Db)
      → fail_if
          (none_given body.identifiers && trim_space body.external_customer_id == "")
          (invalid_error "at least one customer identifier is required")
          db
        ≡ (ok tt, db)
  unfolding fail_if
  some_given db = ground (arith, plain, given)

  is_search :
      (now : ℤ) (ids : NewIds) (made_up : String) (db : Db)
      → resolve_or_create_for_partner cast now hashing ids made_up p body db
        ≡ search (create_resolved cast now hashing ids made_up p body) db
  unfolding resolve_or_create_for_partner
  is_search now ids made_up db = >>=-run (fail_if _ _) _ (some_given db) ∙ rw given refl

  search-again :
      (now : ℤ) (ids : NewIds) (made_up : String) (next : Tx ResolveMemberResult)
      (r : ResolveMemberResult) (db db' : Db)
      → search (create_resolved cast now hashing ids made_up p body) db ≡ (ok r, db')
      → (db'.partners ≡ db.partners) × (search next db' ≡ (ok (record r { created = false }), db'))
  search-again now ids made_up next r db db' h =
      let look_up = member_by_external_id p body.external_customer_id in
      let create = create_resolved cast now hashing ids made_up p body in
      let rest = resolve_identifiers hashing p body.identifiers in
      elim (or_else-cases p look_up (rest create) r db db' h) [
        | inl f ↦ (
          ap (λ (d : Db). d.partners) f.same,
          rw (f.same, sym (marked_old r f.old)) (f.always (rest next)),
        )
        | inr pass ↦
            let h' : rest create db ≡ (ok r, db') = sym (pass (rest create)) ∙ h in
            elim (resolve_identifiers-cases hashing p body.identifiers create r db db' h') [
              | inl f ↦ (
                ap (λ (d : Db). d.partners) f.same,
                rw (f.same, sym (marked_old r f.old)) (pass (rest next) ∙ f.always next),
              )
              | inr missed ↦
                  let c =
                    create_resolved-Created cast now hashing ids made_up p body r db db'
                      (sym (missed create) ∙ h') in
                  (c.partners, found_again ids made_up p body r db db' c (rest next) plain given)
            ]
      ]

module _ (cast : Cast) (hashing : Hashing) where
  -- Where the request's external id is not empty and has no surrounding blanks, a call that succeeds finds or
  -- creates the member, and a second call with the same request, whatever the time and the new
  -- ids, gives the same member and account, as one that was there, and changes nothing.
  pub resolve_or_create_member-again :
      (now now' : ℤ) (ids ids' : NewIds) (made_up made_up' partner_key : String)
      (body : MemberRequest) (r : ResolveMemberResult) (db db' : Db)
      → trim_space body.external_customer_id ≡ body.external_customer_id
      → (body.external_customer_id == "") ≡ false
      → resolve_or_create_member cast now hashing ids made_up partner_key body db ≡ (ok r, db')
      → resolve_or_create_member cast now' hashing ids' made_up' partner_key body db'
        ≡ (ok (record r { created = false }), db')
  unfolding resolve_or_create_member resolve_or_create_for_partner
  resolve_or_create_member-again now now' ids ids' made_up made_up' key body r db db' plain given
        h =
      let (partner, d₁, e₁, h₁) = >>=-eq-ok (partner_by_key key) _ h in
      let k₁ : d₁ ≡ db = partner_by_key-keeps key db d₁ e₁ in
      let (same, again) =
        search-again cast hashing partner.id body plain given now ids made_up
          (create_resolved cast now' hashing ids' made_up' partner.id body) r d₁ db'
          (sym (is_search cast hashing partner.id body plain given now ids made_up d₁) ∙ h₁) in
      >>=-run (partner_by_key key) _ (
        partner_by_key-same key db db' (same ∙ ap (λ (d : Db). d.partners) k₁)
          (subst (λ d. partner_by_key key db ≡ (ok partner, d)) k₁ e₁))
      ∙ is_search cast hashing partner.id body plain given now' ids' made_up' db'
      ∙ again
