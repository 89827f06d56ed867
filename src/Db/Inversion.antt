-- ===== src/Db/Inversion.antt =====
-- What a successful action says of its parts, so that a proof goes through a `do` block in order.
use paisa.Db.Accounts.{account_id, partner_by_key}
use paisa.Prelude.{
  String, ◌≡◌, refl, ap, inl, inr, Bool, true, false, Option, some, arith, Option-cases,
}
use paisa.Domain.Errors.{Error}
use paisa.Db.Result.{Result, ok, err, Result-cases}
use paisa.Db.State.{Db, Tx, lift, query_row, fail_if, ◌>>=◌, ◌>>◌, within_tx}

module _ {A B : Type 0} where
  pub >>=-eq-ok :
      (m : Tx A) (f : A → Tx B) {db db' : Db} {b : B}
      → (m >>= f) db ≡ (ok b, db')
      → (a : A) × (db₁ : Db) × (m db ≡ (ok a, db₁)) × (f a db₁ ≡ (ok b, db'))
  unfolding ◌>>=◌
  >>=-eq-ok m f {db} h = elim (Result-cases (m db).0) [
    | inl (a, e) ↦ (a, (m db).1, ap (λ r. (r, (m db).1)) e, ground (arith, e))
    | inr (x, e) ↦ ground (arith, e)
  ]

pub fail_if-eq-ok :
    {B : Type 0} (c : Bool) (e : Error) (k : Tx B) {db db' : Db} {b : B}
    → (fail_if c e >> k) db ≡ (ok b, db')
    → (c ≡ false) × (k db ≡ (ok b, db'))
unfolding ◌>>=◌
fail_if-eq-ok true e k h = ground arith
fail_if-eq-ok false e k h = (refl, h)

pub query_row-eq-ok :
    {A : Type 0} (f : Db → Option A) {db db' : Db} {a : A}
    → query_row f db ≡ (ok a, db')
    → (f db ≡ some a) × (db' ≡ db)
unfolding query_row
query_row-eq-ok f {db} h = elim (Option-cases (f db)) [
  | inl e ↦ ground (arith, e)
  | inr (a', e) ↦ (ground (arith, e), ground (arith, e))
]

-- A transaction that succeeds has the state of its body.
pub within_tx-eq-ok :
    {A : Type 0} (m : Tx A) {db db' : Db} {a : A}
    → within_tx m db ≡ (ok a, db')
    → m db ≡ (ok a, db')
unfolding within_tx
within_tx-eq-ok m {db} h = elim (Result-cases (m db).0) [
  | inl (b, e) ↦ ground (arith, e)
  | inr (x, e) ↦ ground (arith, e)
]

-- A transaction that fails leaves the database as it was.
pub within_tx-err :
    {A : Type 0} (m : Tx A) {db db' : Db} {x : Error} → within_tx m db ≡ (err x, db') → db' ≡ db
unfolding within_tx
within_tx-err m {db} h = elim (Result-cases (m db).0) [
  | inl (b, e) ↦ ground (arith, e)
  | inr (x, e) ↦ ground (arith, e)
]

pub lift-eq-ok :
    {A : Type 0} (r : Result A) {db db' : Db} {a : A}
    → lift r db ≡ (ok a, db')
    → (r ≡ ok a) × (db' ≡ db)
unfolding lift
lift-eq-ok r h = (ground arith, ground arith)

-- The look-ups read only.
pub account_id-keeps :
    (p m : String) (db db' : Db) (a : String) → account_id p m db ≡ (ok a, db') → db' ≡ db
unfolding account_id
account_id-keeps p m db db' a h = (query_row-eq-ok _ h).1

pub partner_by_key-keeps :
    (k : String) (db db' : Db) {p : _} → partner_by_key k db ≡ (ok p, db') → db' ≡ db
unfolding partner_by_key
partner_by_key-keeps k db db' h = (query_row-eq-ok _ h).1

-- Forwards: what an action does after one that succeeds, and after one that fails.
module _ {A B : Type 0} where
  pub >>=-run :
      (m : Tx A) (f : A → Tx B) {db db' : Db} {a : A} → m db ≡ (ok a, db') → (m >>= f) db ≡ f a db'
  unfolding ◌>>=◌
  >>=-run m f h = ground (arith, h)

  pub >>=-stop :
      (m : Tx A) (f : A → Tx B) {db db' : Db} {e : Error}
      → m db ≡ (err e, db')
      → (m >>= f) db ≡ (err e, db')
  unfolding ◌>>=◌
  >>=-stop m f h = ground (arith, h)

-- A look-up reads its table only.
pub partner_by_key-same :
    (k : String) (db db' : Db) {p : _}
    → db'.partners ≡ db.partners
    → partner_by_key k db ≡ (ok p, db)
    → partner_by_key k db' ≡ (ok p, db')
unfolding partner_by_key query_row
partner_by_key-same k db db' s h = ground (arith, s, h)

pub within_tx-refused :
    {A : Type 0} (m : Tx A) {db : Db} {e : Error}
    → m db ≡ (err e, db)
    → within_tx m db ≡ (err e, db)
unfolding within_tx
within_tx-refused m h = ground (arith, h)
