-- ===== src/Db/Frame.antt =====
-- Actions that leave a part of the database as it was, whether they succeed or fail.
use mathlib.Core.Path.{subst}
use paisa.Prelude.{◌≡◌, sym, refl, ap, inl, inr, Bool, true, false, Option, arith, if◌then◌else◌}
use paisa.Domain.Errors.{Error}
use paisa.Db.Result.{Result, ok, err, Result-cases}
use paisa.Db.State.{Db, Tx, lift, query_row, fail_if, ◌>>=◌, within_tx}
use paisa.Db.Inversion.{>>=-eq-ok}

-- `part` is what the database has of interest.
abbrev pub Keeps : {A B : Type 0} → (Db → B) → Tx A → Type 0
Keeps part m = (db : Db) → part (m db).1 ≡ part db

module _ {B : Type 0} (part : Db → B) where
  pub >>=-Keeps :
      {A C : Type 0} (m : Tx A) (k : A → Tx C)
      → Keeps part m
      → ((a : A) → Keeps part (k a))
      → Keeps part (m >>= k)
  unfolding ◌>>=◌
  >>=-Keeps m k h j db = elim (Result-cases (m db).0) [
    | inl (a, e) ↦ ground (arith, e, j a (m db).1, h db)
    | inr (x, e) ↦ ground (arith, e, h db)
  ]

  pub query_row-Keeps : {A : Type 0} (f : Db → Option A) → Keeps part (query_row f)
  unfolding query_row
  query_row-Keeps f db = refl

  pub lift-Keeps : {A : Type 0} (r : Result A) → Keeps part (lift r)
  unfolding lift
  lift-Keeps r db = refl

  pub fail_if-Keeps : (b : Bool) (e : Error) → Keeps part (fail_if b e)
  unfolding fail_if
  fail_if-Keeps b e db = refl

  pub within_tx-Keeps : {A : Type 0} (m : Tx A) → Keeps part m → Keeps part (within_tx m)
  unfolding within_tx
  within_tx-Keeps m h db = elim (Result-cases (m db).0) [
    | inl (a, e) ↦ ground (arith, e, h db)
    | inr (x, e) ↦ ground (arith, e)
  ]

  pub if-Keeps :
      {A : Type 0} (b : Bool) (m n : Tx A)
      → Keeps part m
      → Keeps part n
      → Keeps part (if b then m else n)
  if-Keeps true m n h k = h
  if-Keeps false m n h k = k

-- Actions that preserve an invariant, whether they succeed or fail.
abbrev pub Preserves : {A : Type 0} → (Db → Type 0) → Tx A → Type 0
Preserves P m = (db : Db) → P db → P (m db).1

module _ (P : Db → Type 0) where
  pub >>=-Preserves :
      {A C : Type 0} (m : Tx A) (k : A → Tx C)
      → Preserves P m
      → ((a : A) → Preserves P (k a))
      → Preserves P (m >>= k)
  unfolding ◌>>=◌
  >>=-Preserves m k h j db p = elim (Result-cases (m db).0) [
    | inl (a, e) ↦ subst P (ground (arith, e)) (j a (m db).1 (h db p))
    | inr (x, e) ↦ subst P (ground (arith, e)) (h db p)
  ]

  pub query_row-Preserves : {A : Type 0} (f : Db → Option A) → Preserves P (query_row f)
  unfolding query_row
  query_row-Preserves f db p = p

  pub lift-Preserves : {A : Type 0} (r : Result A) → Preserves P (lift r)
  unfolding lift
  lift-Preserves r db p = p

  pub fail_if-Preserves : (b : Bool) (e : Error) → Preserves P (fail_if b e)
  unfolding fail_if
  fail_if-Preserves b e db p = p

  pub within_tx-Preserves : {A : Type 0} (m : Tx A) → Preserves P m → Preserves P (within_tx m)
  unfolding within_tx
  within_tx-Preserves m h db p = elim (Result-cases (m db).0) [
    | inl (a, e) ↦ subst P (ground (arith, e)) (h db p)
    | inr (x, e) ↦ subst P (ground (arith, e)) p
  ]

  pub if-Preserves :
      {A : Type 0} (b : Bool) (m n : Tx A)
      → Preserves P m
      → Preserves P n
      → Preserves P (if b then m else n)
  if-Preserves true m n h k = h
  if-Preserves false m n h k = k

-- An action that keeps a part preserves what holds of the part.
pub Keeps-Preserves :
    {A B : Type 0} (part : Db → B) (P : B → Type 0) (m : Tx A)
    → Keeps part m
    → Preserves (λ db. P (part db)) m
Keeps-Preserves part P m h db p = subst P (sym (h db)) p

-- Actions that always fail.
abbrev pub Fails : {A : Type 0} → Tx A → Type 0
Fails m = (db : Db) → (e : Error) × ((m db).0 ≡ err e)

pub >>=-Fails : {A C : Type 0} (m : Tx A) (k : A → Tx C) → ((a : A) → Fails (k a)) → Fails (m >>= k)
unfolding ◌>>=◌
>>=-Fails m k h db = elim (Result-cases (m db).0) [
  | inl (a, e) ↦ let (x, f) = h a (m db).1 in (x, ground (arith, e, f))
  | inr (x, e) ↦ (x, ground (arith, e))
]

pub within_tx-Fails :
    {A : Type 0} (m : Tx A) → Fails m → (db : Db) → (e : Error) × (within_tx m db ≡ (err e, db))
unfolding within_tx
within_tx-Fails m h db = let (x, e) = h db in (x, ground (arith, e))

-- What follows an action that fails is not reached.
pub Fails->>= : {A C : Type 0} (m : Tx A) (k : A → Tx C) → Fails m → Fails (m >>= k)
unfolding ◌>>=◌
Fails->>= m k h db = let (x, e) = h db in (x, ground (arith, e))

-- Actions that preserve an invariant where they succeed.
abbrev pub Keeping : {A : Type 0} → (Db → Type 0) → Tx A → Type 0
Keeping {A} P m = (db db' : Db) (a : A) → P db → m db ≡ (ok a, db') → P db'

module _ (P : Db → Type 0) where
  pub Preserves-Keeping : {A : Type 0} (m : Tx A) → Preserves P m → Keeping P m
  Preserves-Keeping {A} m h db db' a p e = subst P (ap (λ (r : Result A × Db). r.1) e) (h db p)

  pub >>=-Keeping :
      {A C : Type 0} (m : Tx A) (k : A → Tx C)
      → Keeping P m
      → ((a : A) → Keeping P (k a))
      → Keeping P (m >>= k)
  >>=-Keeping m k h j db db' c p e =
      let (a, db₁, e₁, e₂) = >>=-eq-ok m k e in j a db₁ db' c (h db db₁ a p e₁) e₂

  pub if-Keeping :
      {A : Type 0} (b : Bool) (m n : Tx A)
      → Keeping P m
      → Keeping P n
      → Keeping P (if b then m else n)
  if-Keeping true m n h k = h
  if-Keeping false m n h k = k

  -- The transaction undoes what an action that fails has done.
  pub within_tx-Keeping : {A : Type 0} (m : Tx A) → Keeping P m → Preserves P (within_tx m)
  unfolding within_tx
  within_tx-Keeping {A} m h db p = elim (Result-cases (m db).0) [
    | inl (a, e) ↦
        subst P (ground (arith, e)) (h db (m db).1 a p (ap (λ (r : Result A). (r, (m db).1)) e))
    | inr (x, e) ↦ subst P (ground (arith, e)) p
  ]

-- Actions that fail wherever a condition holds.
abbrev pub Refuses : {A : Type 0} → (Db → Type 0) → Tx A → Type 0
Refuses P m = (db : Db) → P db → (e : Error) × ((m db).0 ≡ err e)

module _ (P : Db → Type 0) where
  pub >>=-Refuses :
      {A C : Type 0} (m : Tx A) (k : A → Tx C)
      → Preserves P m
      → ((a : A) → Refuses P (k a))
      → Refuses P (m >>= k)
  unfolding ◌>>=◌
  >>=-Refuses m k h j db p = elim (Result-cases (m db).0) [
    | inl (a, e) ↦ let (x, f) = j a (m db).1 (h db p) in (x, ground (arith, e, f))
    | inr (x, e) ↦ (x, ground (arith, e))
  ]

  pub Refuses->>= : {A C : Type 0} (m : Tx A) (k : A → Tx C) → Refuses P m → Refuses P (m >>= k)
  unfolding ◌>>=◌
  Refuses->>= m k h db p = let (x, e) = h db p in (x, ground (arith, e))

  pub if-Refuses :
      {A : Type 0} (b : Bool) (m n : Tx A)
      → Refuses P m
      → Refuses P n
      → Refuses P (if b then m else n)
  if-Refuses true m n h k = h
  if-Refuses false m n h k = k

  pub within_tx-Refuses :
      {A : Type 0} (m : Tx A)
      → Refuses P m
      → (db : Db) → P db
      → (e : Error) × (within_tx m db ≡ (err e, db))
  unfolding within_tx
  within_tx-Refuses m h db p = let (x, e) = h db p in (x, ground (arith, e))
