-- ===== src/Db/Result.antt =====
-- The result of a call: Go's pair of a value and an error, of which the value counts where the
-- error is nil.
use paisa.Prelude.{◌≡◌, refl, ◌⊎◌, inl, inr, List, [], ◌∷◌}
use paisa.Domain.Errors.{Error}

pub data Result (A : Type 0) : Type 0 where
  ok : A → Result A
  err : Error → Result A

pub Result-cases :
    {A : Type 0} (r : Result A) → ((a : A) × (r ≡ ok a)) ⊎ ((e : Error) × (r ≡ err e))
Result-cases (ok a) = inl (a, refl)
Result-cases (err e) = inr (e, refl)

-- A loop that checks every element, and returns the first error.
abbrev pub all_ok : {A : Type 0} → (A → Result (Unit {0})) → List A → Result (Unit {0})
all_ok f [] = ok tt
all_ok f (x ∷ xs) = let rest = all_ok f xs in elim (f x) [ ok _ ↦ rest | err e ↦ err e ]
