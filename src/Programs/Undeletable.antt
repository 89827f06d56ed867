-- ===== src/Programs/Undeletable.antt =====
-- `DeleteDraftProgram` of accts-api/application/program_service.go, whose seventh query names a
-- column that the table campaigns of db/schema.sql does not have.
use paisa.Prelude.{String, ◌≡◌, refl, inl, inr, Bool, List, ◌∷◌, arith, Bool-cases}
use paisa.Domain.Errors.{Error, conflict_error, app_error_from_db}
use paisa.Db.Result.{ok, err}
use paisa.Db.State.{Db}
use paisa.Db.Frame.{Fails, >>=-Fails, Fails->>=, within_tx-Fails}
use paisa.Programs.Delete.{
  Check, no_such_column, checks, run_checks, ensure_draft_deletable, delete_draft,
}
use paisa.Programs.Service.{delete_draft_program}

-- A query that raises an error.
run_checks-raised :
    (c : Check) (cs : List Check) (x : Error)
    → ((db : Db) → c.0 db ≡ err x)
    → Fails (run_checks (c ∷ cs))
unfolding run_checks
run_checks-raised c cs x h db = (app_error_from_db x, ground (arith, h db))

-- A query that gives an answer, before checks that fail.
run_checks-answered :
    (c : Check) (cs : List Check)
    → ((db : Db) → (b : Bool) × (c.0 db ≡ ok b))
    → Fails (run_checks cs)
    → Fails (run_checks (c ∷ cs))
unfolding run_checks
run_checks-answered c cs h k db =
    let (b, e) = h db in
    let (x, f) = k db in
    elim (Bool-cases b) [
      | inl t ↦ (conflict_error c.1, ground (arith, e, t))
      | inr t ↦ (x, ground (arith, e, f, t))
    ]

module _ (p g : String) where
  checks-Fails : Fails (run_checks (checks p g))
  checks-Fails =
      run_checks-answered _ _ (λ db. (_, refl))
        (run_checks-answered _ _ (λ db. (_, refl))
          (run_checks-answered _ _ (λ db. (_, refl))
            (run_checks-answered _ _ (λ db. (_, refl))
              (run_checks-answered _ _ (λ db. (_, refl))
                (run_checks-answered _ _ (λ db. (_, refl))
                  (run_checks-raised _ _ no_such_column (λ db. refl)))))))

-- `DeleteDraftProgram` never succeeds, whatever the partner, the program and the database, and
-- leaves the database as it was.
pub delete_draft_program-Fails :
    (partner_key program_id : String) (db : Db)
    → (e : Error) × (delete_draft_program partner_key program_id db ≡ (err e, db))
unfolding delete_draft_program delete_draft ensure_draft_deletable
delete_draft_program-Fails partner_key program_id = within_tx-Fails _ (
    >>=-Fails _ _ (λ partner. >>=-Fails _ _ (λ _.
      Fails->>= _ _
        (>>=-Fails _ _ (λ exists. >>=-Fails _ _ (λ _. checks-Fails partner.id program_id))))))
