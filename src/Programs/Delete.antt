-- ===== src/Programs/Delete.antt =====
-- `DeleteDraft` and `ensureDraftDeletable` of
-- accts-api/adapters/postgres/internal/repository/program.go. The tables redemption_codes and
-- campaigns are not modelled; no other table of the model refers to them.
use paisa.Prelude.{String, ◌==◌, Bool, not, ◌&&◌, ◌||◌, List, [], ◌∷◌, any, keep, if◌then◌else◌}
use paisa.Domain.Errors.{Error, app_error, not_found, other, conflict_error, app_error_from_db}
use paisa.Domain.Constants.{draft, rule_status_eq}
use paisa.Db.Result.{Result, ok, err}
use paisa.Db.State.{Db, Tx, pure, fail, fail_if, ◌>>=◌, ◌>>◌}
use paisa.Programs.Store.{is_program, of_program}

-- The table campaigns of db/schema.sql has no column program_id.
abbrev pub no_such_column : Error
no_such_column = other "pq: column \"program_id\" does not exist"

-- `SELECT EXISTS`: whether there is a row, or the error of the query.
abbrev pub Check : Type 0
Check = (Db → Result Bool) × String

-- The loop over the queries.
unfoldable pub run_checks : List Check → Tx (Unit {0})
run_checks [] db = pure tt db
run_checks (c ∷ cs) db =
    let rest = run_checks cs db in
    elim (c.0 db) [
      | err e ↦ fail (app_error_from_db e) db
      | ok exists ↦ if exists then fail (conflict_error c.1) db else rest
    ]

module _ (partner_id program_id : String) where
  abbrev pub of_version : Db → String → Bool
  of_version db version_id =
      any (λ v. v.id == version_id && of_program partner_id program_id v) db.rule_versions

  -- The queries, with the texts of their refusals. The seventh raises an error: the eighth, on the
  -- campaigns with a reward of the program, is never reached.
  abbrev pub checks : List Check
  checks =
      (
        λ db. ok (
            any (λ v. of_program partner_id program_id v && not (rule_status_eq v.status draft))
              db.rule_versions),
        "published or archived programs cannot be deleted",
      )
      ∷ (
        λ db. ok (
            any (λ e. e.partner_id == partner_id && e.program_id == program_id)
              db.program_enrollments),
        "program has member enrollments",
      )
      ∷ (
        λ db. ok (any (λ a. of_version db a.rule_version_id) db.member_rule_assignments),
        "program has member rule assignments",
      )
      ∷ (
        λ db. ok (
            any (λ c. c.partner_id == partner_id && c.program_id == program_id)
              db.reward_calculations),
        "program has reward calculations",
      )
      ∷ (
        λ db.
            ok (
              any (λ e. e.partner_id == partner_id && e.program_id == program_id)
                db.ledger_entries),
        "program has ledger entries",
      )
      ∷ (
        λ db. ok (
            any
              (λ r.
                any
                  (λ i.
                    i.id == r.catalog_item_id
                    && i.partner_id == partner_id
                    && i.program_id == program_id)
                  db.catalog_items)
              db.redemptions),
        "program has redemptions",
      )
      ∷ (λ _. err no_such_column, "program has campaigns")
      ∷ []

  -- `ensureDraftDeletable`
  unfoldable pub ensure_draft_deletable : Tx (Unit {0})
  unfolding run_checks
  ensure_draft_deletable = do
    exists ← (λ db. pure (any (is_program partner_id program_id) db.programs) db)
    fail_if (not exists) (app_error not_found "program not found")
    run_checks checks

  abbrev pub of_group : Db → String → Bool
  of_group db group_id =
      any (λ g. g.id == group_id && of_version db g.rule_version_id) db.rule_groups

  abbrev pub of_rule : Db → String → Bool
  of_rule db rule_id = any (λ r. r.id == rule_id && of_group db r.rule_group_id) db.earning_rules

  abbrev pub of_limit : Db → String → Bool
  of_limit db limit_id = any (λ l. l.id == limit_id && of_rule db l.rule_id) db.rule_limits

  abbrev delete_catalog_items : Db → Db
  delete_catalog_items db = record db {
    catalog_items =
        keep (λ i. not (i.partner_id == partner_id && i.program_id == program_id)) db.catalog_items;
  }

  abbrev delete_dependencies : Db → Db
  delete_dependencies db = record db {
    rule_dependencies =
        keep (λ d. not (of_rule db d.rule_id || of_rule db d.depends_on_rule_id))
          db.rule_dependencies;
  }

  abbrev delete_usage : Db → Db
  delete_usage db = record db {
    rule_limit_usage = keep (λ u. not (of_limit db u.rule_limit_id)) db.rule_limit_usage;
  }

  abbrev delete_limits : Db → Db
  delete_limits db = record db {
    rule_limits = keep (λ l. not (of_rule db l.rule_id)) db.rule_limits;
  }

  abbrev delete_rules : Db → Db
  delete_rules db = record db {
    earning_rules = keep (λ r. not (of_group db r.rule_group_id)) db.earning_rules;
  }

  abbrev delete_groups : Db → Db
  delete_groups db = record db {
    rule_groups = keep (λ g. not (of_version db g.rule_version_id)) db.rule_groups;
  }

  abbrev delete_versions : Db → Db
  delete_versions db = record db {
    rule_versions = keep (λ v. not (of_program partner_id program_id v)) db.rule_versions;
  }

  abbrev delete_programs : Db → Db
  delete_programs db = record db {
    programs = keep (λ p. not (is_program partner_id program_id p)) db.programs;
  }

  -- The statements after that on redemption_codes, in order.
  unfoldable pub delete_rows : Tx (Unit {0})
  delete_rows db = pure tt (
      delete_programs (
        delete_versions (
          delete_groups (
            delete_rules
              (delete_limits (delete_usage (delete_dependencies (delete_catalog_items db))))))))

  -- `DeleteDraft`
  unfoldable pub delete_draft : Tx (Unit {0})
  unfolding ensure_draft_deletable delete_rows
  delete_draft = do ensure_draft_deletable; delete_rows
