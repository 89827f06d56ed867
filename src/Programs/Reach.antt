-- ===== src/Programs/Reach.antt =====
-- Sequences of the operations of accts-api/application/program_service.go.
use mathlib.Core.Path.{subst}
use paisa.Prelude.{
  String, ◌==◌, ◌⊎◌, ◌≡◌, refl, ap, sym, inl, inr, false, ◌||◌, List, ◌∷◌, any, arith, Bool-cases,
}
use paisa.Prelude.Int.{ℤ}
use paisa.Prelude.Word.{fits_integer}
use paisa.Domain.Constants.{program_base, member_add_on}
use paisa.Domain.Config.{Runtime}
use paisa.Domain.Rules.{RuleGraph}
use paisa.Domain.Programs.{RuleVersionRequest, RuleGroupRequest, ProgramRequest}
use paisa.Db.Result.{Result}
use paisa.Db.State.{Db, Tx}
use paisa.Db.Accounts.{partner_by_key}
use paisa.Db.Frame.{
  Keeps, >>=-Keeps, query_row-Keeps, Preserves, Keeps-Preserves, >>=-Preserves, query_row-Preserves,
  lift-Preserves, within_tx-Preserves,
}
use paisa.Programs.Store.{
  version_clashes, new_version, create_program_row, update_program_row, ensure_program_partner,
  next_rule_version_number, create_rule_version_row,
}
use paisa.Programs.Groups.{Format, RowIds, insert_groups}
use paisa.Programs.Service.{
  create_program, update_program, delete_draft_program, store_rule_version, create_rule_version,
  create_rule_package, as_package, publish_rule_version,
}
use paisa.Programs.Inserted.{insert_groups-Keeps}
use paisa.Programs.Undeletable.{delete_draft_program-Fails}
use paisa.Programs.Versioned.{IsVersioned, publish_rule_version-IsVersioned}

-- The versions after an insertion: as before, or with one more row, whose key is new.
create_row-versions :
    (id p g : String) (n : ℤ) (body : RuleVersionRequest) (db : Db)
    → ((create_rule_version_row id p g n body db).1.rule_versions ≡ db.rule_versions)
      ⊎ ((any (version_clashes (new_version id p g n body)) db.rule_versions ≡ false)
          × ((create_rule_version_row id p g n body db).1.rule_versions
              ≡ new_version id p g n body ∷ db.rule_versions))
unfolding create_rule_version_row
create_row-versions id p g n body db =
    elim (Bool-cases (any (version_clashes (new_version id p g n body)) db.rule_versions)) [
      | inl e ↦ inl (ground (arith, e))
      | inr e ↦ elim (Bool-cases (fits_integer n)) [
        | inr f ↦ inl (ground (arith, f))
        | inl f ↦ elim (Bool-cases (body.scope == program_base || body.scope == member_add_on)) [
          | inr s ↦ inl (rw (f, s) refl)
          | inl s ↦ inr (e, rw (f, s, e) refl)
        ]
      ]
    ]

abbrev HasVersions : Db → Type 0
HasVersions db = IsVersioned db.rule_versions

create_row-IsVersioned :
    (id p g : String) (n : ℤ) (body : RuleVersionRequest)
    → Preserves HasVersions (create_rule_version_row id p g n body)
create_row-IsVersioned id p g n body db inv = elim (create_row-versions id p g n body db) [
  | inl e ↦ subst IsVersioned (sym e) inv
  | inr (new, e) ↦
      subst IsVersioned (sym e)
        (record { keyed = (new, inv.keyed); single = λ q h. ground (arith, inv.single q h) })
]

next-Keeps : (g s : String) → Keeps (λ db. db.rule_versions) (next_rule_version_number g s)
unfolding next_rule_version_number
next-Keeps g s db = ground arith

-- An action that leaves the versions alone.
keeps : {A : Type 0} (m : Tx A) → Keeps (λ db. db.rule_versions) m → Preserves HasVersions m
keeps m h = Keeps-Preserves (λ db. db.rule_versions) IsVersioned m h

partner-Preserves : (key : String) → Preserves HasVersions (partner_by_key key)
unfolding partner_by_key
partner-Preserves key = query_row-Preserves HasVersions _

next-Preserves : (g s : String) → Preserves HasVersions (next_rule_version_number g s)
next-Preserves g s = keeps (next_rule_version_number g s) (next-Keeps g s)

insert-Preserves :
    (format : Format) (ids : RowIds) (version_id : String) (groups : List RuleGroupRequest)
    → Preserves HasVersions (insert_groups format ids version_id 0 groups)
insert-Preserves format ids version_id groups =
    keeps (insert_groups format ids version_id 0 groups) (
      insert_groups-Keeps (λ db. db.rule_versions) (λ db gs rs ls ds. refl) format ids version_id 0
        groups)

-- From versions with the invariant, a new version leaves versions with it, whatever its outcome.
pub create_rule_version-IsVersioned :
    (format : Format) (ids : RowIds) (version_id partner_key program_id : String)
    (body : RuleVersionRequest)
    → Preserves HasVersions (create_rule_version format ids version_id partner_key program_id body)
unfolding create_rule_version store_rule_version ensure_program_partner
create_rule_version-IsVersioned format ids version_id partner_key program_id body =
    within_tx-Preserves HasVersions _ (
      >>=-Preserves HasVersions _ _ (partner-Preserves partner_key) (λ partner.
        >>=-Preserves HasVersions _ _ (lift-Preserves HasVersions _) (λ _.
          >>=-Preserves HasVersions _ _
            (>>=-Preserves HasVersions _ _ (query_row-Preserves HasVersions _) (λ _ db inv. inv))
            (λ _. >>=-Preserves HasVersions _ _ (next-Preserves program_id _) (λ number.
              >>=-Preserves HasVersions _ _
                (create_row-IsVersioned version_id partner.id program_id number _)
                (λ version.
                  >>=-Preserves HasVersions _ _ (insert-Preserves format ids version.id _)
                    (λ _ db inv. inv)))))))

create_program_row-Keeps :
    (id p : String) (body : ProgramRequest)
    → Keeps (λ db. db.rule_versions) (create_program_row id p body)
unfolding create_program_row
create_program_row-Keeps id p body db = ground arith

update_program_row-Keeps :
    (p g : String) (body : ProgramRequest)
    → Keeps (λ db. db.rule_versions) (update_program_row p g body)
unfolding update_program_row
update_program_row-Keeps p g body =
    >>=-Keeps (λ db. db.rule_versions) _ _ (query_row-Keeps (λ db. db.rule_versions) _)
      (λ row db. ground arith)

create_program-Preserves :
    (id partner_key : String) (body : ProgramRequest)
    → Preserves HasVersions (create_program id partner_key body)
unfolding create_program
create_program-Preserves id partner_key body =
    >>=-Preserves HasVersions _ _ (partner-Preserves partner_key) (λ partner.
      >>=-Preserves HasVersions _ _ (lift-Preserves HasVersions _) (λ _.
        keeps (create_program_row id partner.id body)
          (create_program_row-Keeps id partner.id body)))

update_program-Preserves :
    (partner_key program_id : String) (body : ProgramRequest)
    → Preserves HasVersions (update_program partner_key program_id body)
unfolding update_program
update_program-Preserves partner_key program_id body =
    >>=-Preserves HasVersions _ _ (partner-Preserves partner_key) (λ partner.
      >>=-Preserves HasVersions _ _ (lift-Preserves HasVersions _) (λ _.
        keeps (update_program_row partner.id program_id body)
          (update_program_row-Keeps partner.id program_id body)))

module _ (rt : Runtime) (order : RuleGraph → List String) where
  -- One call of an operation on programs, whatever its outcome.
  pub data Step : Db → Db → Type 0 where
    create :
        {db : Db} (id partner_key : String) (body : ProgramRequest)
        → Step db (create_program id partner_key body db).1
    update :
        {db : Db} (partner_key program_id : String) (body : ProgramRequest)
        → Step db (update_program partner_key program_id body db).1
    delete :
        {db : Db} (partner_key program_id : String)
        → Step db (delete_draft_program partner_key program_id db).1
    add_version :
        {db : Db} (format : Format) (ids : RowIds) (version_id partner_key program_id : String)
        (body : RuleVersionRequest)
        → Step db (create_rule_version format ids version_id partner_key program_id body db).1
    add_package :
        {db : Db} (format : Format) (ids : RowIds) (version_id partner_key program_id : String)
        (body : RuleVersionRequest)
        → Step db (create_rule_package format ids version_id partner_key program_id body db).1
    publish :
        {db : Db} (now : ℤ) (partner_key program_id version_id : String)
        → Step db (publish_rule_version rt order now partner_key program_id version_id db).1

  pub data Steps : Db → Db → Type 0 where
    here : {db : Db} → Steps db db
    next : {db db₁ db' : Db} → Step db db₁ → Steps db₁ db' → Steps db db'

  step-IsVersioned :
      {db db' : Db} → Step db db' → IsVersioned db.rule_versions → IsVersioned db'.rule_versions
  unfolding create_rule_package
  step-IsVersioned (Step.create {db} id key body) inv = create_program-Preserves id key body db inv
  step-IsVersioned (Step.update {db} key g body) inv = update_program-Preserves key g body db inv
  step-IsVersioned (Step.delete {db} key g) inv =
      let (_, e) = delete_draft_program-Fails key g db in
      subst HasVersions (sym (ap (λ (r : Result (Unit {0}) × Db). r.1) e)) inv
  step-IsVersioned (Step.add_version {db} format ids i key g body) inv =
      create_rule_version-IsVersioned format ids i key g body db inv
  step-IsVersioned (Step.add_package {db} format ids i key g body) inv =
      create_rule_version-IsVersioned format ids i key g (as_package body) db inv
  step-IsVersioned (Step.publish {db} now key g i) inv =
      publish_rule_version-IsVersioned rt order now key g i db inv

  -- After any sequence of calls of the operations on programs, on success and on failure, from
  -- versions with unique keys and at most one published version of a program's own rules, keys are
  -- unique and a program has at most one published version of its own rules.
  pub Steps-IsVersioned :
      {db db' : Db} → Steps db db' → IsVersioned db.rule_versions → IsVersioned db'.rule_versions
  Steps-IsVersioned here inv = inv
  Steps-IsVersioned (next s ss) inv = Steps-IsVersioned ss (step-IsVersioned s inv)
