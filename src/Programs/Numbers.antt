-- ===== src/Programs/Numbers.antt =====
-- `NextRuleVersionNumber` of accts-api/adapters/postgres/internal/repository/program.go.
use paisa.Prelude.{
  String, ◌≡◌, inl, inr, Bool, true, List, [], ◌∷◌, All, All-mono, keep, arith, Bool-cases,
}
use paisa.Prelude.Int.{ℤ, pos, ◌+ℤ◌, ◌<ℤ◌, ◌≤ℤ◌, +ℤ_parts}
use paisa.Domain.Programs.{RuleVersion}
use paisa.Db.Result.{ok}
use paisa.Db.State.{Db}
use paisa.Programs.Store.{in_scope, max_version, next_rule_version_number}

max_version-ge : (vs : List RuleVersion) → All (λ v. v.version ≤ℤ max_version vs) vs
max_version-ge [] = tt
max_version-ge (v ∷ []) = (omega arith, tt)
max_version-ge (v ∷ w ∷ vs) = (
  ground arith,
  All-mono (λ u. u.version ≤ℤ max_version (w ∷ vs)) (λ u. u.version ≤ℤ max_version (v ∷ w ∷ vs))
      (λ u h. ground (arith, h)) (w ∷ vs) (max_version-ge (w ∷ vs)),
)

All-keep :
    (P : RuleVersion → Type 0) (t : RuleVersion → Bool) (vs : List RuleVersion)
    → All P (keep t vs)
    → All (λ v. t v ≡ true → P v) vs
All-keep P t [] a = tt
All-keep P t (v ∷ vs) a = elim (Bool-cases (t v)) [
  | inl e ↦ let b : All P (v ∷ keep t vs) = rw e at a in (λ _. b.0, All-keep P t vs b.1)
  | inr e ↦ (λ k. ground (arith, k, e), All-keep P t vs (rw e at a))
]

-- The number that a new version of a program in a scope gets is greater than that of each of the
-- versions that the program has in the scope.
pub next_rule_version_number-is_new :
    (program_id scope : String) (db db' : Db) (n : ℤ)
    → next_rule_version_number program_id scope db ≡ (ok n, db')
    → All (λ v. in_scope program_id scope v ≡ true → v.version <ℤ n) db.rule_versions
unfolding next_rule_version_number
next_rule_version_number-is_new program_id scope db db' n h =
    let vs = keep (in_scope program_id scope) db.rule_versions in
    let e : n ≡ max_version vs +ℤ pos 1 = ground (arith, h) in
    All-keep (λ v. v.version <ℤ n) (in_scope program_id scope) db.rule_versions
      (All-mono (λ v. v.version ≤ℤ max_version vs) (λ v. v.version <ℤ n)
        (λ v k. rw e (omega (arith, k, +ℤ_parts (max_version vs) (pos 1)))) vs (max_version-ge vs))
