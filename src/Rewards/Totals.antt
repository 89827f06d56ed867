-- ===== src/Rewards/Totals.antt =====
-- The points that `calculatePurchase` adds up, and what it writes.
use paisa.Prelude.{
  String, ◌==◌, ◌++◌, ◌≡◌, refl, ◌∙◌, ◌⊎◌, inl, inr, ℕ, zero, suc, ◌+◌, ◌<◌, ◌≤◌, length, Bool,
  true, false, Option, none, some, List, [], ◌∷◌, keep, map, arith, Bool-cases, Option-cases,
}
use paisa.Prelude.Int.{ℤ}
use paisa.Prelude.Word.{◌⊞◌}
use paisa.Domain.Config.{Runtime}
use paisa.Domain.Rules.{RuleGraphGroup, RuleGraphRule, RuleGraph, SelectedAward}
use paisa.Domain.Transactions.{RewardProcessingEvent}
use paisa.Db.Result.{ok}
use paisa.Db.State.{Db}
use paisa.Db.Inversion.{>>=-eq-ok}
use paisa.Rewards.Candidate.{CalcCandidate}
use paisa.Rewards.Groups.{
  GroupResult, TraceGroup, best_from, replace_at, pick_best, award_of, awards_of,
}
use paisa.Rewards.Engine.{max_of_rules, run_group, commit_selected, run_groups}
use paisa.Rewards.Marks.{stack_rules-IsMarked, waterfall_rules-IsMarked, max_of_rules-keeps}

-- The best candidate is the one that was given, or is among those that are left.
best_from-in :
    (i : ℕ) (best : Option (ℕ × CalcCandidate)) (cs : List CalcCandidate) (j : ℕ)
    (b : CalcCandidate)
    → best_from i best cs ≡ some (j, b)
    → (best ≡ some (j, b)) ⊎ (i ≤ j × (j < i + length cs))
best_from-in i best [] j b e = inl e
best_from-in i none (c ∷ cs) j b e =
    ground (arith, best_from-in (suc i) none cs j b, best_from-in (suc i) (some (i, c)) cs j b)
best_from-in i (some (k, d)) (c ∷ cs) j b e =
    ground
      (arith, best_from-in (suc i) (some (k, d)) cs j b, best_from-in (suc i) (some (i, c)) cs j b)

replace_at-marked :
    (j : ℕ) (b : CalcCandidate) (cs : List CalcCandidate)
    → j < length cs
    → b.selected ≡ true
    → keep (λ c. c.selected) cs ≡ []
    → keep (λ c. c.selected) (replace_at j b cs) ≡ b ∷ []
replace_at-marked j b [] m t h = absurd (omega (arith, m))
replace_at-marked zero b (c ∷ cs) m t h = ground (arith, t, h)
replace_at-marked (suc j) b (c ∷ cs) m t h =
    ground (arith, t, h, replace_at-marked j b cs (omega (arith, m)) t)

pick_best-IsMarked :
    (cs : List CalcCandidate)
    → keep (λ c. c.selected) cs ≡ []
    → (pick_best cs).selected ≡ keep (λ c. c.selected) (pick_best cs).candidates
unfolding pick_best
pick_best-IsMarked cs h = elim (Option-cases (best_from 0 none cs)) [
  | inl n ↦ ground (arith, n, h)
  | inr ((j, b), n) ↦ ground (
    arith,
    n,
    h,
    best_from-in 0 none cs j b n,
    replace_at-marked j (record b { selected = true; reason = "highest_candidate_after_limits" })
        cs,
  )
]

-- The sum of a list of points, from a start, as Go's loop computes it.
abbrev pub sum_points : ℤ → List CalcCandidate → ℤ
sum_points total [] = total
sum_points total (c ∷ cs) = sum_points (total ⊞ c.points) cs

abbrev pub sum_awards : ℤ → List SelectedAward → ℤ
sum_awards total [] = total
sum_awards total (a ∷ rest) = sum_awards (total ⊞ a.points) rest

sum_awards-awards :
    (v : String) (total : ℤ) (cs : List CalcCandidate) (rest : List SelectedAward)
    → sum_awards total (map (award_of v) cs ++ rest) ≡ sum_awards (sum_points total cs) rest
sum_awards-awards v total [] rest = refl
sum_awards-awards v total (c ∷ cs) rest = sum_awards-awards v (total ⊞ c.points) cs rest

module _ (rt : Runtime) (event : RewardProcessingEvent) (graph : RuleGraph)
    (sort_rules : List RuleGraphRule → List RuleGraphRule) where
  run_group-IsMarked :
      (group : RuleGraphGroup) (g : GroupResult) (db db' : Db)
      → run_group rt event graph sort_rules group db ≡ (ok g, db')
      → (g.selected ≡ keep (λ c. c.selected) g.candidates) × (db' ≡ db)
  unfolding run_group
  run_group-IsMarked group g db db' h = elim (Bool-cases (group.strategy == "max_of")) [
    | inl t ↦
        let (cs, db₁, e₁, h₁) = >>=-eq-ok (max_of_rules rt event graph _ []) _ (rw t at h) in
        let (m, k) = max_of_rules-keeps rt event graph _ [] cs db db₁ e₁ in
        let last : g ≡ pick_best cs = ground (arith, h₁) in
        (rw last (pick_best-IsMarked cs m), ground (arith, h₁, k))
    | inr f ↦ elim (Bool-cases (group.strategy == "waterfall")) [
      | inl t ↦ waterfall_rules-IsMarked rt event graph _ _ [] g db db' (rw (f, t) at h)
      | inr f' ↦ stack_rules-IsMarked rt event graph _ [] g db db' (rw (f, f') at h)
    ]
  ]

  commit_selected-sum :
      (commit : Bool) (cs : List CalcCandidate) (total t : ℤ) (db db' : Db)
      → commit_selected rt event graph commit cs total db ≡ (ok t, db')
      → (t ≡ sum_points total cs) × (commit ≡ false → db' ≡ db)
  unfolding commit_selected
  commit_selected-sum commit [] total t db db' h = (ground arith, λ _. ground arith)
  commit_selected-sum commit (c ∷ cs) total t db db' h =
      let (_, db₁, e₁, h₁) = >>=-eq-ok _ _ h in
      let (s, k) = commit_selected-sum commit cs (total ⊞ c.points) t db₁ db' h₁ in
      (s, λ f. k f ∙ ground (arith, e₁, f))

  pub run_groups-sum :
      (v : String) (commit : Bool) (groups : List RuleGraphGroup) (total : ℤ)
      (r : ℤ × List TraceGroup) (db db' : Db)
      → run_groups rt event graph sort_rules commit groups total db ≡ (ok r, db')
      → (r.0 ≡ sum_awards total (awards_of v r.1)) × (commit ≡ false → db' ≡ db)
  unfolding run_groups
  run_groups-sum v commit [] total r db db' h = (ground arith, λ _. ground arith)
  run_groups-sum v commit (group ∷ groups) total r db db' h =
      let (g, db₁, e₁, h₁) = >>=-eq-ok (run_group rt event graph sort_rules group) _ h in
      let (m, k₁) = run_group-IsMarked group g db db₁ e₁ in
      let (next, db₂, e₂, h₂) =
        >>=-eq-ok (commit_selected rt event graph commit g.selected total) _ h₁ in
      let (s, k₂) = commit_selected-sum commit g.selected total next db₁ db₂ e₂ in
      let (r', db₃, e₃, h₃) =
        >>=-eq-ok (run_groups rt event graph sort_rules commit groups next) _ h₂ in
      let (s', k₃) = run_groups-sum v commit groups next r' db₂ db₃ e₃ in
      (
        ground (
          arith,
          h₃,
          m,
          s,
          s',
          sum_awards-awards v total (keep (λ c. c.selected) g.candidates) (awards_of v r'.1),
        ),
        λ f. ground (arith, h₃, k₁, k₂ f, k₃ f),
      )
