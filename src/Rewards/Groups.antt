-- ===== src/Rewards/Groups.antt =====
-- The state of a group's loops in `calculatePurchase` of accts-api/application/rule_engine.go: the
-- outcomes of its rules, the basis that is left, and the candidates.
use paisa.Prelude.{
  String, ◌==◌, ◌++◌, ℕ, zero, suc, Bool, true, not, ◌&&◌, Option, none, some, List, [], ◌∷◌, keep,
  map, if◌then◌else◌,
}
use paisa.Prelude.Int.{ℤ, pos, ltb_ℤ, leb_ℤ, eqb_ℤ}
use paisa.Prelude.Word.{◌⊞◌, ◌⊟◌}
use paisa.Domain.Rules.{RuleGraphRule, RuleGraphDependency, SelectedAward}
use paisa.Domain.Transactions.{LineItemInput, RewardProcessingEvent}
use paisa.Rewards.Candidate.{CalcCandidate}

-- The map `outcomes`, its last entry first.
abbrev pub Outcomes : Type 0
Outcomes = List (String × CalcCandidate)

abbrev pub outcome_of : Outcomes → String → Option CalcCandidate
outcome_of [] id = none
outcome_of ((k, c) ∷ rest) id = if k == id then some c else outcome_of rest id

abbrev pub awarded : CalcCandidate → Bool
awarded c = c.selected && not (eqb_ℤ c.points (pos 0))

-- What one dependency says against a rule, by the outcome of the rule that it depends on.
unfoldable pub objection : String → CalcCandidate → Option String
objection dependency_type prior =
    if dependency_type == "requires_match"
    then (if prior.matched then none else some "dependency_not_matched")
    else if dependency_type == "requires_award"
    then (if awarded prior then none else some "dependency_not_awarded")
    else if dependency_type == "requires_exhausted"
    then (if prior.exhausted then none else some "dependency_not_exhausted")
    else if dependency_type == "blocked_if_awarded"
    then (if awarded prior then some "dependency_blocked_by_award" else none)
    else none

abbrev pub objection_of : Outcomes → RuleGraphDependency → Option String
objection_of outcomes dep = elim (outcome_of outcomes dep.depends_on_rule_id) [
  | none ↦ some "dependency_not_evaluated"
  | some prior ↦ objection dep.dependency_type prior
]

-- `dependenciesSatisfied`: the first objection, if there is one.
unfoldable pub dependencies_satisfied :
    RuleGraphRule → List RuleGraphDependency → Outcomes → Option String
unfolding objection
dependencies_satisfied rule [] outcomes = none
dependencies_satisfied rule (dep ∷ deps) outcomes =
    let later = dependencies_satisfied rule deps outcomes in
    if not (dep.rule_id == rule.id)
    then later
    else elim (objection_of outcomes dep) [ some reason ↦ some reason | none ↦ later ]

-- A map from categories to what is left of their basis; each category once.
abbrev pub Basis : Type 0
Basis = List (String × ℤ)

abbrev pub basis_of : Basis → String → ℤ
basis_of [] category = pos 0
basis_of ((k, v) ∷ rest) category = if k == category then v else basis_of rest category

abbrev pub add_basis : Basis → String → ℤ → Basis
add_basis [] category d = (category, pos 0 ⊞ d) ∷ []
add_basis ((k, v) ∷ rest) category d =
    if k == category then (k, v ⊞ d) ∷ rest else (k, v) ∷ add_basis rest category d

abbrev pub add_lines : Basis → List LineItemInput → Basis
add_lines out [] = out
add_lines out (line ∷ lines) = add_lines (add_basis out line.category line.eligible_minor) lines

-- `basisByCategory`
unfoldable pub basis_by_category : RewardProcessingEvent → Basis
basis_by_category event = elim (add_lines [] event.lines) [
  | [] ↦ ("", event.eligible_minor) ∷ []
  | x ∷ xs ↦ x ∷ xs
]

abbrev pub sum_basis : ℤ → Basis → ℤ
sum_basis total [] = total
sum_basis total ((_, v) ∷ rest) = sum_basis (total ⊞ v) rest

abbrev pub sum_categories : Basis → ℤ → List String → ℤ
sum_categories remaining total [] = total
sum_categories remaining total (c ∷ cs) = sum_categories remaining (total ⊞ basis_of remaining c) cs

-- `MinInt` of accts-api/domain/helpers.go.
abbrev pub min_int : ℤ → ℤ → ℤ
min_int a b = if ltb_ℤ a b then a else b

-- `remaining[category] -= consume`
abbrev pub take_basis : Basis → String → ℤ → Basis
take_basis [] category d = (category, pos 0 ⊟ d) ∷ []
take_basis ((k, v) ∷ rest) category d =
    if k == category then (k, v ⊟ d) ∷ rest else (k, v) ∷ take_basis rest category d

-- The loop of `consumeWaterfallBasis`.
unfoldable pub consume : List String → Basis → ℤ → Basis
consume [] remaining amount = remaining
consume (c ∷ cs) remaining amount =
    let part = min_int (basis_of remaining c) amount in
    let rest = consume cs (take_basis remaining c part) (amount ⊟ part) in
    if leb_ℤ amount (pos 0) then remaining else rest

-- What a group gives: the candidates of its rules, and those that are selected.
pub record GroupResult : Type 0 where
  pub selected : List CalcCandidate
  pub candidates : List CalcCandidate

pub record TraceGroup : Type 0 where
  pub rule_group_id : String
  pub strategy : String
  pub candidates : List CalcCandidate

pub record Calculation : Type 0 where
  pub groups : List TraceGroup
  pub selected_awards : List SelectedAward
  pub total_points : ℤ

-- A candidate with points is selected.
abbrev pub has_points : CalcCandidate → Bool
has_points c = not (eqb_ℤ c.points (pos 0))

abbrev pub select : String → CalcCandidate → CalcCandidate
select reason c = if has_points c then record c { selected = true; reason = reason } else c

abbrev pub add_candidate : CalcCandidate → GroupResult → GroupResult
add_candidate c g = record {
  selected = if has_points c then c ∷ g.selected else g.selected;
  candidates = c ∷ g.candidates;
}

-- The loop of max_of that looks for the best candidate, of those from index `i` on: the first of
-- those with the most points, and none without points.
abbrev pub best_from :
    ℕ → Option (ℕ × CalcCandidate) → List CalcCandidate → Option (ℕ × CalcCandidate)
best_from i best [] = best
best_from i best (c ∷ cs) =
    if eqb_ℤ c.points (pos 0) then best_from (suc i) best cs else elim best [
      | none ↦ best_from (suc i) (some (i, c)) cs
      | some (j, b) ↦
          if ltb_ℤ b.points c.points
          then best_from (suc i) (some (i, c)) cs
          else best_from (suc i) (some (j, b)) cs
    ]

abbrev pub replace_at : ℕ → CalcCandidate → List CalcCandidate → List CalcCandidate
replace_at i c [] = []
replace_at zero c (x ∷ xs) = c ∷ xs
replace_at (suc i) c (x ∷ xs) = x ∷ replace_at i c xs

-- The end of max_of: the best candidate is selected.
unfoldable pub pick_best : List CalcCandidate → GroupResult
pick_best cs = elim (best_from 0 none cs) [
  | none ↦ record { selected = []; candidates = cs }
  | some (i, b) ↦
      let chosen = record b { selected = true; reason = "highest_candidate_after_limits" } in
      record { selected = chosen ∷ []; candidates = replace_at i chosen cs }
]

abbrev pub award_of : String → CalcCandidate → SelectedAward
award_of rule_version_id c = record {
  rule_id = c.rule_id;
  rule_version_id = rule_version_id;
  basis_amount_minor = c.basis_amount_minor;
  points = c.points;
}

abbrev pub awards_of : String → List TraceGroup → List SelectedAward
awards_of rule_version_id [] = []
awards_of rule_version_id (g ∷ gs) =
    map (award_of rule_version_id) (keep (λ c. c.selected) g.candidates)
    ++ awards_of rule_version_id gs
