-- ===== src/Rewards/Best.antt =====
-- The choice of a max_of group.
use paisa.Prelude.{
  ℕ, suc, ◌≡◌, ◌≢◌, ◌⊎◌, inl, inr, true, Option, none, some, List, [], ◌∷◌, All, arith,
  Option-cases, Bool-cases,
}
use mathlib.Core.List.{Memᴰ}
use paisa.Prelude.Int.{pos, ◌≤ℤ◌, eqb_ℤ, ltb_ℤ, eq_of_parts}
use paisa.Rewards.Candidate.{CalcCandidate}
use paisa.Rewards.Groups.{best_from, pick_best}

-- A candidate without points, or with at most those of `b`.
abbrev pub IsAtMost : CalcCandidate → CalcCandidate → Type 0
IsAtMost b c = (c.points ≡ pos 0) ⊎ (c.points ≤ℤ b.points)

zero_points : (c : CalcCandidate) → eqb_ℤ c.points (pos 0) ≡ true → c.points ≡ pos 0
zero_points c e = eq_of_parts c.points (pos 0) (ground (arith, e))

best_from-some :
    (i : ℕ) (k : ℕ) (d : CalcCandidate) (cs : List CalcCandidate)
    → best_from i (some (k, d)) cs ≢ none
best_from-some i k d [] e = cc
best_from-some i k d (c ∷ cs) e =
    ground (arith, e, best_from-some (suc i) k d cs, best_from-some (suc i) i c cs)

best_from-none :
    (i : ℕ) (cs : List CalcCandidate) → best_from i none cs ≡ none → All (λ c. c.points ≡ pos 0) cs
best_from-none i [] e = tt
best_from-none i (c ∷ cs) e = elim (Bool-cases (eqb_ℤ c.points (pos 0))) [
  | inl t ↦ (zero_points c t, best_from-none (suc i) cs (ground (arith, e, t)))
  | inr f ↦ absurd (best_from-some (suc i) i c cs (ground (arith, e, f)))
]

-- The candidate that a search starts with has at most the points of `b`.
abbrev Above : CalcCandidate → Option (ℕ × CalcCandidate) → Type 0
Above b none = Unit {0}
Above b (some (_, d)) = d.points ≤ℤ b.points

best_from-max :
    (i j : ℕ) (best : Option (ℕ × CalcCandidate)) (cs : List CalcCandidate) (b : CalcCandidate)
    → best_from i best cs ≡ some (j, b)
    → All (IsAtMost b) cs × Above b best
best_from-max i j none [] b e = cc
best_from-max i j (some (k, d)) [] b e =
    let same : d ≡ b = ground (arith, e) in (tt, rw same (omega arith))
best_from-max i j none (c ∷ cs) b e = elim (Bool-cases (eqb_ℤ c.points (pos 0))) [
  | inl t ↦
      ((inl (zero_points c t), (best_from-max (suc i) j none cs b (ground (arith, e, t))).0), tt)
  | inr f ↦
      let r = best_from-max (suc i) j (some (i, c)) cs b (ground (arith, e, f)) in
      ((inr r.1, r.0), tt)
]
best_from-max i j (some (k, d)) (c ∷ cs) b e = elim (Bool-cases (eqb_ℤ c.points (pos 0))) [
  | inl t ↦
      let r = best_from-max (suc i) j (some (k, d)) cs b (ground (arith, e, t)) in
      ((inl (zero_points c t), r.0), r.1)
  | inr f ↦ elim (Bool-cases (ltb_ℤ d.points c.points)) [
    | inl t ↦
        let r = best_from-max (suc i) j (some (i, c)) cs b (ground (arith, e, f, t)) in
        ((inr r.1, r.0), ground (arith, t, r.1))
    | inr g ↦
        let r = best_from-max (suc i) j (some (k, d)) cs b (ground (arith, e, f, g)) in
        ((inr (ground (arith, g, r.1)), r.0), r.1)
  ]
]

-- `b` is what a search starts with.
abbrev Start : CalcCandidate → Option (ℕ × CalcCandidate) → Type 0
Start b none = ⊥
Start b (some (_, d)) = b ≡ d

skip :
    (best : Option (ℕ × CalcCandidate)) (b c : CalcCandidate) (cs : List CalcCandidate)
    → Start b best ⊎ Memᴰ b cs
    → Start b best ⊎ Memᴰ b (c ∷ cs)
skip best b c cs (inl e) = inl e
skip best b c cs (inr m) = inr (Memᴰ.tail m)

take_first :
    (best : Option (ℕ × CalcCandidate)) (b c : CalcCandidate) (cs : List CalcCandidate)
    → (b ≡ c) ⊎ Memᴰ b cs
    → Start b best ⊎ Memᴰ b (c ∷ cs)
take_first best b c cs (inl e) = inr (Memᴰ.head e)
take_first best b c cs (inr m) = inr (Memᴰ.tail m)

-- What a search finds is what it started with, or one of the candidates.
best_from-Start :
    (i j : ℕ) (best : Option (ℕ × CalcCandidate)) (cs : List CalcCandidate) (b : CalcCandidate)
    → best_from i best cs ≡ some (j, b)
    → Start b best ⊎ Memᴰ b cs
best_from-Start i j none [] b e = cc
best_from-Start i j (some (k, d)) [] b e = inl (ground (arith, e))
best_from-Start i j none (c ∷ cs) b e = elim (Bool-cases (eqb_ℤ c.points (pos 0))) [
  | inl t ↦ skip none b c cs (best_from-Start (suc i) j none cs b (ground (arith, e, t)))
  | inr f ↦
      take_first none b c cs (best_from-Start (suc i) j (some (i, c)) cs b (ground (arith, e, f)))
]
best_from-Start i j (some (k, d)) (c ∷ cs) b e = elim (Bool-cases (eqb_ℤ c.points (pos 0))) [
  | inl t ↦
      skip (some (k, d)) b c cs
        (best_from-Start (suc i) j (some (k, d)) cs b (ground (arith, e, t)))
  | inr f ↦ elim (Bool-cases (ltb_ℤ d.points c.points)) [
    | inl t ↦
        take_first (some (k, d)) b c cs
          (best_from-Start (suc i) j (some (i, c)) cs b (ground (arith, e, f, t)))
    | inr g ↦
        skip (some (k, d)) b c cs
          (best_from-Start (suc i) j (some (k, d)) cs b (ground (arith, e, f, g)))
  ]
]

from_nothing : (b : CalcCandidate) (cs : List CalcCandidate) → ⊥ ⊎ Memᴰ b cs → Memᴰ b cs
from_nothing b cs (inl x) = elim x [ ]
from_nothing b cs (inr m) = m

abbrev pub chosen : CalcCandidate → CalcCandidate
chosen b = record b { selected = true; reason = "highest_candidate_after_limits" }

-- A max_of group selects nothing only if none of its candidates has points. Otherwise it selects
-- one of its candidates, and no candidate with points has more points than that one.
pub pick_best-max :
    (cs : List CalcCandidate)
    → (((pick_best cs).selected ≡ []) × All (λ c. c.points ≡ pos 0) cs)
      ⊎ ((b : CalcCandidate) × ((pick_best cs).selected ≡ chosen b ∷ [])
          × Memᴰ b cs
          × All (IsAtMost b) cs)
unfolding pick_best
pick_best-max cs = elim (Option-cases (best_from 0 none cs)) [
  | inl n ↦ inl (ground (arith, n), best_from-none 0 cs n)
  | inr ((j, b), n) ↦ inr (
    b,
    ground (arith, n),
    from_nothing b cs (best_from-Start 0 j none cs b n),
    (best_from-max 0 j none cs b n).0,
  )
]
