-- ===== src/Rewards/Reversal.antt =====
-- The points that a refund reverses: `plan_refund` of
-- accts-api/application/reward_processing_service.go, without overflow.
use native.Mathlib.Nat.{div-mul-le_self, mul-le-mul_left, mul-div_cancel, le-div_iff_mul-le}
use paisa.Prelude.{ℕ, ◌+◌, ◌*◌, ◌/◌, ◌^◌, ◌≤◌, ◌<◌, ◌≡◌, ap, ◌∙◌, List, [], ◌∷◌, All, map, arith}
use paisa.Prelude.Int.{ℤ, pos, pos_part, parts_apart, ◌+ℤ◌, ◌-ℤ◌, ◌≤ℤ◌, -ℤ_parts, int_laws}
use paisa.Prelude.Word.{IsInt32, ◌⊞◌, ⊞_exact, ⊟_exact}
use paisa.Domain.Rules.{SelectedAward}
use paisa.Rewards.Refund.{prorate, reverse_award, sum_reversed, ratio_denominator, plan_refund}
use paisa.Rewards.Bounds.{prorate_exact, effective_basis-range}

abbrev pub minus : ℕ → ℤ
minus n = pos 0 -ℤ pos n

-- The points of an original's awards, which are not negative.
abbrev pub points_of : List SelectedAward → ℕ
points_of [] = 0
points_of (a ∷ rest) = pos_part a.points + points_of rest

abbrev pub IsEarned : SelectedAward → Type 0
IsEarned a = pos 0 ≤ℤ a.points

-- What of them is reversed, for `e` of a basis of `d`.
abbrev pub shares : ℕ → ℕ → List SelectedAward → ℕ
shares e d [] = 0
shares e d (a ∷ rest) = pos_part a.points * e / d + shares e d rest

pub shares_bound :
    (e d : ℕ) (awards : List SelectedAward) → shares e d awards * d ≤ points_of awards * e
shares_bound e d [] = omega arith
shares_bound e d (a ∷ rest) =
    grind (arith, div-mul-le_self (pos_part a.points * e) d, shares_bound e d rest)

minus-IsInt32 : (n : ℕ) → n < 2 ^ 31 → IsInt32 (minus n)
minus-IsInt32 n h = omega (arith, -ℤ_parts (pos 0) (pos n), parts_apart (minus n), h)

pub minus-add : (m n : ℕ) → minus m +ℤ minus n ≡ minus (m + n)
minus-add m n = omega int_laws

earned_points : (a : SelectedAward) → IsEarned a → a.points ≡ pos (pos_part a.points)
earned_points a h = ground arith

module _ (e d : ℕ) (e_fits : e < 2 ^ 31) (positive : 0 < d) (within : e ≤ d) where
  div-le_of : (x y : ℕ) → x ≤ y → x / d ≤ y / d
  div-le_of x y h = (le-div_iff_mul-le positive).1 (omega (arith, div-mul-le_self x d, h))

  share_le : (p : ℕ) → p * e / d ≤ p
  share_le p =
      rw (mul-div_cancel p positive) at (div-le_of (p * e) (p * d) (mul-le-mul_left p within))

  reversed_award :
      (a : SelectedAward)
      → IsEarned a
      → pos_part a.points < 2 ^ 31
      → (reverse_award (pos e) (pos d) a).points ≡ minus (pos_part a.points * e / d)
  unfolding reverse_award
  reversed_award a earned fits =
      rw
        (ap (λ x. prorate x (pos e) (pos d)) (earned_points a earned)
          ∙ prorate_exact (pos_part a.points) e d fits e_fits positive)
        (⊟_exact (pos 0) (pos (pos_part a.points * e / d)) (omega arith)
          (omega (arith, share_le (pos_part a.points), fits)))

  sum_reversed-minus :
      (n : ℕ) (awards : List SelectedAward)
      → All IsEarned awards
      → n + points_of awards < 2 ^ 31
      → sum_reversed (minus n) (map (reverse_award (pos e) (pos d)) awards)
        ≡ minus (n + shares e d awards)
  sum_reversed-minus n [] earned fits = ap minus (omega arith)
  sum_reversed-minus n (a ∷ rest) earned fits =
      let s = pos_part a.points * e / d in
      let small : s ≤ pos_part a.points = share_le (pos_part a.points) in
      let one = reversed_award a earned.0 (omega (arith, fits)) in
      let sum : minus n ⊞ minus s ≡ minus (n + s) =
        ⊞_exact (minus n) (minus s) (minus-IsInt32 n (omega (arith, fits)))
          (minus-IsInt32 s (omega (arith, fits, small)))
        ∙ minus-add n s in
      rw (one, sum)
        (sum_reversed-minus (n + s) rest earned.1 (omega (arith, fits, small))
          ∙ ap minus (omega arith))

  sum_reversed-total :
      (awards : List SelectedAward)
      → All IsEarned awards
      → points_of awards < 2 ^ 31
      → sum_reversed (pos 0) (map (reverse_award (pos e) (pos d)) awards)
        ≡ minus (shares e d awards)
  sum_reversed-total awards earned fits =
      let zero_points : pos 0 ≡ minus 0 = omega int_laws in
      ap (λ z. sum_reversed z (map (reverse_award (pos e) (pos d)) awards)) zero_points
      ∙ sum_reversed-minus 0 awards earned (omega (arith, fits))
      ∙ ap minus (omega arith)

-- What a refund stores: a basis `e` of what is left, and the shares of `e` taken back.
pub plan_refund_exact :
    (d b : ℕ) (request : ℤ) (awards : List SelectedAward)
    → d < 2 ^ 31
    → 0 < d
    → b ≤ d
    → All IsEarned awards
    → points_of awards < 2 ^ 31
    → (e : ℕ) × (b + e ≤ d)
      × ((plan_refund (pos d) (pos b) request awards).calculation_basis ≡ pos e)
      × ((plan_refund (pos d) (pos b) request awards).total_points ≡ minus (shares e d awards))
unfolding plan_refund
plan_refund_exact d b request awards d_fits positive left earned fits =
    let (e, same, in_range) = effective_basis-range d b request d_fits left in
    let denominator : ratio_denominator (pos d) (pos e) ≡ pos d = ground (arith, positive) in
    (
      e,
      in_range,
      same,
      rw (same, denominator)
          (sum_reversed-total e d (omega (arith, in_range, d_fits)) positive
            (omega (arith, in_range)) awards earned fits),
    )

-- A share of points: what is taken from `p` for a basis within `d` is within `p`.
pub within_points : (n p b d : ℕ) → 0 < d → n * d ≤ p * b → b ≤ d → n ≤ p
within_points n p b d positive h k =
    let bound : n * d ≤ p * d = omega (arith, h, mul-le-mul_left p k) in
    rw (mul-div_cancel p positive) at ((le-div_iff_mul-le positive).1 bound)
