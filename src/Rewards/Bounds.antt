-- ===== src/Rewards/Bounds.antt =====
-- Several refunds of one purchase: the proration of
-- accts-api/application/reward_processing_service.go.
use native.Mathlib.Nat.{div-le_self, mul-le-mul}
use paisa.Prelude.{ℕ, ◌+◌, ◌-◌, ◌*◌, ◌/◌, ◌^◌, ◌≤◌, ◌<◌, ◌≡◌, ◌∙◌, arith}
use paisa.Prelude.Int.{ℤ, pos, pos_part, ◌+ℤ◌, ◌-ℤ◌, ◌*ℤ◌, ◌/ℤ◌}
use paisa.Prelude.Word.{wrap_in_range, ◌⊟◌, ◌⊠◌, ◌⊘◌, ⊟_exact}
use paisa.Rewards.Refund.{prorate, effective_basis}

mul-fits : (a b : ℕ) → a < 2 ^ 31 → b < 2 ^ 31 → a * b < 2 ^ 62
mul-fits a b h k =
    let m : a * b ≤ 2147483647 * 2147483647 =
      mul-le-mul {n₂ = 2147483647} {m₂ = 2147483647} (omega (arith, h)) (omega (arith, k)) in
    omega (arith, m)

times-pos : (a b : ℕ) → pos a *ℤ pos b ≡ pos (a * b)
unfolding ◌*ℤ◌
times-pos a b = ground arith

over-pos : (a b : ℕ) → 0 < b → ◌/ℤ◌ (pos a) (pos b) ≡ pos (a / b)
unfolding ◌/ℤ◌
over-pos a b h = ground arith

pub prorate_exact :
    (p e d : ℕ)
    → p < 2 ^ 31
    → e < 2 ^ 31
    → 0 < d
    → prorate (pos p) (pos e) (pos d) ≡ pos (p * e / d)
unfolding prorate ◌⊠◌ ◌⊘◌
prorate_exact p e d h k m =
    let fits = mul-fits p e h k in
    let product : pos p ⊠ pos e ≡ pos (p * e) =
      rw (times-pos p e) (wrap_in_range (pos (p * e)) (omega (arith, fits), omega arith)) in
    let quotient : pos (p * e) ⊘ pos d ≡ pos (p * e / d) =
      rw (over-pos (p * e) d m) (
        wrap_in_range (pos (p * e / d))
          (omega (arith, fits, div-le_self (p * e) d), omega arith)) in
    ground (arith, m, product, quotient)

-- The effective basis is between 0 and what is left.
pub effective_basis-range :
    (d k : ℕ) (r : ℤ)
    → d < 2 ^ 31
    → k ≤ d
    → (e : ℕ) × (effective_basis (pos d) (pos k) r ≡ pos e) × (k + e ≤ d)
unfolding effective_basis ◌-ℤ◌
effective_basis-range d k r h m =
    let left : pos d ⊟ pos k ≡ pos (d - k) =
      ⊟_exact (pos d) (pos k) (omega (arith, h)) (omega (arith, h, m)) ∙ ground (arith, m) in
    let e = effective_basis (pos d) (pos k) r in
    (pos_part e, ground (arith, left, m), ground (arith, left, m))

pub plus-pos : (a b : ℕ) → pos a +ℤ pos b ≡ pos (a + b)
unfolding ◌+ℤ◌
plus-pos a b = ground arith
