-- ===== src/Prelude/Word.antt =====
-- Go's `int` on a 64-bit machine, and the 32-bit range of a database column of type INTEGER.
use Prim.Native.Nat.{ℕ, ◌+◌, ◌-◌, ◌*◌, ◌%◌, ◌^◌, ◌≤◌, ◌<◌}
use mathlib.Core.Path.{◌≡◌}
use mathlib.Core.Bool.{Bool, true, ◌&&◌}
use native.Mathlib.Omega.{arith}
use paisa.Prelude.Tests.{ltb, leb, if◌then◌else◌}
use paisa.Prelude.Int.{
  ℤ, pos, negsuc, pos_part, neg_part, ◌+ℤ◌, ◌-ℤ◌, ◌*ℤ◌, ◌/ℤ◌, +ℤ_parts, -ℤ_parts,
}

-- The integer that a 64-bit pattern stands for in two's complement.
abbrev of_word : ℕ → ℤ
of_word w = if ltb w (2 ^ 63) then pos w else negsuc (2 ^ 64 - 1 - w)

-- The integer in the 64-bit range that agrees with `x` modulo 2^64: -1 is 2^64 - 1.
unfoldable pub wrap : ℤ → ℤ
wrap x = of_word ((pos_part x + neg_part x * (2 ^ 64 - 1)) % 2 ^ 64)

abbrev pub IsInt : ℤ → Type 0
IsInt x = (pos_part x < 2 ^ 63) × (neg_part x ≤ 2 ^ 63)

abbrev pub IsInt32 : ℤ → Type 0
IsInt32 x = (pos_part x < 2 ^ 31) × (neg_part x ≤ 2 ^ 31)

-- The test that the database makes on a value for a column of type INTEGER.
abbrev pub fits_integer : ℤ → Bool
fits_integer x = ltb (pos_part x) (2 ^ 31) && leb (neg_part x) (2 ^ 31)

infixl 65 ◌⊞◌ ◌⊟◌
infixl 70 ◌⊠◌ ◌⊘◌
-- Go's `+`, `-`, `*` and `/` on `int`.
unfoldable pub ◌⊞◌ : ℤ → ℤ → ℤ
a ⊞ b = wrap (a +ℤ b)

unfoldable pub ◌⊟◌ : ℤ → ℤ → ℤ
a ⊟ b = wrap (a -ℤ b)

unfoldable pub ◌⊠◌ : ℤ → ℤ → ℤ
a ⊠ b = wrap (a *ℤ b)

unfoldable pub ◌⊘◌ : ℤ → ℤ → ℤ
a ⊘ b = wrap (◌/ℤ◌ a b)

-- Go's unary minus.
abbrev pub neg : ℤ → ℤ
neg a = pos 0 ⊟ a

pub wrap_in_range : (x : ℤ) → IsInt x → wrap x ≡ x
unfolding wrap
wrap_in_range (pos n) h = ground arith
wrap_in_range (negsuc n) h = ground arith

pub wrap-IsInt : (x : ℤ) → IsInt (wrap x)
unfolding wrap
wrap-IsInt x = ground arith

pub fits_integer-IsInt32 : (x : ℤ) → fits_integer x ≡ true → IsInt32 x
fits_integer-IsInt32 x h = ground arith

pub ⊞_exact : (a b : ℤ) → IsInt32 a → IsInt32 b → a ⊞ b ≡ a +ℤ b
unfolding ◌⊞◌
⊞_exact a b h k = wrap_in_range (a +ℤ b) (ground (arith, +ℤ_parts a b))

pub ⊟_exact : (a b : ℤ) → IsInt32 a → IsInt32 b → a ⊟ b ≡ a -ℤ b
unfolding ◌⊟◌
⊟_exact a b h k = wrap_in_range (a -ℤ b) (ground (arith, -ℤ_parts a b))
