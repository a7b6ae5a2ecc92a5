-- ===== src/Base/Int.antt =====
-- Signed integers over the native numbers, under the library's names (its ℤ stands on the unary ℕ).
-- Sums and orders go through the two parts of an integer, which are numbers that `omega` reads.
use Prim.Native.Nat.{ℕ, zero, suc, ◌+◌, ◌-◌, ◌*◌, ◌/◌, ◌^◌, ◌≤◌}
use mathlib.Core.Path.{◌≡◌}
use mathlib.Core.Bool.{Bool, true, false}
use native.Mathlib.Omega.{arith}
use bitmonero.Base.Tests.{leb, if◌then◌else◌}

-- `negsuc n` is -(n + 1).
pub data ℤ : Type 0 where
  pos : ℕ → ℤ
  negsuc : ℕ → ℤ

abbrev pub pos_part : ℤ → ℕ
pos_part (pos n) = n
pos_part (negsuc n) = 0

abbrev pub neg_part : ℤ → ℕ
neg_part (pos n) = 0
neg_part (negsuc n) = suc n

-- a - b, as an integer.
abbrev pub sub_ℕ : ℕ → ℕ → ℤ
sub_ℕ a b = if leb b a then pos (a - b) else negsuc (b - a - 1)

infixl 65 ◌+ℤ◌ ◌-ℤ◌
infixl 70 ◌*ℤ◌
infixl 60 ◌>>ℤ◌ ◌<<ℤ◌
infix 50 ◌≤ℤ◌
unfoldable pub ◌+ℤ◌ : ℤ → ℤ → ℤ
a +ℤ b = sub_ℕ (pos_part a + pos_part b) (neg_part a + neg_part b)

unfoldable pub ◌-ℤ◌ : ℤ → ℤ → ℤ
a -ℤ b = sub_ℕ (pos_part a + neg_part b) (neg_part a + pos_part b)

unfoldable pub ◌*ℤ◌ : ℤ → ℤ → ℤ
a *ℤ b =
    sub_ℕ (pos_part a * pos_part b + neg_part a * neg_part b)
      (pos_part a * neg_part b + neg_part a * pos_part b)

-- The arithmetic shift to the right, which rounds towards minus infinity.
unfoldable pub ◌>>ℤ◌ : ℤ → ℕ → ℤ
pos n >>ℤ k = pos (n / 2 ^ k)
negsuc n >>ℤ k = negsuc (n / 2 ^ k)

-- `a << k`, as the compilers compute it on a signed value: the product by 2 ^ k.
unfoldable pub ◌<<ℤ◌ : ℤ → ℕ → ℤ
unfolding ◌*ℤ◌
a <<ℤ k = a *ℤ pos (2 ^ k)

abbrev pub ◌≤ℤ◌ : ℤ → ℤ → Type 0
a ≤ℤ b = pos_part a + neg_part b ≤ pos_part b + neg_part a

abbrev pub leb_ℤ : ℤ → ℤ → Bool
leb_ℤ a b = leb (pos_part a + neg_part b) (pos_part b + neg_part a)

-- An int as a condition.
abbrev pub holds : ℤ → Bool
holds (pos zero) = false
holds (pos (suc n)) = true
holds (negsuc n) = true

pub +ℤ_parts :
    (a b : ℤ)
    → pos_part (a +ℤ b) + neg_part a + neg_part b ≡ neg_part (a +ℤ b) + pos_part a + pos_part b
unfolding ◌+ℤ◌
+ℤ_parts a b = ground arith

pub -ℤ_parts :
    (a b : ℤ)
    → pos_part (a -ℤ b) + neg_part a + pos_part b ≡ neg_part (a -ℤ b) + pos_part a + neg_part b
unfolding ◌-ℤ◌
-ℤ_parts a b = ground arith

-- A product by a number.
pub *ℤ_parts :
    (a : ℤ) (k : ℕ)
    → pos_part (a *ℤ pos k) + k * neg_part a ≡ neg_part (a *ℤ pos k) + k * pos_part a
unfolding ◌*ℤ◌
*ℤ_parts a k = ground arith

pub <<ℤ_parts :
    (a : ℤ) (k : ℕ)
    → pos_part (a <<ℤ k) + 2 ^ k * neg_part a ≡ neg_part (a <<ℤ k) + 2 ^ k * pos_part a
unfolding ◌<<ℤ◌
<<ℤ_parts a k = *ℤ_parts a (2 ^ k)

pub eq_of_parts : (a b : ℤ) → pos_part a + neg_part b ≡ pos_part b + neg_part a → a ≡ b
eq_of_parts a b h = ground arith

pub ruleset int_laws = (arith, +ℤ_parts, -ℤ_parts, *ℤ_parts, <<ℤ_parts, eq_of_parts)

pub pos_shl : (n k : ℕ) → (pos n <<ℤ k) ≡ pos (n * 2 ^ k)
unfolding ◌<<ℤ◌ ◌*ℤ◌
pos_shl n k = ground arith
