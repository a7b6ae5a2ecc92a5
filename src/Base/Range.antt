-- ===== src/Base/Range.antt =====
-- Ranges of signed numbers, and how the operations move them.
use Prim.Native.Nat.{ℕ, ◌-◌, ◌^◌}
use mathlib.Core.Path.{◌≡◌}
use mathlib.Core.Bool.{Bool, true, ◌&&◌}
use native.Mathlib.Omega.{arith}
use native.Mathlib.Nat.{mul-le-mul_left}
use bitmonero.Base.Int.{ℤ, pos, negsuc, leb_ℤ}
use bitmonero.Base.Int.{◌≤ℤ◌, ◌+ℤ◌, ◌-ℤ◌, ◌*ℤ◌, ◌>>ℤ◌, int_laws, *ℤ_parts}

pub record Range : Type 0 where
  pub lo : ℤ
  pub hi : ℤ

abbrev pub Within : ℤ → Range → Type 0
Within x r = (r.lo ≤ℤ x) × (x ≤ℤ r.hi)

-- The values of int64_t and of int32_t.
abbrev pub int64 : Range
int64 = record { lo = negsuc (2 ^ 63 - 1); hi = pos (2 ^ 63 - 1) }

abbrev pub int32 : Range
int32 = record { lo = negsuc (2 ^ 31 - 1); hi = pos (2 ^ 31 - 1) }

abbrev pub inside : Range → Range → Bool
inside r q = leb_ℤ q.lo r.lo && leb_ℤ r.hi q.hi

unfoldable pub add : Range → Range → Range
unfolding ◌+ℤ◌
add r q = record { lo = r.lo +ℤ q.lo; hi = r.hi +ℤ q.hi }

unfoldable pub sub : Range → Range → Range
unfolding ◌-ℤ◌
sub r q = record { lo = r.lo -ℤ q.hi; hi = r.hi -ℤ q.lo }

unfoldable pub scale : ℕ → Range → Range
unfolding ◌*ℤ◌
scale k r = record { lo = r.lo *ℤ pos k; hi = r.hi *ℤ pos k }

unfoldable pub shr : ℕ → Range → Range
unfolding ◌>>ℤ◌
shr k r = record { lo = r.lo >>ℤ k; hi = r.hi >>ℤ k }

pub inside-Within : (r q : Range) (x : ℤ) → inside r q ≡ true → Within x r → Within x q
inside-Within r q x h w = ground arith

pub add-Within : (r q : Range) (x y : ℤ) → Within x r → Within y q → Within (x +ℤ y) (add r q)
unfolding add
add-Within r q x y h k = omega int_laws

pub sub-Within : (r q : Range) (x y : ℤ) → Within x r → Within y q → Within (x -ℤ y) (sub r q)
unfolding sub
sub-Within r q x y h k = omega int_laws

mul_le : (k : ℕ) (a b : ℤ) → a ≤ℤ b → a *ℤ pos k ≤ℤ b *ℤ pos k
mul_le k a b h = omega (arith, *ℤ_parts a k, *ℤ_parts b k, mul-le-mul_left k h)

pub scale-Within : (k : ℕ) (r : Range) (x : ℤ) → Within x r → Within (x *ℤ pos k) (scale k r)
unfolding scale
scale-Within k r x h = (mul_le k r.lo x h.0, mul_le k x r.hi h.1)

shr_le : (k : ℕ) (a b : ℤ) → a ≤ℤ b → (a >>ℤ k) ≤ℤ (b >>ℤ k)
unfolding ◌>>ℤ◌
shr_le k (pos a) (pos b) h = grind arith
shr_le k (negsuc a) (pos b) h = omega arith
shr_le k (pos a) (negsuc b) h = absurd (omega arith)
shr_le k (negsuc a) (negsuc b) h = grind arith

pub shr-Within : (k : ℕ) (r : Range) (x : ℤ) → Within x r → Within (x >>ℤ k) (shr k r)
unfolding shr
shr-Within k r x h = (shr_le k r.lo x h.0, shr_le k x r.hi h.1)
