-- ===== src/Base/Ring.antt =====
-- The integers as a commutative ring.
use Prim.Native.Nat.{ℕ, ◌+◌, ◌*◌}
use mathlib.Core.Path.{◌≡◌, ap}
use native.Mathlib.Omega.{arith}
use bitmonero.Base.Int.{
  ℤ, pos, negsuc, pos_part, neg_part, ◌+ℤ◌, ◌-ℤ◌, ◌*ℤ◌, +ℤ_parts, -ℤ_parts, eq_of_parts,
}

-- A product by its parts.
pub product_parts :
    (a b : ℤ)
    → pos_part (a *ℤ b) + pos_part a * neg_part b + neg_part a * pos_part b
      ≡ neg_part (a *ℤ b) + pos_part a * pos_part b + neg_part a * neg_part b
unfolding ◌*ℤ◌
product_parts a b = ground arith

pub *ℤ_comm : (a b : ℤ) → a *ℤ b ≡ b *ℤ a
*ℤ_comm a b = eq_of_parts (a *ℤ b) (b *ℤ a) (grind (arith, product_parts a b, product_parts b a))

times : (k : ℕ) {x y : ℕ} → x ≡ y → x * k ≡ y * k
times k e = ap (λ (t : ℕ). t * k) e

pub +ℤ-*ℤ : (a b c : ℤ) → (a +ℤ b) *ℤ c ≡ a *ℤ c +ℤ b *ℤ c
+ℤ-*ℤ a b c = eq_of_parts ((a +ℤ b) *ℤ c) (a *ℤ c +ℤ b *ℤ c) (
    omega (
      arith,
      product_parts (a +ℤ b) c,
      product_parts a c,
      product_parts b c,
      +ℤ_parts (a *ℤ c) (b *ℤ c),
      times (pos_part c) (+ℤ_parts a b),
      times (neg_part c) (+ℤ_parts a b),
    ))

pub -ℤ-*ℤ : (a b c : ℤ) → (a -ℤ b) *ℤ c ≡ a *ℤ c -ℤ b *ℤ c
-ℤ-*ℤ a b c = eq_of_parts ((a -ℤ b) *ℤ c) (a *ℤ c -ℤ b *ℤ c) (
    omega (
      arith,
      product_parts (a -ℤ b) c,
      product_parts a c,
      product_parts b c,
      -ℤ_parts (a *ℤ c) (b *ℤ c),
      times (pos_part c) (-ℤ_parts a b),
      times (neg_part c) (-ℤ_parts a b),
    ))

pub *ℤ_assoc : (a b c : ℤ) → (a *ℤ b) *ℤ c ≡ a *ℤ (b *ℤ c)
*ℤ_assoc a b c = eq_of_parts ((a *ℤ b) *ℤ c) (a *ℤ (b *ℤ c)) (
    omega (
      arith,
      product_parts (a *ℤ b) c,
      product_parts a (b *ℤ c),
      times (pos_part c) (product_parts a b),
      times (neg_part c) (product_parts a b),
      times (pos_part a) (product_parts b c),
      times (neg_part a) (product_parts b c),
    ))

pub *ℤ-+ℤ : (a b c : ℤ) → c *ℤ (a +ℤ b) ≡ c *ℤ a +ℤ c *ℤ b
*ℤ-+ℤ a b c = rw (*ℤ_comm c (a +ℤ b), *ℤ_comm c a, *ℤ_comm c b) (+ℤ-*ℤ a b c)

pub *ℤ--ℤ : (a b c : ℤ) → c *ℤ (a -ℤ b) ≡ c *ℤ a -ℤ c *ℤ b
*ℤ--ℤ a b c = rw (*ℤ_comm c (a -ℤ b), *ℤ_comm c a, *ℤ_comm c b) (-ℤ-*ℤ a b c)

-- The size of a number.
abbrev pub size : ℤ → ℕ
size x = pos_part x + neg_part x

pub *ℤ_size : (a b : ℤ) → size (a *ℤ b) ≡ size a * size b
unfolding ◌*ℤ◌
*ℤ_size (pos a) (pos b) = ground arith
*ℤ_size (pos a) (negsuc b) = ground arith
*ℤ_size (negsuc a) (pos b) = ground arith
*ℤ_size (negsuc a) (negsuc b) = ground arith
