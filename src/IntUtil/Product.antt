-- ===== src/IntUtil/Product.antt =====
-- Results about `mul128`.
use bitmonero.Base.{
  ℕ, ◌+◌, ◌*◌, ◌%◌, ◌^◌, ◌≤◌, ◌<◌, ◌≡◌, subst, ap₂, ◌∙◌, arith, Option, none, some,
}
use bitmonero.Base.Bits.{mask_bit_and}
use bitmonero.IntUtil.{hi_dword, lo_dword, add_products, mul128}

-- The number in the two words of an answer.
abbrev pub HasProduct : Option (ℕ × ℕ) → ℕ → Type 0
HasProduct none n = ⊥
HasProduct (some p) n = (p.1 * 2 ^ 64 + p.0 ≡ n) × (p.0 < 2 ^ 64) × (p.1 < 2 ^ 64)

add_products_lem :
    (ac ad bc bd : ℕ)
    → ac ≤ 18446744065119617025
    → ad ≤ 18446744065119617025
    → bc ≤ 18446744065119617025
    → bd ≤ 18446744065119617025
    → HasProduct (add_products ac ad bc bd) (ac * 2 ^ 64 + (ad + bc) * 2 ^ 32 + bd)
unfolding add_products
add_products_lem ac ad bc bd h k m n = ground arith

largest : (x y : ℕ) → x ≤ 4294967295 → y ≤ 4294967295 → x * y ≤ 18446744065119617025
largest x y h k = grind arith

four_products :
    (a b c d : ℕ)
    → a * c * 2 ^ 64 + (a * d + b * c) * 2 ^ 32 + b * d ≡ (a * 2 ^ 32 + b) * (c * 2 ^ 32 + d)
four_products a b c d = omega arith

from_dwords : (x : ℕ) → hi_dword x * 2 ^ 32 + lo_dword x ≡ x
unfolding hi_dword lo_dword
from_dwords x = omega (arith, mask_bit_and 32 x)

hi_dword-le : (x : ℕ) → x < 2 ^ 64 → hi_dword x ≤ 4294967295
unfolding hi_dword
hi_dword-le x h = omega arith

lo_dword-le : (x : ℕ) → lo_dword x ≤ 4294967295
unfolding lo_dword
lo_dword-le x = omega (arith, mask_bit_and 32 x)

unwrapped : (n : ℕ) → n ≤ 18446744065119617025 → n % 2 ^ 64 ≡ n
unwrapped n h = omega arith

-- For words of 64 bits, mul128 passes its assertion and gives two words of 64 bits, whose number is the
-- product.
pub mul128-HasProduct : (x y : ℕ) → x < 2 ^ 64 → y < 2 ^ 64 → HasProduct (mul128 x y) (x * y)
unfolding mul128
mul128-HasProduct x y h k =
    let ac = largest (hi_dword x) (hi_dword y) (hi_dword-le x h) (hi_dword-le y k) in
    let ad = largest (hi_dword x) (lo_dword y) (hi_dword-le x h) (lo_dword-le y) in
    let bc = largest (lo_dword x) (hi_dword y) (lo_dword-le x) (hi_dword-le y k) in
    let bd = largest (lo_dword x) (lo_dword y) (lo_dword-le x) (lo_dword-le y) in
    rw (unwrapped _ ac, unwrapped _ ad, unwrapped _ bc, unwrapped _ bd)
      (subst (HasProduct (add_products _ _ _ _))
        (four_products (hi_dword x) (lo_dword x) (hi_dword y) (lo_dword y)
          ∙ ap₂ ◌*◌ (from_dwords x) (from_dwords y))
        (add_products_lem _ _ _ _ ac ad bc bd))
