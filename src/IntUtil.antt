-- ===== src/IntUtil.antt =====
-- src/common/int-util.h: the product of two words of 64 bits in two words, `mul128`, and the
-- long division of two words by a word of 32 bits, `div128_32`. The divisor is not 0.
pub mod Product
pub mod Division
mod Tests
use bitmonero.Base.{
  ℕ, ◌+◌, ◌-◌, ◌*◌, ◌/◌, ◌%◌, ◌^◌, bit_and, bit_or, Option, none, some, ltb, leb, if◌then◌else◌,
}

unfoldable pub hi_dword : ℕ → ℕ
hi_dword val = val / 2 ^ 32

unfoldable pub lo_dword : ℕ → ℕ
lo_dword val = bit_and (2 ^ 32 - 1) val

-- product_lo and *product_hi from the four products; `none` when the assertion fails.
unfoldable pub add_products : ℕ → ℕ → ℕ → ℕ → Option (ℕ × ℕ)
add_products ac ad bc bd =
    let adbc = (ad + bc) % 2 ^ 64 in
    let adbc_carry = if ltb adbc ad then 1 else 0 in
    let product_lo = (bd + adbc * 2 ^ 32 % 2 ^ 64) % 2 ^ 64 in
    let product_lo_carry = if ltb product_lo bd then 1 else 0 in
    let product_hi = (ac + adbc / 2 ^ 32 + adbc_carry * 2 ^ 32 + product_lo_carry) % 2 ^ 64 in
    if leb ac product_hi then some (product_lo, product_hi) else none

unfoldable pub mul128 : ℕ → ℕ → Option (ℕ × ℕ)
mul128 multiplier multiplicand =
    let a = hi_dword multiplier in
    let b = lo_dword multiplier in
    let c = hi_dword multiplicand in
    let d = lo_dword multiplicand in
    add_products (a * c % 2 ^ 64) (a * d % 2 ^ 64) (b * c % 2 ^ 64) (b * d % 2 ^ 64)

-- The quotient and the remainder.
unfoldable pub div_with_reminder : ℕ → ℕ → ℕ → ℕ × ℕ
div_with_reminder dividend divisor remainder =
    let dividend' = bit_or dividend (remainder * 2 ^ 32 % 2 ^ 64) in
    (dividend' / divisor, dividend' % divisor % 2 ^ 32)

-- *quotient_hi, *quotient_lo and the remainder.
unfoldable pub div128_32 : ℕ → ℕ → ℕ → ℕ × ℕ × ℕ
div128_32 dividend_hi dividend_lo divisor =
    let (q3, r3) = div_with_reminder (hi_dword dividend_hi) divisor 0 in
    let (q2, r2) = div_with_reminder (lo_dword dividend_hi) divisor r3 in
    let (q1, r1) = div_with_reminder (hi_dword dividend_lo) divisor r2 in
    let (q0, r0) = div_with_reminder (lo_dword dividend_lo) divisor r1 in
    (bit_or (q3 * 2 ^ 32 % 2 ^ 64) q2, bit_or (q1 * 2 ^ 32 % 2 ^ 64) q0, r0)
