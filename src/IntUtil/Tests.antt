-- ===== src/IntUtil/Tests.antt =====
-- `mul128` and `div128_32` on large words.
use bitmonero.Base.{ℕ, ◌+◌, ◌^◌, ◌<◌, ◌*◌, ◌≡◌, refl, arith, some}
use bitmonero.IntUtil.{hi_dword, lo_dword, add_products, mul128, div128_32}
use bitmonero.IntUtil.Division.{div128_32_lem}
use bitmonero.IntUtil.Product.{HasProduct, mul128-HasProduct}

-- The largest words.
largest_product : mul128 18446744073709551615 18446744073709551615 ≡ some (1, 18446744073709551614)
unfolding mul128 hi_dword lo_dword add_products
largest_product = refl

mul128-HasProduct_example :
    HasProduct
      (mul128 18446744073709551615 12345678901234567890)
      (18446744073709551615 * 12345678901234567890)
mul128-HasProduct_example =
    mul128-HasProduct 18446744073709551615 12345678901234567890 (omega arith) (omega arith)

abbrev division : ℕ × ℕ × ℕ
division = div128_32 1234567890123456789 9876543210987654321 4000000007

div128_32_lem_example :
    ((division.0 * 2 ^ 64 + division.1) * 4000000007 + division.2
      ≡ 1234567890123456789 * 2 ^ 64 + 9876543210987654321)
    × (division.2 < 4000000007)
    × (division.0 < 2 ^ 64)
    × (division.1 < 2 ^ 64)
div128_32_lem_example =
    div128_32_lem 1234567890123456789 9876543210987654321 4000000007 (omega arith) (omega arith)
      (omega arith) (omega arith)
