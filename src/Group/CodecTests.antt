-- ===== src/Group/CodecTests.antt =====
-- The functions on bytes at the base point.
use bitmonero.Base.{
  ℕ, ◌+◌, ◌*◌, ◌%◌, ◌^◌, ◌≡◌, refl, arith, some, none, List, [], ◌∷◌, ◌++◌, length, replicate,
}
use bitmonero.Base.Int.{◌+ℤ◌, ◌-ℤ◌, ◌*ℤ◌, ◌>>ℤ◌, ◌<<ℤ◌}
use bitmonero.Base.Bytes.{IsBytes, le_value}
use bitmonero.Scalar.Codec.{load_3, load_4}
use bitmonero.Scalar.Nonzero.{or_all, sc_isnonzero}
use bitmonero.Field.{fe_add, fe_sub, fe_neg}
use bitmonero.Field.Congruence.{Cong-refl}
use bitmonero.Field.Mul.{
  sum_from, sum_products, columns, mul_operands, mul_columns, fe_mul, sq_operands, sq_columns,
  fe_sq,
}
use bitmonero.Field.Carry.{carry_limb, carry_top, carry_step, carry_run}
use bitmonero.Field.Powers.{fe_squares, fe_pow22523, fe_divpowm1}
use bitmonero.Field.Tobytes.{
  quotient, first_quotient, trim, fe_pack, fe_tobytes, fe_isnegative, fe_isnonzero,
}
use bitmonero.Field.Frombytes.{load_limbs, masked_limbs, is_too_large, carried_limbs}
use bitmonero.Group.Codec.{root_of, with_sign, ge_frombytes_vartime, ge_p3_tobytes}
use bitmonero.Group.Encode.{FermatAt, ge_p3_tobytes_value}
use bitmonero.Group.Decode.{
  IsDecoded, ge_frombytes_vartime-IsDecoded, ge_frombytes_vartime-none,
  ge_p3_tobytes-ge_frombytes_vartime, one-FermatAt,
}
use bitmonero.Group.Tests.{base_point, base_point-IsP3, base_x, base_y}

-- y = 4 / 5.
abbrev base_bytes : List ℕ
base_bytes = 88 ∷ replicate 31 102

accepted_base : ge_frombytes_vartime base_bytes ≡ some base_point
unfolding ge_frombytes_vartime root_of with_sign masked_limbs load_limbs is_too_large carried_limbs
    load_3 load_4 or_all sc_isnonzero fe_add fe_sub fe_neg sum_from sum_products columns
    mul_operands mul_columns fe_mul sq_operands sq_columns fe_sq carry_limb carry_top carry_step
    carry_run fe_squares fe_pow22523 fe_divpowm1 quotient first_quotient trim fe_pack fe_tobytes
    fe_isnegative fe_isnonzero ◌+ℤ◌ ◌-ℤ◌ ◌*ℤ◌ ◌>>ℤ◌ ◌<<ℤ◌
accepted_base = refl

ge_frombytes_vartime-IsDecoded_example : IsDecoded base_bytes base_point
ge_frombytes_vartime-IsDecoded_example =
    ge_frombytes_vartime-IsDecoded base_bytes base_point (omega arith) refl accepted_base

ge_p3_tobytes-ge_frombytes_vartime_example : ge_p3_tobytes base_point ≡ base_bytes
ge_p3_tobytes-ge_frombytes_vartime_example =
    ge_p3_tobytes-ge_frombytes_vartime base_bytes base_point (omega arith) refl accepted_base

-- p + 1, which is not below p.
abbrev large_bytes : List ℕ
large_bytes = 238 ∷ replicate 30 255 ++ (127 ∷ [])

ge_frombytes_vartime-none_example : ge_frombytes_vartime large_bytes ≡ none
ge_frombytes_vartime-none_example =
    ge_frombytes_vartime-none large_bytes (omega arith) (omega arith)

abbrev x_number : ℕ
x_number = 15112221349535400772501151409588531511454012693041857206046113283949847762202

abbrev y_number : ℕ
y_number = 46316835694926478169428394003475163141307993866256225615783033603165251855960

base-FermatAt : FermatAt base_point-IsP3.s
unfolding base_point-IsP3
base-FermatAt = one-FermatAt

ge_p3_tobytes_value_example :
    IsBytes (ge_p3_tobytes base_point)
    × (length (ge_p3_tobytes base_point) ≡ 32)
    × (le_value (ge_p3_tobytes base_point) ≡ y_number + x_number % 2 * 2 ^ 255)
ge_p3_tobytes_value_example =
    ge_p3_tobytes_value base_point base_x base_y x_number y_number base_point-IsP3 base-FermatAt
      (omega arith) (omega arith) (Cong-refl base_x) (Cong-refl base_y)
