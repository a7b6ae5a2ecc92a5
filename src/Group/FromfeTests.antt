-- ===== src/Group/FromfeTests.antt =====
-- `ge_fromfe_frombytes_vartime` on bytes.
use bitmonero.Base.{ℕ, ◌≡◌, refl, arith, List, ◌∷◌, [], some, replicate}
use bitmonero.Base.Int.{pos, negsuc, ◌+ℤ◌, ◌-ℤ◌, ◌*ℤ◌, ◌>>ℤ◌, ◌<<ℤ◌}
use bitmonero.Scalar.Codec.{load_3, load_4}
use bitmonero.Scalar.Nonzero.{or_all, sc_isnonzero}
use bitmonero.Field.{fe_add, fe_sub, fe_neg, fe_copy}
use bitmonero.Field.Mul.{
  sum_from, sum_products, columns, mul_operands, mul_columns, fe_mul, sq_operands, sq_columns,
  fe_sq, fe_sq2, double_limbs,
}
use bitmonero.Field.Carry.{carry_limb, carry_top, carry_step, carry_run}
use bitmonero.Field.Powers.{fe_squares, fe_pow22523, fe_divpowm1}
use bitmonero.Field.Tobytes.{
  quotient, first_quotient, trim, fe_pack, fe_tobytes, fe_isnegative, fe_isnonzero,
}
use bitmonero.Field.Frombytes.{load_limbs, unmasked_limbs, carried_limbs}
use bitmonero.Group.{GeP2}
use bitmonero.Group.Codec.{with_sign}
use bitmonero.Group.Fromfe.{
  parts, positive_parts, negative_parts, from_parts, ge_fromfe_frombytes_vartime,
}
use bitmonero.Group.FromfeCurve.{IsOver, ge_fromfe_frombytes_vartime-IsOver}

abbrev some_bytes : List ℕ
some_bytes = 7 ∷ replicate 31 200

abbrev image_point : GeP2
image_point = record {
  x =
      pos 26899167
      ∷ negsuc 8782748
      ∷ pos 10494194
      ∷ negsuc 1876673
      ∷ negsuc 18416261
      ∷ pos 4394540
      ∷ pos 12078227
      ∷ negsuc 5531815
      ∷ pos 15907195
      ∷ pos 15048441
      ∷ [];
  y =
      negsuc 8064462
      ∷ negsuc 9946743
      ∷ negsuc 25697972
      ∷ pos 9365828
      ∷ pos 46132506
      ∷ pos 13506916
      ∷ pos 7740353
      ∷ negsuc 2012491
      ∷ negsuc 36534467
      ∷ negsuc 1238455
      ∷ [];
  z =
      negsuc 51664116
      ∷ pos 16628470
      ∷ pos 23117855
      ∷ pos 13674624
      ∷ pos 10784892
      ∷ negsuc 13094097
      ∷ negsuc 31219424
      ∷ negsuc 9778645
      ∷ negsuc 22653433
      ∷ pos 31838654
      ∷ [];
}

image_of_bytes : ge_fromfe_frombytes_vartime some_bytes ≡ some image_point
unfolding ge_fromfe_frombytes_vartime parts positive_parts negative_parts from_parts with_sign
    unmasked_limbs load_limbs carried_limbs load_3 load_4 or_all sc_isnonzero fe_add fe_sub fe_neg
    sum_from sum_products columns mul_operands mul_columns fe_mul sq_operands sq_columns fe_sq
    fe_sq2 double_limbs fe_copy carry_limb carry_top carry_step carry_run fe_squares fe_pow22523
    fe_divpowm1 quotient first_quotient trim fe_pack fe_tobytes fe_isnegative fe_isnonzero ◌+ℤ◌ ◌-ℤ◌
    ◌*ℤ◌ ◌>>ℤ◌ ◌<<ℤ◌
image_of_bytes = refl

ge_fromfe_frombytes_vartime-IsOver_example : IsOver image_point
ge_fromfe_frombytes_vartime-IsOver_example =
    ge_fromfe_frombytes_vartime-IsOver some_bytes image_point (omega arith) image_of_bytes
