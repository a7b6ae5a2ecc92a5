-- ===== src/Field/Tests.antt =====
-- The functions of Field on concrete limbs.
use bitmonero.Field.Element.{Stands}
use bitmonero.Field.Powers.{fe_invert, fe_divpowm1}
use bitmonero.Field.Exponents.{power, fe_invert-power, fe_divpowm1-power}
use bitmonero.Base.{
  ℕ, ◌%◌, ◌^◌, ◌<◌, ◌⊎◌, ◌++◌, replicate, length, ◌-◌, ◌/◌, true, ◌≡◌, refl, arith, List, [], ◌∷◌,
  All, some, none,
}
use bitmonero.Base.Int.{ℤ, pos, negsuc, ◌+ℤ◌, ◌-ℤ◌, ◌*ℤ◌, ◌>>ℤ◌, ◌<<ℤ◌}
use bitmonero.Base.Bytes.{IsBytes, le_value}
use bitmonero.Field.Tobytes.{fe_tobytes, fe_isnonzero}
use bitmonero.Field.Canonical.{fe_tobytes_lem, fe_isnonzero_decides}
use bitmonero.Field.Frombytes.{load_carries, masked_limbs, to_int64, carried_limbs}
use bitmonero.Field.Loaded.{carried_limbs_lem}
use bitmonero.Base.Range.{Within, int32}
use bitmonero.Field.{fe_1, fe_cmov}
use bitmonero.Field.Linear.{fe_value, IsBounded}
use bitmonero.Field.Mul.{
  fe_mul, fe_sq, fe_sq2, mul_operands, mul_columns, sq_operands, sq_columns, double_limbs,
}
use bitmonero.Field.Carry.{carries}
use bitmonero.Field.CarrySizes.{CarriesFit}
use bitmonero.Field.Sizes.{AtMost, ColumnsFit}
use bitmonero.Field.Operands.{wide, tight}
use bitmonero.Field.Fits.{AllInt64, fe_sq-fe_sq2_fits}
use bitmonero.Field.Congruence.{Cong, Cong-refl, prime}
use bitmonero.Field.Laws.{fe_mul_value, fe_sq-fe_mul}
use bitmonero.Field.Cmov.{fe_cmov_chooses}

-- Small limbs of both signs.
abbrev f0 : List ℤ
f0 =
    pos 3
    ∷ negsuc 4
    ∷ pos 100
    ∷ pos 0
    ∷ negsuc 33000000
    ∷ pos 7
    ∷ pos 1
    ∷ negsuc 0
    ∷ pos 2
    ∷ pos 9
    ∷ []

abbrev g0 : List ℤ
g0 =
    pos 8
    ∷ pos 4
    ∷ negsuc 6
    ∷ pos 1
    ∷ pos 33000000
    ∷ pos 5
    ∷ pos 0
    ∷ pos 0
    ∷ negsuc 8
    ∷ pos 16000000
    ∷ []

f0-IsBounded : IsBounded true 24 f0
f0-IsBounded = ground arith

g0-IsBounded : IsBounded true 24 g0
g0-IsBounded = ground arith

f0-Within : All (λ x. Within x int32) f0
f0-Within = ground arith

g0-Within : All (λ x. Within x int32) g0
g0-Within = ground arith

-- The assertion stops other values of b.
fe_cmov_two : fe_cmov f0 g0 2 ≡ none
unfolding fe_cmov
fe_cmov_two = refl

fe_cmov_chooses_example : (fe_cmov f0 g0 0 ≡ some f0) × (fe_cmov f0 g0 1 ≡ some g0)
fe_cmov_chooses_example = fe_cmov_chooses f0 g0 f0-Within g0-Within refl

f0-AtMost : AtMost f0 wide
f0-AtMost = omega arith

g0-AtMost : AtMost g0 wide
g0-AtMost = omega arith

fe_mul_ones : fe_mul fe_1 fe_1 ≡ fe_1
unfolding fe_mul ◌+ℤ◌ ◌-ℤ◌ ◌*ℤ◌ ◌>>ℤ◌ ◌<<ℤ◌
fe_mul_ones = refl

fe_mul_value_example :
    ColumnsFit (mul_operands f0 g0)
    × CarriesFit carries (mul_columns f0 g0)
    × AtMost (fe_mul f0 g0) tight
    × Cong (fe_value (fe_mul f0 g0)) (fe_value f0 *ℤ fe_value g0)
fe_mul_value_example = fe_mul_value f0 g0 f0-AtMost g0-AtMost

fe_sq-fe_mul_example :
    ColumnsFit (sq_operands f0)
    × CarriesFit carries (sq_columns f0)
    × ColumnsFit (mul_operands f0 f0)
    × CarriesFit carries (mul_columns f0 f0)
    × AtMost (fe_sq f0) tight
    × (fe_sq f0 ≡ fe_mul f0 f0)
fe_sq-fe_mul_example = fe_sq-fe_mul f0 f0-AtMost

fe_sq-fe_sq2_fits_example :
    ColumnsFit (sq_operands f0)
    × CarriesFit carries (sq_columns f0)
    × AtMost (fe_sq f0) tight
    × AllInt64 (double_limbs (sq_columns f0))
    × CarriesFit carries (double_limbs (sq_columns f0))
    × AtMost (fe_sq2 f0) tight
fe_sq-fe_sq2_fits_example = fe_sq-fe_sq2_fits f0 f0-AtMost

f0-Stands : Stands f0 wide (fe_value f0)
f0-Stands = record { bounded = f0-AtMost; stands = Cong-refl (fe_value f0) }

g0-Stands : Stands g0 wide (fe_value g0)
g0-Stands = record { bounded = g0-AtMost; stands = Cong-refl (fe_value g0) }

fe_invert-power_example : Stands (fe_invert f0) tight (power (fe_value f0) (prime - 2))
fe_invert-power_example = fe_invert-power f0 (fe_value f0) f0-Stands

fe_divpowm1-power_example : Stands (fe_divpowm1 f0 g0) tight (
    power (power (fe_value g0) 7 *ℤ fe_value f0) ((prime - 5) / 8)
    *ℤ power (fe_value g0) 3
    *ℤ fe_value f0)
fe_divpowm1-power_example = fe_divpowm1-power f0 g0 (fe_value f0) (fe_value g0) f0-Stands g0-Stands

fe_tobytes_lem_example :
    IsBytes (fe_tobytes f0)
    × (length (fe_tobytes f0) ≡ 32)
    × (le_value (fe_tobytes f0) < prime)
    × Cong (fe_value f0) (pos (le_value (fe_tobytes f0)))
fe_tobytes_lem_example = fe_tobytes_lem f0 f0-AtMost

fe_isnonzero_decides_example :
    (Cong (fe_value f0) (pos 0) × (fe_isnonzero f0 ≡ pos 0))
    ⊎ ((¬ Cong (fe_value f0) (pos 0)) × (fe_isnonzero f0 ≡ pos 1))
fe_isnonzero_decides_example = fe_isnonzero_decides f0 f0-AtMost

-- 32 bytes of 255 set bits.
abbrev ones : List ℕ
ones = replicate 31 255 ++ (127 ∷ [])

carried_limbs_lem_example :
    CarriesFit load_carries (to_int64 (masked_limbs ones))
    × AtMost (carried_limbs (masked_limbs ones)) tight
    × Cong (fe_value (carried_limbs (masked_limbs ones))) (pos (le_value ones % 2 ^ 255))
carried_limbs_lem_example = carried_limbs_lem ones (omega arith)
