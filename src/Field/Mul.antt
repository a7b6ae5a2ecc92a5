-- ===== src/Field/Mul.antt =====
-- src/crypto/crypto-ops.c: `fe_mul`, `fe_sq` and `fe_sq2`. The int32_t and int64_t of the source are
-- integers without bound here. Signed overflow is undefined in C, so these functions stand for the
-- source's where ColumnsFit and CarriesFit say that every factor, product, sum and carry is in its
-- type and `tight` that a limb of the result fits int32_t; the theorems assume the bounds of the
-- source's comments, which Operands has as `wide` and `tight`.
use bitmonero.Base.{List, [], ◌∷◌}
use bitmonero.Base.Int.{ℤ, pos, ◌+ℤ◌, ◌*ℤ◌}
use bitmonero.Field.Carry.{carry_run, carries}

-- `… + x * y + …` from left to right, behind the sum `acc`.
unfoldable pub sum_from : ℤ → List ℤ → List ℤ → ℤ
sum_from acc [] ys = acc
sum_from acc (x ∷ xs) [] = acc
sum_from acc (x ∷ xs) (y ∷ ys) = sum_from (acc +ℤ x *ℤ y) xs ys

-- x0 * y0 + x1 * y1 + …
unfoldable pub sum_products : List ℤ → List ℤ → ℤ
unfolding sum_from
sum_products [] ys = pos 0
sum_products (x ∷ xs) [] = pos 0
sum_products (x ∷ xs) (y ∷ ys) = sum_from (x *ℤ y) xs ys

unfoldable pub columns : List (List ℤ × List ℤ) → List ℤ
unfolding sum_products
columns [] = []
columns ((xs, ys) ∷ r) = sum_products xs ys ∷ columns r

-- The factors of the products in h0 … h9 of `fe_mul`. `plain` and `twice` are the left factors
-- f0 … f9 of the odd and of the even limbs, where `twice` has f1_2, f3_2, … at its odd places.
unfoldable pub mul_operands : List ℤ → List ℤ → List (List ℤ × List ℤ)
mul_operands (f0 ∷ f1 ∷ f2 ∷ f3 ∷ f4 ∷ f5 ∷ f6 ∷ f7 ∷ f8 ∷ f9 ∷ [])
      (g0 ∷ g1 ∷ g2 ∷ g3 ∷ g4 ∷ g5 ∷ g6 ∷ g7 ∷ g8 ∷ g9 ∷ []) =
    let g1_19 = g1 *ℤ pos 19 in
    let g2_19 = g2 *ℤ pos 19 in
    let g3_19 = g3 *ℤ pos 19 in
    let g4_19 = g4 *ℤ pos 19 in
    let g5_19 = g5 *ℤ pos 19 in
    let g6_19 = g6 *ℤ pos 19 in
    let g7_19 = g7 *ℤ pos 19 in
    let g8_19 = g8 *ℤ pos 19 in
    let g9_19 = g9 *ℤ pos 19 in
    let f1_2 = f1 *ℤ pos 2 in
    let f3_2 = f3 *ℤ pos 2 in
    let f5_2 = f5 *ℤ pos 2 in
    let f7_2 = f7 *ℤ pos 2 in
    let f9_2 = f9 *ℤ pos 2 in
    let plain : List ℤ = f0 ∷ f1 ∷ f2 ∷ f3 ∷ f4 ∷ f5 ∷ f6 ∷ f7 ∷ f8 ∷ f9 ∷ [] in
    let twice : List ℤ = f0 ∷ f1_2 ∷ f2 ∷ f3_2 ∷ f4 ∷ f5_2 ∷ f6 ∷ f7_2 ∷ f8 ∷ f9_2 ∷ [] in
    (twice, (g0 ∷ g9_19 ∷ g8_19 ∷ g7_19 ∷ g6_19 ∷ g5_19 ∷ g4_19 ∷ g3_19 ∷ g2_19 ∷ g1_19 ∷ []))
    ∷ (plain, (g1 ∷ g0 ∷ g9_19 ∷ g8_19 ∷ g7_19 ∷ g6_19 ∷ g5_19 ∷ g4_19 ∷ g3_19 ∷ g2_19 ∷ []))
    ∷ (twice, (g2 ∷ g1 ∷ g0 ∷ g9_19 ∷ g8_19 ∷ g7_19 ∷ g6_19 ∷ g5_19 ∷ g4_19 ∷ g3_19 ∷ []))
    ∷ (plain, (g3 ∷ g2 ∷ g1 ∷ g0 ∷ g9_19 ∷ g8_19 ∷ g7_19 ∷ g6_19 ∷ g5_19 ∷ g4_19 ∷ []))
    ∷ (twice, (g4 ∷ g3 ∷ g2 ∷ g1 ∷ g0 ∷ g9_19 ∷ g8_19 ∷ g7_19 ∷ g6_19 ∷ g5_19 ∷ []))
    ∷ (plain, (g5 ∷ g4 ∷ g3 ∷ g2 ∷ g1 ∷ g0 ∷ g9_19 ∷ g8_19 ∷ g7_19 ∷ g6_19 ∷ []))
    ∷ (twice, (g6 ∷ g5 ∷ g4 ∷ g3 ∷ g2 ∷ g1 ∷ g0 ∷ g9_19 ∷ g8_19 ∷ g7_19 ∷ []))
    ∷ (plain, (g7 ∷ g6 ∷ g5 ∷ g4 ∷ g3 ∷ g2 ∷ g1 ∷ g0 ∷ g9_19 ∷ g8_19 ∷ []))
    ∷ (twice, (g8 ∷ g7 ∷ g6 ∷ g5 ∷ g4 ∷ g3 ∷ g2 ∷ g1 ∷ g0 ∷ g9_19 ∷ []))
    ∷ (plain, (g9 ∷ g8 ∷ g7 ∷ g6 ∷ g5 ∷ g4 ∷ g3 ∷ g2 ∷ g1 ∷ g0 ∷ []))
    ∷ []
mul_operands f g = []

-- h0 … h9 of `fe_mul` before the carries.
unfoldable pub mul_columns : List ℤ → List ℤ → List ℤ
unfolding columns mul_operands
mul_columns f g = columns (mul_operands f g)

unfoldable pub fe_mul : List ℤ → List ℤ → List ℤ
unfolding mul_columns carry_run
fe_mul f g = carry_run carries (mul_columns f g)

-- The factors of the products in h0 … h9 of `fe_sq`.
unfoldable pub sq_operands : List ℤ → List (List ℤ × List ℤ)
sq_operands (f0 ∷ f1 ∷ f2 ∷ f3 ∷ f4 ∷ f5 ∷ f6 ∷ f7 ∷ f8 ∷ f9 ∷ []) =
    let f0_2 = f0 *ℤ pos 2 in
    let f1_2 = f1 *ℤ pos 2 in
    let f2_2 = f2 *ℤ pos 2 in
    let f3_2 = f3 *ℤ pos 2 in
    let f4_2 = f4 *ℤ pos 2 in
    let f5_2 = f5 *ℤ pos 2 in
    let f6_2 = f6 *ℤ pos 2 in
    let f7_2 = f7 *ℤ pos 2 in
    let f5_38 = f5 *ℤ pos 38 in
    let f6_19 = f6 *ℤ pos 19 in
    let f7_38 = f7 *ℤ pos 38 in
    let f8_19 = f8 *ℤ pos 19 in
    let f9_38 = f9 *ℤ pos 38 in
    ((f0 ∷ f1_2 ∷ f2_2 ∷ f3_2 ∷ f4_2 ∷ f5 ∷ []), (f0 ∷ f9_38 ∷ f8_19 ∷ f7_38 ∷ f6_19 ∷ f5_38 ∷ []))
    ∷ ((f0_2 ∷ f2 ∷ f3_2 ∷ f4 ∷ f5_2 ∷ []), (f1 ∷ f9_38 ∷ f8_19 ∷ f7_38 ∷ f6_19 ∷ []))
    ∷ ((f0_2 ∷ f1_2 ∷ f3_2 ∷ f4_2 ∷ f5_2 ∷ f6 ∷ []), (f2 ∷ f1 ∷ f9_38 ∷ f8_19 ∷ f7_38 ∷ f6_19 ∷ []))
    ∷ ((f0_2 ∷ f1_2 ∷ f4 ∷ f5_2 ∷ f6 ∷ []), (f3 ∷ f2 ∷ f9_38 ∷ f8_19 ∷ f7_38 ∷ []))
    ∷ ((f0_2 ∷ f1_2 ∷ f2 ∷ f5_2 ∷ f6_2 ∷ f7 ∷ []), (f4 ∷ f3_2 ∷ f2 ∷ f9_38 ∷ f8_19 ∷ f7_38 ∷ []))
    ∷ ((f0_2 ∷ f1_2 ∷ f2_2 ∷ f6 ∷ f7_2 ∷ []), (f5 ∷ f4 ∷ f3 ∷ f9_38 ∷ f8_19 ∷ []))
    ∷ ((f0_2 ∷ f1_2 ∷ f2_2 ∷ f3_2 ∷ f7_2 ∷ f8 ∷ []), (f6 ∷ f5_2 ∷ f4 ∷ f3 ∷ f9_38 ∷ f8_19 ∷ []))
    ∷ ((f0_2 ∷ f1_2 ∷ f2_2 ∷ f3_2 ∷ f8 ∷ []), (f7 ∷ f6 ∷ f5 ∷ f4 ∷ f9_38 ∷ []))
    ∷ ((f0_2 ∷ f1_2 ∷ f2_2 ∷ f3_2 ∷ f4 ∷ f9 ∷ []), (f8 ∷ f7_2 ∷ f6 ∷ f5_2 ∷ f4 ∷ f9_38 ∷ []))
    ∷ ((f0_2 ∷ f1_2 ∷ f2_2 ∷ f3_2 ∷ f4_2 ∷ []), (f9 ∷ f8 ∷ f7 ∷ f6 ∷ f5 ∷ []))
    ∷ []
sq_operands f = []

-- h0 … h9 of `fe_sq` before the carries.
unfoldable pub sq_columns : List ℤ → List ℤ
unfolding columns sq_operands
sq_columns f = columns (sq_operands f)

unfoldable pub fe_sq : List ℤ → List ℤ
unfolding sq_columns carry_run
fe_sq f = carry_run carries (sq_columns f)

-- h0 += h0; … h9 += h9;
unfoldable pub double_limbs : List ℤ → List ℤ
double_limbs [] = []
double_limbs (x ∷ r) = (x +ℤ x) ∷ double_limbs r

unfoldable pub fe_sq2 : List ℤ → List ℤ
unfolding sq_columns double_limbs carry_run
fe_sq2 f = carry_run carries (double_limbs (sq_columns f))
