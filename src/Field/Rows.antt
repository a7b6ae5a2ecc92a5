-- ===== src/Field/Rows.antt =====
-- The columns of `fe_mul` as a sum of multiples of rows, one for each limb of the left factor.
use bitmonero.Base.{◌≡◌, List, [], ◌∷◌}
use bitmonero.Base.Int.{ℤ, pos, ◌*ℤ◌}
use bitmonero.Base.Ring.{*ℤ_assoc}
use bitmonero.Field.{fe_add}
use bitmonero.Field.Mul.{sum_from, sum_products, columns, mul_columns}

unfoldable pub scale : ℤ → List ℤ → List ℤ
scale x [] = []
scale x (y ∷ r) = (x *ℤ y) ∷ scale x r

-- The next row but one, and the row of f1.
unfoldable pub shift_two : List ℤ → List ℤ
shift_two (h0 ∷ h1 ∷ h2 ∷ h3 ∷ h4 ∷ h5 ∷ h6 ∷ h7 ∷ h8 ∷ h9 ∷ []) =
    (h8 *ℤ pos 19) ∷ (h9 *ℤ pos 19) ∷ h0 ∷ h1 ∷ h2 ∷ h3 ∷ h4 ∷ h5 ∷ h6 ∷ h7 ∷ []
shift_two h = h

unfoldable pub shift_one : List ℤ → List ℤ
shift_one (g0 ∷ g1 ∷ g2 ∷ g3 ∷ g4 ∷ g5 ∷ g6 ∷ g7 ∷ g8 ∷ g9 ∷ []) =
    (pos 2 *ℤ (g9 *ℤ pos 19))
    ∷ g0
    ∷ (pos 2 *ℤ g1)
    ∷ g2
    ∷ (pos 2 *ℤ g3)
    ∷ g4
    ∷ (pos 2 *ℤ g5)
    ∷ g6
    ∷ (pos 2 *ℤ g7)
    ∷ g8
    ∷ []
shift_one g = g

-- acc + f * r + f' * shift_two r + …, where every other limb of f stands in the list.
unfoldable pub add_rows : List ℤ → List ℤ → List ℤ → List ℤ → List ℤ
unfolding scale
add_rows acc [] r r' = acc
add_rows acc (x ∷ f) r r' = add_rows (fe_add acc (scale x r)) f r' (shift_two r)

-- The factors 2 and 19 move to the right factor, the 2 first.
move_two : (x y : ℤ) → (x *ℤ pos 2) *ℤ y ≡ x *ℤ (pos 2 *ℤ y)
move_two x y = *ℤ_assoc x (pos 2) y

two_first : (y : ℤ) → (pos 2 *ℤ y) *ℤ pos 19 ≡ pos 2 *ℤ (y *ℤ pos 19)
two_first y = *ℤ_assoc (pos 2) y (pos 19)

pub mul_columns_rows :
    (f0 f1 f2 f3 f4 f5 f6 f7 f8 f9 g0 g1 g2 g3 g4 g5 g6 g7 g8 g9 : ℤ)
    → let g = g0 ∷ g1 ∷ g2 ∷ g3 ∷ g4 ∷ g5 ∷ g6 ∷ g7 ∷ g8 ∷ g9 ∷ [] in
      mul_columns (f0 ∷ f1 ∷ f2 ∷ f3 ∷ f4 ∷ f5 ∷ f6 ∷ f7 ∷ f8 ∷ f9 ∷ []) g
      ≡ add_rows
          (scale f0 g)
          (f1 ∷ f2 ∷ f3 ∷ f4 ∷ f5 ∷ f6 ∷ f7 ∷ f8 ∷ f9 ∷ [])
          (shift_one g)
          (shift_two g)
unfolding mul_columns columns sum_products sum_from add_rows scale shift_one shift_two fe_add
mul_columns_rows f0 f1 f2 f3 f4 f5 f6 f7 f8 f9 g0 g1 g2 g3 g4 g5 g6 g7 g8 g9 =
    simp (move_two, two_first)
