-- ===== src/Group/Multiples.antt =====
-- The multiples of a point of the curve, and the group functions on them.
use bitmonero.Base.{◌≡◌}
use bitmonero.Base.Int.{ℤ, pos, ◌+ℤ◌, ◌-ℤ◌, ◌*ℤ◌, eq_of_parts, int_laws}
use bitmonero.Group.{
  GeP2, GeP3, GeCached, ge_add, ge_p2_dbl, ge_p3_dbl, ge_p1p1_to_p2, ge_p1p1_to_p3, ge_p3_to_cached,
  ge_mul8,
}
use bitmonero.Group.Curve.{OnCurve, IsSum, IsP2, IsP3, IsP1P1, IsCached}
use bitmonero.Group.Convert.{ge_p1p1_to_p2-IsP2, ge_p1p1_to_p3-IsP3, ge_p3_to_cached-IsCached}
use bitmonero.Group.Add.{ge_add-IsP1P1}
use bitmonero.Group.Double.{ge_p2_dbl-IsP1P1, ge_p3_dbl-IsP1P1}

-- The multiples n * P of a point, as the coordinates (x n, y n): the addition law holds between them.
pub record Multiples (x y : ℤ → ℤ) : Type 0 where
  pub x_zero : x (pos 0) ≡ pos 0
  pub y_zero : y (pos 0) ≡ pos 1
  pub x_opposite : (n : ℤ) → x (pos 0 -ℤ n) ≡ pos 0 -ℤ x n
  pub y_opposite : (n : ℤ) → y (pos 0 -ℤ n) ≡ y n
  pub on_curve : (n : ℤ) → OnCurve (x n) (y n)
  pub adds : (m n : ℤ) → IsSum (x m) (y m) (x n) (y n) (x (m +ℤ n)) (y (m +ℤ n))

eight : (n : ℤ) → n *ℤ pos 8 ≡ n +ℤ n +ℤ (n +ℤ n) +ℤ (n +ℤ n +ℤ (n +ℤ n))
eight n = eq_of_parts _ _ (omega int_laws)

module _ {x y : ℤ → ℤ} (law : Multiples x y) where
  pub dbl_multiple :
      (p : GeP2) (n : ℤ) → IsP2 p (x n) (y n) → IsP1P1 (ge_p2_dbl p) (x (n +ℤ n)) (y (n +ℤ n))
  dbl_multiple p n h =
      ge_p2_dbl-IsP1P1 p (x n) (y n) (x (n +ℤ n)) (y (n +ℤ n)) h (law.on_curve n) (law.adds n n)

  pub p3_dbl_multiple :
      (p : GeP3) (n : ℤ) → IsP3 p (x n) (y n) → IsP1P1 (ge_p3_dbl p) (x (n +ℤ n)) (y (n +ℤ n))
  p3_dbl_multiple p n h =
      ge_p3_dbl-IsP1P1 p (x n) (y n) (x (n +ℤ n)) (y (n +ℤ n)) h (law.on_curve n) (law.adds n n)

  pub add_multiple :
      (p : GeP3) (q : GeCached) (m n : ℤ)
      → IsP3 p (x m) (y m)
      → IsCached q (x n) (y n)
      → IsP1P1 (ge_add p q) (x (m +ℤ n)) (y (m +ℤ n))
  add_multiple p q m n h k =
      ge_add-IsP1P1 p q (x m) (y m) (x n) (y n) (x (m +ℤ n)) (y (m +ℤ n)) h k (law.adds m n)

  -- The double in the coordinates of GeP2.
  pub double_again :
      (p : GeP2) (n : ℤ)
      → IsP2 p (x n) (y n)
      → IsP2 (ge_p1p1_to_p2 (ge_p2_dbl p)) (x (n +ℤ n)) (y (n +ℤ n))
  double_again p n h = ge_p1p1_to_p2-IsP2 (ge_p2_dbl p) _ _ (dbl_multiple p n h)

  -- The sum as a cached point.
  pub ge_add-IsCached :
      (p : GeP3) (q : GeCached) (m n : ℤ)
      → IsP3 p (x m) (y m)
      → IsCached q (x n) (y n)
      → IsCached (ge_p3_to_cached (ge_p1p1_to_p3 (ge_add p q))) (x (m +ℤ n)) (y (m +ℤ n))
  ge_add-IsCached p q m n h k =
      ge_p3_to_cached-IsCached _ _ _ (ge_p1p1_to_p3-IsP3 _ _ _ (add_multiple p q m n h k))

  -- For a multiple n * P of a point between whose multiples the addition law holds, ge_mul8 gives the
  -- multiple 8 * n * P.
  pub ge_mul8-IsP1P1 :
      (p : GeP2) (n : ℤ) → IsP2 p (x n) (y n) → IsP1P1 (ge_mul8 p) (x (n *ℤ pos 8)) (y (n *ℤ pos 8))
  unfolding ge_mul8
  ge_mul8-IsP1P1 p n h =
      let two = double_again p n h in
      let four = double_again (ge_p1p1_to_p2 (ge_p2_dbl p)) (n +ℤ n) two in
      rw (eight n) (dbl_multiple _ (n +ℤ n +ℤ (n +ℤ n)) four)
