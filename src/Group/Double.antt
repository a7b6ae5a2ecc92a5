-- ===== src/Group/Double.antt =====
-- Results about the doublings.
use bitmonero.Base.{◌≡◌, refl, List, [], ◌∷◌}
use bitmonero.Base.Int.{ℤ, pos, ◌+ℤ◌, ◌-ℤ◌, ◌*ℤ◌}
use bitmonero.Base.Polynomial.{var, num, plus, minus, times, value, solve, vanishes, expand}
use bitmonero.Field.Fits.{no_larger}
use bitmonero.Field.Operands.{tight, wide}
use bitmonero.Field.Congruence.{Cong-trans, Cong-of_eq, Cong-refl, Cong-*ℤ_right, Cong--ℤ}
use bitmonero.Group.{GeP2, GeP3, ge_p2_dbl, ge_p3_dbl, ge_p3_to_p2}
use bitmonero.Field.Element.{
  Stands, sums, Stands-weaken, Stands-Cong, add-Stands, sub-Stands, sq-Stands, sq2-Stands,
}
use bitmonero.Group.Curve.{curve_d, OnCurve, IsSum, IsP2, IsP3, IsP1P1, IsUnit-*ℤ}
use bitmonero.Group.Convert.{loosen, twice_loosen}
use bitmonero.Group.Add.{by_law}
use bitmonero.Group.Convert.{ge_p3_to_p2-IsP2}

double_x :
    (x y s : ℤ)
    → (((x *ℤ s) +ℤ (y *ℤ s)) *ℤ ((x *ℤ s) +ℤ (y *ℤ s)))
        -ℤ (((y *ℤ s) *ℤ (y *ℤ s)) +ℤ ((x *ℤ s) *ℤ (x *ℤ s)))
      ≡ ((x *ℤ y) +ℤ (y *ℤ x)) *ℤ (s *ℤ s)
unfolding value vanishes expand
double_x x y s =
    solve (x ∷ y ∷ s ∷ [])
      (minus
        (times (plus (times (var 0) (var 2)) (times (var 1) (var 2)))
          (plus (times (var 0) (var 2)) (times (var 1) (var 2))))
        (plus (times (times (var 1) (var 2)) (times (var 1) (var 2)))
          (times (times (var 0) (var 2)) (times (var 0) (var 2)))))
      (times (plus (times (var 0) (var 1)) (times (var 1) (var 0))) (times (var 2) (var 2))) refl

double_y :
    (x y s : ℤ)
    → ((y *ℤ s) *ℤ (y *ℤ s)) +ℤ ((x *ℤ s) *ℤ (x *ℤ s)) ≡ ((y *ℤ y) +ℤ (x *ℤ x)) *ℤ (s *ℤ s)
unfolding value vanishes expand
double_y x y s =
    solve (x ∷ y ∷ s ∷ [])
      (plus (times (times (var 1) (var 2)) (times (var 1) (var 2)))
        (times (times (var 0) (var 2)) (times (var 0) (var 2))))
      (times (plus (times (var 1) (var 1)) (times (var 0) (var 0))) (times (var 2) (var 2))) refl

double_z :
    (x y s : ℤ)
    → ((y *ℤ s) *ℤ (y *ℤ s)) -ℤ ((x *ℤ s) *ℤ (x *ℤ s)) ≡ ((y *ℤ y) -ℤ (x *ℤ x)) *ℤ (s *ℤ s)
unfolding value vanishes expand
double_z x y s =
    solve (x ∷ y ∷ s ∷ [])
      (minus (times (times (var 1) (var 2)) (times (var 1) (var 2)))
        (times (times (var 0) (var 2)) (times (var 0) (var 2))))
      (times (minus (times (var 1) (var 1)) (times (var 0) (var 0))) (times (var 2) (var 2))) refl

double_t :
    (x y s : ℤ)
    → ((s *ℤ s) *ℤ pos 2) -ℤ (((y *ℤ s) *ℤ (y *ℤ s)) -ℤ ((x *ℤ s) *ℤ (x *ℤ s)))
      ≡ (pos 2 -ℤ ((y *ℤ y) -ℤ (x *ℤ x))) *ℤ (s *ℤ s)
unfolding value vanishes expand
double_t x y s =
    solve (x ∷ y ∷ s ∷ [])
      (minus (times (times (var 2) (var 2)) (num 2)) (
        minus (times (times (var 1) (var 2)) (times (var 1) (var 2)))
          (times (times (var 0) (var 2)) (times (var 0) (var 2)))))
      (times (minus (num 2) (minus (times (var 1) (var 1)) (times (var 0) (var 0))))
        (times (var 2) (var 2)))
      refl

rest_of_two : (e : ℤ) → pos 2 -ℤ (pos 1 +ℤ e) ≡ pos 1 -ℤ e
unfolding value vanishes expand
rest_of_two e = solve (e ∷ []) (minus (num 2) (plus (num 1) (var 0))) (minus (num 1) (var 0)) refl

three_right : {f : List ℤ} {v : ℤ} → Stands f (sums tight (sums tight tight)) v → Stands f wide v
unfolding no_larger
three_right s = Stands-weaken refl s

-- For a point of the curve whose double the addition law gives, ge_p2_dbl gives the double, with
-- limbs in the bounds of fe_mul.
pub ge_p2_dbl-IsP1P1 :
    (p : GeP2) (x y x' y' : ℤ)
    → IsP2 p x y
    → OnCurve x y
    → IsSum x y x y x' y'
    → IsP1P1 (ge_p2_dbl p) x' y'
unfolding ge_p2_dbl
ge_p2_dbl-IsP1P1 p x y x' y' c curve sum =
    let k = c.s *ℤ c.s in
    let k_unit = IsUnit-*ℤ c.s_unit c.s_unit in
    let e = curve_d *ℤ ((x *ℤ x) *ℤ (y *ℤ y)) in
    let sx = sq-Stands (loosen c.x_stands) in
    let sz = sq-Stands (loosen c.y_stands) in
    let st = sq2-Stands (loosen c.z_stands) in
    let s0 = sq-Stands (twice_loosen (add-Stands refl c.x_stands c.y_stands)) in
    let sy' = add-Stands refl sz sx in
    let sz' = sub-Stands refl sz sx in
    record {
      a = (pos 1 +ℤ e) *ℤ k;
      b = (pos 1 -ℤ e) *ℤ k;
      a_unit = IsUnit-*ℤ sum.x_unit k_unit;
      b_unit = IsUnit-*ℤ sum.y_unit k_unit;
      x_stands =
          Stands-Cong
            (Cong-trans (Cong-of_eq (double_x x y c.s)) (by_law x' (pos 1 +ℤ e) k sum.x_law))
            (three_right (sub-Stands refl s0 sy'));
      z_stands =
          Stands-Cong (Cong-trans (Cong-of_eq (double_z x y c.s)) (Cong-*ℤ_right k curve))
            (twice_loosen sz');
      y_stands =
          Stands-Cong
            (Cong-trans (Cong-of_eq (double_y x y c.s)) (by_law y' (pos 1 -ℤ e) k sum.y_law))
            (twice_loosen sy');
      t_stands =
          Stands-Cong
            (Cong-trans (Cong-of_eq (double_t x y c.s)) (
              Cong-*ℤ_right k
                (Cong-trans (Cong--ℤ (Cong-refl (pos 2)) curve) (Cong-of_eq (rest_of_two e)))))
            (three_right (sub-Stands refl st sz'));
    }

-- The same for ge_p3_dbl.
pub ge_p3_dbl-IsP1P1 :
    (p : GeP3) (x y x' y' : ℤ)
    → IsP3 p x y
    → OnCurve x y
    → IsSum x y x y x' y'
    → IsP1P1 (ge_p3_dbl p) x' y'
unfolding ge_p3_dbl
ge_p3_dbl-IsP1P1 p x y x' y' c curve sum =
    ge_p2_dbl-IsP1P1 (ge_p3_to_p2 p) x y x' y' (ge_p3_to_p2-IsP2 p x y c) curve sum
