-- ===== src/Group/Convert.antt =====
-- Results about the conversions between the coordinates.
use bitmonero.Base.{◌≡◌, refl, arith, List, [], ◌∷◌}
use bitmonero.Base.Int.{ℤ, pos, ◌+ℤ◌, ◌-ℤ◌, ◌*ℤ◌}
use bitmonero.Base.Polynomial.{var, plus, minus, times, value, solve, vanishes, expand}
use bitmonero.Field.Fits.{no_larger}
use bitmonero.Field.Operands.{tight, wide}
use bitmonero.Field.Congruence.{Cong-of_eq}
use bitmonero.Group.{
  GeP3, GeP1P1, fe_d2, ge_p1p1_to_p2, ge_p1p1_to_p3, ge_p3_to_p2, ge_p3_to_cached,
}
use bitmonero.Field.Element.{
  Stands, sums, Stands-weaken, Stands-Cong, add-Stands, sub-Stands, mul-Stands, copy-Stands,
}
use bitmonero.Group.Curve.{curve_d, fe_d2_value, IsP2, IsP3, IsP1P1, IsCached, IsUnit-*ℤ}

x_product : (x a b : ℤ) → (x *ℤ a) *ℤ b ≡ x *ℤ (a *ℤ b)
unfolding value vanishes expand
x_product x a b =
    solve (x ∷ a ∷ b ∷ []) (times (times (var 0) (var 1)) (var 2))
      (times (var 0) (times (var 1) (var 2))) refl

y_product : (y a b : ℤ) → (y *ℤ b) *ℤ a ≡ y *ℤ (a *ℤ b)
unfolding value vanishes expand
y_product y a b =
    solve (y ∷ a ∷ b ∷ []) (times (times (var 0) (var 2)) (var 1))
      (times (var 0) (times (var 1) (var 2))) refl

t_product : (x y a b : ℤ) → (x *ℤ a) *ℤ (y *ℤ b) ≡ (x *ℤ y) *ℤ (a *ℤ b)
unfolding value vanishes expand
t_product x y a b =
    solve (x ∷ y ∷ a ∷ b ∷ []) (times (times (var 0) (var 2)) (times (var 1) (var 3)))
      (times (times (var 0) (var 1)) (times (var 2) (var 3))) refl

sum_scaled : (x y s : ℤ) → (y *ℤ s) +ℤ (x *ℤ s) ≡ (y +ℤ x) *ℤ s
unfolding value vanishes expand
sum_scaled x y s =
    solve (x ∷ y ∷ s ∷ []) (plus (times (var 1) (var 2)) (times (var 0) (var 2)))
      (times (plus (var 1) (var 0)) (var 2)) refl

difference_scaled : (x y s : ℤ) → (y *ℤ s) -ℤ (x *ℤ s) ≡ (y -ℤ x) *ℤ s
unfolding value vanishes expand
difference_scaled x y s =
    solve (x ∷ y ∷ s ∷ []) (minus (times (var 1) (var 2)) (times (var 0) (var 2)))
      (times (minus (var 1) (var 0)) (var 2)) refl

pub loosen : {f : List ℤ} {v : ℤ} → Stands f tight v → Stands f wide v
unfolding no_larger
loosen s = Stands-weaken refl s

pub twice_loosen : {f : List ℤ} {v : ℤ} → Stands f (sums tight tight) v → Stands f wide v
unfolding no_larger
twice_loosen s = Stands-weaken refl s

-- ge_p1p1_to_p2 gives the point that its argument stands for.
pub ge_p1p1_to_p2-IsP2 : (p : GeP1P1) (x y : ℤ) → IsP1P1 p x y → IsP2 (ge_p1p1_to_p2 p) x y
unfolding ge_p1p1_to_p2
ge_p1p1_to_p2-IsP2 p x y c = record {
  s = c.a *ℤ c.b;
  s_unit = IsUnit-*ℤ c.a_unit c.b_unit;
  x_stands = Stands-Cong (Cong-of_eq (x_product x c.a c.b)) (mul-Stands c.x_stands c.t_stands);
  y_stands = Stands-Cong (Cong-of_eq (y_product y c.a c.b)) (mul-Stands c.y_stands c.z_stands);
  z_stands = mul-Stands c.z_stands c.t_stands;
}

-- ge_p1p1_to_p3 gives the point that its argument stands for.
pub ge_p1p1_to_p3-IsP3 : (p : GeP1P1) (x y : ℤ) → IsP1P1 p x y → IsP3 (ge_p1p1_to_p3 p) x y
unfolding ge_p1p1_to_p3
ge_p1p1_to_p3-IsP3 p x y c = record {
  s = c.a *ℤ c.b;
  s_unit = IsUnit-*ℤ c.a_unit c.b_unit;
  x_stands = Stands-Cong (Cong-of_eq (x_product x c.a c.b)) (mul-Stands c.x_stands c.t_stands);
  y_stands = Stands-Cong (Cong-of_eq (y_product y c.a c.b)) (mul-Stands c.y_stands c.z_stands);
  z_stands = mul-Stands c.z_stands c.t_stands;
  t_stands = Stands-Cong (Cong-of_eq (t_product x y c.a c.b)) (mul-Stands c.x_stands c.y_stands);
}

fe_d2-Stands : Stands fe_d2 wide (curve_d *ℤ pos 2)
fe_d2-Stands = record { bounded = omega arith; stands = fe_d2_value }

-- ge_p3_to_cached gives the point that its argument stands for.
pub ge_p3_to_cached-IsCached : (p : GeP3) (x y : ℤ) → IsP3 p x y → IsCached (ge_p3_to_cached p) x y
unfolding ge_p3_to_cached
ge_p3_to_cached-IsCached p x y c = record {
  s = c.s;
  s_unit = c.s_unit;
  plus_stands =
      Stands-Cong (Cong-of_eq (sum_scaled x y c.s))
        (twice_loosen (add-Stands refl c.y_stands c.x_stands));
  minus_stands =
      Stands-Cong (Cong-of_eq (difference_scaled x y c.s))
        (twice_loosen (sub-Stands refl c.y_stands c.x_stands));
  z_stands = copy-Stands c.z_stands;
  t_stands = mul-Stands (loosen c.t_stands) fe_d2-Stands;
}

-- ge_p3_to_p2 gives the point that its argument stands for.
pub ge_p3_to_p2-IsP2 : (p : GeP3) (x y : ℤ) → IsP3 p x y → IsP2 (ge_p3_to_p2 p) x y
unfolding ge_p3_to_p2
ge_p3_to_p2-IsP2 p x y c = record {
  s = c.s;
  s_unit = c.s_unit;
  x_stands = copy-Stands c.x_stands;
  y_stands = copy-Stands c.y_stands;
  z_stands = copy-Stands c.z_stands;
}
