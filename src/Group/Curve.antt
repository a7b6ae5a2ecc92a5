-- ===== src/Group/Curve.antt =====
-- The curve -x ^ 2 + y ^ 2 = 1 + d * x ^ 2 * y ^ 2 modulo 2 ^ 255 - 19, its addition law, and what it
-- means for coordinates to stand for a point.
use bitmonero.Base.{◌≡◌, refl, [], ◌∷◌}
use bitmonero.Base.Int.{ℤ, pos, negsuc, ◌+ℤ◌, ◌-ℤ◌, ◌*ℤ◌}
use bitmonero.Base.Polynomial.{var, times, value, solve, vanishes, expand}
use bitmonero.Field.Linear.{fe_value, limbs_value}
use bitmonero.Field.Operands.{tight, wide}
use bitmonero.Field.Congruence.{Cong, Cong-trans, Cong-of_eq, Cong-*ℤ, Cong-refl}
use bitmonero.Group.{GeP2, GeP3, GeP1P1, GePrecomp, GeCached, fe_d2}
use bitmonero.Field.Element.{Stands}

-- d, which is -121665 / 121666.
abbrev pub curve_d : ℤ
curve_d = pos 37095705934669439343138083508754565189542113879843219016388785533085940283555

-- The number with which the source's table is written.
pub fe_d2_value : Cong (fe_value fe_d2) (curve_d *ℤ pos 2)
unfolding limbs_value ◌+ℤ◌ ◌*ℤ◌
fe_d2_value = record { quotient = negsuc 0; split = refl }

pub curve_d_value : Cong (curve_d *ℤ pos 121666) (negsuc 121664)
unfolding ◌+ℤ◌ ◌*ℤ◌
curve_d_value = record { quotient = pos 77955; split = refl }

-- A number with an inverse modulo the prime.
pub record IsUnit (a : ℤ) : Type 0 where
  pub inverse : ℤ
  pub is_inverse : Cong (a *ℤ inverse) (pos 1)

abbrev pub OnCurve : ℤ → ℤ → Type 0
OnCurve x y = Cong (y *ℤ y -ℤ x *ℤ x) (pos 1 +ℤ curve_d *ℤ ((x *ℤ x) *ℤ (y *ℤ y)))

-- (x3, y3) is the sum of (x1, y1) and (x2, y2), both of whose denominators have inverses.
pub record IsSum (x1 y1 x2 y2 x3 y3 : ℤ) : Type 0 where
  pub x_unit : IsUnit (pos 1 +ℤ curve_d *ℤ ((x1 *ℤ x2) *ℤ (y1 *ℤ y2)))
  pub y_unit : IsUnit (pos 1 -ℤ curve_d *ℤ ((x1 *ℤ x2) *ℤ (y1 *ℤ y2)))
  pub x_law : Cong (x3 *ℤ (pos 1 +ℤ curve_d *ℤ ((x1 *ℤ x2) *ℤ (y1 *ℤ y2)))) (x1 *ℤ y2 +ℤ y1 *ℤ x2)
  pub y_law : Cong (y3 *ℤ (pos 1 -ℤ curve_d *ℤ ((x1 *ℤ x2) *ℤ (y1 *ℤ y2)))) (y1 *ℤ y2 +ℤ x1 *ℤ x2)

-- x = X / Z, y = Y / Z.
pub record IsP2 (p : GeP2) (x y : ℤ) : Type 0 where
  pub s : ℤ
  pub s_unit : IsUnit s
  pub x_stands : Stands p.x tight (x *ℤ s)
  pub y_stands : Stands p.y tight (y *ℤ s)
  pub z_stands : Stands p.z tight s

-- The same with x * y = T / Z.
pub record IsP3 (p : GeP3) (x y : ℤ) : Type 0 where
  pub s : ℤ
  pub s_unit : IsUnit s
  pub x_stands : Stands p.x tight (x *ℤ s)
  pub y_stands : Stands p.y tight (y *ℤ s)
  pub z_stands : Stands p.z tight s
  pub t_stands : Stands p.t tight ((x *ℤ y) *ℤ s)

-- x = X / Z, y = Y / T, with limbs that `fe_mul` accepts.
pub record IsP1P1 (p : GeP1P1) (x y : ℤ) : Type 0 where
  pub a : ℤ
  pub b : ℤ
  pub a_unit : IsUnit a
  pub b_unit : IsUnit b
  pub x_stands : Stands p.x wide (x *ℤ a)
  pub z_stands : Stands p.z wide a
  pub y_stands : Stands p.y wide (y *ℤ b)
  pub t_stands : Stands p.t wide b

pub record IsCached (p : GeCached) (x y : ℤ) : Type 0 where
  pub s : ℤ
  pub s_unit : IsUnit s
  pub plus_stands : Stands p.yplusx wide ((y +ℤ x) *ℤ s)
  pub minus_stands : Stands p.yminusx wide ((y -ℤ x) *ℤ s)
  pub z_stands : Stands p.z tight s
  pub t_stands : Stands p.t2d tight (((x *ℤ y) *ℤ s) *ℤ (curve_d *ℤ pos 2))

pub record IsPrecomp (p : GePrecomp) (x y : ℤ) : Type 0 where
  pub plus_stands : Stands p.yplusx wide (y +ℤ x)
  pub minus_stands : Stands p.yminusx wide (y -ℤ x)
  pub t_stands : Stands p.xy2d wide ((x *ℤ y) *ℤ (curve_d *ℤ pos 2))

regroup_units : (a b i j : ℤ) → (a *ℤ b) *ℤ (i *ℤ j) ≡ (a *ℤ i) *ℤ (b *ℤ j)
unfolding value vanishes expand
regroup_units a b i j =
    solve (a ∷ b ∷ i ∷ j ∷ []) (times (times (var 0) (var 1)) (times (var 2) (var 3)))
      (times (times (var 0) (var 2)) (times (var 1) (var 3))) refl

pub IsUnit-*ℤ : {a b : ℤ} → IsUnit a → IsUnit b → IsUnit (a *ℤ b)
unfolding ◌*ℤ◌
IsUnit-*ℤ {a} {b} u v = record {
  inverse = u.inverse *ℤ v.inverse;
  is_inverse =
      Cong-trans (Cong-of_eq (regroup_units a b u.inverse v.inverse))
        (Cong-*ℤ u.is_inverse v.is_inverse);
}

pub two-IsUnit : IsUnit (pos 2)
unfolding ◌+ℤ◌ ◌*ℤ◌
two-IsUnit = record {
  inverse = pos 28948022309329048855892746252171976963317496166410141009864396001978282409975;
  is_inverse = record { quotient = pos 1; split = refl };
}

pub one-IsUnit : IsUnit (pos 1)
unfolding ◌*ℤ◌
one-IsUnit = record { inverse = pos 1; is_inverse = Cong-refl (pos 1) }
