-- ===== src/Group/Add.antt =====
-- Results about `ge_add`, and the steps that the additions and the subtractions share.
use bitmonero.Base.{◌≡◌, refl, List, [], ◌∷◌}
use bitmonero.Base.Int.{ℤ, pos, ◌+ℤ◌, ◌-ℤ◌, ◌*ℤ◌}
use bitmonero.Base.Polynomial.{var, num, plus, minus, times, value, solve, vanishes, expand}
use bitmonero.Field.{fe_add, fe_sub}
use bitmonero.Field.Fits.{no_larger}
use bitmonero.Field.Operands.{tight, wide}
use bitmonero.Field.Congruence.{Cong, Cong-trans, Cong-of_eq, Cong-sym, Cong-*ℤ_right}
use bitmonero.Group.{GeP3, GeCached, ge_add}
use bitmonero.Field.Element.{
  Stands, sums, Stands-weaken, Stands-Cong, add-Stands, sub-Stands, mul-Stands,
}
use bitmonero.Group.Curve.{curve_d, IsUnit, IsSum, IsP3, IsP1P1, IsCached, IsUnit-*ℤ, two-IsUnit}
use bitmonero.Group.Convert.{loosen, twice_loosen}

x_numerator :
    (x1 y1 s x2 y2 r : ℤ)
    → (((y1 *ℤ s) +ℤ (x1 *ℤ s)) *ℤ ((y2 +ℤ x2) *ℤ r))
        -ℤ (((y1 *ℤ s) -ℤ (x1 *ℤ s)) *ℤ ((y2 -ℤ x2) *ℤ r))
      ≡ ((x1 *ℤ y2) +ℤ (y1 *ℤ x2)) *ℤ (pos 2 *ℤ (s *ℤ r))
unfolding value vanishes expand
x_numerator x1 y1 s x2 y2 r =
    solve (x1 ∷ y1 ∷ s ∷ x2 ∷ y2 ∷ r ∷ [])
      (minus
        (times (plus (times (var 1) (var 2)) (times (var 0) (var 2)))
          (times (plus (var 4) (var 3)) (var 5)))
        (times (minus (times (var 1) (var 2)) (times (var 0) (var 2)))
          (times (minus (var 4) (var 3)) (var 5))))
      (times (plus (times (var 0) (var 4)) (times (var 1) (var 3)))
        (times (num 2) (times (var 2) (var 5))))
      refl

y_numerator :
    (x1 y1 s x2 y2 r : ℤ)
    → (((y1 *ℤ s) +ℤ (x1 *ℤ s)) *ℤ ((y2 +ℤ x2) *ℤ r))
        +ℤ (((y1 *ℤ s) -ℤ (x1 *ℤ s)) *ℤ ((y2 -ℤ x2) *ℤ r))
      ≡ ((y1 *ℤ y2) +ℤ (x1 *ℤ x2)) *ℤ (pos 2 *ℤ (s *ℤ r))
unfolding value vanishes expand
y_numerator x1 y1 s x2 y2 r =
    solve (x1 ∷ y1 ∷ s ∷ x2 ∷ y2 ∷ r ∷ [])
      (plus
        (times (plus (times (var 1) (var 2)) (times (var 0) (var 2)))
          (times (plus (var 4) (var 3)) (var 5)))
        (times (minus (times (var 1) (var 2)) (times (var 0) (var 2)))
          (times (minus (var 4) (var 3)) (var 5))))
      (times (plus (times (var 1) (var 4)) (times (var 0) (var 3)))
        (times (num 2) (times (var 2) (var 5))))
      refl

pub denominator_plus :
    (d x1 y1 s x2 y2 r : ℤ)
    → ((s *ℤ r) +ℤ (s *ℤ r)) +ℤ ((((x2 *ℤ y2) *ℤ r) *ℤ (d *ℤ pos 2)) *ℤ ((x1 *ℤ y1) *ℤ s))
      ≡ (pos 1 +ℤ (d *ℤ ((x1 *ℤ x2) *ℤ (y1 *ℤ y2)))) *ℤ (pos 2 *ℤ (s *ℤ r))
unfolding value vanishes expand
denominator_plus d x1 y1 s x2 y2 r =
    solve (d ∷ x1 ∷ y1 ∷ s ∷ x2 ∷ y2 ∷ r ∷ [])
      (plus (plus (times (var 3) (var 6)) (times (var 3) (var 6))) (
        times (times (times (times (var 4) (var 5)) (var 6)) (times (var 0) (num 2)))
          (times (times (var 1) (var 2)) (var 3))))
      (times (plus (num 1) (times (var 0) (times (times (var 1) (var 4)) (times (var 2) (var 5)))))
        (times (num 2) (times (var 3) (var 6))))
      refl

pub denominator_minus :
    (d x1 y1 s x2 y2 r : ℤ)
    → ((s *ℤ r) +ℤ (s *ℤ r)) -ℤ ((((x2 *ℤ y2) *ℤ r) *ℤ (d *ℤ pos 2)) *ℤ ((x1 *ℤ y1) *ℤ s))
      ≡ (pos 1 -ℤ (d *ℤ ((x1 *ℤ x2) *ℤ (y1 *ℤ y2)))) *ℤ (pos 2 *ℤ (s *ℤ r))
unfolding value vanishes expand
denominator_minus d x1 y1 s x2 y2 r =
    solve (d ∷ x1 ∷ y1 ∷ s ∷ x2 ∷ y2 ∷ r ∷ [])
      (minus (plus (times (var 3) (var 6)) (times (var 3) (var 6))) (
        times (times (times (times (var 4) (var 5)) (var 6)) (times (var 0) (num 2)))
          (times (times (var 1) (var 2)) (var 3))))
      (times (minus (num 1) (times (var 0) (times (times (var 1) (var 4)) (times (var 2) (var 5)))))
        (times (num 2) (times (var 3) (var 6))))
      refl

regroup : (x e k : ℤ) → (x *ℤ e) *ℤ k ≡ x *ℤ (e *ℤ k)
unfolding value vanishes expand
regroup x e k =
    solve (x ∷ e ∷ k ∷ []) (times (times (var 0) (var 1)) (var 2))
      (times (var 0) (times (var 1) (var 2))) refl

-- A coordinate from its numerator: `n * k` where `v * e` is `n`.
pub by_law : (v e k : ℤ) {n : ℤ} → Cong (v *ℤ e) n → Cong (n *ℤ k) (v *ℤ (e *ℤ k))
by_law v e k c = Cong-trans (Cong-*ℤ_right k (Cong-sym c)) (Cong-of_eq (regroup v e k))

-- The last step of the four functions, from the products that they have in common.
module _ (x1 y1 x2 y2 x3 y3 s r : ℤ) (sum : IsSum x1 y1 x2 y2 x3 y3) (s_unit : IsUnit s)
    (r_unit : IsUnit r) (z y' dz dt : List ℤ)
    (z_stands : Stands z tight ((y1 *ℤ s +ℤ x1 *ℤ s) *ℤ ((y2 +ℤ x2) *ℤ r)))
    (y_stands : Stands y' tight ((y1 *ℤ s -ℤ x1 *ℤ s) *ℤ ((y2 -ℤ x2) *ℤ r)))
    (dz_stands : Stands dz wide
      ((pos 1 +ℤ curve_d *ℤ ((x1 *ℤ x2) *ℤ (y1 *ℤ y2))) *ℤ (pos 2 *ℤ (s *ℤ r))))
    (dt_stands : Stands dt wide
      ((pos 1 -ℤ curve_d *ℤ ((x1 *ℤ x2) *ℤ (y1 *ℤ y2))) *ℤ (pos 2 *ℤ (s *ℤ r)))) where
  pub complete : IsP1P1 (record { x = fe_sub z y'; y = fe_add z y'; z = dz; t = dt }) x3 y3
  complete =
      let k = pos 2 *ℤ (s *ℤ r) in
      let k_unit = IsUnit-*ℤ two-IsUnit (IsUnit-*ℤ s_unit r_unit) in
      record {
        a = (pos 1 +ℤ curve_d *ℤ ((x1 *ℤ x2) *ℤ (y1 *ℤ y2))) *ℤ k;
        b = (pos 1 -ℤ curve_d *ℤ ((x1 *ℤ x2) *ℤ (y1 *ℤ y2))) *ℤ k;
        a_unit = IsUnit-*ℤ sum.x_unit k_unit;
        b_unit = IsUnit-*ℤ sum.y_unit k_unit;
        x_stands =
            Stands-Cong
              (Cong-trans (Cong-of_eq (x_numerator x1 y1 s x2 y2 r))
                (by_law x3 (pos 1 +ℤ curve_d *ℤ ((x1 *ℤ x2) *ℤ (y1 *ℤ y2))) k sum.x_law))
              (twice_loosen (sub-Stands refl z_stands y_stands));
        z_stands = dz_stands;
        y_stands =
            Stands-Cong
              (Cong-trans (Cong-of_eq (y_numerator x1 y1 s x2 y2 r))
                (by_law y3 (pos 1 -ℤ curve_d *ℤ ((x1 *ℤ x2) *ℤ (y1 *ℤ y2))) k sum.y_law))
              (twice_loosen (add-Stands refl z_stands y_stands));
        t_stands = dt_stands;
      }

pub three_loosen :
    {f : List ℤ} {v : ℤ} → Stands f (sums (sums tight tight) tight) v → Stands f wide v
unfolding no_larger
three_loosen s = Stands-weaken refl s

-- For a point and a cached point whose sum the addition law gives, ge_add gives the sum, with limbs
-- in the bounds of fe_mul.
pub ge_add-IsP1P1 :
    (p : GeP3) (q : GeCached) (x1 y1 x2 y2 x3 y3 : ℤ)
    → IsP3 p x1 y1
    → IsCached q x2 y2
    → IsSum x1 y1 x2 y2 x3 y3
    → IsP1P1 (ge_add p q) x3 y3
unfolding ge_add
ge_add-IsP1P1 p q x1 y1 x2 y2 x3 y3 c e sum =
    let z = mul-Stands (twice_loosen (add-Stands refl c.y_stands c.x_stands)) e.plus_stands in
    let y' = mul-Stands (twice_loosen (sub-Stands refl c.y_stands c.x_stands)) e.minus_stands in
    let t = mul-Stands (loosen e.t_stands) (loosen c.t_stands) in
    let x' = mul-Stands (loosen c.z_stands) (loosen e.z_stands) in
    let t0 = add-Stands refl x' x' in
    complete x1 y1 x2 y2 x3 y3 c.s e.s sum c.s_unit e.s_unit _ _ _ _ z y'
      (Stands-Cong (Cong-of_eq (denominator_plus curve_d x1 y1 c.s x2 y2 e.s))
        (three_loosen (add-Stands refl t0 t)))
      (Stands-Cong (Cong-of_eq (denominator_minus curve_d x1 y1 c.s x2 y2 e.s))
        (three_loosen (sub-Stands refl t0 t)))
