-- ===== src/Group/Variants.antt =====
-- Results about the variants of the addition: subtraction, and operands of the tables, whose Z is 1.
use bitmonero.Base.{◌≡◌, refl, [], ◌∷◌}
use bitmonero.Base.Int.{ℤ, pos, ◌+ℤ◌, ◌-ℤ◌, ◌*ℤ◌}
use bitmonero.Base.Polynomial.{var, num, plus, minus, times, value, solve, vanishes, expand}
use bitmonero.Field.Congruence.{Cong-of_eq}
use bitmonero.Group.{GeP3, GePrecomp, GeCached, ge_sub, ge_madd, ge_msub}
use bitmonero.Field.Element.{Stands-Cong, add-Stands, sub-Stands, mul-Stands}
use bitmonero.Group.Curve.{curve_d, IsSum, IsP3, IsP1P1, IsCached, IsPrecomp, one-IsUnit}
use bitmonero.Group.Convert.{loosen, twice_loosen}
use bitmonero.Group.Add.{complete, three_loosen}

minus_as_plus : (x2 y2 r : ℤ) → (y2 -ℤ x2) *ℤ r ≡ (y2 +ℤ (pos 0 -ℤ x2)) *ℤ r
unfolding value vanishes expand
minus_as_plus x2 y2 r =
    solve (x2 ∷ y2 ∷ r ∷ []) (times (minus (var 1) (var 0)) (var 2))
      (times (plus (var 1) (minus (num 0) (var 0))) (var 2)) refl

plus_as_minus : (x2 y2 r : ℤ) → (y2 +ℤ x2) *ℤ r ≡ (y2 -ℤ (pos 0 -ℤ x2)) *ℤ r
unfolding value vanishes expand
plus_as_minus x2 y2 r =
    solve (x2 ∷ y2 ∷ r ∷ []) (times (plus (var 1) (var 0)) (var 2))
      (times (minus (var 1) (minus (num 0) (var 0))) (var 2)) refl

denominator_minus_opposite :
    (d x1 y1 s x2 y2 r : ℤ)
    → ((s *ℤ r) +ℤ (s *ℤ r)) -ℤ ((((x2 *ℤ y2) *ℤ r) *ℤ (d *ℤ pos 2)) *ℤ ((x1 *ℤ y1) *ℤ s))
      ≡ (pos 1 +ℤ (d *ℤ ((x1 *ℤ (pos 0 -ℤ x2)) *ℤ (y1 *ℤ y2)))) *ℤ (pos 2 *ℤ (s *ℤ r))
unfolding value vanishes expand
denominator_minus_opposite d x1 y1 s x2 y2 r =
    solve (d ∷ x1 ∷ y1 ∷ s ∷ x2 ∷ y2 ∷ r ∷ [])
      (minus (plus (times (var 3) (var 6)) (times (var 3) (var 6))) (
        times (times (times (times (var 4) (var 5)) (var 6)) (times (var 0) (num 2)))
          (times (times (var 1) (var 2)) (var 3))))
      (times
        (plus (num 1)
          (times (var 0) (times (times (var 1) (minus (num 0) (var 4))) (times (var 2) (var 5)))))
        (times (num 2) (times (var 3) (var 6))))
      refl

denominator_plus_opposite :
    (d x1 y1 s x2 y2 r : ℤ)
    → ((s *ℤ r) +ℤ (s *ℤ r)) +ℤ ((((x2 *ℤ y2) *ℤ r) *ℤ (d *ℤ pos 2)) *ℤ ((x1 *ℤ y1) *ℤ s))
      ≡ (pos 1 -ℤ (d *ℤ ((x1 *ℤ (pos 0 -ℤ x2)) *ℤ (y1 *ℤ y2)))) *ℤ (pos 2 *ℤ (s *ℤ r))
unfolding value vanishes expand
denominator_plus_opposite d x1 y1 s x2 y2 r =
    solve (d ∷ x1 ∷ y1 ∷ s ∷ x2 ∷ y2 ∷ r ∷ [])
      (plus (plus (times (var 3) (var 6)) (times (var 3) (var 6))) (
        times (times (times (times (var 4) (var 5)) (var 6)) (times (var 0) (num 2)))
          (times (times (var 1) (var 2)) (var 3))))
      (times
        (minus (num 1)
          (times (var 0) (times (times (var 1) (minus (num 0) (var 4))) (times (var 2) (var 5)))))
        (times (num 2) (times (var 3) (var 6))))
      refl

-- For a point and a cached point, ge_sub gives the sum with the opposite point, where the addition
-- law gives one.
pub ge_sub-IsP1P1 :
    (p : GeP3) (q : GeCached) (x1 y1 x2 y2 x3 y3 : ℤ)
    → IsP3 p x1 y1
    → IsCached q x2 y2
    → IsSum x1 y1 (pos 0 -ℤ x2) y2 x3 y3
    → IsP1P1 (ge_sub p q) x3 y3
unfolding ge_sub
ge_sub-IsP1P1 p q x1 y1 x2 y2 x3 y3 c e sum =
    let z =
      mul-Stands (twice_loosen (add-Stands refl c.y_stands c.x_stands))
        (Stands-Cong (Cong-of_eq (minus_as_plus x2 y2 e.s)) e.minus_stands) in
    let y' =
      mul-Stands (twice_loosen (sub-Stands refl c.y_stands c.x_stands))
        (Stands-Cong (Cong-of_eq (plus_as_minus x2 y2 e.s)) e.plus_stands) in
    let t = mul-Stands (loosen e.t_stands) (loosen c.t_stands) in
    let x' = mul-Stands (loosen c.z_stands) (loosen e.z_stands) in
    let t0 = add-Stands refl x' x' in
    complete x1 y1 (pos 0 -ℤ x2) y2 x3 y3 c.s e.s sum c.s_unit e.s_unit _ _ _ _ z y'
      (Stands-Cong (Cong-of_eq (denominator_minus_opposite curve_d x1 y1 c.s x2 y2 e.s))
        (three_loosen (sub-Stands refl t0 t)))
      (Stands-Cong (Cong-of_eq (denominator_plus_opposite curve_d x1 y1 c.s x2 y2 e.s))
        (three_loosen (add-Stands refl t0 t)))

times_one : (a : ℤ) → a ≡ a *ℤ pos 1
unfolding value vanishes expand
times_one a = solve (a ∷ []) (var 0) (times (var 0) (num 1)) refl

minus_one : (x2 y2 : ℤ) → y2 -ℤ x2 ≡ (y2 +ℤ (pos 0 -ℤ x2)) *ℤ pos 1
unfolding value vanishes expand
minus_one x2 y2 =
    solve (x2 ∷ y2 ∷ []) (minus (var 1) (var 0))
      (times (plus (var 1) (minus (num 0) (var 0))) (num 1)) refl

plus_one : (x2 y2 : ℤ) → y2 +ℤ x2 ≡ (y2 -ℤ (pos 0 -ℤ x2)) *ℤ pos 1
unfolding value vanishes expand
plus_one x2 y2 =
    solve (x2 ∷ y2 ∷ []) (plus (var 1) (var 0))
      (times (minus (var 1) (minus (num 0) (var 0))) (num 1)) refl

one_plus :
    (d x1 y1 s x2 y2 : ℤ)
    → (s +ℤ s) +ℤ (((x2 *ℤ y2) *ℤ (d *ℤ pos 2)) *ℤ ((x1 *ℤ y1) *ℤ s))
      ≡ (pos 1 +ℤ (d *ℤ ((x1 *ℤ x2) *ℤ (y1 *ℤ y2)))) *ℤ (pos 2 *ℤ (s *ℤ pos 1))
unfolding value vanishes expand
one_plus d x1 y1 s x2 y2 =
    solve (d ∷ x1 ∷ y1 ∷ s ∷ x2 ∷ y2 ∷ [])
      (plus (plus (var 3) (var 3)) (
        times (times (times (var 4) (var 5)) (times (var 0) (num 2)))
          (times (times (var 1) (var 2)) (var 3))))
      (times (plus (num 1) (times (var 0) (times (times (var 1) (var 4)) (times (var 2) (var 5)))))
        (times (num 2) (times (var 3) (num 1))))
      refl

one_minus :
    (d x1 y1 s x2 y2 : ℤ)
    → (s +ℤ s) -ℤ (((x2 *ℤ y2) *ℤ (d *ℤ pos 2)) *ℤ ((x1 *ℤ y1) *ℤ s))
      ≡ (pos 1 -ℤ (d *ℤ ((x1 *ℤ x2) *ℤ (y1 *ℤ y2)))) *ℤ (pos 2 *ℤ (s *ℤ pos 1))
unfolding value vanishes expand
one_minus d x1 y1 s x2 y2 =
    solve (d ∷ x1 ∷ y1 ∷ s ∷ x2 ∷ y2 ∷ [])
      (minus (plus (var 3) (var 3)) (
        times (times (times (var 4) (var 5)) (times (var 0) (num 2)))
          (times (times (var 1) (var 2)) (var 3))))
      (times (minus (num 1) (times (var 0) (times (times (var 1) (var 4)) (times (var 2) (var 5)))))
        (times (num 2) (times (var 3) (num 1))))
      refl

one_minus_opposite :
    (d x1 y1 s x2 y2 : ℤ)
    → (s +ℤ s) -ℤ (((x2 *ℤ y2) *ℤ (d *ℤ pos 2)) *ℤ ((x1 *ℤ y1) *ℤ s))
      ≡ (pos 1 +ℤ (d *ℤ ((x1 *ℤ (pos 0 -ℤ x2)) *ℤ (y1 *ℤ y2)))) *ℤ (pos 2 *ℤ (s *ℤ pos 1))
unfolding value vanishes expand
one_minus_opposite d x1 y1 s x2 y2 =
    solve (d ∷ x1 ∷ y1 ∷ s ∷ x2 ∷ y2 ∷ [])
      (minus (plus (var 3) (var 3)) (
        times (times (times (var 4) (var 5)) (times (var 0) (num 2)))
          (times (times (var 1) (var 2)) (var 3))))
      (times
        (plus (num 1)
          (times (var 0) (times (times (var 1) (minus (num 0) (var 4))) (times (var 2) (var 5)))))
        (times (num 2) (times (var 3) (num 1))))
      refl

one_plus_opposite :
    (d x1 y1 s x2 y2 : ℤ)
    → (s +ℤ s) +ℤ (((x2 *ℤ y2) *ℤ (d *ℤ pos 2)) *ℤ ((x1 *ℤ y1) *ℤ s))
      ≡ (pos 1 -ℤ (d *ℤ ((x1 *ℤ (pos 0 -ℤ x2)) *ℤ (y1 *ℤ y2)))) *ℤ (pos 2 *ℤ (s *ℤ pos 1))
unfolding value vanishes expand
one_plus_opposite d x1 y1 s x2 y2 =
    solve (d ∷ x1 ∷ y1 ∷ s ∷ x2 ∷ y2 ∷ [])
      (plus (plus (var 3) (var 3)) (
        times (times (times (var 4) (var 5)) (times (var 0) (num 2)))
          (times (times (var 1) (var 2)) (var 3))))
      (times
        (minus (num 1)
          (times (var 0) (times (times (var 1) (minus (num 0) (var 4))) (times (var 2) (var 5)))))
        (times (num 2) (times (var 3) (num 1))))
      refl

-- For a point and an entry of a table, ge_madd gives the sum, where the addition law gives one.
pub ge_madd-IsP1P1 :
    (p : GeP3) (q : GePrecomp) (x1 y1 x2 y2 x3 y3 : ℤ)
    → IsP3 p x1 y1
    → IsPrecomp q x2 y2
    → IsSum x1 y1 x2 y2 x3 y3
    → IsP1P1 (ge_madd p q) x3 y3
unfolding ge_madd
ge_madd-IsP1P1 p q x1 y1 x2 y2 x3 y3 c e sum =
    let z =
      mul-Stands (twice_loosen (add-Stands refl c.y_stands c.x_stands))
        (Stands-Cong (Cong-of_eq (times_one (y2 +ℤ x2))) e.plus_stands) in
    let y' =
      mul-Stands (twice_loosen (sub-Stands refl c.y_stands c.x_stands))
        (Stands-Cong (Cong-of_eq (times_one (y2 -ℤ x2))) e.minus_stands) in
    let t = mul-Stands e.t_stands (loosen c.t_stands) in
    let t0 = add-Stands refl c.z_stands c.z_stands in
    complete x1 y1 x2 y2 x3 y3 c.s (pos 1) sum c.s_unit one-IsUnit _ _ _ _ z y'
      (Stands-Cong (Cong-of_eq (one_plus curve_d x1 y1 c.s x2 y2))
        (three_loosen (add-Stands refl t0 t)))
      (Stands-Cong (Cong-of_eq (one_minus curve_d x1 y1 c.s x2 y2))
        (three_loosen (sub-Stands refl t0 t)))

-- For a point and an entry of a table, ge_msub gives the sum with the opposite point, where the
-- addition law gives one.
pub ge_msub-IsP1P1 :
    (p : GeP3) (q : GePrecomp) (x1 y1 x2 y2 x3 y3 : ℤ)
    → IsP3 p x1 y1
    → IsPrecomp q x2 y2
    → IsSum x1 y1 (pos 0 -ℤ x2) y2 x3 y3
    → IsP1P1 (ge_msub p q) x3 y3
unfolding ge_msub
ge_msub-IsP1P1 p q x1 y1 x2 y2 x3 y3 c e sum =
    let z =
      mul-Stands (twice_loosen (add-Stands refl c.y_stands c.x_stands))
        (Stands-Cong (Cong-of_eq (minus_one x2 y2)) e.minus_stands) in
    let y' =
      mul-Stands (twice_loosen (sub-Stands refl c.y_stands c.x_stands))
        (Stands-Cong (Cong-of_eq (plus_one x2 y2)) e.plus_stands) in
    let t = mul-Stands e.t_stands (loosen c.t_stands) in
    let t0 = add-Stands refl c.z_stands c.z_stands in
    complete x1 y1 (pos 0 -ℤ x2) y2 x3 y3 c.s (pos 1) sum c.s_unit one-IsUnit _ _ _ _ z y'
      (Stands-Cong (Cong-of_eq (one_minus_opposite curve_d x1 y1 c.s x2 y2))
        (three_loosen (sub-Stands refl t0 t)))
      (Stands-Cong (Cong-of_eq (one_plus_opposite curve_d x1 y1 c.s x2 y2))
        (three_loosen (add-Stands refl t0 t)))
