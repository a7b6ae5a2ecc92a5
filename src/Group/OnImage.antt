-- ===== src/Group/OnImage.antt =====
-- Results about the equations of `ge_fromfe_frombytes_vartime`.
use bitmonero.Base.{◌≡◌, refl, sym, ap, ◌∙◌, [], ◌∷◌}
use bitmonero.Base.Int.{ℤ, pos, ◌+ℤ◌, ◌-ℤ◌, ◌*ℤ◌}
use bitmonero.Base.Polynomial.{Expr, var, num, plus, minus, times, value, solve, vanishes, expand}
use bitmonero.Field.Congruence.{
  Cong, Cong-trans, Cong-sym, Cong-of_eq, Cong-refl, Cong-+ℤ, Cong--ℤ, Cong-*ℤ, Cong-*ℤ_left,
  Cong-*ℤ_right,
}
use bitmonero.Group.Curve.{curve_d}

-- The equation that makes (x, (z - w) / (z + w)) a point of the curve.
abbrev pub IsImage : ℤ → ℤ → ℤ → Type 0
IsImage x z w =
    Cong ((x *ℤ x) *ℤ ((z +ℤ w) *ℤ (z +ℤ w) +ℤ curve_d *ℤ ((z -ℤ w) *ℤ (z -ℤ w))))
      ((z -ℤ w) *ℤ (z -ℤ w) -ℤ (z +ℤ w) *ℤ (z +ℤ w))

-- The equation of the curve for x / z and y / z, without denominators.
abbrev pub OnCurveOver : ℤ → ℤ → ℤ → Type 0
OnCurveOver x y z =
    Cong ((y *ℤ y) *ℤ (z *ℤ z) -ℤ (x *ℤ x) *ℤ (z *ℤ z))
      ((z *ℤ z) *ℤ (z *ℤ z) +ℤ curve_d *ℤ ((x *ℤ x) *ℤ (y *ℤ y)))

-- 486664 * d = -486660.
scaled_d : Cong (pos 486664 *ℤ curve_d) (pos 0 -ℤ pos 486660)
unfolding ◌+ℤ◌ ◌-ℤ◌ ◌*ℤ◌
scaled_d = record { quotient = pos 311820; split = refl }

inverse_number : ℤ
inverse_number = pos 9273926483667359835784520877188641297385528469960804754097196383271485070889

inverse_law : Cong (inverse_number *ℤ pos 486664) (pos 1)
unfolding inverse_number ◌+ℤ◌ ◌*ℤ◌
inverse_law = record { quotient = pos 77955; split = refl }

one_times : (l : ℤ) → l ≡ pos 1 *ℤ l
unfolding value vanishes expand
one_times l = solve (l ∷ []) (var 0) (times (num 1) (var 0)) refl

moved : (k m l : ℤ) → (k *ℤ m) *ℤ l ≡ k *ℤ (m *ℤ l)
unfolding value vanishes expand
moved k m l =
    solve (k ∷ m ∷ l ∷ []) (times (times (var 0) (var 1)) (var 2))
      (times (var 0) (times (var 1) (var 2))) refl

-- Both sides without the factor 486664.
cancelled : (l : ℤ) → Cong l (inverse_number *ℤ (pos 486664 *ℤ l))
cancelled l = Cong-trans (Cong-of_eq (one_times l)) (
    Cong-trans (Cong-*ℤ_right l (Cong-sym inverse_law))
      (Cong-of_eq (moved inverse_number (pos 486664) l)))

cancel : (l r : ℤ) → Cong (pos 486664 *ℤ l) (pos 486664 *ℤ r) → Cong l r
cancel l r c =
    Cong-trans (cancelled l) (Cong-trans (Cong-*ℤ_left inverse_number c) (Cong-sym (cancelled r)))

abbrev sum_square : Expr
sum_square = times (plus (var 1) (var 2)) (plus (var 1) (var 2))

abbrev difference_square : Expr
difference_square = times (minus (var 1) (var 2)) (minus (var 1) (var 2))

spread :
    (x z w d m : ℤ)
    → m *ℤ ((x *ℤ x) *ℤ ((z +ℤ w) *ℤ (z +ℤ w) +ℤ d *ℤ ((z -ℤ w) *ℤ (z -ℤ w))))
      ≡ (x *ℤ x) *ℤ (m *ℤ ((z +ℤ w) *ℤ (z +ℤ w)) +ℤ (m *ℤ d) *ℤ ((z -ℤ w) *ℤ (z -ℤ w)))
unfolding value vanishes expand
spread x z w d m =
    solve (x ∷ z ∷ w ∷ d ∷ m ∷ [])
      (times (var 4)
        (times (times (var 0) (var 0)) (plus sum_square (times (var 3) difference_square))))
      (times (times (var 0) (var 0))
        (plus (times (var 4) sum_square) (times (times (var 4) (var 3)) difference_square)))
      refl

abbrev form : ℤ → ℤ → ℤ
form z w = z *ℤ z +ℤ w *ℤ w +ℤ pos 486662 *ℤ (z *ℤ w)

gathered :
    (x z w : ℤ)
    → (x *ℤ x)
        *ℤ (pos 486664 *ℤ ((z +ℤ w) *ℤ (z +ℤ w)) +ℤ (pos 0 -ℤ pos 486660) *ℤ ((z -ℤ w) *ℤ (z -ℤ w)))
      ≡ pos 4 *ℤ ((x *ℤ x) *ℤ form z w)
unfolding value vanishes expand
gathered x z w =
    solve (x ∷ z ∷ w ∷ [])
      (times (times (var 0) (var 0)) (
        plus (times (num 486664) sum_square)
          (times (minus (num 0) (num 486660)) difference_square)))
      (times (num 4) (
        times (times (var 0) (var 0)) (
          plus (plus (times (var 1) (var 1)) (times (var 2) (var 2)))
            (times (num 486662) (times (var 1) (var 2))))))
      refl

right_side :
    (z w : ℤ)
    → pos 4 *ℤ (pos 0 -ℤ (z *ℤ w) *ℤ pos 486664)
      ≡ pos 486664 *ℤ ((z -ℤ w) *ℤ (z -ℤ w) -ℤ (z +ℤ w) *ℤ (z +ℤ w))
unfolding value vanishes expand
right_side z w =
    solve (pos 0 ∷ z ∷ w ∷ [])
      (times (num 4) (minus (num 0) (times (times (var 1) (var 2)) (num 486664))))
      (times (num 486664) (minus difference_square sum_square)) refl

form-IsImage :
    (x z w : ℤ) → Cong ((x *ℤ x) *ℤ form z w) (pos 0 -ℤ (z *ℤ w) *ℤ pos 486664) → IsImage x z w
form-IsImage x z w c =
    let plus_square = (z +ℤ w) *ℤ (z +ℤ w) in
    let minus_square = (z -ℤ w) *ℤ (z -ℤ w) in
    cancel _ _ (
      Cong-trans (Cong-of_eq (spread x z w curve_d (pos 486664))) (
        Cong-trans
          (Cong-*ℤ_left (x *ℤ x)
            (Cong-+ℤ (Cong-refl (pos 486664 *ℤ plus_square)) (Cong-*ℤ_right minus_square scaled_d)))
          (Cong-trans (Cong-of_eq (gathered x z w))
            (Cong-trans (Cong-*ℤ_left (pos 4) c) (Cong-of_eq (right_side z w))))))

abbrev pub v_of : ℤ → ℤ
v_of u = (u *ℤ u) *ℤ pos 2

abbrev pub w_of : ℤ → ℤ
w_of u = v_of u +ℤ pos 1

abbrev pub x_of : ℤ → ℤ
x_of u = w_of u *ℤ w_of u +ℤ (pos 0 -ℤ pos 236839902244) *ℤ v_of u

-- x in both branches.
positive_form : (u : ℤ) → form ((pos 0 -ℤ pos 486662) *ℤ v_of u) (w_of u) ≡ x_of u
unfolding value vanishes expand
positive_form u =
    let v = times (times (var 0) (var 0)) (num 2) in
    let w = plus v (num 1) in
    let z = times (minus (num 0) (num 486662)) v in
    solve (u ∷ []) (plus (plus (times z z) (times w w)) (times (num 486662) (times z w)))
      (plus (times w w) (times (minus (num 0) (num 236839902244)) v)) refl

negative_form : (u : ℤ) → form (pos 0 -ℤ pos 486662) (w_of u) ≡ x_of u
unfolding value vanishes expand
negative_form u =
    let v = times (times (var 0) (var 0)) (num 2) in
    let w = plus v (num 1) in
    let z = minus (num 0) (num 486662) in
    solve (u ∷ []) (plus (plus (times z z) (times w w)) (times (num 486662) (times z w)))
      (plus (times w w) (times (minus (num 0) (num 236839902244)) v)) refl

abbrev pub k_number : ℤ
k_number = pos 486662 *ℤ pos 486664

positive_regroup :
    (r c u x : ℤ)
    → (((r *ℤ c) *ℤ u) *ℤ ((r *ℤ c) *ℤ u)) *ℤ x ≡ (((r *ℤ r) *ℤ x) *ℤ (c *ℤ c)) *ℤ (u *ℤ u)
unfolding value vanishes expand
positive_regroup r c u x =
    let f = times (times (var 0) (var 1)) (var 2) in
    solve (r ∷ c ∷ u ∷ x ∷ []) (times (times f f) (var 3))
      (times (times (times (times (var 0) (var 0)) (var 3)) (times (var 1) (var 1)))
        (times (var 2) (var 2)))
      refl

positive_end :
    (s u w : ℤ)
    → ((s *ℤ w) *ℤ (s *ℤ (pos 2 *ℤ k_number))) *ℤ (u *ℤ u)
      ≡ (s *ℤ s) *ℤ (pos 0 -ℤ (((pos 0 -ℤ pos 486662) *ℤ v_of u) *ℤ w) *ℤ pos 486664)
unfolding value vanishes expand
positive_end s u w =
    solve (s ∷ u ∷ w ∷ [])
      (times
        (times (times (var 0) (var 2))
          (times (var 0) (times (num 2) (times (num 486662) (num 486664)))))
        (times (var 1) (var 1)))
      (times (times (var 0) (var 0)) (
        minus (num 0) (
          times
            (times (times (minus (num 0) (num 486662)) (times (times (var 1) (var 1)) (num 2)))
              (var 2))
            (num 486664))))
      refl

-- A sign.
abbrev pub IsSign : ℤ → Type 0
IsSign s = s *ℤ s ≡ pos 1

pub positive-IsImage :
    (s r c u : ℤ)
    → IsSign s
    → Cong ((r *ℤ r) *ℤ x_of u) (s *ℤ w_of u)
    → Cong (c *ℤ c) (s *ℤ (pos 2 *ℤ k_number))
    → IsImage ((r *ℤ c) *ℤ u) ((pos 0 -ℤ pos 486662) *ℤ v_of u) (w_of u)
positive-IsImage s r c u e h k =
    let rho = (r *ℤ c) *ℤ u in
    let goal = pos 0 -ℤ (((pos 0 -ℤ pos 486662) *ℤ v_of u) *ℤ w_of u) *ℤ pos 486664 in
    form-IsImage rho _ (w_of u) (
      Cong-trans
        (Cong-of_eq
          (ap (λ f. (rho *ℤ rho) *ℤ f) (positive_form u) ∙ positive_regroup r c u (x_of u)))
        (Cong-trans (Cong-*ℤ_right (u *ℤ u) (Cong-*ℤ h k))
          (Cong-of_eq (positive_end s u (w_of u) ∙ ap (λ t. t *ℤ goal) e ∙ sym (one_times goal)))))

negative_regroup : (r c x : ℤ) → ((r *ℤ c) *ℤ (r *ℤ c)) *ℤ x ≡ ((r *ℤ r) *ℤ x) *ℤ (c *ℤ c)
unfolding value vanishes expand
negative_regroup r c x =
    solve (r ∷ c ∷ x ∷ []) (times (times (times (var 0) (var 1)) (times (var 0) (var 1))) (var 2))
      (times (times (times (var 0) (var 0)) (var 2)) (times (var 1) (var 1))) refl

negative_middle : (q s i k : ℤ) → q *ℤ ((s *ℤ i) *ℤ k) ≡ (q *ℤ i) *ℤ (s *ℤ k)
unfolding value vanishes expand
negative_middle q s i k =
    solve (q ∷ s ∷ i ∷ k ∷ []) (times (var 0) (times (times (var 1) (var 2)) (var 3)))
      (times (times (var 0) (var 2)) (times (var 1) (var 3))) refl

negative_end :
    (s w : ℤ)
    → (s *ℤ w) *ℤ (s *ℤ k_number)
      ≡ (s *ℤ s) *ℤ (pos 0 -ℤ ((pos 0 -ℤ pos 486662) *ℤ w) *ℤ pos 486664)
unfolding value vanishes expand
negative_end s w =
    solve (s ∷ w ∷ [])
      (times (times (var 0) (var 1)) (times (var 0) (times (num 486662) (num 486664))))
      (times (times (var 0) (var 0))
        (minus (num 0) (times (times (minus (num 0) (num 486662)) (var 1)) (num 486664))))
      refl

pub negative-IsImage :
    (s i r c u : ℤ)
    → IsSign s
    → Cong (((r *ℤ r) *ℤ x_of u) *ℤ i) (s *ℤ w_of u)
    → Cong (c *ℤ c) ((s *ℤ i) *ℤ k_number)
    → IsImage (r *ℤ c) (pos 0 -ℤ pos 486662) (w_of u)
negative-IsImage s i r c u e h k =
    let rho = r *ℤ c in
    let q = (r *ℤ r) *ℤ x_of u in
    let goal = pos 0 -ℤ ((pos 0 -ℤ pos 486662) *ℤ w_of u) *ℤ pos 486664 in
    form-IsImage rho _ (w_of u) (
      Cong-trans
        (Cong-of_eq (ap (λ f. (rho *ℤ rho) *ℤ f) (negative_form u) ∙ negative_regroup r c (x_of u)))
        (Cong-trans (Cong-*ℤ_left q k) (
          Cong-trans (Cong-of_eq (negative_middle q s i k_number)) (
            Cong-trans (Cong-*ℤ_right (s *ℤ k_number) h) (
              Cong-of_eq
                (negative_end s (w_of u) ∙ ap (λ t. t *ℤ goal) e ∙ sym (one_times goal)))))))

same_square : (x : ℤ) → (pos 0 -ℤ x) *ℤ (pos 0 -ℤ x) ≡ x *ℤ x
unfolding value vanishes expand
same_square x =
    solve (x ∷ []) (times (minus (num 0) (var 0)) (minus (num 0) (var 0))) (times (var 0) (var 0))
      refl

pub squared-IsImage : (x z w : ℤ) → IsImage x z w → IsImage (pos 0 -ℤ x) z w
squared-IsImage x z w c =
    Cong-trans
      (Cong-of_eq (
        ap (λ t. t *ℤ ((z +ℤ w) *ℤ (z +ℤ w) +ℤ curve_d *ℤ ((z -ℤ w) *ℤ (z -ℤ w)))) (same_square x)))
      c

over_left :
    (x y z d : ℤ)
    → (y *ℤ y) *ℤ (z *ℤ z) -ℤ ((x *ℤ z) *ℤ (x *ℤ z)) *ℤ (z *ℤ z)
      ≡ ((y *ℤ y) *ℤ (z *ℤ z) +ℤ d *ℤ (((x *ℤ z) *ℤ (x *ℤ z)) *ℤ (y *ℤ y)))
        -ℤ ((x *ℤ x) *ℤ (z *ℤ z +ℤ d *ℤ (y *ℤ y))) *ℤ (z *ℤ z)
unfolding value vanishes expand
over_left x y z d =
    let xz = times (var 0) (var 2) in
    solve (x ∷ y ∷ z ∷ d ∷ [])
      (minus (times (times (var 1) (var 1)) (times (var 2) (var 2)))
        (times (times xz xz) (times (var 2) (var 2))))
      (minus
        (plus (times (times (var 1) (var 1)) (times (var 2) (var 2)))
          (times (var 3) (times (times xz xz) (times (var 1) (var 1)))))
        (times
          (times (times (var 0) (var 0))
            (plus (times (var 2) (var 2)) (times (var 3) (times (var 1) (var 1)))))
          (times (var 2) (var 2))))
      refl

over_right :
    (x y z d : ℤ)
    → ((y *ℤ y) *ℤ (z *ℤ z) +ℤ d *ℤ (((x *ℤ z) *ℤ (x *ℤ z)) *ℤ (y *ℤ y)))
        -ℤ (y *ℤ y -ℤ z *ℤ z) *ℤ (z *ℤ z)
      ≡ (z *ℤ z) *ℤ (z *ℤ z) +ℤ d *ℤ (((x *ℤ z) *ℤ (x *ℤ z)) *ℤ (y *ℤ y))
unfolding value vanishes expand
over_right x y z d =
    let xz = times (var 0) (var 2) in
    solve (x ∷ y ∷ z ∷ d ∷ [])
      (minus
        (plus (times (times (var 1) (var 1)) (times (var 2) (var 2)))
          (times (var 3) (times (times xz xz) (times (var 1) (var 1)))))
        (times (minus (times (var 1) (var 1)) (times (var 2) (var 2))) (times (var 2) (var 2))))
      (plus (times (times (var 2) (var 2)) (times (var 2) (var 2)))
        (times (var 3) (times (times xz xz) (times (var 1) (var 1)))))
      refl

pub IsImage-OnCurveOver :
    (x z w : ℤ) → IsImage x z w → OnCurveOver (x *ℤ (z +ℤ w)) (z -ℤ w) (z +ℤ w)
IsImage-OnCurveOver x z w c =
    let y = z -ℤ w in
    let n = z +ℤ w in
    let rest = (y *ℤ y) *ℤ (n *ℤ n) +ℤ curve_d *ℤ (((x *ℤ n) *ℤ (x *ℤ n)) *ℤ (y *ℤ y)) in
    Cong-trans (Cong-of_eq (over_left x y n curve_d)) (
      Cong-trans (Cong--ℤ (Cong-refl rest) (Cong-*ℤ_right (n *ℤ n) c))
        (Cong-of_eq (over_right x y n curve_d)))
