-- ===== src/Group/Rows.antt =====
-- Results about `select`.
use bitmonero.Base.{ℕ, suc, ◌≤◌, ◌≡◌, refl, sym, ap, ◌∙◌, subst, arith, some, List, [], ◌∷◌, length}
use bitmonero.Base.Int.{ℤ, pos, negsuc, ◌+ℤ◌, ◌-ℤ◌, ◌*ℤ◌}
use bitmonero.Base.Ring.{size}
use bitmonero.Base.Polynomial.{var, num, plus, minus, times, value, solve, vanishes, expand}
use bitmonero.Field.Linear.{limbs_value}
use bitmonero.Field.Sizes.{AtMost}
use bitmonero.Field.Operands.{wide}
use bitmonero.Field.Congruence.{Cong-of_eq, Cong-refl}
use bitmonero.Field.Element.{Stands-Cong, copy-Stands}
use bitmonero.Group.{GePrecomp}
use bitmonero.Group.Curve.{IsPrecomp, curve_d}
use bitmonero.Group.Multiples.{Multiples}
use bitmonero.Group.Tables.{AreEntries}
use bitmonero.Group.Select.{negative, absolute, pick}
use bitmonero.Group.Choice.{
  pick_lem, wide_cmov, digit_zero_up, digit_negative, neg-Stands, opposite,
}
use bitmonero.Group.ScalarmultBase.{ge_precomp_0, ge_precomp_cmov, minus_precomp, select}

minus_as_plus : (x y : ℤ) → y -ℤ x ≡ y +ℤ (pos 0 -ℤ x)
unfolding value vanishes expand
minus_as_plus x y =
    solve (x ∷ y ∷ []) (minus (var 1) (var 0)) (plus (var 1) (minus (num 0) (var 0))) refl

plus_as_minus : (x y : ℤ) → y +ℤ x ≡ y -ℤ (pos 0 -ℤ x)
unfolding value vanishes expand
plus_as_minus x y =
    solve (x ∷ y ∷ []) (plus (var 1) (var 0)) (minus (var 1) (minus (num 0) (var 0))) refl

minus_product : (x y d : ℤ) → pos 0 -ℤ (x *ℤ y) *ℤ d ≡ ((pos 0 -ℤ x) *ℤ y) *ℤ d
unfolding value vanishes expand
minus_product x y d =
    solve (x ∷ y ∷ d ∷ []) (minus (num 0) (times (times (var 0) (var 1)) (var 2)))
      (times (times (minus (num 0) (var 0)) (var 1)) (var 2)) refl

minus_precomp-IsPrecomp :
    (c : GePrecomp) (x y : ℤ) → IsPrecomp c x y → IsPrecomp (minus_precomp c) (pos 0 -ℤ x) y
unfolding minus_precomp
minus_precomp-IsPrecomp c x y h = record {
  plus_stands = Stands-Cong (Cong-of_eq (minus_as_plus x y)) (copy-Stands h.minus_stands);
  minus_stands = Stands-Cong (Cong-of_eq (plus_as_minus x y)) (copy-Stands h.plus_stands);
  t_stands =
      Stands-Cong (Cong-of_eq (minus_product x y (curve_d *ℤ pos 2))) (neg-Stands h.t_stands);
}

pub ge_precomp_0-IsPrecomp : IsPrecomp ge_precomp_0 (pos 0) (pos 1)
unfolding limbs_value ◌+ℤ◌ ◌-ℤ◌ ◌*ℤ◌
ge_precomp_0-IsPrecomp = record {
  plus_stands = record { bounded = omega arith; stands = Cong-refl (pos 1) };
  minus_stands = record { bounded = omega arith; stands = Cong-refl (pos 1) };
  t_stands = record { bounded = omega arith; stands = Cong-refl (pos 0) };
}

record FitsPrecomp (c : GePrecomp) : Type 0 where
  plus_fits : AtMost c.yplusx wide
  minus_fits : AtMost c.yminusx wide
  t_fits : AtMost c.xy2d wide

IsPrecomp-FitsPrecomp : (c : GePrecomp) (x y : ℤ) → IsPrecomp c x y → FitsPrecomp c
IsPrecomp-FitsPrecomp c x y h = record {
  plus_fits = h.plus_stands.bounded;
  minus_fits = h.minus_stands.bounded;
  t_fits = h.t_stands.bounded;
}

ge_precomp_cmov_chooses :
    (t u : GePrecomp)
    → FitsPrecomp t
    → FitsPrecomp u
    → (ge_precomp_cmov t u 0 ≡ some t) × (ge_precomp_cmov t u 1 ≡ some u)
unfolding ge_precomp_cmov
ge_precomp_cmov_chooses t u h k =
    let a = wide_cmov t.yplusx u.yplusx h.plus_fits k.plus_fits in
    let b = wide_cmov t.yminusx u.yminusx h.minus_fits k.minus_fits in
    let d = wide_cmov t.xy2d u.xy2d h.t_fits k.t_fits in
    (rw (a.0, b.0, d.0) refl, rw (a.1, b.1, d.1) refl)

select_eq :
    (row : List GePrecomp) (b : ℤ) {k n : ℕ} {c c' : GePrecomp}
    → negative b ≡ k
    → absolute b k ≡ n
    → pick ge_precomp_cmov 1 n ge_precomp_0 row ≡ some c
    → ge_precomp_cmov c (minus_precomp c) k ≡ some c'
    → select row b ≡ some c'
unfolding select
select_eq row b d e r f = rw (d, e, r, f) refl

module _ {x y : ℤ → ℤ} (law : Multiples x y) where
  ge_precomp_0_lem : IsPrecomp ge_precomp_0 (x (pos 0)) (y (pos 0))
  ge_precomp_0_lem = rw (law.x_zero, law.y_zero) ge_precomp_0-IsPrecomp

  module _ (row : List GePrecomp) (m : AreEntries IsPrecomp x y 1 1 row) (l : length row ≡ 8) where
    picked :
        (n : ℕ)
        → n ≤ 8
        → (c : GePrecomp) × (pick ge_precomp_cmov 1 n ge_precomp_0 row ≡ some c)
          × IsPrecomp c (x (pos n)) (y (pos n))
    picked n h =
        pick_lem ge_precomp_cmov FitsPrecomp IsPrecomp ge_precomp_cmov_chooses IsPrecomp-FitsPrecomp
          x y 1 n ge_precomp_0 row h (omega arith) m
          (IsPrecomp-FitsPrecomp ge_precomp_0 _ _ ge_precomp_0_lem)
          (λ p.
            subst (λ i. IsPrecomp ge_precomp_0 (x (pos i)) (y (pos i))) (omega arith)
              ge_precomp_0_lem)
          (omega arith)

    -- For a row of the multiples from 1 to 8, select gives the multiple of the digit.
    pub select_lem :
        (b : ℤ) → size b ≤ 8 → (c : GePrecomp) × (select row b ≡ some c) × IsPrecomp c (x b) (y b)
    select_lem (pos n) h =
        let (d, e) = digit_zero_up n (omega arith) in
        let (c, r, i) = picked n (omega arith) in
        let o = minus_precomp-IsPrecomp c (x (pos n)) (y (pos n)) i in
        let both =
          ge_precomp_cmov_chooses c (minus_precomp c) (IsPrecomp-FitsPrecomp c _ _ i)
            (IsPrecomp-FitsPrecomp (minus_precomp c) _ _ o) in
        (c, select_eq row (pos n) d e r both.0, i)
    select_lem (negsuc n) h =
        let (d, e) = digit_negative n (omega arith) in
        let (c, r, i) = picked (suc n) (omega arith) in
        let o = minus_precomp-IsPrecomp c (x (pos (suc n))) (y (pos (suc n))) i in
        let both =
          ge_precomp_cmov_chooses c (minus_precomp c) (IsPrecomp-FitsPrecomp c _ _ i)
            (IsPrecomp-FitsPrecomp (minus_precomp c) _ _ o) in
        (
          minus_precomp c,
          select_eq row (negsuc n) d e r both.1,
          rw
              (
                ap x (sym (opposite n)) ∙ law.x_opposite (pos (suc n)),
                ap y (sym (opposite n)) ∙ law.y_opposite (pos (suc n)),
              )
              o,
        )
