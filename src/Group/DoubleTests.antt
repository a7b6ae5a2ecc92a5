-- ===== src/Group/DoubleTests.antt =====
-- The double multiplications at points of order 4.
use bitmonero.Base.{ℕ, ◌≡◌, refl, ap, ◌∙◌, arith, some, List, [], ◌∷◌, ◌++◌, All, length, replicate}
use bitmonero.Base.Bytes.{le_value}
use bitmonero.Base.Int.{ℤ, pos, negsuc, ◌+ℤ◌, ◌-ℤ◌, ◌*ℤ◌, eq_of_parts, int_laws}
use bitmonero.Field.{fe_0, fe_1}
use bitmonero.Field.Linear.{limbs_value}
use bitmonero.Field.Congruence.{Cong-refl}
use bitmonero.Group.{GeP2, GeP3, GePrecomp}
use bitmonero.Group.Curve.{IsP2, IsP3, IsPrecomp, one-IsUnit}
use bitmonero.Group.Tables.{AreMultiples, AreEntries, ge_dsm_precomp, ge_dsm_precomp-AreMultiples}
use bitmonero.Group.OrderFour.{turn_x, turn_y, turn-Multiples}
use bitmonero.Group.Slide.{slide}
use bitmonero.Group.Slid.{slid_value, IsSlid, slide_lem}
use bitmonero.Group.Sums.{Combinations, second-Multiples}
use bitmonero.Group.DoubleScalarmult.{
  ge_double_scalarmult_precomp_vartime, ge_double_scalarmult_base_vartime,
}
use bitmonero.Group.DoubleTimes.{
  IsScalar, ge_double_scalarmult_precomp_vartime-IsP2, ge_double_scalarmult_base_vartime-IsP2,
}

difference_opposite : (m n : ℤ) → (pos 0 -ℤ m) -ℤ (pos 0 -ℤ n) ≡ pos 0 -ℤ (m -ℤ n)
difference_opposite m n = eq_of_parts _ _ (omega int_laws)

difference_sum : (m n k l : ℤ) → (m -ℤ n) +ℤ (k -ℤ l) ≡ (m +ℤ k) -ℤ (n +ℤ l)
difference_sum m n k l = eq_of_parts _ _ (omega int_laws)

no_difference : pos 0 -ℤ pos 0 ≡ pos 0
no_difference = eq_of_parts _ _ (omega int_laws)

-- m * P + n * Q for Q = -P.
abbrev x_of : ℤ → ℤ → ℤ
x_of m n = turn_x (m -ℤ n)

abbrev y_of : ℤ → ℤ → ℤ
y_of m n = turn_y (m -ℤ n)

turn-Combinations : Combinations x_of y_of
turn-Combinations = record {
  x_zero = ap turn_x no_difference ∙ turn-Multiples.x_zero;
  y_zero = ap turn_y no_difference ∙ turn-Multiples.y_zero;
  x_opposite = λ m n. ap turn_x (difference_opposite m n) ∙ turn-Multiples.x_opposite (m -ℤ n);
  y_opposite = λ m n. ap turn_y (difference_opposite m n) ∙ turn-Multiples.y_opposite (m -ℤ n);
  on_curve = λ m n. turn-Multiples.on_curve (m -ℤ n);
  adds = λ m n k l. rw (difference_sum m n k l) at (turn-Multiples.adds (m -ℤ n) (k -ℤ l));
}

abbrev root_limbs : List ℤ
root_limbs =
    negsuc 32595791
    ∷ negsuc 7943724
    ∷ pos 9377950
    ∷ pos 3500415
    ∷ pos 12389472
    ∷ negsuc 272472
    ∷ negsuc 25146208
    ∷ negsuc 2005653
    ∷ pos 326686
    ∷ pos 11406482
    ∷ []

abbrev minus_root_limbs : List ℤ
minus_root_limbs =
    pos 32595792
    ∷ pos 7943725
    ∷ negsuc 9377949
    ∷ negsuc 3500414
    ∷ negsuc 12389471
    ∷ pos 272473
    ∷ pos 25146209
    ∷ pos 2005654
    ∷ negsuc 326685
    ∷ negsuc 11406481
    ∷ []

abbrev p_point : GeP3
p_point = record { x = root_limbs; y = fe_0; z = fe_1; t = fe_0 }

abbrev q_point : GeP3
q_point = record { x = minus_root_limbs; y = fe_0; z = fe_1; t = fe_0 }

p_point-IsP3 : IsP3 p_point (x_of (pos 1) (pos 0)) (y_of (pos 1) (pos 0))
unfolding limbs_value turn_x turn_y ◌+ℤ◌ ◌-ℤ◌ ◌*ℤ◌
p_point-IsP3 = record {
  s = pos 1;
  s_unit = one-IsUnit;
  x_stands = record { bounded = omega arith; stands = record { quotient = pos 0; split = refl } };
  y_stands = record { bounded = omega arith; stands = Cong-refl (pos 0) };
  z_stands = record { bounded = omega arith; stands = Cong-refl (pos 1) };
  t_stands = record { bounded = omega arith; stands = Cong-refl (pos 0) };
}

q_point-IsP3 : IsP3 q_point (x_of (pos 0) (pos 1)) (y_of (pos 0) (pos 1))
unfolding limbs_value turn_x turn_y ◌+ℤ◌ ◌-ℤ◌ ◌*ℤ◌
q_point-IsP3 = record {
  s = pos 1;
  s_unit = one-IsUnit;
  x_stands = record { bounded = omega arith; stands = record { quotient = pos 0; split = refl } };
  y_stands = record { bounded = omega arith; stands = Cong-refl (pos 0) };
  z_stands = record { bounded = omega arith; stands = Cong-refl (pos 1) };
  t_stands = record { bounded = omega arith; stands = Cong-refl (pos 0) };
}

-- Scalars with digits of both signs.
abbrev first_scalar : List ℕ
first_scalar = 201 ∷ 57 ∷ 254 ∷ replicate 28 136 ++ (127 ∷ [])

abbrev second_scalar : List ℕ
second_scalar = 30 ∷ replicate 30 255 ++ (15 ∷ [])

slide_lem_example :
    (slid_value (slide first_scalar) ≡ pos (le_value first_scalar))
    × All IsSlid (slide first_scalar)
    × (length (slide first_scalar) ≡ 256)
slide_lem_example = slide_lem first_scalar refl (omega arith) (omega arith)

first-IsScalar : IsScalar first_scalar
first-IsScalar = (refl, omega arith, omega arith)

second-IsScalar : IsScalar second_scalar
second-IsScalar = (refl, omega arith, omega arith)

q_table-AreMultiples :
    AreMultiples (x_of (pos 0)) (y_of (pos 0)) 2 1 (ge_dsm_precomp q_point)
    × (length (ge_dsm_precomp q_point) ≡ 8)
q_table-AreMultiples =
    ge_dsm_precomp-AreMultiples (second-Multiples turn-Combinations) q_point q_point-IsP3

ge_double_scalarmult_precomp_vartime-IsP2_example :
    (q : GeP2) × (ge_double_scalarmult_precomp_vartime first_scalar p_point second_scalar
        (ge_dsm_precomp q_point)
      ≡ some q)
    × IsP2 q
        (x_of (pos (le_value first_scalar)) (pos (le_value second_scalar)))
        (y_of (pos (le_value first_scalar)) (pos (le_value second_scalar)))
ge_double_scalarmult_precomp_vartime-IsP2_example =
    ge_double_scalarmult_precomp_vartime-IsP2 turn-Combinations first_scalar second_scalar p_point
      (ge_dsm_precomp q_point) first-IsScalar second-IsScalar p_point-IsP3 q_table-AreMultiples.0
      q_table-AreMultiples.1

-- Q and -Q, as entries of a table.
abbrev pub q_entry : GePrecomp
q_entry = record { yplusx = minus_root_limbs; yminusx = root_limbs; xy2d = fe_0 }

abbrev pub minus_q_entry : GePrecomp
minus_q_entry = record { yplusx = root_limbs; yminusx = minus_root_limbs; xy2d = fe_0 }

abbrev q_entries : List GePrecomp
q_entries =
    q_entry ∷ minus_q_entry ∷ q_entry ∷ minus_q_entry ∷ q_entry ∷ minus_q_entry ∷ q_entry
    ∷ minus_q_entry ∷ []

q_entry-IsPrecomp :
    (k : ℤ)
    → x_of (pos 0) k ≡ x_of (pos 0) (pos 1)
    → y_of (pos 0) k ≡ y_of (pos 0) (pos 1)
    → IsPrecomp q_entry (x_of (pos 0) k) (y_of (pos 0) k)
unfolding limbs_value turn_x turn_y ◌+ℤ◌ ◌-ℤ◌ ◌*ℤ◌
q_entry-IsPrecomp k e f =
    rw (e, f)
      (record {
        plus_stands = record {
          bounded = omega arith;
          stands = record { quotient = pos 0; split = refl };
        };
        minus_stands = record {
          bounded = omega arith;
          stands = record { quotient = pos 0; split = refl };
        };
        t_stands = record {
          bounded = omega arith;
          stands = record { quotient = pos 0; split = refl };
        };
      })

minus_q_entry-IsPrecomp :
    (k : ℤ)
    → x_of (pos 0) k ≡ x_of (pos 0) (pos 3)
    → y_of (pos 0) k ≡ y_of (pos 0) (pos 3)
    → IsPrecomp minus_q_entry (x_of (pos 0) k) (y_of (pos 0) k)
unfolding limbs_value turn_x turn_y ◌+ℤ◌ ◌-ℤ◌ ◌*ℤ◌
minus_q_entry-IsPrecomp k e f =
    rw (e, f)
      (record {
        plus_stands = record {
          bounded = omega arith;
          stands = record { quotient = pos 0; split = refl };
        };
        minus_stands = record {
          bounded = omega arith;
          stands = record { quotient = pos 0; split = refl };
        };
        t_stands = record {
          bounded = omega arith;
          stands = record { quotient = pos 0; split = refl };
        };
      })

q_entries-AreEntries : AreEntries IsPrecomp (x_of (pos 0)) (y_of (pos 0)) 2 1 q_entries
unfolding turn_x turn_y ◌-ℤ◌
q_entries-AreEntries = (
  q_entry-IsPrecomp (pos 1) refl refl,
  (
    minus_q_entry-IsPrecomp (pos 3) refl refl,
    (
      q_entry-IsPrecomp (pos 5) refl refl,
      (
        minus_q_entry-IsPrecomp (pos 7) refl refl,
        (
          q_entry-IsPrecomp (pos 9) refl refl,
          (
            minus_q_entry-IsPrecomp (pos 11) refl refl,
            (
              q_entry-IsPrecomp (pos 13) refl refl,
              (minus_q_entry-IsPrecomp (pos 15) refl refl, tt),
            ),
          ),
        ),
      ),
    ),
  ),
)

ge_double_scalarmult_base_vartime-IsP2_example :
    (q : GeP2) × (ge_double_scalarmult_base_vartime q_entries first_scalar p_point second_scalar
      ≡ some q)
    × IsP2 q
        (x_of (pos (le_value first_scalar)) (pos (le_value second_scalar)))
        (y_of (pos (le_value first_scalar)) (pos (le_value second_scalar)))
ge_double_scalarmult_base_vartime-IsP2_example =
    ge_double_scalarmult_base_vartime-IsP2 turn-Combinations first_scalar second_scalar p_point
      q_entries first-IsScalar second-IsScalar p_point-IsP3 q_entries-AreEntries refl
