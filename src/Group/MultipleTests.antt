-- ===== src/Group/MultipleTests.antt =====
-- The functions on multiples at the point of order 4.
use bitmonero.Base.{ℕ, ◌≡◌, refl, arith, some, List, [], ◌∷◌, ◌++◌, length, replicate}
use bitmonero.Base.Bytes.{le_value}
use bitmonero.Base.Int.{ℤ, pos, negsuc, ◌+ℤ◌, ◌*ℤ◌}
use bitmonero.Field.{fe_0, fe_1}
use bitmonero.Field.Linear.{limbs_value}
use bitmonero.Field.Congruence.{Cong-refl}
use bitmonero.Group.{GeP2, GeP3, ge_mul8}
use bitmonero.Group.Curve.{IsP2, IsP3, IsP1P1, one-IsUnit}
use bitmonero.Group.Multiples.{ge_mul8-IsP1P1}
use bitmonero.Group.Tables.{AreMultiples, ge_dsm_precomp, ge_dsm_precomp-AreMultiples}
use bitmonero.Group.Recode.{recode, recode_lem, digits_value, AreDigits}
use bitmonero.Group.Scalarmult.{ge_scalarmult}
use bitmonero.Group.ScalarTimes.{ge_scalarmult-IsP2}
use bitmonero.Group.OrderFour.{turn_x, turn_y, turn-Multiples}

abbrev turn_limbs : List ℤ
turn_limbs =
    negsuc 32595791
    ∷ negsuc 7943724
    ∷ pos 9377950
    ∷ pos 3500415
    ∷ pos 12389472
    ∷ negsuc 272472
    ∷ negsuc 25146208
    ∷ negsuc 2005653
    ∷ pos 326686
    ∷ pos 11406482
    ∷ []

abbrev turn_p2 : GeP2
turn_p2 = record { x = turn_limbs; y = fe_0; z = fe_1 }

abbrev turn_p3 : GeP3
turn_p3 = record { x = turn_limbs; y = fe_0; z = fe_1; t = fe_0 }

turn_p2-IsP2 : IsP2 turn_p2 (turn_x (pos 1)) (turn_y (pos 1))
unfolding limbs_value turn_x turn_y ◌+ℤ◌ ◌*ℤ◌
turn_p2-IsP2 = record {
  s = pos 1;
  s_unit = one-IsUnit;
  x_stands = record { bounded = omega arith; stands = record { quotient = pos 0; split = refl } };
  y_stands = record { bounded = omega arith; stands = Cong-refl (pos 0) };
  z_stands = record { bounded = omega arith; stands = Cong-refl (pos 1) };
}

turn_p3-IsP3 : IsP3 turn_p3 (turn_x (pos 1)) (turn_y (pos 1))
unfolding limbs_value turn_x turn_y ◌+ℤ◌ ◌*ℤ◌
turn_p3-IsP3 = record {
  s = pos 1;
  s_unit = one-IsUnit;
  x_stands = record { bounded = omega arith; stands = record { quotient = pos 0; split = refl } };
  y_stands = record { bounded = omega arith; stands = Cong-refl (pos 0) };
  z_stands = record { bounded = omega arith; stands = Cong-refl (pos 1) };
  t_stands = record { bounded = omega arith; stands = Cong-refl (pos 0) };
}

ge_mul8-IsP1P1_example :
    IsP1P1 (ge_mul8 turn_p2) (turn_x (pos 1 *ℤ pos 8)) (turn_y (pos 1 *ℤ pos 8))
ge_mul8-IsP1P1_example = ge_mul8-IsP1P1 turn-Multiples turn_p2 (pos 1) turn_p2-IsP2

ge_dsm_precomp-AreMultiples_example :
    AreMultiples turn_x turn_y 2 1 (ge_dsm_precomp turn_p3) × (length (ge_dsm_precomp turn_p3) ≡ 8)
ge_dsm_precomp-AreMultiples_example =
    ge_dsm_precomp-AreMultiples turn-Multiples turn_p3 turn_p3-IsP3

-- A scalar with digits of both signs.
abbrev pub scalar : List ℕ
scalar = 201 ∷ 57 ∷ 254 ∷ replicate 28 136 ++ (127 ∷ [])

recode_lem_example :
    (digits_value (recode scalar) ≡ pos (le_value scalar))
    × AreDigits (recode scalar)
    × (length (recode scalar) ≡ 64)
recode_lem_example = recode_lem scalar refl (omega arith) (omega arith)

ge_scalarmult-IsP2_example :
    (q : GeP2) × (ge_scalarmult scalar turn_p3 ≡ some q)
    × IsP2 q (turn_x (pos (le_value scalar))) (turn_y (pos (le_value scalar)))
ge_scalarmult-IsP2_example =
    ge_scalarmult-IsP2 turn-Multiples scalar turn_p3 refl (omega arith) (omega arith) turn_p3-IsP3
