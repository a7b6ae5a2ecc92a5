-- ===== src/Group/BaseTests.antt =====
-- `ge_scalarmult_base` at the point of order 4.
use bitmonero.Base.{
  ℕ, zero, suc, ◌+◌, ◌≡◌, refl, ap, sym, ◌∙◌, arith, some, List, [], ◌∷◌, replicate,
}
use bitmonero.Base.Bytes.{le_value}
use bitmonero.Base.Int.{ℤ, pos, negsuc, ◌+ℤ◌, ◌-ℤ◌, ◌*ℤ◌, eq_of_parts, int_laws}
use bitmonero.Base.Ring.{*ℤ_assoc}
use bitmonero.Field.{fe_0}
use bitmonero.Field.Linear.{limbs_value}
use bitmonero.Group.{GeP3, GePrecomp}
use bitmonero.Group.Curve.{IsP3, IsPrecomp}
use bitmonero.Group.Tables.{AreEntries}
use bitmonero.Group.OrderFour.{turn_x, turn_y, turn-Multiples, turn_four}
use bitmonero.Group.ScalarmultBase.{ge_precomp_0, ge_scalarmult_base}
use bitmonero.Group.Rows.{ge_precomp_0-IsPrecomp}
use bitmonero.Group.BaseTimes.{AreRows, ge_scalarmult_base-IsP3}
use bitmonero.Group.MultipleTests.{scalar}
use bitmonero.Group.DoubleTests.{q_entry, minus_q_entry}

-- The opposite of the neutral element.
abbrev half_turn : GePrecomp
half_turn = record {
  yplusx = negsuc 0 ∷ replicate 9 (pos 0);
  yminusx = negsuc 0 ∷ replicate 9 (pos 0);
  xy2d = fe_0;
}

abbrev first_row : List GePrecomp
first_row =
    minus_q_entry ∷ half_turn ∷ q_entry ∷ ge_precomp_0 ∷ minus_q_entry ∷ half_turn ∷ q_entry
    ∷ ge_precomp_0 ∷ []

half_turn-IsPrecomp : IsPrecomp half_turn (turn_x (pos 2)) (turn_y (pos 2))
unfolding limbs_value turn_x turn_y ◌+ℤ◌ ◌-ℤ◌ ◌*ℤ◌
half_turn-IsPrecomp = record {
  plus_stands = record {
    bounded = omega arith;
    stands = record { quotient = pos 0; split = refl };
  };
  minus_stands = record {
    bounded = omega arith;
    stands = record { quotient = pos 0; split = refl };
  };
  t_stands = record { bounded = omega arith; stands = record { quotient = pos 0; split = refl } };
}

turn-IsPrecomp : IsPrecomp minus_q_entry (turn_x (pos 1)) (turn_y (pos 1))
unfolding limbs_value turn_x turn_y ◌+ℤ◌ ◌-ℤ◌ ◌*ℤ◌
turn-IsPrecomp = record {
  plus_stands = record {
    bounded = omega arith;
    stands = record { quotient = pos 0; split = refl };
  };
  minus_stands = record {
    bounded = omega arith;
    stands = record { quotient = pos 0; split = refl };
  };
  t_stands = record { bounded = omega arith; stands = record { quotient = pos 0; split = refl } };
}

back_turn-IsPrecomp : IsPrecomp q_entry (turn_x (pos 3)) (turn_y (pos 3))
unfolding limbs_value turn_x turn_y ◌+ℤ◌ ◌-ℤ◌ ◌*ℤ◌
back_turn-IsPrecomp = record {
  plus_stands = record {
    bounded = omega arith;
    stands = record { quotient = pos 0; split = refl };
  };
  minus_stands = record {
    bounded = omega arith;
    stands = record { quotient = pos 0; split = refl };
  };
  t_stands = record { bounded = omega arith; stands = record { quotient = pos 0; split = refl } };
}

first_row-AreEntries :
    AreEntries IsPrecomp (λ k. turn_x (k *ℤ pos 1)) (λ k. turn_y (k *ℤ pos 1)) 1 1 first_row
unfolding turn_x turn_y ◌*ℤ◌
first_row-AreEntries = (
  turn-IsPrecomp,
  (
    half_turn-IsPrecomp,
    (
      back_turn-IsPrecomp,
      (
        ge_precomp_0-IsPrecomp,
        (
          turn-IsPrecomp,
          (half_turn-IsPrecomp, (back_turn-IsPrecomp, (ge_precomp_0-IsPrecomp, tt))),
        ),
      ),
    ),
  ),
)

neutral_entry :
    (k v w : ℤ) → w ≡ v *ℤ pos 4 → IsPrecomp ge_precomp_0 (turn_x (k *ℤ w)) (turn_y (k *ℤ w))
neutral_entry k v w e =
    let f : k *ℤ w ≡ (k *ℤ v) *ℤ pos 4 = ap (λ t. k *ℤ t) e ∙ sym (*ℤ_assoc k v (pos 4)) in
    let (a, b) = turn_four (k *ℤ v) in rw (ap turn_x f ∙ a, ap turn_y f ∙ b) ge_precomp_0-IsPrecomp

neutral-AreEntries :
    (n start : ℕ) (v w : ℤ)
    → w ≡ v *ℤ pos 4
    → AreEntries IsPrecomp
        (λ k. turn_x (k *ℤ w))
        (λ k. turn_y (k *ℤ w))
        1
        start
        (replicate n ge_precomp_0)
neutral-AreEntries zero start v w e = tt
neutral-AreEntries (suc n) start v w e =
    (neutral_entry (pos start) v w e, neutral-AreEntries n (1 + start) v w e)

next_weight : (v w : ℤ) → w ≡ v *ℤ pos 4 → w *ℤ pos 256 ≡ (v *ℤ pos 256) *ℤ pos 4
next_weight v w e = ap (λ t. t *ℤ pos 256) e ∙ eq_of_parts _ _ (omega int_laws)

neutral-AreRows :
    (n : ℕ) (v w : ℤ)
    → w ≡ v *ℤ pos 4
    → AreRows turn_x turn_y w (replicate n (replicate 8 ge_precomp_0))
neutral-AreRows zero v w e = tt
neutral-AreRows (suc n) v w e = (
  neutral-AreEntries 8 1 v w e,
  refl,
  neutral-AreRows n (v *ℤ pos 256) (w *ℤ pos 256) (next_weight v w e),
)

-- 256 * P is the neutral element.
abbrev rows : List (List GePrecomp)
rows = first_row ∷ replicate 31 (replicate 8 ge_precomp_0)

second_weight : pos 1 *ℤ pos 256 ≡ pos 64 *ℤ pos 4
unfolding ◌*ℤ◌
second_weight = refl

rows-AreRows : AreRows turn_x turn_y (pos 1) rows
rows-AreRows =
    (first_row-AreEntries, refl, neutral-AreRows 31 (pos 64) (pos 1 *ℤ pos 256) second_weight)

ge_scalarmult_base-IsP3_example :
    (q : GeP3) × (ge_scalarmult_base rows scalar ≡ some q)
    × IsP3 q (turn_x (pos (le_value scalar))) (turn_y (pos (le_value scalar)))
ge_scalarmult_base-IsP3_example =
    ge_scalarmult_base-IsP3 turn-Multiples rows scalar rows-AreRows refl refl (omega arith)
      (omega arith)
