-- ===== src/Field/SquareOperands.antt =====
-- The operands of the columns of `fe_sq` in the bounds of its comment.
use bitmonero.Base.{ℕ, ◌≡◌, arith, List, [], ◌∷◌, length}
use bitmonero.Base.Int.{ℤ, pos, ◌*ℤ◌}
use bitmonero.Field.Mul.{sq_operands}
use bitmonero.Field.Ten.{ten}
use bitmonero.Field.Sizes.{AtMost, PairsAtMost}
use bitmonero.Field.Operands.{wide, times_size}

abbrev pub sq_sizes : List (List ℕ × List ℕ)
sq_sizes =
    (
      (110729625 ∷ 110729624 ∷ 221459250 ∷ 110729624 ∷ 221459250 ∷ 55364812 ∷ []),
      (110729625 ∷ 2103862856 ∷ 2103862875 ∷ 2103862856 ∷ 2103862875 ∷ 2103862856 ∷ []),
    )
    ∷ (
      (221459250 ∷ 110729625 ∷ 110729624 ∷ 110729625 ∷ 110729624 ∷ []),
      (55364812 ∷ 2103862856 ∷ 2103862875 ∷ 2103862856 ∷ 2103862875 ∷ []),
    )
    ∷ (
      (221459250 ∷ 110729624 ∷ 110729624 ∷ 221459250 ∷ 110729624 ∷ 110729625 ∷ []),
      (110729625 ∷ 55364812 ∷ 2103862856 ∷ 2103862875 ∷ 2103862856 ∷ 2103862875 ∷ []),
    )
    ∷ (
      (221459250 ∷ 110729624 ∷ 110729625 ∷ 110729624 ∷ 110729625 ∷ []),
      (55364812 ∷ 110729625 ∷ 2103862856 ∷ 2103862875 ∷ 2103862856 ∷ []),
    )
    ∷ (
      (221459250 ∷ 110729624 ∷ 110729625 ∷ 110729624 ∷ 221459250 ∷ 55364812 ∷ []),
      (110729625 ∷ 110729624 ∷ 110729625 ∷ 2103862856 ∷ 2103862875 ∷ 2103862856 ∷ []),
    )
    ∷ (
      (221459250 ∷ 110729624 ∷ 221459250 ∷ 110729625 ∷ 110729624 ∷ []),
      (55364812 ∷ 110729625 ∷ 55364812 ∷ 2103862856 ∷ 2103862875 ∷ []),
    )
    ∷ (
      (221459250 ∷ 110729624 ∷ 221459250 ∷ 110729624 ∷ 110729624 ∷ 110729625 ∷ []),
      (110729625 ∷ 110729624 ∷ 110729625 ∷ 55364812 ∷ 2103862856 ∷ 2103862875 ∷ []),
    )
    ∷ (
      (221459250 ∷ 110729624 ∷ 221459250 ∷ 110729624 ∷ 110729625 ∷ []),
      (55364812 ∷ 110729625 ∷ 55364812 ∷ 110729625 ∷ 2103862856 ∷ []),
    )
    ∷ (
      (221459250 ∷ 110729624 ∷ 221459250 ∷ 110729624 ∷ 110729625 ∷ 55364812 ∷ []),
      (110729625 ∷ 110729624 ∷ 110729625 ∷ 110729624 ∷ 110729625 ∷ 2103862856 ∷ []),
    )
    ∷ (
      (221459250 ∷ 110729624 ∷ 221459250 ∷ 110729624 ∷ 221459250 ∷ []),
      (55364812 ∷ 110729625 ∷ 55364812 ∷ 110729625 ∷ 55364812 ∷ []),
    )
    ∷ []

module _ (f0 f1 f2 f3 f4 f5 f6 f7 f8 f9 : ℤ)
    (h : AtMost (f0 ∷ f1 ∷ f2 ∷ f3 ∷ f4 ∷ f5 ∷ f6 ∷ f7 ∷ f8 ∷ f9 ∷ []) wide) where
  left_0 :
      AtMost
        (f0 ∷ (f1 *ℤ pos 2) ∷ (f2 *ℤ pos 2) ∷ (f3 *ℤ pos 2) ∷ (f4 *ℤ pos 2) ∷ f5 ∷ [])
        (110729625 ∷ 110729624 ∷ 221459250 ∷ 110729624 ∷ 221459250 ∷ 55364812 ∷ [])
  left_0 = omega (arith, times_size)

  right_0 :
      AtMost
        (f0
          ∷ (f9 *ℤ pos 38)
          ∷ (f8 *ℤ pos 19)
          ∷ (f7 *ℤ pos 38)
          ∷ (f6 *ℤ pos 19)
          ∷ (f5 *ℤ pos 38)
          ∷ [])
        (110729625 ∷ 2103862856 ∷ 2103862875 ∷ 2103862856 ∷ 2103862875 ∷ 2103862856 ∷ [])
  right_0 = omega (arith, times_size)

  left_1 :
      AtMost
        ((f0 *ℤ pos 2) ∷ f2 ∷ (f3 *ℤ pos 2) ∷ f4 ∷ (f5 *ℤ pos 2) ∷ [])
        (221459250 ∷ 110729625 ∷ 110729624 ∷ 110729625 ∷ 110729624 ∷ [])
  left_1 = omega (arith, times_size)

  right_1 :
      AtMost
        (f1 ∷ (f9 *ℤ pos 38) ∷ (f8 *ℤ pos 19) ∷ (f7 *ℤ pos 38) ∷ (f6 *ℤ pos 19) ∷ [])
        (55364812 ∷ 2103862856 ∷ 2103862875 ∷ 2103862856 ∷ 2103862875 ∷ [])
  right_1 = omega (arith, times_size)

  left_2 :
      AtMost
        ((f0 *ℤ pos 2) ∷ (f1 *ℤ pos 2) ∷ (f3 *ℤ pos 2) ∷ (f4 *ℤ pos 2) ∷ (f5 *ℤ pos 2) ∷ f6 ∷ [])
        (221459250 ∷ 110729624 ∷ 110729624 ∷ 221459250 ∷ 110729624 ∷ 110729625 ∷ [])
  left_2 = omega (arith, times_size)

  right_2 :
      AtMost
        (f2 ∷ f1 ∷ (f9 *ℤ pos 38) ∷ (f8 *ℤ pos 19) ∷ (f7 *ℤ pos 38) ∷ (f6 *ℤ pos 19) ∷ [])
        (110729625 ∷ 55364812 ∷ 2103862856 ∷ 2103862875 ∷ 2103862856 ∷ 2103862875 ∷ [])
  right_2 = omega (arith, times_size)

  left_3 :
      AtMost
        ((f0 *ℤ pos 2) ∷ (f1 *ℤ pos 2) ∷ f4 ∷ (f5 *ℤ pos 2) ∷ f6 ∷ [])
        (221459250 ∷ 110729624 ∷ 110729625 ∷ 110729624 ∷ 110729625 ∷ [])
  left_3 = omega (arith, times_size)

  right_3 :
      AtMost
        (f3 ∷ f2 ∷ (f9 *ℤ pos 38) ∷ (f8 *ℤ pos 19) ∷ (f7 *ℤ pos 38) ∷ [])
        (55364812 ∷ 110729625 ∷ 2103862856 ∷ 2103862875 ∷ 2103862856 ∷ [])
  right_3 = omega (arith, times_size)

  left_4 :
      AtMost
        ((f0 *ℤ pos 2) ∷ (f1 *ℤ pos 2) ∷ f2 ∷ (f5 *ℤ pos 2) ∷ (f6 *ℤ pos 2) ∷ f7 ∷ [])
        (221459250 ∷ 110729624 ∷ 110729625 ∷ 110729624 ∷ 221459250 ∷ 55364812 ∷ [])
  left_4 = omega (arith, times_size)

  right_4 :
      AtMost
        (f4 ∷ (f3 *ℤ pos 2) ∷ f2 ∷ (f9 *ℤ pos 38) ∷ (f8 *ℤ pos 19) ∷ (f7 *ℤ pos 38) ∷ [])
        (110729625 ∷ 110729624 ∷ 110729625 ∷ 2103862856 ∷ 2103862875 ∷ 2103862856 ∷ [])
  right_4 = omega (arith, times_size)

  left_5 :
      AtMost
        ((f0 *ℤ pos 2) ∷ (f1 *ℤ pos 2) ∷ (f2 *ℤ pos 2) ∷ f6 ∷ (f7 *ℤ pos 2) ∷ [])
        (221459250 ∷ 110729624 ∷ 221459250 ∷ 110729625 ∷ 110729624 ∷ [])
  left_5 = omega (arith, times_size)

  right_5 :
      AtMost
        (f5 ∷ f4 ∷ f3 ∷ (f9 *ℤ pos 38) ∷ (f8 *ℤ pos 19) ∷ [])
        (55364812 ∷ 110729625 ∷ 55364812 ∷ 2103862856 ∷ 2103862875 ∷ [])
  right_5 = omega (arith, times_size)

  left_6 :
      AtMost
        ((f0 *ℤ pos 2) ∷ (f1 *ℤ pos 2) ∷ (f2 *ℤ pos 2) ∷ (f3 *ℤ pos 2) ∷ (f7 *ℤ pos 2) ∷ f8 ∷ [])
        (221459250 ∷ 110729624 ∷ 221459250 ∷ 110729624 ∷ 110729624 ∷ 110729625 ∷ [])
  left_6 = omega (arith, times_size)

  right_6 :
      AtMost
        (f6 ∷ (f5 *ℤ pos 2) ∷ f4 ∷ f3 ∷ (f9 *ℤ pos 38) ∷ (f8 *ℤ pos 19) ∷ [])
        (110729625 ∷ 110729624 ∷ 110729625 ∷ 55364812 ∷ 2103862856 ∷ 2103862875 ∷ [])
  right_6 = omega (arith, times_size)

  left_7 :
      AtMost
        ((f0 *ℤ pos 2) ∷ (f1 *ℤ pos 2) ∷ (f2 *ℤ pos 2) ∷ (f3 *ℤ pos 2) ∷ f8 ∷ [])
        (221459250 ∷ 110729624 ∷ 221459250 ∷ 110729624 ∷ 110729625 ∷ [])
  left_7 = omega (arith, times_size)

  right_7 :
      AtMost
        (f7 ∷ f6 ∷ f5 ∷ f4 ∷ (f9 *ℤ pos 38) ∷ [])
        (55364812 ∷ 110729625 ∷ 55364812 ∷ 110729625 ∷ 2103862856 ∷ [])
  right_7 = omega (arith, times_size)

  left_8 :
      AtMost
        ((f0 *ℤ pos 2) ∷ (f1 *ℤ pos 2) ∷ (f2 *ℤ pos 2) ∷ (f3 *ℤ pos 2) ∷ f4 ∷ f9 ∷ [])
        (221459250 ∷ 110729624 ∷ 221459250 ∷ 110729624 ∷ 110729625 ∷ 55364812 ∷ [])
  left_8 = omega (arith, times_size)

  right_8 :
      AtMost
        (f8 ∷ (f7 *ℤ pos 2) ∷ f6 ∷ (f5 *ℤ pos 2) ∷ f4 ∷ (f9 *ℤ pos 38) ∷ [])
        (110729625 ∷ 110729624 ∷ 110729625 ∷ 110729624 ∷ 110729625 ∷ 2103862856 ∷ [])
  right_8 = omega (arith, times_size)

  left_9 :
      AtMost
        ((f0 *ℤ pos 2) ∷ (f1 *ℤ pos 2) ∷ (f2 *ℤ pos 2) ∷ (f3 *ℤ pos 2) ∷ (f4 *ℤ pos 2) ∷ [])
        (221459250 ∷ 110729624 ∷ 221459250 ∷ 110729624 ∷ 221459250 ∷ [])
  left_9 = omega (arith, times_size)

  right_9 :
      AtMost
        (f9 ∷ f8 ∷ f7 ∷ f6 ∷ f5 ∷ [])
        (55364812 ∷ 110729625 ∷ 55364812 ∷ 110729625 ∷ 55364812 ∷ [])
  right_9 = omega (arith, times_size)

pub sq_operands-PairsAtMost :
    (f : List ℤ) → length f ≡ 10 → AtMost f wide → PairsAtMost (sq_operands f) sq_sizes
unfolding sq_operands
sq_operands-PairsAtMost f lf hf =
    ten (λ f. AtMost f wide → PairsAtMost (sq_operands f) sq_sizes) f lf
      (λ f0 f1 f2 f3 f4 f5 f6 f7 f8 f9 p. (
        left_0 f0 f1 f2 f3 f4 f5 f6 f7 f8 f9 p,
        right_0 f0 f1 f2 f3 f4 f5 f6 f7 f8 f9 p,
        (
          left_1 f0 f1 f2 f3 f4 f5 f6 f7 f8 f9 p,
          right_1 f0 f1 f2 f3 f4 f5 f6 f7 f8 f9 p,
          (
            left_2 f0 f1 f2 f3 f4 f5 f6 f7 f8 f9 p,
            right_2 f0 f1 f2 f3 f4 f5 f6 f7 f8 f9 p,
            (
              left_3 f0 f1 f2 f3 f4 f5 f6 f7 f8 f9 p,
              right_3 f0 f1 f2 f3 f4 f5 f6 f7 f8 f9 p,
              (
                left_4 f0 f1 f2 f3 f4 f5 f6 f7 f8 f9 p,
                right_4 f0 f1 f2 f3 f4 f5 f6 f7 f8 f9 p,
                (
                  left_5 f0 f1 f2 f3 f4 f5 f6 f7 f8 f9 p,
                  right_5 f0 f1 f2 f3 f4 f5 f6 f7 f8 f9 p,
                  (
                    left_6 f0 f1 f2 f3 f4 f5 f6 f7 f8 f9 p,
                    right_6 f0 f1 f2 f3 f4 f5 f6 f7 f8 f9 p,
                    (
                      left_7 f0 f1 f2 f3 f4 f5 f6 f7 f8 f9 p,
                      right_7 f0 f1 f2 f3 f4 f5 f6 f7 f8 f9 p,
                      (
                        left_8 f0 f1 f2 f3 f4 f5 f6 f7 f8 f9 p,
                        right_8 f0 f1 f2 f3 f4 f5 f6 f7 f8 f9 p,
                        (
                          left_9 f0 f1 f2 f3 f4 f5 f6 f7 f8 f9 p,
                          right_9 f0 f1 f2 f3 f4 f5 f6 f7 f8 f9 p,
                          tt,
                        ),
                      ),
                    ),
                  ),
                ),
              ),
            ),
          ),
        ),
      ))
      hf
