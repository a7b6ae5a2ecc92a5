-- ===== src/Field/Operands.antt =====
-- The bounds in the comments of `fe_mul`, and the operands of its columns.
use bitmonero.Base.{ℕ, ◌*◌, ◌≡◌, arith, List, [], ◌∷◌, length}
use bitmonero.Base.Int.{ℤ, pos, ◌*ℤ◌}
use bitmonero.Base.Ring.{size, *ℤ_size}
use bitmonero.Field.Mul.{mul_operands}
use bitmonero.Field.Ten.{ten}
use bitmonero.Field.Sizes.{AtMost, PairsAtMost}

-- 1.65 * 2 ^ 26 and 1.65 * 2 ^ 25 in turn.
abbrev pub wide : List ℕ
wide =
    110729625 ∷ 55364812 ∷ 110729625 ∷ 55364812 ∷ 110729625 ∷ 55364812 ∷ 110729625 ∷ 55364812
    ∷ 110729625 ∷ 55364812 ∷ []

-- 1.01 * 2 ^ 25 and 1.01 * 2 ^ 24 in turn.
abbrev pub tight : List ℕ
tight =
    33889976 ∷ 16944988 ∷ 33889976 ∷ 16944988 ∷ 33889976 ∷ 16944988 ∷ 33889976 ∷ 16944988 ∷ 33889976
    ∷ 16944988 ∷ []

abbrev pub mul_sizes : List (List ℕ × List ℕ)
mul_sizes =
    (
      (110729625 ∷ 110729624 ∷ 110729625 ∷ 110729624 ∷ 110729625 ∷ 110729624 ∷ 110729625 ∷ 110729624
          ∷ 110729625 ∷ 110729624 ∷ []),
      (110729625 ∷ 1051931428 ∷ 2103862875 ∷ 1051931428 ∷ 2103862875 ∷ 1051931428 ∷ 2103862875
          ∷ 1051931428 ∷ 2103862875 ∷ 1051931428 ∷ []),
    )
    ∷ (
      (110729625 ∷ 55364812 ∷ 110729625 ∷ 55364812 ∷ 110729625 ∷ 55364812 ∷ 110729625 ∷ 55364812
          ∷ 110729625 ∷ 55364812 ∷ []),
      (55364812 ∷ 110729625 ∷ 1051931428 ∷ 2103862875 ∷ 1051931428 ∷ 2103862875 ∷ 1051931428
          ∷ 2103862875 ∷ 1051931428 ∷ 2103862875 ∷ []),
    )
    ∷ (
      (110729625 ∷ 110729624 ∷ 110729625 ∷ 110729624 ∷ 110729625 ∷ 110729624 ∷ 110729625 ∷ 110729624
          ∷ 110729625 ∷ 110729624 ∷ []),
      (110729625 ∷ 55364812 ∷ 110729625 ∷ 1051931428 ∷ 2103862875 ∷ 1051931428 ∷ 2103862875
          ∷ 1051931428 ∷ 2103862875 ∷ 1051931428 ∷ []),
    )
    ∷ (
      (110729625 ∷ 55364812 ∷ 110729625 ∷ 55364812 ∷ 110729625 ∷ 55364812 ∷ 110729625 ∷ 55364812
          ∷ 110729625 ∷ 55364812 ∷ []),
      (55364812 ∷ 110729625 ∷ 55364812 ∷ 110729625 ∷ 1051931428 ∷ 2103862875 ∷ 1051931428
          ∷ 2103862875 ∷ 1051931428 ∷ 2103862875 ∷ []),
    )
    ∷ (
      (110729625 ∷ 110729624 ∷ 110729625 ∷ 110729624 ∷ 110729625 ∷ 110729624 ∷ 110729625 ∷ 110729624
          ∷ 110729625 ∷ 110729624 ∷ []),
      (110729625 ∷ 55364812 ∷ 110729625 ∷ 55364812 ∷ 110729625 ∷ 1051931428 ∷ 2103862875
          ∷ 1051931428 ∷ 2103862875 ∷ 1051931428 ∷ []),
    )
    ∷ (
      (110729625 ∷ 55364812 ∷ 110729625 ∷ 55364812 ∷ 110729625 ∷ 55364812 ∷ 110729625 ∷ 55364812
          ∷ 110729625 ∷ 55364812 ∷ []),
      (55364812 ∷ 110729625 ∷ 55364812 ∷ 110729625 ∷ 55364812 ∷ 110729625 ∷ 1051931428 ∷ 2103862875
          ∷ 1051931428 ∷ 2103862875 ∷ []),
    )
    ∷ (
      (110729625 ∷ 110729624 ∷ 110729625 ∷ 110729624 ∷ 110729625 ∷ 110729624 ∷ 110729625 ∷ 110729624
          ∷ 110729625 ∷ 110729624 ∷ []),
      (110729625 ∷ 55364812 ∷ 110729625 ∷ 55364812 ∷ 110729625 ∷ 55364812 ∷ 110729625 ∷ 1051931428
          ∷ 2103862875 ∷ 1051931428 ∷ []),
    )
    ∷ (
      (110729625 ∷ 55364812 ∷ 110729625 ∷ 55364812 ∷ 110729625 ∷ 55364812 ∷ 110729625 ∷ 55364812
          ∷ 110729625 ∷ 55364812 ∷ []),
      (55364812 ∷ 110729625 ∷ 55364812 ∷ 110729625 ∷ 55364812 ∷ 110729625 ∷ 55364812 ∷ 110729625
          ∷ 1051931428 ∷ 2103862875 ∷ []),
    )
    ∷ (
      (110729625 ∷ 110729624 ∷ 110729625 ∷ 110729624 ∷ 110729625 ∷ 110729624 ∷ 110729625 ∷ 110729624
          ∷ 110729625 ∷ 110729624 ∷ []),
      (110729625 ∷ 55364812 ∷ 110729625 ∷ 55364812 ∷ 110729625 ∷ 55364812 ∷ 110729625 ∷ 55364812
          ∷ 110729625 ∷ 1051931428 ∷ []),
    )
    ∷ (
      (110729625 ∷ 55364812 ∷ 110729625 ∷ 55364812 ∷ 110729625 ∷ 55364812 ∷ 110729625 ∷ 55364812
          ∷ 110729625 ∷ 55364812 ∷ []),
      (55364812 ∷ 110729625 ∷ 55364812 ∷ 110729625 ∷ 55364812 ∷ 110729625 ∷ 55364812 ∷ 110729625
          ∷ 55364812 ∷ 110729625 ∷ []),
    )
    ∷ []

-- The size of a multiple.
pub times_size : (x : ℤ) (k : ℕ) → size (x *ℤ pos k) ≡ k * size x
times_size x k = rw (*ℤ_size x (pos k)) (omega arith)

module _ (f0 f1 f2 f3 f4 f5 f6 f7 f8 f9 : ℤ)
    (h : AtMost (f0 ∷ f1 ∷ f2 ∷ f3 ∷ f4 ∷ f5 ∷ f6 ∷ f7 ∷ f8 ∷ f9 ∷ []) wide) where
  twice_sizes :
      AtMost
        (f0
          ∷ (f1 *ℤ pos 2)
          ∷ f2
          ∷ (f3 *ℤ pos 2)
          ∷ f4
          ∷ (f5 *ℤ pos 2)
          ∷ f6
          ∷ (f7 *ℤ pos 2)
          ∷ f8
          ∷ (f9 *ℤ pos 2)
          ∷ [])
        (110729625 ∷ 110729624 ∷ 110729625 ∷ 110729624 ∷ 110729625 ∷ 110729624 ∷ 110729625
          ∷ 110729624 ∷ 110729625 ∷ 110729624 ∷ [])
  twice_sizes = omega (arith, times_size)

module _ (g0 g1 g2 g3 g4 g5 g6 g7 g8 g9 : ℤ)
    (h : AtMost (g0 ∷ g1 ∷ g2 ∷ g3 ∷ g4 ∷ g5 ∷ g6 ∷ g7 ∷ g8 ∷ g9 ∷ []) wide) where
  right_0 :
      AtMost
        (g0
          ∷ (g9 *ℤ pos 19)
          ∷ (g8 *ℤ pos 19)
          ∷ (g7 *ℤ pos 19)
          ∷ (g6 *ℤ pos 19)
          ∷ (g5 *ℤ pos 19)
          ∷ (g4 *ℤ pos 19)
          ∷ (g3 *ℤ pos 19)
          ∷ (g2 *ℤ pos 19)
          ∷ (g1 *ℤ pos 19)
          ∷ [])
        (110729625 ∷ 1051931428 ∷ 2103862875 ∷ 1051931428 ∷ 2103862875 ∷ 1051931428 ∷ 2103862875
          ∷ 1051931428 ∷ 2103862875 ∷ 1051931428 ∷ [])
  right_0 = omega (arith, times_size)

  right_1 :
      AtMost
        (g1
          ∷ g0
          ∷ (g9 *ℤ pos 19)
          ∷ (g8 *ℤ pos 19)
          ∷ (g7 *ℤ pos 19)
          ∷ (g6 *ℤ pos 19)
          ∷ (g5 *ℤ pos 19)
          ∷ (g4 *ℤ pos 19)
          ∷ (g3 *ℤ pos 19)
          ∷ (g2 *ℤ pos 19)
          ∷ [])
        (55364812 ∷ 110729625 ∷ 1051931428 ∷ 2103862875 ∷ 1051931428 ∷ 2103862875 ∷ 1051931428
          ∷ 2103862875 ∷ 1051931428 ∷ 2103862875 ∷ [])
  right_1 = omega (arith, times_size)

  right_2 :
      AtMost
        (g2
          ∷ g1
          ∷ g0
          ∷ (g9 *ℤ pos 19)
          ∷ (g8 *ℤ pos 19)
          ∷ (g7 *ℤ pos 19)
          ∷ (g6 *ℤ pos 19)
          ∷ (g5 *ℤ pos 19)
          ∷ (g4 *ℤ pos 19)
          ∷ (g3 *ℤ pos 19)
          ∷ [])
        (110729625 ∷ 55364812 ∷ 110729625 ∷ 1051931428 ∷ 2103862875 ∷ 1051931428 ∷ 2103862875
          ∷ 1051931428 ∷ 2103862875 ∷ 1051931428 ∷ [])
  right_2 = omega (arith, times_size)

  right_3 :
      AtMost
        (g3
          ∷ g2
          ∷ g1
          ∷ g0
          ∷ (g9 *ℤ pos 19)
          ∷ (g8 *ℤ pos 19)
          ∷ (g7 *ℤ pos 19)
          ∷ (g6 *ℤ pos 19)
          ∷ (g5 *ℤ pos 19)
          ∷ (g4 *ℤ pos 19)
          ∷ [])
        (55364812 ∷ 110729625 ∷ 55364812 ∷ 110729625 ∷ 1051931428 ∷ 2103862875 ∷ 1051931428
          ∷ 2103862875 ∷ 1051931428 ∷ 2103862875 ∷ [])
  right_3 = omega (arith, times_size)

  right_4 :
      AtMost
        (g4
          ∷ g3
          ∷ g2
          ∷ g1
          ∷ g0
          ∷ (g9 *ℤ pos 19)
          ∷ (g8 *ℤ pos 19)
          ∷ (g7 *ℤ pos 19)
          ∷ (g6 *ℤ pos 19)
          ∷ (g5 *ℤ pos 19)
          ∷ [])
        (110729625 ∷ 55364812 ∷ 110729625 ∷ 55364812 ∷ 110729625 ∷ 1051931428 ∷ 2103862875
          ∷ 1051931428 ∷ 2103862875 ∷ 1051931428 ∷ [])
  right_4 = omega (arith, times_size)

  right_5 :
      AtMost
        (g5
          ∷ g4
          ∷ g3
          ∷ g2
          ∷ g1
          ∷ g0
          ∷ (g9 *ℤ pos 19)
          ∷ (g8 *ℤ pos 19)
          ∷ (g7 *ℤ pos 19)
          ∷ (g6 *ℤ pos 19)
          ∷ [])
        (55364812 ∷ 110729625 ∷ 55364812 ∷ 110729625 ∷ 55364812 ∷ 110729625 ∷ 1051931428
          ∷ 2103862875 ∷ 1051931428 ∷ 2103862875 ∷ [])
  right_5 = omega (arith, times_size)

  right_6 :
      AtMost
        (g6 ∷ g5 ∷ g4 ∷ g3 ∷ g2 ∷ g1 ∷ g0 ∷ (g9 *ℤ pos 19) ∷ (g8 *ℤ pos 19) ∷ (g7 *ℤ pos 19) ∷ [])
        (110729625 ∷ 55364812 ∷ 110729625 ∷ 55364812 ∷ 110729625 ∷ 55364812 ∷ 110729625 ∷ 1051931428
          ∷ 2103862875 ∷ 1051931428 ∷ [])
  right_6 = omega (arith, times_size)

  right_7 : AtMost (g7 ∷ g6 ∷ g5 ∷ g4 ∷ g3 ∷ g2 ∷ g1 ∷ g0 ∷ (g9 *ℤ pos 19) ∷ (g8 *ℤ pos 19) ∷ []) (
      55364812 ∷ 110729625 ∷ 55364812 ∷ 110729625 ∷ 55364812 ∷ 110729625 ∷ 55364812 ∷ 110729625
      ∷ 1051931428 ∷ 2103862875 ∷ [])
  right_7 = omega (arith, times_size)

  right_8 : AtMost (g8 ∷ g7 ∷ g6 ∷ g5 ∷ g4 ∷ g3 ∷ g2 ∷ g1 ∷ g0 ∷ (g9 *ℤ pos 19) ∷ []) (
      110729625 ∷ 55364812 ∷ 110729625 ∷ 55364812 ∷ 110729625 ∷ 55364812 ∷ 110729625 ∷ 55364812
      ∷ 110729625 ∷ 1051931428 ∷ [])
  right_8 = omega (arith, times_size)

  right_9 : AtMost (g9 ∷ g8 ∷ g7 ∷ g6 ∷ g5 ∷ g4 ∷ g3 ∷ g2 ∷ g1 ∷ g0 ∷ []) (
      55364812 ∷ 110729625 ∷ 55364812 ∷ 110729625 ∷ 55364812 ∷ 110729625 ∷ 55364812 ∷ 110729625
      ∷ 55364812 ∷ 110729625 ∷ [])
  right_9 = omega (arith, times_size)

-- The factors of `fe_mul` on operands in the bounds.
pub mul_operands-PairsAtMost :
    (f g : List ℤ)
    → length f ≡ 10
    → length g ≡ 10
    → AtMost f wide
    → AtMost g wide
    → PairsAtMost (mul_operands f g) mul_sizes
unfolding mul_operands
mul_operands-PairsAtMost f g lf lg hf hg =
    ten (λ f. AtMost f wide → PairsAtMost (mul_operands f g) mul_sizes) f lf
      (λ f0 f1 f2 f3 f4 f5 f6 f7 f8 f9.
        let f : List ℤ = f0 ∷ f1 ∷ f2 ∷ f3 ∷ f4 ∷ f5 ∷ f6 ∷ f7 ∷ f8 ∷ f9 ∷ [] in
        ten (λ g. AtMost g wide → AtMost f wide → PairsAtMost (mul_operands f g) mul_sizes) g lg
          (λ g0 g1 g2 g3 g4 g5 g6 g7 g8 g9 q p. (
            twice_sizes f0 f1 f2 f3 f4 f5 f6 f7 f8 f9 p,
            right_0 g0 g1 g2 g3 g4 g5 g6 g7 g8 g9 q,
            (
              p,
              right_1 g0 g1 g2 g3 g4 g5 g6 g7 g8 g9 q,
              (
                twice_sizes f0 f1 f2 f3 f4 f5 f6 f7 f8 f9 p,
                right_2 g0 g1 g2 g3 g4 g5 g6 g7 g8 g9 q,
                (
                  p,
                  right_3 g0 g1 g2 g3 g4 g5 g6 g7 g8 g9 q,
                  (
                    twice_sizes f0 f1 f2 f3 f4 f5 f6 f7 f8 f9 p,
                    right_4 g0 g1 g2 g3 g4 g5 g6 g7 g8 g9 q,
                    (
                      p,
                      right_5 g0 g1 g2 g3 g4 g5 g6 g7 g8 g9 q,
                      (
                        twice_sizes f0 f1 f2 f3 f4 f5 f6 f7 f8 f9 p,
                        right_6 g0 g1 g2 g3 g4 g5 g6 g7 g8 g9 q,
                        (
                          p,
                          right_7 g0 g1 g2 g3 g4 g5 g6 g7 g8 g9 q,
                          (
                            twice_sizes f0 f1 f2 f3 f4 f5 f6 f7 f8 f9 p,
                            right_8 g0 g1 g2 g3 g4 g5 g6 g7 g8 g9 q,
                            (p, right_9 g0 g1 g2 g3 g4 g5 g6 g7 g8 g9 q, tt),
                          ),
                        ),
                      ),
                    ),
                  ),
                ),
              ),
            ),
          ))
          hg)
      hf
