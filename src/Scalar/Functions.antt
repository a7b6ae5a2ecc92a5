-- ===== src/Scalar/Functions.antt =====
-- src/crypto/crypto-ops.c: the scalar functions, put together from their parts.
use bitmonero.Base.{ℕ, zero, suc, ◌+◌, ◌*◌, List, [], ◌∷◌, ◌++◌, map, replicate}
use bitmonero.Base.Int.{ℤ, pos, ◌+ℤ◌, ◌-ℤ◌, ◌*ℤ◌}
use bitmonero.Scalar.Limbs.{Op, carry_round, fold, step, run, final_ops}
use bitmonero.Scalar.Codec.{limbs, wide_limbs, pack}

-- `carry_round` at k, k + 2, …, and `fold` at k + n - 1, …, k.
abbrev pub rounds : ℕ → ℕ → List Op
rounds k zero = []
rounds k (suc n) = carry_round k ∷ rounds (2 + k) n

abbrev pub folds : ℕ → ℕ → List Op
folds k zero = []
folds k (suc n) = fold (k + n) ∷ folds k n

-- The blocks before the final ones: of `sc_reduce32`, `sc_add` and `sc_sub`; of `sc_reduce`; and
-- of `sc_mulsub`.
abbrev pub settle_ops : List Op
settle_ops = rounds 0 6 ++ (rounds 1 6 ++ (fold 0 ∷ []))

abbrev pub reduce_ops : List Op
reduce_ops = folds 6 6 ++ (rounds 6 6 ++ (rounds 7 5 ++ (folds 0 6 ++ settle_ops)))

abbrev pub mulsub_ops : List Op
mulsub_ops = rounds 0 12 ++ (rounds 1 11 ++ reduce_ops)

-- The rest of a function once its limbs are set.
unfoldable pub finish : List Op → List ℤ → List ℕ
unfolding run step pack ◌+ℤ◌ ◌-ℤ◌ ◌*ℤ◌
finish os s = pack (run final_ops (run os s))

unfoldable pub sc_0 : List ℕ
sc_0 = replicate 32 0

unfoldable pub sc_reduce : List ℕ → List ℕ
unfolding wide_limbs finish
sc_reduce s = finish reduce_ops (map pos (wide_limbs s))

-- s12 is 0 at first.
unfoldable pub sc_reduce32 : List ℕ → List ℕ
unfolding limbs finish
sc_reduce32 s = finish settle_ops (map pos (limbs s) ++ (pos 0 ∷ []))

abbrev pub zip_with : (ℤ → ℤ → ℤ) → List ℕ → List ℕ → List ℤ
zip_with f [] s = []
zip_with f (a ∷ r) [] = []
zip_with f (a ∷ r) (b ∷ s) = f (pos a) (pos b) ∷ zip_with f r s

unfoldable pub sc_add : List ℕ → List ℕ → List ℕ
unfolding limbs finish ◌+ℤ◌
sc_add a b = finish settle_ops (zip_with ◌+ℤ◌ (limbs a) (limbs b) ++ (pos 0 ∷ []))

unfoldable pub sc_sub : List ℕ → List ℕ → List ℕ
unfolding limbs finish ◌-ℤ◌
sc_sub a b = finish settle_ops (zip_with ◌-ℤ◌ (limbs a) (limbs b) ++ (pos 0 ∷ []))

-- s0 to s23 of `sc_mulsub`. The limbs are not negative, so the sums of products are numbers.
unfoldable pub mulsub_limbs : List ℕ → List ℕ → List ℕ → List ℤ
unfolding ◌-ℤ◌
mulsub_limbs (a0 ∷ a1 ∷ a2 ∷ a3 ∷ a4 ∷ a5 ∷ a6 ∷ a7 ∷ a8 ∷ a9 ∷ a10 ∷ a11 ∷ [])
      (b0 ∷ b1 ∷ b2 ∷ b3 ∷ b4 ∷ b5 ∷ b6 ∷ b7 ∷ b8 ∷ b9 ∷ b10 ∷ b11 ∷ [])
      (c0 ∷ c1 ∷ c2 ∷ c3 ∷ c4 ∷ c5 ∷ c6 ∷ c7 ∷ c8 ∷ c9 ∷ c10 ∷ c11 ∷ []) =
    (pos c0 -ℤ pos (a0 * b0))
    ∷ (pos c1 -ℤ pos (a0 * b1 + a1 * b0))
    ∷ (pos c2 -ℤ pos (a0 * b2 + a1 * b1 + a2 * b0))
    ∷ (pos c3 -ℤ pos (a0 * b3 + a1 * b2 + a2 * b1 + a3 * b0))
    ∷ (pos c4 -ℤ pos (a0 * b4 + a1 * b3 + a2 * b2 + a3 * b1 + a4 * b0))
    ∷ (pos c5 -ℤ pos (a0 * b5 + a1 * b4 + a2 * b3 + a3 * b2 + a4 * b1 + a5 * b0))
    ∷ (pos c6 -ℤ pos (a0 * b6 + a1 * b5 + a2 * b4 + a3 * b3 + a4 * b2 + a5 * b1 + a6 * b0))
    ∷ (pos c7
        -ℤ pos (a0 * b7 + a1 * b6 + a2 * b5 + a3 * b4 + a4 * b3 + a5 * b2 + a6 * b1 + a7 * b0))
    ∷ (pos c8
        -ℤ pos (
            a0 * b8
            + a1 * b7
            + a2 * b6
            + a3 * b5
            + a4 * b4
            + a5 * b3
            + a6 * b2
            + a7 * b1
            + a8 * b0))
    ∷ (pos c9
        -ℤ pos (
            a0 * b9
            + a1 * b8
            + a2 * b7
            + a3 * b6
            + a4 * b5
            + a5 * b4
            + a6 * b3
            + a7 * b2
            + a8 * b1
            + a9 * b0))
    ∷ (pos c10
        -ℤ pos (
            a0 * b10
            + a1 * b9
            + a2 * b8
            + a3 * b7
            + a4 * b6
            + a5 * b5
            + a6 * b4
            + a7 * b3
            + a8 * b2
            + a9 * b1
            + a10 * b0))
    ∷ (pos c11
        -ℤ pos (
            a0 * b11
            + a1 * b10
            + a2 * b9
            + a3 * b8
            + a4 * b7
            + a5 * b6
            + a6 * b5
            + a7 * b4
            + a8 * b3
            + a9 * b2
            + a10 * b1
            + a11 * b0))
    ∷ (pos 0
        -ℤ pos (
            a1 * b11
            + a2 * b10
            + a3 * b9
            + a4 * b8
            + a5 * b7
            + a6 * b6
            + a7 * b5
            + a8 * b4
            + a9 * b3
            + a10 * b2
            + a11 * b1))
    ∷ (pos 0
        -ℤ pos (
            a2 * b11
            + a3 * b10
            + a4 * b9
            + a5 * b8
            + a6 * b7
            + a7 * b6
            + a8 * b5
            + a9 * b4
            + a10 * b3
            + a11 * b2))
    ∷ (pos 0
        -ℤ pos (
            a3 * b11
            + a4 * b10
            + a5 * b9
            + a6 * b8
            + a7 * b7
            + a8 * b6
            + a9 * b5
            + a10 * b4
            + a11 * b3))
    ∷ (pos 0
        -ℤ pos (a4 * b11 + a5 * b10 + a6 * b9 + a7 * b8 + a8 * b7 + a9 * b6 + a10 * b5 + a11 * b4))
    ∷ (pos 0 -ℤ pos (a5 * b11 + a6 * b10 + a7 * b9 + a8 * b8 + a9 * b7 + a10 * b6 + a11 * b5))
    ∷ (pos 0 -ℤ pos (a6 * b11 + a7 * b10 + a8 * b9 + a9 * b8 + a10 * b7 + a11 * b6))
    ∷ (pos 0 -ℤ pos (a7 * b11 + a8 * b10 + a9 * b9 + a10 * b8 + a11 * b7))
    ∷ (pos 0 -ℤ pos (a8 * b11 + a9 * b10 + a10 * b9 + a11 * b8))
    ∷ (pos 0 -ℤ pos (a9 * b11 + a10 * b10 + a11 * b9))
    ∷ (pos 0 -ℤ pos (a10 * b11 + a11 * b10))
    ∷ (pos 0 -ℤ pos (a11 * b11))
    ∷ pos 0
    ∷ []
mulsub_limbs a b c = []

unfoldable pub sc_mulsub : List ℕ → List ℕ → List ℕ → List ℕ
unfolding limbs finish mulsub_limbs
sc_mulsub a b c = finish mulsub_ops (mulsub_limbs (limbs a) (limbs b) (limbs c))
