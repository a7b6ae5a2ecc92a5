-- ===== src/Scalar/Limbs.antt =====
-- src/crypto/crypto-ops.c, the statements of `sc_reduce`, `sc_reduce32`, `sc_add`, `sc_sub` and
-- `sc_mulsub` on their local variables s0, s1, …: signed numbers that stand for the sum of
-- s_i * 2 ^ (21 * i). The variables are a list, lowest first, and a statement is an `Op`.
use bitmonero.Base.{ℕ, zero, suc, ◌+◌, ◌^◌, List, [], ◌∷◌, ◌++◌, get_or, set}
use bitmonero.Base.Int.{ℤ, pos, ◌+ℤ◌, ◌-ℤ◌, ◌*ℤ◌, ◌>>ℤ◌, ◌<<ℤ◌}

-- `carry_round k` is `carry = (s_k + (1<<20)) >> 21; s_(k+1) += carry; s_k -= carry << 21;`.
-- `carry_floor k` is the same without the rounding term.
-- `fold j` is `s_j += s_(j+12) * 666643; … s_(j+5) -= s_(j+12) * 683901;`. No statement reads
-- s_(j+12) after that before it is assigned 0, so `fold` assigns 0 at once.
pub data Op : Type 0 where
  carry_round : ℕ → Op
  carry_floor : ℕ → Op
  fold : ℕ → Op

abbrev pub half : ℤ
half = pos (2 ^ 20)

unfoldable pub carry : ℤ → ℕ → List ℤ → List ℤ
carry b zero [] = []
carry b zero (x ∷ []) = x ∷ []
carry b zero (x ∷ y ∷ r) = let c = (x +ℤ b) >>ℤ 21 in (x -ℤ (c <<ℤ 21)) ∷ (y +ℤ c) ∷ r
carry b (suc k) [] = []
carry b (suc k) (x ∷ r) = x ∷ carry b k r

-- The six statements that add the multiples of `z` to the limbs from `j` on.
unfoldable pub add_multiples : ℕ → ℤ → List ℤ → List ℤ
add_multiples (suc j) z [] = []
add_multiples (suc j) z (x ∷ r) = x ∷ add_multiples j z r
add_multiples zero z (x0 ∷ x1 ∷ x2 ∷ x3 ∷ x4 ∷ x5 ∷ r) =
    (x0 +ℤ z *ℤ pos 666643)
    ∷ (x1 +ℤ z *ℤ pos 470296)
    ∷ (x2 +ℤ z *ℤ pos 654183)
    ∷ (x3 -ℤ z *ℤ pos 997805)
    ∷ (x4 +ℤ z *ℤ pos 136657)
    ∷ (x5 -ℤ z *ℤ pos 683901)
    ∷ r
add_multiples zero z s = s

unfoldable pub step : Op → List ℤ → List ℤ
unfolding carry add_multiples
step (carry_round k) s = carry half k s
step (carry_floor k) s = carry (pos 0) k s
step (fold j) s = add_multiples j (get_or s (12 + j) (pos 0)) (set s (12 + j) (pos 0))

unfoldable pub run : List Op → List ℤ → List ℤ
run [] s = s
run (o ∷ os) s = run os (step o s)

-- `carry_floor` at k, k + 1, …, one after the other.
abbrev pub floors : ℕ → ℕ → List Op
floors k zero = []
floors k (suc n) = carry_floor k ∷ floors (suc k) n

-- The three last blocks of each function: two chains of carries around a fold of s12.
abbrev pub final_ops : List Op
final_ops = floors 0 12 ++ (fold 0 ∷ floors 0 11)
