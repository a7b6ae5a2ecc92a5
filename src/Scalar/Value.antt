-- ===== src/Scalar/Value.antt =====
-- The number that the limbs stand for, and what each statement does to it.
use bitmonero.Base.{ℕ, zero, suc, ◌+◌, ◌*◌, ◌<◌, ◌≡◌, refl, arith}
use bitmonero.Base.{List, [], ◌∷◌, get_or, set, length, length-set, All, ◌∙◌}
use bitmonero.Base.Int.{ℤ, pos, pos_part, neg_part, ◌+ℤ◌, ◌-ℤ◌, ◌>>ℤ◌, ◌<<ℤ◌, int_laws}
use bitmonero.Scalar.Limbs.{Op, carry_round, carry_floor, fold, half}
use bitmonero.Scalar.Limbs.{carry, add_multiples, step, run}

-- The group order, 2 ^ 252 + 27742317777372353535851937790883648493.
abbrev pub order : ℕ
order = 7237005577332262213973186563042994240857116359379907606001950938285454250989

abbrev pub order_tail : ℕ
order_tail = 27742317777372353535851937790883648493

-- The sum of the positive limbs and of the negative ones.
abbrev pub up : List ℤ → ℕ
up [] = 0
up (x ∷ r) = pos_part x + 2097152 * up r

abbrev pub down : List ℤ → ℕ
down [] = 0
down (x ∷ r) = neg_part x + 2097152 * down r

-- Two lists of limbs stand for one number.
abbrev pub SameValue : List ℤ → List ℤ → Type 0
SameValue s t = up s + down t ≡ up t + down s

abbrev shl : ℕ → ℕ → ℕ
shl zero n = n
shl (suc j) n = 2097152 * shl j n

pub length-carry : (b : ℤ) (k : ℕ) (s : List ℤ) → length (carry b k s) ≡ length s
unfolding carry
length-carry b zero [] = refl
length-carry b zero (x ∷ []) = refl
length-carry b zero (x ∷ y ∷ r) = refl
length-carry b (suc k) [] = refl
length-carry b (suc k) (x ∷ r) = omega (arith, length-carry b k r)

pub carry-SameValue : (b : ℤ) (k : ℕ) (s : List ℤ) → suc k < length s → SameValue (carry b k s) s
unfolding carry
carry-SameValue b zero [] h = refl
carry-SameValue b zero (x ∷ []) h = refl
carry-SameValue b zero (x ∷ y ∷ r) h = let c = (x +ℤ b) >>ℤ 21 in one_carry x y c (up r) (down r)
  where
    one_carry :
        (x y c : ℤ) (u d : ℕ)
        → pos_part (x -ℤ (c <<ℤ 21))
            + 2097152 * (pos_part (y +ℤ c) + 2097152 * u)
            + (neg_part x + 2097152 * (neg_part y + 2097152 * d))
          ≡ pos_part x
            + 2097152 * (pos_part y + 2097152 * u)
            + (neg_part (x -ℤ (c <<ℤ 21)) + 2097152 * (neg_part (y +ℤ c) + 2097152 * d))
    one_carry x y c u d = omega int_laws
carry-SameValue b (suc k) [] h = refl
carry-SameValue b (suc k) (x ∷ r) h = omega (arith, carry-SameValue b k r (omega arith))

pub length-add_multiples : (j : ℕ) (z : ℤ) (s : List ℤ) → length (add_multiples j z s) ≡ length s
unfolding add_multiples
length-add_multiples (suc j) z [] = refl
length-add_multiples (suc j) z (x ∷ r) = omega (arith, length-add_multiples j z r)
length-add_multiples zero z [] = refl
length-add_multiples zero z (x0 ∷ []) = refl
length-add_multiples zero z (x0 ∷ x1 ∷ []) = refl
length-add_multiples zero z (x0 ∷ x1 ∷ x2 ∷ []) = refl
length-add_multiples zero z (x0 ∷ x1 ∷ x2 ∷ x3 ∷ []) = refl
length-add_multiples zero z (x0 ∷ x1 ∷ x2 ∷ x3 ∷ x4 ∷ []) = refl
length-add_multiples zero z (x0 ∷ x1 ∷ x2 ∷ x3 ∷ x4 ∷ x5 ∷ r) = refl

-- Adding the multiples takes `z` times the low part of the order away, at limb `j`.
add_multiples_value :
    (j : ℕ) (z : ℤ) (s : List ℤ)
    → 5 + j < length s
    → up (add_multiples j z s) + shl j (order_tail * pos_part z) + down s
      ≡ up s + down (add_multiples j z s) + shl j (order_tail * neg_part z)
unfolding add_multiples
add_multiples_value (suc j) z [] h = absurd (omega arith)
add_multiples_value (suc j) z (x ∷ r) h = omega (arith, add_multiples_value j z r (omega arith))
add_multiples_value zero z [] h = absurd (omega arith)
add_multiples_value zero z (x0 ∷ []) h = absurd (omega arith)
add_multiples_value zero z (x0 ∷ x1 ∷ []) h = absurd (omega arith)
add_multiples_value zero z (x0 ∷ x1 ∷ x2 ∷ []) h = absurd (omega arith)
add_multiples_value zero z (x0 ∷ x1 ∷ x2 ∷ x3 ∷ []) h = absurd (omega arith)
add_multiples_value zero z (x0 ∷ x1 ∷ x2 ∷ x3 ∷ x4 ∷ []) h = absurd (omega arith)
add_multiples_value zero z (x0 ∷ x1 ∷ x2 ∷ x3 ∷ x4 ∷ x5 ∷ r) h = omega int_laws

shl-zero : (n : ℕ) → shl n 0 ≡ 0
shl-zero zero = refl
shl-zero (suc n) = omega (arith, shl-zero n)

set_value :
    (n : ℕ) (s : List ℤ) → up (set s n (pos 0)) + shl n (pos_part (get_or s n (pos 0))) ≡ up s
set_value zero [] = refl
set_value (suc n) [] = omega (arith, shl-zero n)
set_value zero (x ∷ r) = omega arith
set_value (suc n) (x ∷ r) = omega (arith, set_value n r)

set_value_down :
    (n : ℕ) (s : List ℤ) → down (set s n (pos 0)) + shl n (neg_part (get_or s n (pos 0))) ≡ down s
set_value_down zero [] = refl
set_value_down (suc n) [] = omega (arith, shl-zero n)
set_value_down zero (x ∷ r) = omega arith
set_value_down (suc n) (x ∷ r) = omega (arith, set_value_down n r)

-- Limb 12 + j counts 2 ^ 252 times as much as limb `j`.
shl_twelve : (j n : ℕ) → shl (12 + j) n + shl j (order_tail * n) ≡ order * shl j n
shl_twelve zero n = omega arith
shl_twelve (suc j) n =
    let e : 12 + suc j ≡ suc (12 + j) = omega arith in rw e (omega (arith, shl_twelve j n))

-- A fold takes away a multiple of the order.
pub fold_value :
    (j : ℕ) (s : List ℤ)
    → 12 + j < length s
    → let z = get_or s (12 + j) (pos 0) in
      up (step (fold j) s) + order * shl j (pos_part z) + down s
      ≡ up s + down (step (fold j) s) + order * shl j (neg_part z)
unfolding step
fold_value j s h =
    let z = get_or s (12 + j) (pos 0) in
    let t = set s (12 + j) (pos 0) in
    omega (
      arith,
      add_multiples_value j z t (omega (arith, length-set s (12 + j) (pos 0))),
      set_value (12 + j) s,
      set_value_down (12 + j) s,
      shl_twelve j (pos_part z),
      shl_twelve j (neg_part z),
    )

-- Every statement names limbs that are there.
abbrev pub Fits : Op → ℕ → Type 0
Fits (carry_round k) n = suc k < n
Fits (carry_floor k) n = suc k < n
Fits (fold j) n = 12 + j < n

-- The two numbers differ by a multiple of the order.
pub record Congruent (s t : List ℤ) : Type 0 where
  pub above : ℕ
  pub below : ℕ
  pub balance : up s + order * above + down t ≡ up t + down s + order * below

pub Congruent-refl : (s : List ℤ) → Congruent s s
Congruent-refl s = record { above = 0; below = 0; balance = omega arith }

pub Congruent-trans : {s t u : List ℤ} → Congruent s t → Congruent t u → Congruent s u
Congruent-trans p q = record {
  above = p.above + q.above;
  below = p.below + q.below;
  balance = omega (arith, p.balance, q.balance);
}

pub length-step : (o : Op) (s : List ℤ) → length (step o s) ≡ length s
unfolding step
length-step (carry_round k) s = length-carry _ k s
length-step (carry_floor k) s = length-carry _ k s
length-step (fold j) s =
    length-add_multiples j (get_or s (12 + j) (pos 0)) (set s (12 + j) (pos 0))
    ∙ length-set s (12 + j) (pos 0)

step-Congruent : (o : Op) (s : List ℤ) → Fits o (length s) → Congruent (step o s) s
step-Congruent (carry_round k) s h = record {
  above = 0;
  below = 0;
  balance = unfold step in omega (arith, carry-SameValue half k s h);
}
step-Congruent (carry_floor k) s h = record {
  above = 0;
  below = 0;
  balance = unfold step in omega (arith, carry-SameValue (pos 0) k s h);
}
step-Congruent (fold j) s h =
    let z = get_or s (12 + j) (pos 0) in
    record {
      above = shl j (pos_part z);
      below = shl j (neg_part z);
      balance = omega (arith, fold_value j s h);
    }

pub length-run : (os : List Op) (s : List ℤ) → length (run os s) ≡ length s
unfolding run
length-run [] s = refl
length-run (o ∷ os) s = length-run os (step o s) ∙ length-step o s

-- Whatever statements run, the number stays the same modulo the order.
pub run-Congruent :
    (os : List Op) (s : List ℤ) → All (λ o. Fits o (length s)) os → Congruent (run os s) s
unfolding run
run-Congruent [] s h = Congruent-refl s
run-Congruent (o ∷ os) s (h, hs) =
    Congruent-trans (run-Congruent os (step o s) (rw (length-step o s) hs)) (step-Congruent o s h)
