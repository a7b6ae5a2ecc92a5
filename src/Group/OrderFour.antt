-- ===== src/Group/OrderFour.antt =====
-- A point of order 4 and its multiples: (i, 0), where i * i = -1 modulo 2 ^ 255 - 19.
use bitmonero.Base.{ℕ, zero, suc, ◌+◌, ◌-◌, ◌*◌, ◌%◌, ◌<◌, ◌≡◌, refl, sym, arith}
use bitmonero.Base.Int.{
  ℤ, pos, negsuc, pos_part, neg_part, ◌+ℤ◌, ◌-ℤ◌, ◌*ℤ◌, +ℤ_parts, -ℤ_parts, *ℤ_parts,
}
use bitmonero.Group.Curve.{OnCurve, IsSum, one-IsUnit}
use bitmonero.Group.Multiples.{Multiples}

abbrev pub root : ℕ
root = 19681161376707505956807079304988542015446066515923890162744021073123829784752

unfoldable quarter_x : ℕ → ℤ
quarter_x zero = pos 0
quarter_x (suc zero) = pos root
quarter_x (suc (suc zero)) = pos 0
quarter_x (suc (suc (suc n))) = negsuc (root - 1)

unfoldable quarter_y : ℕ → ℤ
quarter_y zero = pos 1
quarter_y (suc zero) = pos 0
quarter_y (suc (suc zero)) = negsuc 0
quarter_y (suc (suc (suc n))) = pos 0

-- The remainder modulo 4.
abbrev quarters : ℤ → ℕ
quarters n = (pos_part n + 3 * neg_part n) % 4

unfoldable pub turn_x : ℤ → ℤ
unfolding quarter_x
turn_x n = quarter_x (quarters n)

unfoldable pub turn_y : ℤ → ℤ
unfolding quarter_y
turn_y n = quarter_y (quarters n)

quarter_lem :
    (a b : ℕ)
    → a < 4
    → b < 4
    → IsSum
        (quarter_x a)
        (quarter_y a)
        (quarter_x b)
        (quarter_y b)
        (quarter_x ((a + b) % 4))
        (quarter_y ((a + b) % 4))
unfolding quarter_x quarter_y ◌+ℤ◌ ◌-ℤ◌ ◌*ℤ◌
quarter_lem zero zero h k = record {
  x_unit = one-IsUnit;
  y_unit = one-IsUnit;
  x_law = record { quotient = pos 0; split = refl };
  y_law = record { quotient = pos 0; split = refl };
}
quarter_lem zero (suc zero) h k = record {
  x_unit = one-IsUnit;
  y_unit = one-IsUnit;
  x_law = record { quotient = pos 0; split = refl };
  y_law = record { quotient = pos 0; split = refl };
}
quarter_lem zero (suc (suc zero)) h k = record {
  x_unit = one-IsUnit;
  y_unit = one-IsUnit;
  x_law = record { quotient = pos 0; split = refl };
  y_law = record { quotient = pos 0; split = refl };
}
quarter_lem zero (suc (suc (suc zero))) h k = record {
  x_unit = one-IsUnit;
  y_unit = one-IsUnit;
  x_law = record { quotient = pos 0; split = refl };
  y_law = record { quotient = pos 0; split = refl };
}
quarter_lem zero (suc (suc (suc (suc b)))) h k = absurd (omega arith)
quarter_lem (suc zero) zero h k = record {
  x_unit = one-IsUnit;
  y_unit = one-IsUnit;
  x_law = record { quotient = pos 0; split = refl };
  y_law = record { quotient = pos 0; split = refl };
}
quarter_lem (suc zero) (suc zero) h k = record {
  x_unit = one-IsUnit;
  y_unit = one-IsUnit;
  x_law = record { quotient = pos 0; split = refl };
  y_law = record {
    quotient = negsuc 6690407189080634018507799843845558368979872843924222843531373839242004886244;
    split = refl;
  };
}
quarter_lem (suc zero) (suc (suc zero)) h k = record {
  x_unit = one-IsUnit;
  y_unit = one-IsUnit;
  x_law = record { quotient = pos 0; split = refl };
  y_law = record { quotient = pos 0; split = refl };
}
quarter_lem (suc zero) (suc (suc (suc zero))) h k = record {
  x_unit = one-IsUnit;
  y_unit = one-IsUnit;
  x_law = record { quotient = pos 0; split = refl };
  y_law = record {
    quotient = pos 6690407189080634018507799843845558368979872843924222843531373839242004886245;
    split = refl;
  };
}
quarter_lem (suc zero) (suc (suc (suc (suc b)))) h k = absurd (omega arith)
quarter_lem (suc (suc zero)) zero h k = record {
  x_unit = one-IsUnit;
  y_unit = one-IsUnit;
  x_law = record { quotient = pos 0; split = refl };
  y_law = record { quotient = pos 0; split = refl };
}
quarter_lem (suc (suc zero)) (suc zero) h k = record {
  x_unit = one-IsUnit;
  y_unit = one-IsUnit;
  x_law = record { quotient = pos 0; split = refl };
  y_law = record { quotient = pos 0; split = refl };
}
quarter_lem (suc (suc zero)) (suc (suc zero)) h k = record {
  x_unit = one-IsUnit;
  y_unit = one-IsUnit;
  x_law = record { quotient = pos 0; split = refl };
  y_law = record { quotient = pos 0; split = refl };
}
quarter_lem (suc (suc zero)) (suc (suc (suc zero))) h k = record {
  x_unit = one-IsUnit;
  y_unit = one-IsUnit;
  x_law = record { quotient = pos 0; split = refl };
  y_law = record { quotient = pos 0; split = refl };
}
quarter_lem (suc (suc zero)) (suc (suc (suc (suc b)))) h k = absurd (omega arith)
quarter_lem (suc (suc (suc zero))) zero h k = record {
  x_unit = one-IsUnit;
  y_unit = one-IsUnit;
  x_law = record { quotient = pos 0; split = refl };
  y_law = record { quotient = pos 0; split = refl };
}
quarter_lem (suc (suc (suc zero))) (suc zero) h k = record {
  x_unit = one-IsUnit;
  y_unit = one-IsUnit;
  x_law = record { quotient = pos 0; split = refl };
  y_law = record {
    quotient = pos 6690407189080634018507799843845558368979872843924222843531373839242004886245;
    split = refl;
  };
}
quarter_lem (suc (suc (suc zero))) (suc (suc zero)) h k = record {
  x_unit = one-IsUnit;
  y_unit = one-IsUnit;
  x_law = record { quotient = pos 0; split = refl };
  y_law = record { quotient = pos 0; split = refl };
}
quarter_lem (suc (suc (suc zero))) (suc (suc (suc zero))) h k = record {
  x_unit = one-IsUnit;
  y_unit = one-IsUnit;
  x_law = record { quotient = pos 0; split = refl };
  y_law = record {
    quotient = negsuc 6690407189080634018507799843845558368979872843924222843531373839242004886244;
    split = refl;
  };
}
quarter_lem (suc (suc (suc zero))) (suc (suc (suc (suc b)))) h k = absurd (omega arith)
quarter_lem (suc (suc (suc (suc a)))) b h k = absurd (omega arith)

on_case : (a : ℕ) → a < 4 → OnCurve (quarter_x a) (quarter_y a)
unfolding quarter_x quarter_y ◌+ℤ◌ ◌-ℤ◌ ◌*ℤ◌
on_case zero h = record { quotient = pos 0; split = refl }
on_case (suc zero) h = record {
  quotient = negsuc 6690407189080634018507799843845558368979872843924222843531373839242004886244;
  split = refl;
}
on_case (suc (suc zero)) h = record { quotient = pos 0; split = refl }
on_case (suc (suc (suc zero))) h = record {
  quotient = negsuc 6690407189080634018507799843845558368979872843924222843531373839242004886244;
  split = refl;
}
on_case (suc (suc (suc (suc a)))) h = absurd (omega arith)

x_opposite_case : (a : ℕ) → a < 4 → quarter_x ((4 - a) % 4) ≡ pos 0 -ℤ quarter_x a
unfolding quarter_x ◌-ℤ◌
x_opposite_case zero h = refl
x_opposite_case (suc zero) h = refl
x_opposite_case (suc (suc zero)) h = refl
x_opposite_case (suc (suc (suc zero))) h = refl
x_opposite_case (suc (suc (suc (suc a)))) h = absurd (omega arith)

y_opposite_case : (a : ℕ) → a < 4 → quarter_y ((4 - a) % 4) ≡ quarter_y a
unfolding quarter_y
y_opposite_case zero h = refl
y_opposite_case (suc zero) h = refl
y_opposite_case (suc (suc zero)) h = refl
y_opposite_case (suc (suc (suc zero))) h = refl
y_opposite_case (suc (suc (suc (suc a)))) h = absurd (omega arith)

quarters-lt : (n : ℤ) → quarters n < 4
quarters-lt n = omega arith

quarters-+ℤ : (m n : ℤ) → (quarters m + quarters n) % 4 ≡ quarters (m +ℤ n)
quarters-+ℤ m n = omega (arith, +ℤ_parts m n)

quarters-minus : (n : ℤ) → (4 - quarters n) % 4 ≡ quarters (pos 0 -ℤ n)
quarters-minus n = omega (arith, -ℤ_parts (pos 0) n)

pub turn-Multiples : Multiples turn_x turn_y
unfolding turn_x turn_y
turn-Multiples = record {
  x_zero = refl;
  y_zero = refl;
  x_opposite = λ n. rw (sym (quarters-minus n)) (x_opposite_case (quarters n) (quarters-lt n));
  y_opposite = λ n. rw (sym (quarters-minus n)) (y_opposite_case (quarters n) (quarters-lt n));
  on_curve = λ n. on_case (quarters n) (quarters-lt n);
  adds = λ m n.
      rw (sym (quarters-+ℤ m n))
        (quarter_lem (quarters m) (quarters n) (quarters-lt m) (quarters-lt n));
}

quarters-four : (m : ℤ) → quarters (m *ℤ pos 4) ≡ 0
quarters-four m = omega (arith, *ℤ_parts m 4)

-- The multiples of 4.
pub turn_four : (m : ℤ) → (turn_x (m *ℤ pos 4) ≡ pos 0) × (turn_y (m *ℤ pos 4) ≡ pos 1)
unfolding turn_x turn_y quarter_x quarter_y
turn_four m = (rw (quarters-four m) refl, rw (quarters-four m) refl)
