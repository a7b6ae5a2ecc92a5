-- ===== src/Group/BaseTimes.antt =====
-- Results about `ge_scalarmult_base`.
use bitmonero.Base.{ℕ, ◌≤◌, ◌≡◌, refl, sym, ap, ◌∙◌, arith, some, List, [], ◌∷◌, length}
use bitmonero.Base.Bytes.{IsBytes, le_value}
use bitmonero.Base.Int.{ℤ, pos, ◌+ℤ◌, ◌-ℤ◌, ◌*ℤ◌, eq_of_parts, int_laws}
use bitmonero.Base.Polynomial.{var, num, plus, minus, times, value, solve, vanishes, expand}
use bitmonero.Field.Linear.{limbs_value}
use bitmonero.Field.Congruence.{Cong-refl}
use bitmonero.Group.{GeP3, GePrecomp, ge_madd, ge_p3_0, ge_p1p1_to_p3}
use bitmonero.Group.Curve.{IsP3, IsPrecomp, one-IsUnit}
use bitmonero.Group.Convert.{ge_p1p1_to_p2-IsP2, ge_p1p1_to_p3-IsP3}
use bitmonero.Group.Variants.{ge_madd-IsP1P1}
use bitmonero.Group.Multiples.{Multiples, p3_dbl_multiple, dbl_multiple, double_again}
use bitmonero.Group.Tables.{AreEntries}
use bitmonero.Group.Recode.{AreDigits, last_byte}
use bitmonero.Group.ScalarTimes.{sixteen}
use bitmonero.Group.ScalarmultBase.{
  nibbles, carry_digits, evens, odds, add_rows, four_doublings, ge_scalarmult_base,
}
use bitmonero.Group.Nibbles.{
  rows_value, evens-odds_value, evens-AreDigits, odds-AreDigits, half_length,
  carry_digits-nibbles_lem,
}
use bitmonero.Group.Rows.{select_lem}

-- The rows of the table: the multiples from 1 to 8 of w * B, of 256 * w * B, ….
abbrev pub AreRows : (ℤ → ℤ) → (ℤ → ℤ) → ℤ → List (List GePrecomp) → Type 0
AreRows x y w [] = Unit {0}
AreRows x y w (row ∷ rows) =
    AreEntries IsPrecomp (λ k. x (k *ℤ w)) (λ k. y (k *ℤ w)) 1 1 row
    × (length row ≡ 8)
    × AreRows x y (w *ℤ pos 256) rows

zero_times : (w : ℤ) → pos 0 *ℤ w ≡ pos 0
unfolding value vanishes expand
zero_times w = solve (w ∷ []) (times (num 0) (var 0)) (num 0) refl

minus_times : (n w : ℤ) → (pos 0 -ℤ n) *ℤ w ≡ pos 0 -ℤ n *ℤ w
unfolding value vanishes expand
minus_times n w =
    solve (n ∷ w ∷ []) (times (minus (num 0) (var 0)) (var 1))
      (minus (num 0) (times (var 0) (var 1))) refl

plus_times : (m n w : ℤ) → m *ℤ w +ℤ n *ℤ w ≡ (m +ℤ n) *ℤ w
unfolding value vanishes expand
plus_times m n w =
    solve (m ∷ n ∷ w ∷ []) (plus (times (var 0) (var 2)) (times (var 1) (var 2)))
      (times (plus (var 0) (var 1)) (var 2)) refl

row_step : (n d v w : ℤ) → n +ℤ d *ℤ w +ℤ v *ℤ (w *ℤ pos 256) ≡ n +ℤ (d +ℤ v *ℤ pos 256) *ℤ w
unfolding value vanishes expand
row_step n d v w =
    solve (n ∷ d ∷ v ∷ w ∷ [])
      (plus (plus (var 0) (times (var 1) (var 3))) (times (var 2) (times (var 3) (num 256))))
      (plus (var 0) (times (plus (var 1) (times (var 2) (num 256))) (var 3))) refl

no_rows : (n w : ℤ) → n ≡ n +ℤ pos 0 *ℤ w
unfolding value vanishes expand
no_rows n w = solve (n ∷ w ∷ []) (var 0) (plus (var 0) (times (num 0) (var 1))) refl

sum_of_loops : (v w : ℤ) → (pos 0 +ℤ v *ℤ pos 1) *ℤ pos 16 +ℤ w *ℤ pos 1 ≡ v *ℤ pos 16 +ℤ w
sum_of_loops v w = eq_of_parts _ _ (omega int_laws)

ge_p3_0-IsP3 : IsP3 ge_p3_0 (pos 0) (pos 1)
unfolding limbs_value ◌+ℤ◌ ◌*ℤ◌
ge_p3_0-IsP3 = record {
  s = pos 1;
  s_unit = one-IsUnit;
  x_stands = record { bounded = omega arith; stands = Cong-refl (pos 0) };
  y_stands = record { bounded = omega arith; stands = Cong-refl (pos 1) };
  z_stands = record { bounded = omega arith; stands = Cong-refl (pos 1) };
  t_stands = record { bounded = omega arith; stands = Cong-refl (pos 0) };
}

module _ {x y : ℤ → ℤ} (law : Multiples x y) where
  scaled-Multiples : (w : ℤ) → Multiples (λ k. x (k *ℤ w)) (λ k. y (k *ℤ w))
  scaled-Multiples w = record {
    x_zero = ap x (zero_times w) ∙ law.x_zero;
    y_zero = ap y (zero_times w) ∙ law.y_zero;
    x_opposite = λ n. ap x (minus_times n w) ∙ law.x_opposite (n *ℤ w);
    y_opposite = λ n. ap y (minus_times n w) ∙ law.y_opposite (n *ℤ w);
    on_curve = λ n. law.on_curve (n *ℤ w);
    adds = λ m n. rw (plus_times m n w) at (law.adds (m *ℤ w) (n *ℤ w));
  }

  add_rows_lem :
      (rows : List (List GePrecomp)) (e : List ℤ) (w n : ℤ) (h : GeP3)
      → AreRows x y w rows
      → length e ≤ length rows
      → AreDigits e
      → IsP3 h (x n) (y n)
      → (q : GeP3) × (add_rows rows e h ≡ some q)
        × IsP3 q (x (n +ℤ rows_value e *ℤ w)) (y (n +ℤ rows_value e *ℤ w))
  unfolding add_rows rows_value
  add_rows_lem rows [] w n h m l d i = (h, refl, rw (no_rows n w) at i)
  add_rows_lem [] (b ∷ e) w n h m l d i = absurd (omega arith)
  add_rows_lem (row ∷ rows) (b ∷ e) w n h m l d i =
      let (t, s, j) = select_lem (scaled-Multiples w) row m.0 m.1 b d.0 in
      let sum = ge_madd-IsP1P1 h t _ _ _ _ _ _ i j (law.adds n (b *ℤ w)) in
      let (q, r, k) =
        add_rows_lem rows e (w *ℤ pos 256) (n +ℤ b *ℤ w) (ge_p1p1_to_p3 (ge_madd h t)) m.2
          (omega arith) d.1 (ge_p1p1_to_p3-IsP3 _ _ _ sum) in
      (q, rw s r, rw (row_step n b (rows_value e) w) at k)

  four_doublings-IsP3 :
      (h : GeP3) (n : ℤ)
      → IsP3 h (x n) (y n)
      → IsP3 (four_doublings h) (x (n *ℤ pos 16)) (y (n *ℤ pos 16))
  unfolding four_doublings
  four_doublings-IsP3 h n i =
      let h1 = ge_p1p1_to_p2-IsP2 _ _ _ (p3_dbl_multiple law h n i) in
      let h2 = double_again law _ (n +ℤ n) h1 in
      let h3 = double_again law _ (n +ℤ n +ℤ (n +ℤ n)) h2 in
      rw (sixteen n) (
        ge_p1p1_to_p3-IsP3 _ _ _
          (dbl_multiple law _ (n +ℤ n +ℤ (n +ℤ n) +ℤ (n +ℤ n +ℤ (n +ℤ n))) h3))

  -- For 32 bytes whose last is at most 127, a point B between whose multiples the addition law holds,
  -- and a table of 32 rows, with the multiples of 256 ^ i * B from 1 to 8 in row i, ge_scalarmult_base
  -- passes the assertions of fe_cmov and gives the multiple of B by the number of the bytes.
  pub ge_scalarmult_base-IsP3 :
      (rows : List (List GePrecomp)) (a : List ℕ)
      → AreRows x y (pos 1) rows
      → length rows ≡ 32
      → length a ≡ 32
      → IsBytes a
      → last_byte a ≤ 127
      → (q : GeP3) × (ge_scalarmult_base rows a ≡ some q)
        × IsP3 q (x (pos (le_value a))) (y (pos (le_value a)))
  unfolding ge_scalarmult_base
  ge_scalarmult_base-IsP3 rows a m r l h t =
      let e = carry_digits 0 (nibbles a) in
      let (v, d, n) = carry_digits-nibbles_lem a l h t in
      let (le, lo) = half_length 32 e n in
      let start : IsP3 ge_p3_0 (x (pos 0)) (y (pos 0)) = rw (law.x_zero, law.y_zero) ge_p3_0-IsP3 in
      let (p, f, i) =
        add_rows_lem rows (odds e) (pos 1) (pos 0) ge_p3_0 m (omega (arith, lo, r))
          (odds-AreDigits e d) start in
      let (q, g, j) =
        add_rows_lem rows (evens e) (pos 1) ((pos 0 +ℤ rows_value (odds e) *ℤ pos 1) *ℤ pos 16)
          (four_doublings p) m (omega (arith, le, r)) (evens-AreDigits e d)
          (four_doublings-IsP3 p _ i) in
      (
        q,
        rw (f, g) refl,
        rw
            (sum_of_loops (rows_value (odds e)) (rows_value (evens e))
              ∙ sym (evens-odds_value e)
              ∙ v)
            at j,
      )
