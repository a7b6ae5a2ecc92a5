-- ===== src/Group/ScalarTimes.antt =====
-- Results about `ge_scalarmult`.
use bitmonero.Base.{ℕ, ◌≤◌, ◌≡◌, refl, sym, arith, some, List, [], ◌∷◌, length}
use bitmonero.Base.Bytes.{IsBytes, le_value}
use bitmonero.Base.Int.{ℤ, pos, ◌+ℤ◌, ◌*ℤ◌, eq_of_parts, int_laws}
use bitmonero.Base.Ring.{size}
use bitmonero.Field.Linear.{limbs_value}
use bitmonero.Field.Congruence.{Cong-refl}
use bitmonero.Group.{GeP2, GeP3, GeCached, ge_add, ge_p2_0, ge_p1p1_to_p2}
use bitmonero.Group.Curve.{IsP2, IsP3, one-IsUnit}
use bitmonero.Group.Convert.{ge_p1p1_to_p2-IsP2, ge_p1p1_to_p3-IsP3, ge_p3_to_cached-IsCached}
use bitmonero.Group.Multiples.{Multiples, dbl_multiple, add_multiple, double_again}
use bitmonero.Group.Tables.{AreMultiples, entries_from, entries_from-AreMultiples}
use bitmonero.Group.Recode.{recode, recode_lem, last_byte, digits_value, AreDigits}
use bitmonero.Group.Choice.{choose_lem}
use bitmonero.Group.Scalarmult.{
  scalarmult_table, sixteen_times, scalarmult_turn, scalarmult_loop, ge_scalarmult,
}

pub ge_p2_0-IsP2 : IsP2 ge_p2_0 (pos 0) (pos 1)
unfolding limbs_value ◌+ℤ◌ ◌*ℤ◌
ge_p2_0-IsP2 = record {
  s = pos 1;
  s_unit = one-IsUnit;
  x_stands = record { bounded = omega arith; stands = Cong-refl (pos 0) };
  y_stands = record { bounded = omega arith; stands = Cong-refl (pos 1) };
  z_stands = record { bounded = omega arith; stands = Cong-refl (pos 1) };
}

pub sixteen :
    (n : ℤ)
    → n *ℤ pos 16
      ≡ n +ℤ n +ℤ (n +ℤ n) +ℤ (n +ℤ n +ℤ (n +ℤ n)) +ℤ (n +ℤ n +ℤ (n +ℤ n) +ℤ (n +ℤ n +ℤ (n +ℤ n)))
sixteen n = eq_of_parts _ _ (omega int_laws)

+ℤ_swap : (a b : ℤ) → a +ℤ b ≡ b +ℤ a
+ℤ_swap a b = eq_of_parts _ _ (omega int_laws)

table_length : (a : GeP3) → length (scalarmult_table a) ≡ 8
unfolding scalarmult_table entries_from
table_length a = refl

module _ {x y : ℤ → ℤ} (law : Multiples x y) where
  sixteen_times-IsP3 :
      (r : GeP2) (n : ℤ)
      → IsP2 r (x n) (y n)
      → IsP3 (sixteen_times r) (x (n *ℤ pos 16)) (y (n *ℤ pos 16))
  unfolding sixteen_times
  sixteen_times-IsP3 r n h =
      let h1 = double_again law r n h in
      let h2 = double_again law _ (n +ℤ n) h1 in
      let h3 = double_again law _ (n +ℤ n +ℤ (n +ℤ n)) h2 in
      rw (sixteen n) (
        ge_p1p1_to_p3-IsP3 _ _ _
          (dbl_multiple law _ (n +ℤ n +ℤ (n +ℤ n) +ℤ (n +ℤ n +ℤ (n +ℤ n))) h3))

  module _ (table : List GeCached) (m : AreMultiples x y 1 1 table) (l : length table ≡ 8) where
    turn_lem :
        (b : ℤ) (r : GeP2) (n : ℤ)
        → size b ≤ 8
        → IsP2 r (x n) (y n)
        → (q : GeP2) × (scalarmult_turn table b r ≡ some q)
          × IsP2 q (x (b +ℤ n *ℤ pos 16)) (y (b +ℤ n *ℤ pos 16))
    unfolding scalarmult_turn
    turn_lem b r n h k =
        let (c, e, i) = choose_lem law table m l b h in
        (
          ge_p1p1_to_p2 (ge_add (sixteen_times r) c),
          rw e refl,
          rw (+ℤ_swap b (n *ℤ pos 16)) (
              ge_p1p1_to_p2-IsP2 _ _ _ (
                add_multiple law (sixteen_times r) c (n *ℤ pos 16) b (sixteen_times-IsP3 r n k) i)),
        )

    loop_lem :
        (e : List ℤ)
        → AreDigits e
        → (q : GeP2) × (scalarmult_loop table e ≡ some q)
          × IsP2 q (x (digits_value e)) (y (digits_value e))
    unfolding scalarmult_loop digits_value
    loop_lem [] h = (ge_p2_0, refl, rw (law.x_zero, law.y_zero) ge_p2_0-IsP2)
    loop_lem (b ∷ e) h =
        let (r, d, i) = loop_lem e h.1 in
        let (q, c, k) = turn_lem b r (digits_value e) h.0 i in (q, rw d c, k)

  table_multiples :
      (a : GeP3) → IsP3 a (x (pos 1)) (y (pos 1)) → AreMultiples x y 1 1 (scalarmult_table a)
  unfolding scalarmult_table
  table_multiples a h = entries_from-AreMultiples law 7 a 1 1 _ h (ge_p3_to_cached-IsCached a _ _ h)

  -- For 32 bytes whose last is at most 127, and a point P between whose multiples the addition law
  -- holds, ge_scalarmult passes the assertions of fe_cmov and gives the multiple of P by the number of
  -- the bytes.
  pub ge_scalarmult-IsP2 :
      (s : List ℕ) (a : GeP3)
      → length s ≡ 32
      → IsBytes s
      → last_byte s ≤ 127
      → IsP3 a (x (pos 1)) (y (pos 1))
      → (q : GeP2) × (ge_scalarmult s a ≡ some q)
        × IsP2 q (x (pos (le_value s))) (y (pos (le_value s)))
  unfolding ge_scalarmult
  ge_scalarmult-IsP2 s a n h t p =
      let (v, d, l) = recode_lem s n h t in
      let (q, e, i) =
        loop_lem (scalarmult_table a) (table_multiples a p) (table_length a) (recode s) d in
      (q, e, rw (sym v) i)
