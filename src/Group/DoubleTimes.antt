-- ===== src/Group/DoubleTimes.antt =====
-- Results about `ge_double_scalarmult_precomp_vartime` and
-- `ge_double_scalarmult_base_vartime`.
use bitmonero.Base.{
  ℕ, zero, suc, ◌≤◌, ◌≡◌, inl, inr, refl, sym, ap, ◌∙◌, arith, Bool, true, false, Bool-cases, ◌||◌,
  Option, some, List, [], ◌∷◌, All, length,
}
use bitmonero.Base.Bytes.{IsBytes, le_value}
use bitmonero.Base.Int.{ℤ, pos, negsuc, ◌+ℤ◌, ◌*ℤ◌, holds, eq_of_parts, int_laws}
use bitmonero.Base.Ring.{size}
use bitmonero.Group.{GeP2, GeP3, GeP1P1, GeCached, GePrecomp}
use bitmonero.Group.Curve.{IsP2, IsP3, IsPrecomp}
use bitmonero.Group.Tables.{AreEntries, AreMultiples, ge_dsm_precomp, ge_dsm_precomp-AreMultiples}
use bitmonero.Group.Recode.{last_byte}
use bitmonero.Group.Slide.{slide}
use bitmonero.Group.Slid.{slid_value, IsSlid, slide_lem}
use bitmonero.Group.DoubleScalarmult.{
  add_cached, add_precomp, keep_digits, digits_up_to, double_loop,
  ge_double_scalarmult_precomp_vartime, ge_double_scalarmult_base_vartime,
}
use bitmonero.Group.Sums.{
  Combinations, firsts, seconds, first-Multiples, double_loop-IsP2, cached-AddsDigits,
  precomp-AddsDigits, AddsDigits,
}

-- The digits that the first loop keeps, and what they are digits of.
record AreKept (a b : List ℤ) (l : List (ℤ × ℤ)) : Type 0 where
  a_value : slid_value (firsts l) ≡ slid_value a
  b_value : slid_value (seconds l) ≡ slid_value b
  a_digits : All IsSlid (firsts l)
  b_digits : All IsSlid (seconds l)

no_digit : (d : ℤ) → holds d ≡ false → d ≡ pos 0
no_digit (pos zero) h = refl
no_digit (pos (suc n)) h = cc
no_digit (negsuc n) h = cc

neither : (c d : Bool) → (c || d) ≡ false → (c ≡ false) × (d ≡ false)
neither false false h = (refl, refl)
neither false true h = cc
neither true d h = cc

both_kept :
    (d e : ℤ) (a b : List ℤ) (l : List (ℤ × ℤ))
    → IsSlid d
    → IsSlid e
    → AreKept a b l
    → AreKept (d ∷ a) (e ∷ b) ((d, e) ∷ l)
unfolding slid_value
both_kept d e a b l h k i = record {
  a_value = ap (λ v. d +ℤ v *ℤ pos 2) i.a_value;
  b_value = ap (λ v. e +ℤ v *ℤ pos 2) i.b_value;
  a_digits = (h, i.a_digits);
  b_digits = (k, i.b_digits);
}

twice_zero : pos 0 ≡ pos 0 +ℤ pos 0 *ℤ pos 2
twice_zero = eq_of_parts _ _ (omega int_laws)

zero_kept : (d : ℤ) (a : List ℤ) → d ≡ pos 0 → pos 0 ≡ slid_value a → pos 0 ≡ slid_value (d ∷ a)
unfolding slid_value
zero_kept d a h k = rw (h, sym k) twice_zero

kept_lem :
    (d e : ℤ) (a b : List ℤ) (l : List (ℤ × ℤ))
    → IsSlid d
    → IsSlid e
    → AreKept a b l
    → AreKept (d ∷ a) (e ∷ b) (keep_digits d e l)
unfolding keep_digits slid_value
kept_lem d e a b (p ∷ l) h k i = both_kept d e a b (p ∷ l) h k i
kept_lem d e a b [] h k i = elim (Bool-cases (holds d || holds e)) [
  | inl t ↦ rw t (both_kept d e a b [] h k i)
  | inr t ↦
      let (u, v) = neither (holds d) (holds e) t in
      rw t (record {
        a_value = zero_kept d a (no_digit d u) i.a_value;
        b_value = zero_kept e b (no_digit e v) i.b_value;
        a_digits = tt;
        b_digits = tt;
      })
]

digits_up_to-AreKept :
    (a b : List ℤ)
    → length a ≡ length b
    → All IsSlid a
    → All IsSlid b
    → AreKept a b (digits_up_to a b)
unfolding digits_up_to slid_value
digits_up_to-AreKept [] [] l h k = record {
  a_value = refl;
  b_value = refl;
  a_digits = tt;
  b_digits = tt;
}
digits_up_to-AreKept [] (e ∷ b) l h k = absurd (omega arith)
digits_up_to-AreKept (d ∷ a) [] l h k = absurd (omega arith)
digits_up_to-AreKept (d ∷ a) (e ∷ b) l h k =
    kept_lem d e a b (digits_up_to a b) h.0 k.0 (digits_up_to-AreKept a b (omega arith) h.1 k.1)

-- 32 bytes whose last is at most 127.
abbrev pub IsScalar : List ℕ → Type 0
IsScalar s = (length s ≡ 32) × IsBytes s × (last_byte s ≤ 127)

module _ {x y : ℤ → ℤ → ℤ} (law : Combinations x y) where
  double_times :
      (a b : List ℕ) (p : GeP3) (add_b : ℤ → GeP1P1 → Option GeP1P1)
      → IsScalar a
      → IsScalar b
      → IsP3 p (x (pos 1) (pos 0)) (y (pos 1) (pos 0))
      → AddsDigits x y add_b
      → (q : GeP2) × (double_loop (ge_dsm_precomp p) add_b (digits_up_to (slide a) (slide b))
          ≡ some q)
        × IsP2 q (x (pos (le_value a)) (pos (le_value b))) (y (pos (le_value a)) (pos (le_value b)))
  double_times a b p add_b (l, h, t) (l', h', t') i adds_b =
      let (v, d, n) = slide_lem a l h t in
      let (v', d', n') = slide_lem b l' h' t' in
      let k = digits_up_to-AreKept (slide a) (slide b) (n ∙ sym n') d d' in
      let (m, size) = ge_dsm_precomp-AreMultiples (first-Multiples law) p i in
      rw (k.a_value ∙ v, k.b_value ∙ v') at
        (double_loop-IsP2 law (ge_dsm_precomp p) m size add_b adds_b
          (digits_up_to (slide a) (slide b)) k.a_digits k.b_digits)

  -- For scalars a and b of 32 bytes whose last is at most 127, points P and Q between whose
  -- combinations the addition law holds, and a table of Q, 3 * Q, …, 15 * Q,
  -- ge_double_scalarmult_precomp_vartime stays in the bounds of its tables and gives a * P + b * Q.
  pub ge_double_scalarmult_precomp_vartime-IsP2 :
      (a b : List ℕ) (p : GeP3) (bi : List GeCached)
      → IsScalar a
      → IsScalar b
      → IsP3 p (x (pos 1) (pos 0)) (y (pos 1) (pos 0))
      → AreMultiples (x (pos 0)) (y (pos 0)) 2 1 bi
      → length bi ≡ 8
      → (q : GeP2) × (ge_double_scalarmult_precomp_vartime a p b bi ≡ some q)
        × IsP2 q (x (pos (le_value a)) (pos (le_value b))) (y (pos (le_value a)) (pos (le_value b)))
  unfolding ge_double_scalarmult_precomp_vartime
  ge_double_scalarmult_precomp_vartime-IsP2 a b p bi h k i m l =
      double_times a b p (add_cached bi) h k i (cached-AddsDigits law bi m l)

  -- For scalars a and b of 32 bytes whose last is at most 127, points P and Q between whose
  -- combinations the addition law holds, and a table of Q, 3 * Q, …, 15 * Q as points over 1,
  -- ge_double_scalarmult_base_vartime stays in the bounds of its tables and gives a * P + b * Q.
  pub ge_double_scalarmult_base_vartime-IsP2 :
      (a b : List ℕ) (p : GeP3) (bi : List GePrecomp)
      → IsScalar a
      → IsScalar b
      → IsP3 p (x (pos 1) (pos 0)) (y (pos 1) (pos 0))
      → AreEntries IsPrecomp (x (pos 0)) (y (pos 0)) 2 1 bi
      → length bi ≡ 8
      → (q : GeP2) × (ge_double_scalarmult_base_vartime bi a p b ≡ some q)
        × IsP2 q (x (pos (le_value a)) (pos (le_value b))) (y (pos (le_value a)) (pos (le_value b)))
  unfolding ge_double_scalarmult_base_vartime
  ge_double_scalarmult_base_vartime-IsP2 a b p bi h k i m l =
      double_times a b p (add_precomp bi) h k i (precomp-AddsDigits law bi m l)
