-- ===== src/Field/Loaded.antt =====
-- Results about the limbs that the decoding of bytes reads.
use bitmonero.Base.{
  ℕ, ◌*◌, ◌/◌, ◌%◌, ◌^◌, ◌≤◌, ◌≡◌, refl, arith, List, [], ◌∷◌, Bool, true, and_cases, ==_iff,
  leb→le, le→leb, ◌↔◌, ◌==◌, ◌&&◌,
}
use bitmonero.Base.Int.{pos, int_laws, eq_of_parts}
use bitmonero.Base.Bits.{mask_bit_and}
use bitmonero.Base.Bytes.{IsBytes, le_value}
use bitmonero.Scalar.Load.{load_4_lem, load_3-drop, load_4-drop}
use bitmonero.Field.Linear.{limbs_value, fe_value}
use bitmonero.Field.Congruence.{prime, Cong, Cong-trans, Cong-of_eq}
use bitmonero.Field.Carry.{carry_run}
use bitmonero.Field.Carried.{carry_run_value}
use bitmonero.Field.Sizes.{AtMost}
use bitmonero.Field.Operands.{tight}
use bitmonero.Field.CarrySizes.{CarriesFit}
use bitmonero.Field.Fits.{run_sizes, run_fits, run_fits-CarriesFit, no_larger, AtMost-weaken}
use bitmonero.Field.Frombytes.{
  load_limbs, masked_limbs, is_too_large, to_int64, load_carries, carried_limbs,
}

-- The ten fields of the number n, shifted to their limbs.
abbrev fields : ℕ → List ℕ
fields n =
    (n % 4294967296)
    ∷ (n / 256 ^ 4 % 2 ^ 24 * 2 ^ 6)
    ∷ (n / 256 ^ 7 % 2 ^ 24 * 2 ^ 5)
    ∷ (n / 256 ^ 10 % 2 ^ 24 * 2 ^ 3)
    ∷ (n / 256 ^ 13 % 2 ^ 24 * 2 ^ 2)
    ∷ (n / 256 ^ 16 % 2 ^ 32)
    ∷ (n / 256 ^ 20 % 2 ^ 24 * 2 ^ 7)
    ∷ (n / 256 ^ 23 % 2 ^ 24 * 2 ^ 5)
    ∷ (n / 256 ^ 26 % 2 ^ 24 * 2 ^ 4)
    ∷ (n / 256 ^ 29 % 2 ^ 24 % 2 ^ 23 * 2 ^ 2)
    ∷ []

masked_limbs-fields : (s : List ℕ) → IsBytes s → masked_limbs s ≡ fields (le_value s)
unfolding masked_limbs load_limbs
masked_limbs-fields s h =
    rw
      (
        load_4_lem s h,
        load_3-drop s h 4,
        load_3-drop s h 7,
        load_3-drop s h 10,
        load_3-drop s h 13,
        load_4-drop s h 16,
        load_3-drop s h 20,
        load_3-drop s h 23,
        load_3-drop s h 26,
        load_3-drop s h 29,
        mask_bit_and 23 (le_value s / 256 ^ 29 % 2 ^ 24),
      )
      refl

fields_value : (n : ℕ) → fe_value (to_int64 (fields n)) ≡ pos (n % 2 ^ 255)
unfolding limbs_value
fields_value n = eq_of_parts _ _ (omega int_laws)

-- The test of ten limbs.
too_large_limbs :
    (n0 n1 n2 n3 n4 n5 n6 n7 n8 n9 : ℕ)
    → is_too_large (n0 ∷ n1 ∷ n2 ∷ n3 ∷ n4 ∷ n5 ∷ n6 ∷ n7 ∷ n8 ∷ n9 ∷ []) ≡ true
    → (n9 ≡ 33554428)
      × (n8 ≡ 268435440)
      × (n7 ≡ 536870880)
      × (n6 ≡ 2147483520)
      × (n5 ≡ 4294967295)
      × (n4 ≡ 67108860)
      × (n3 ≡ 134217720)
      × (n2 ≡ 536870880)
      × (n1 ≡ 1073741760)
      × (4294967277 ≤ n0)
unfolding is_too_large
too_large_limbs n0 n1 n2 n3 n4 n5 n6 n7 n8 n9 h =
    let (q9, r9) = and_cases _ _ h in
    let (q8, r8) = and_cases _ _ r9 in
    let (q7, r7) = and_cases _ _ r8 in
    let (q6, r6) = and_cases _ _ r7 in
    let (q5, r5) = and_cases _ _ r6 in
    let (q4, r4) = and_cases _ _ r5 in
    let (q3, r3) = and_cases _ _ r4 in
    let (q2, r2) = and_cases _ _ r3 in
    let (q1, r1) = and_cases _ _ r2 in
    (
      (==_iff n9 33554428).0 q9,
      (==_iff n8 268435440).0 q8,
      (==_iff n7 536870880).0 q7,
      (==_iff n6 2147483520).0 q6,
      (==_iff n5 4294967295).0 q5,
      (==_iff n4 67108860).0 q4,
      (==_iff n3 134217720).0 q3,
      (==_iff n2 536870880).0 q2,
      (==_iff n1 1073741760).0 q1,
      leb→le 4294967277 n0 r1,
    )

both : (a b : Bool) → a ≡ true → b ≡ true → (a && b) ≡ true
both a b h k = ground arith

largest_limbs :
    (n0 n1 n2 n3 n4 n5 n6 n7 n8 n9 : ℕ)
    → (n9 ≡ 33554428)
      × (n8 ≡ 268435440)
      × (n7 ≡ 536870880)
      × (n6 ≡ 2147483520)
      × (n5 ≡ 4294967295)
      × (n4 ≡ 67108860)
      × (n3 ≡ 134217720)
      × (n2 ≡ 536870880)
      × (n1 ≡ 1073741760)
      × (4294967277 ≤ n0)
    → is_too_large (n0 ∷ n1 ∷ n2 ∷ n3 ∷ n4 ∷ n5 ∷ n6 ∷ n7 ∷ n8 ∷ n9 ∷ []) ≡ true
unfolding is_too_large
largest_limbs n0 n1 n2 n3 n4 n5 n6 n7 n8 n9 h =
    both (n9 == 33554428) _ ((==_iff n9 33554428).1 h.0) (
      both (n8 == 268435440) _ ((==_iff n8 268435440).1 h.1) (
        both (n7 == 536870880) _ ((==_iff n7 536870880).1 h.2) (
          both (n6 == 2147483520) _ ((==_iff n6 2147483520).1 h.3) (
            both (n5 == 4294967295) _ ((==_iff n5 4294967295).1 h.4) (
              both (n4 == 67108860) _ ((==_iff n4 67108860).1 h.5) (
                both (n3 == 134217720) _ ((==_iff n3 134217720).1 h.6) (
                  both (n2 == 536870880) _ ((==_iff n2 536870880).1 h.7) (
                    both (n1 == 1073741760) _ ((==_iff n1 1073741760).1 h.8)
                      (le→leb 4294967277 n0 h.9)))))))))

too_large_value : (n : ℕ) → is_too_large (fields n) ≡ true → prime ≤ n % 2 ^ 255
too_large_value n h = omega (arith, too_large_limbs _ _ _ _ _ _ _ _ _ _ h)

value_too_large : (n : ℕ) → prime ≤ n % 2 ^ 255 → is_too_large (fields n) ≡ true
value_too_large n h = largest_limbs _ _ _ _ _ _ _ _ _ _ (omega arith)

load_sizes : List ℕ
load_sizes =
    4294967295 ∷ 1073741760 ∷ 536870880 ∷ 134217720 ∷ 67108860 ∷ 4294967295 ∷ 2147483520 ∷ 536870880
    ∷ 268435440 ∷ 33554428 ∷ []

fields-AtMost : (n : ℕ) → AtMost (to_int64 (fields n)) load_sizes
unfolding load_sizes
fields-AtMost n = omega arith

-- The carries fit int64_t, and leave limbs in the bounds that fe_mul promises, of the same number
-- modulo the prime.
pub carried_limbs_lem :
    (s : List ℕ)
    → IsBytes s
    → CarriesFit load_carries (to_int64 (masked_limbs s))
      × AtMost (carried_limbs (masked_limbs s)) tight
      × Cong (fe_value (carried_limbs (masked_limbs s))) (pos (le_value s % 2 ^ 255))
unfolding carried_limbs run_fits run_sizes no_larger load_sizes
carried_limbs_lem s h =
    let n = le_value s in
    let (fits, small) =
      run_fits-CarriesFit load_carries (to_int64 (fields n)) load_sizes refl (fields-AtMost n)
        refl in
    rw (masked_limbs-fields s h) (
      fits,
      AtMost-weaken (carry_run load_carries (to_int64 (fields n)))
          (run_sizes load_carries load_sizes) tight small refl,
      Cong-trans (carry_run_value load_carries (to_int64 (fields n)) refl)
          (Cong-of_eq (fields_value n)),
    )

-- The test is true for the bytes whose first 255 bits are no number below the prime.
pub is_too_large_lem :
    (s : List ℕ)
    → IsBytes s
    → (is_too_large (masked_limbs s) ≡ true) ↔ (prime ≤ le_value s % 2 ^ 255)
is_too_large_lem s h =
    rw (masked_limbs-fields s h) (too_large_value (le_value s), value_too_large (le_value s))
