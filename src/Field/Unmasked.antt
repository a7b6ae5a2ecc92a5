-- ===== src/Field/Unmasked.antt =====
-- Results about the limbs that `ge_fromfe_frombytes_vartime` reads.
use bitmonero.Base.{ℕ, ◌*◌, ◌/◌, ◌%◌, ◌^◌, ◌≡◌, refl, arith, List, [], ◌∷◌}
use bitmonero.Base.Int.{pos, int_laws, eq_of_parts}
use bitmonero.Base.Bytes.{IsBytes, le_value}
use bitmonero.Scalar.Load.{load_4_lem, load_3-drop, load_4-drop}
use bitmonero.Field.Linear.{limbs_value, fe_value}
use bitmonero.Field.Congruence.{Cong, Cong-trans, Cong-of_eq}
use bitmonero.Field.Carry.{carry_run}
use bitmonero.Field.Carried.{carry_run_value}
use bitmonero.Field.Sizes.{AtMost}
use bitmonero.Field.Operands.{tight}
use bitmonero.Field.CarrySizes.{CarriesFit}
use bitmonero.Field.Fits.{run_sizes, run_fits, run_fits-CarriesFit, no_larger, AtMost-weaken}
use bitmonero.Field.Frombytes.{load_limbs, unmasked_limbs, to_int64, load_carries, carried_limbs}

-- The ten fields of the number n, shifted to their limbs.
abbrev fields : ℕ → List ℕ
fields n =
    (n % 4294967296)
    ∷ (n / 256 ^ 4 % 2 ^ 24 * 2 ^ 6)
    ∷ (n / 256 ^ 7 % 2 ^ 24 * 2 ^ 5)
    ∷ (n / 256 ^ 10 % 2 ^ 24 * 2 ^ 3)
    ∷ (n / 256 ^ 13 % 2 ^ 24 * 2 ^ 2)
    ∷ (n / 256 ^ 16 % 2 ^ 32)
    ∷ (n / 256 ^ 20 % 2 ^ 24 * 2 ^ 7)
    ∷ (n / 256 ^ 23 % 2 ^ 24 * 2 ^ 5)
    ∷ (n / 256 ^ 26 % 2 ^ 24 * 2 ^ 4)
    ∷ (n / 256 ^ 29 % 2 ^ 24 * 2 ^ 2)
    ∷ []

unmasked_limbs-fields : (s : List ℕ) → IsBytes s → unmasked_limbs s ≡ fields (le_value s)
unfolding unmasked_limbs load_limbs
unmasked_limbs-fields s h =
    rw
      (
        load_4_lem s h,
        load_3-drop s h 4,
        load_3-drop s h 7,
        load_3-drop s h 10,
        load_3-drop s h 13,
        load_4-drop s h 16,
        load_3-drop s h 20,
        load_3-drop s h 23,
        load_3-drop s h 26,
        load_3-drop s h 29,
      )
      refl

fields_value : (n : ℕ) → fe_value (to_int64 (fields n)) ≡ pos (n % 2 ^ 256)
unfolding limbs_value
fields_value n = eq_of_parts _ _ (omega int_laws)

load_sizes : List ℕ
load_sizes =
    4294967295 ∷ 1073741760 ∷ 536870880 ∷ 134217720 ∷ 67108860 ∷ 4294967295 ∷ 2147483520 ∷ 536870880
    ∷ 268435440 ∷ 67108860 ∷ []

fields-AtMost : (n : ℕ) → AtMost (to_int64 (fields n)) load_sizes
unfolding load_sizes
fields-AtMost n = omega arith

-- Without the mask, the carries fit int64_t, and leave limbs in the bounds that fe_mul promises, of
-- the number of the first 256 bits modulo the prime.
pub unmasked_limbs_lem :
    (s : List ℕ)
    → IsBytes s
    → CarriesFit load_carries (to_int64 (unmasked_limbs s))
      × AtMost (carried_limbs (unmasked_limbs s)) tight
      × Cong (fe_value (carried_limbs (unmasked_limbs s))) (pos (le_value s % 2 ^ 256))
unfolding carried_limbs run_fits run_sizes no_larger load_sizes
unmasked_limbs_lem s h =
    let n = le_value s in
    let (fits, small) =
      run_fits-CarriesFit load_carries (to_int64 (fields n)) load_sizes refl (fields-AtMost n)
        refl in
    rw (unmasked_limbs-fields s h) (
      fits,
      AtMost-weaken (carry_run load_carries (to_int64 (fields n)))
          (run_sizes load_carries load_sizes) tight small refl,
      Cong-trans (carry_run_value load_carries (to_int64 (fields n)) refl)
          (Cong-of_eq (fields_value n)),
    )
