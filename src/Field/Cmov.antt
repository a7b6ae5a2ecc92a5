-- ===== src/Field/Cmov.antt =====
-- Results about `fe_cmov`: the bits of limbs and the choice.
use bitmonero.Base.{◌-◌, ◌%◌, ◌^◌, ◌<◌, ◌≡◌, refl, arith, ap, ap₂, ◌∙◌}
use bitmonero.Base.{true, false, some, bit_xor, bit_and, ltb}
use bitmonero.Base.{List, [], ◌∷◌, length, All}
use bitmonero.Base.Int.{ℤ, pos, negsuc}
use bitmonero.Base.Range.{Within, int32}
use bitmonero.Base.Bits.{xor_cancel_left, mask_bit_and, bit_xor-lt, zero-bit_and, bit_xor-zero}
use bitmonero.Field.{fe_cmov, b_mask, cmov_limb, cmov_limbs, to_word, of_word}

to_word-lt : (x : ℤ) → to_word x < 2 ^ 32
unfolding to_word
to_word-lt (pos n) = omega arith
to_word-lt (negsuc n) = omega arith

of_word-to_word : (x : ℤ) → Within x int32 → of_word (to_word x) ≡ x
unfolding of_word to_word
of_word-to_word (pos n) h =
    let e : n % 2 ^ 32 ≡ n = omega arith in
    let t : ltb n (2 ^ 31) ≡ true = ground arith in rw (e, t)
of_word-to_word (negsuc n) h =
    let e : n % 2 ^ 32 ≡ n = omega arith in
    let t : ltb (2 ^ 32 - 1 - n) (2 ^ 31) ≡ false = ground arith in
    let b : 2 ^ 32 - 1 - (2 ^ 32 - 1 - n) ≡ n = omega arith in rw (e, t, b)

cmov_limb-zero : (x y : ℤ) → Within x int32 → cmov_limb 0 x y ≡ x
unfolding cmov_limb
cmov_limb-zero x y h =
    rw (zero-bit_and (bit_xor (to_word x) (to_word y)), bit_xor-zero (to_word x))
      (of_word-to_word x h)

cmov_limb-ones : (x y : ℤ) → Within y int32 → cmov_limb (2 ^ 32 - 1) x y ≡ y
unfolding cmov_limb
cmov_limb-ones x y h =
    let d = bit_xor (to_word x) (to_word y) in
    let l : d < 2 ^ 32 = bit_xor-lt 32 (to_word x) (to_word y) (to_word-lt x) (to_word-lt y) in
    let e : bit_and (2 ^ 32 - 1) d ≡ d = mask_bit_and 32 d ∙ omega arith in
    rw (e, xor_cancel_left (to_word x) (to_word y)) (of_word-to_word y h)

cmov_limbs-zero :
    (f g : List ℤ) → All (λ x. Within x int32) f → length f ≡ length g → cmov_limbs 0 f g ≡ f
unfolding cmov_limbs
cmov_limbs-zero [] g h n = refl
cmov_limbs-zero (x ∷ f) [] h n = absurd (omega arith)
cmov_limbs-zero (x ∷ f) (y ∷ g) h n =
    ap₂ (λ u v. u ∷ v) (cmov_limb-zero x y h.0) (cmov_limbs-zero f g h.1 (omega arith))

cmov_limbs-ones :
    (f g : List ℤ)
    → All (λ x. Within x int32) g
    → length f ≡ length g
    → cmov_limbs (2 ^ 32 - 1) f g ≡ g
unfolding cmov_limbs
cmov_limbs-ones [] [] h n = refl
cmov_limbs-ones [] (y ∷ g) h n = absurd (omega arith)
cmov_limbs-ones (x ∷ f) [] h n = absurd (omega arith)
cmov_limbs-ones (x ∷ f) (y ∷ g) h n =
    ap₂ (λ u v. u ∷ v) (cmov_limb-ones x y h.0) (cmov_limbs-ones f g h.1 (omega arith))

-- For limbs of int32_t, as many in both elements, the assertion of fe_cmov holds for b = 0 and for
-- b = 1; the first keeps f, the second takes g.
pub fe_cmov_chooses :
    (f g : List ℤ)
    → All (λ x. Within x int32) f
    → All (λ x. Within x int32) g
    → length f ≡ length g
    → (fe_cmov f g 0 ≡ some f) × (fe_cmov f g 1 ≡ some g)
unfolding fe_cmov b_mask
fe_cmov_chooses f g hf hg n =
    (ap some (cmov_limbs-zero f g hf n), ap some (cmov_limbs-ones f g hg n))
