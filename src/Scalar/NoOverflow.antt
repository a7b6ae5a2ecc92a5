-- ===== src/Scalar/NoOverflow.antt =====
-- Results about the values that the scalar functions compute, against int64_t.
use bitmonero.Base.{ℕ, ◌+◌, ◌^◌, ◌<◌, ◌≡◌, refl, arith, ap, ◌∙◌, All, true}
use bitmonero.Base.{List, [], ◌∷◌, ◌++◌, length, length-append, map}
use bitmonero.Base.Int.{ℤ, pos, ◌+ℤ◌, ◌-ℤ◌, ◌*ℤ◌, ◌>>ℤ◌}
use bitmonero.Base.Range
use bitmonero.Base.Range.{Range}
use bitmonero.Base.Bytes.{IsBytes, le_value, le_value-lt}
use bitmonero.Scalar.Value.{Fits}
use bitmonero.Scalar.Bounds.{AllWithin}
use bitmonero.Scalar.RunBounds.{run_fits, RunFits, run_fits-RunFits}
use bitmonero.Scalar.Codec.{limbs, wide_limbs}
use bitmonero.Scalar.Limbs.{Op, final_ops}
use bitmonero.Scalar.Functions.{zip_with, settle_ops, reduce_ops, mulsub_ops, mulsub_limbs}
use bitmonero.Scalar.Digits.{digits, limbs-digits, wide_limbs-digits}
use bitmonero.Scalar.Inputs.{digits-AllWithin, length-digits, snoc-AllWithin, zip_ranges}
use bitmonero.Scalar.Inputs.{zip-AllWithin}
use bitmonero.Scalar.Correct.{wide_ranges, short_ranges, reduce32_ranges, add_ranges, sub_ranges}
use bitmonero.Scalar.Correct.{short_limbs, bytes32}
use bitmonero.Scalar.Mulsub.{product_ranges, start-AllWithin, start}
use bitmonero.Scalar.Columns.{mulsub_digits}

reduce_ok : run_fits (reduce_ops ++ final_ops) wide_ranges ≡ true
unfolding run_fits ◌+ℤ◌ ◌-ℤ◌ ◌*ℤ◌ ◌>>ℤ◌
reduce_ok = refl

reduce32_ok : run_fits (settle_ops ++ final_ops) reduce32_ranges ≡ true
unfolding run_fits ◌+ℤ◌ ◌-ℤ◌ ◌*ℤ◌ ◌>>ℤ◌
reduce32_ok = refl

add_ok : run_fits (settle_ops ++ final_ops) add_ranges ≡ true
unfolding run_fits add_ranges zip_ranges Range.add ◌+ℤ◌ ◌-ℤ◌ ◌*ℤ◌ ◌>>ℤ◌
add_ok = refl

sub_ok : run_fits (settle_ops ++ final_ops) sub_ranges ≡ true
unfolding run_fits sub_ranges zip_ranges Range.add Range.sub ◌+ℤ◌ ◌-ℤ◌ ◌*ℤ◌ ◌>>ℤ◌
sub_ok = refl

mulsub_ok : run_fits (mulsub_ops ++ final_ops) product_ranges ≡ true
unfolding run_fits ◌+ℤ◌ ◌-ℤ◌ ◌*ℤ◌ ◌>>ℤ◌
mulsub_ok = refl

short-Fits : All (λ o. Fits o 13) (settle_ops ++ final_ops)
short-Fits = omega arith

no_overflow :
    (os : List Op) (n : ℕ) (s : List ℤ) (rs : List Range)
    → run_fits os rs ≡ true
    → All (λ o. Fits o n) os
    → length s ≡ n
    → AllWithin s rs
    → RunFits os s
no_overflow os n s rs e h l w = run_fits-RunFits os s rs (rw l h) e w

module _ (s : List ℕ) (h : IsBytes s) where
  -- On 64 bytes, no statement of `sc_reduce` computes a value outside int64_t.
  pub sc_reduce-RunFits : length s ≡ 64 → RunFits (reduce_ops ++ final_ops) (map pos (wide_limbs s))
  sc_reduce-RunFits l =
      let fits : le_value s < 2 ^ 512 = rw l at (le_value-lt s h) in
      rw (wide_limbs-digits s h l) (
        no_overflow (reduce_ops ++ final_ops) 24 (map pos (digits 23 (le_value s))) wide_ranges
          reduce_ok (omega arith) (length-digits 23 (le_value s))
          (digits-AllWithin 23 (2 ^ 29) (le_value s) (omega arith)))

  -- On 32 bytes, no statement of `sc_reduce32` computes a value outside int64_t.
  pub sc_reduce32-RunFits :
      length s ≡ 32 → RunFits (settle_ops ++ final_ops) (map pos (limbs s) ++ (pos 0 ∷ []))
  sc_reduce32-RunFits l =
      let v = map pos (digits 11 (le_value s)) in
      rw (limbs-digits s h l) (
        no_overflow (settle_ops ++ final_ops) 13 (v ++ (pos 0 ∷ [])) reduce32_ranges reduce32_ok
          short-Fits
          (length-append v (pos 0 ∷ []) ∙ ap (λ (n : ℕ). n + 1) (length-digits 11 (le_value s)))
          (snoc-AllWithin v short_ranges (short_limbs s h l)))

module _ (a b : List ℕ) (ha : IsBytes a) (hb : IsBytes b) (la : length a ≡ 32)
    (lb : length b ≡ 32) where
  -- On strings of 32 bytes, no statement of `sc_add` and none of `sc_sub` computes a value
  -- outside int64_t.
  pub sc_add-sc_sub-RunFits :
      RunFits (settle_ops ++ final_ops) (zip_with ◌+ℤ◌ (limbs a) (limbs b) ++ (pos 0 ∷ []))
      × RunFits (settle_ops ++ final_ops) (zip_with ◌-ℤ◌ (limbs a) (limbs b) ++ (pos 0 ∷ []))
  unfolding add_ranges sub_ranges
  sc_add-sc_sub-RunFits =
      let x = digits 11 (le_value a) in
      let y = digits 11 (le_value b) in
      rw (limbs-digits a ha la, limbs-digits b hb lb)
        (
          no_overflow (settle_ops ++ final_ops) 13 (zip_with ◌+ℤ◌ x y ++ (pos 0 ∷ [])) add_ranges
              add_ok short-Fits refl
              (snoc-AllWithin (zip_with ◌+ℤ◌ x y) (zip_ranges Range.add short_ranges short_ranges) (
                zip-AllWithin ◌+ℤ◌ Range.add Range.add-Within x y short_ranges short_ranges
                  (short_limbs a ha la) (short_limbs b hb lb))),
          no_overflow (settle_ops ++ final_ops) 13 (zip_with ◌-ℤ◌ x y ++ (pos 0 ∷ [])) sub_ranges
              sub_ok short-Fits refl
              (snoc-AllWithin (zip_with ◌-ℤ◌ x y) (zip_ranges Range.sub short_ranges short_ranges) (
                zip-AllWithin ◌-ℤ◌ Range.sub Range.sub-Within x y short_ranges short_ranges
                  (short_limbs a ha la) (short_limbs b hb lb))),
        )

module _ (a b c : List ℕ) (ha : IsBytes a) (hb : IsBytes b) (hc : IsBytes c) (la : length a ≡ 32)
    (lb : length b ≡ 32) (lc : length c ≡ 32) where
  -- On strings of 32 bytes, no carry and no fold of `sc_mulsub` computes a value outside int64_t.
  pub sc_mulsub-RunFits :
      RunFits (mulsub_ops ++ final_ops) (mulsub_limbs (limbs a) (limbs b) (limbs c))
  sc_mulsub-RunFits =
      let x = le_value a in
      let y = le_value b in
      let z = le_value c in
      rw (limbs-digits a ha la, limbs-digits b hb lb, limbs-digits c hc lc, mulsub_digits x y z)
        (no_overflow (mulsub_ops ++ final_ops) 24
          (start x y z (bytes32 a ha la) (bytes32 b hb lb) (bytes32 c hc lc)) product_ranges
          mulsub_ok (omega arith) refl
          (start-AllWithin x y z (bytes32 a ha la) (bytes32 b hb lb) (bytes32 c hc lc)))
