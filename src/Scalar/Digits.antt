-- ===== src/Scalar/Digits.antt =====
-- The limbs of a byte string are the digits of its number to the base 2 ^ 21.
use bitmonero.Base.{ℕ, zero, suc, ◌/◌, ◌%◌, ◌^◌, ◌<◌, ◌≡◌, refl, arith, ap₂}
use bitmonero.Base.{List, [], ◌∷◌, drop, length, map}
use bitmonero.Base.Int.{pos}
use bitmonero.Base.Bits.{mask_bit_and}
use bitmonero.Base.Bytes.{IsBytes, le_value, le_value-lt}
use bitmonero.Scalar.Codec.{load_3, load_4, limbs, wide_limbs}
use bitmonero.Scalar.Load.{load_3-drop, load_4-drop}
use bitmonero.Scalar.Value.{up, down}

-- `n` digits, and above them what is left.
abbrev pub digits : ℕ → ℕ → List ℕ
digits zero v = v ∷ []
digits (suc n) v = (v % 2097152) ∷ digits n (v / 2097152)

pub up-digits : (n v : ℕ) → up (map pos (digits n v)) ≡ v
up-digits zero v = omega arith
up-digits (suc n) v = omega (arith, up-digits n (v / 2097152))

pub down-digits : (n v : ℕ) → down (map pos (digits n v)) ≡ 0
down-digits zero v = refl
down-digits (suc n) v = omega (arith, down-digits n (v / 2097152))

module _ (s : List ℕ) (h : IsBytes s) where
  pub limbs-digits : length s ≡ 32 → limbs s ≡ digits 11 (le_value s)
  unfolding limbs
  limbs-digits l =
      let fits : le_value s < 2 ^ 256 = rw l at (le_value-lt s h) in
      ap₂ ◌∷◌ (omega (arith, mask_bit_and 21 (load_3 s), load_3-drop s h 0)) (
        ap₂ ◌∷◌ (omega (arith, mask_bit_and 21 (load_4 (drop 2 s) / 2 ^ 5), load_4-drop s h 2)) (
          ap₂ ◌∷◌ (omega (arith, mask_bit_and 21 (load_3 (drop 5 s) / 2 ^ 2), load_3-drop s h 5)) (
            ap₂ ◌∷◌ (omega (arith, mask_bit_and 21 (load_4 (drop 7 s) / 2 ^ 7), load_4-drop s h 7))
              (ap₂ ◌∷◌
                (omega (arith, mask_bit_and 21 (load_4 (drop 10 s) / 2 ^ 4), load_4-drop s h 10))
                (ap₂ ◌∷◌
                  (omega (arith, mask_bit_and 21 (load_3 (drop 13 s) / 2 ^ 1), load_3-drop s h 13))
                  (ap₂ ◌∷◌
                    (omega
                      (arith, mask_bit_and 21 (load_4 (drop 15 s) / 2 ^ 6), load_4-drop s h 15))
                    (ap₂ ◌∷◌
                      (omega
                        (arith, mask_bit_and 21 (load_3 (drop 18 s) / 2 ^ 3), load_3-drop s h 18))
                      (ap₂ ◌∷◌
                        (omega (arith, mask_bit_and 21 (load_3 (drop 21 s)), load_3-drop s h 21))
                        (ap₂ ◌∷◌
                          (omega (
                            arith,
                            mask_bit_and 21 (load_4 (drop 23 s) / 2 ^ 5),
                            load_4-drop s h 23,
                          ))
                          (ap₂ ◌∷◌
                            (omega (
                              arith,
                              mask_bit_and 21 (load_3 (drop 26 s) / 2 ^ 2),
                              load_3-drop s h 26,
                            ))
                            (ap₂ ◌∷◌ (omega (arith, load_4-drop s h 28, fits)) refl)))))))))))

  pub wide_limbs-digits : length s ≡ 64 → wide_limbs s ≡ digits 23 (le_value s)
  unfolding wide_limbs
  wide_limbs-digits l =
      let fits : le_value s < 2 ^ 512 = rw l at (le_value-lt s h) in
      ap₂ ◌∷◌ (omega (arith, mask_bit_and 21 (load_3 s), load_3-drop s h 0)) (
        ap₂ ◌∷◌ (omega (arith, mask_bit_and 21 (load_4 (drop 2 s) / 2 ^ 5), load_4-drop s h 2)) (
          ap₂ ◌∷◌ (omega (arith, mask_bit_and 21 (load_3 (drop 5 s) / 2 ^ 2), load_3-drop s h 5)) (
            ap₂ ◌∷◌ (omega (arith, mask_bit_and 21 (load_4 (drop 7 s) / 2 ^ 7), load_4-drop s h 7))
              (ap₂ ◌∷◌
                (omega (arith, mask_bit_and 21 (load_4 (drop 10 s) / 2 ^ 4), load_4-drop s h 10))
                (ap₂ ◌∷◌
                  (omega (arith, mask_bit_and 21 (load_3 (drop 13 s) / 2 ^ 1), load_3-drop s h 13))
                  (ap₂ ◌∷◌
                    (omega
                      (arith, mask_bit_and 21 (load_4 (drop 15 s) / 2 ^ 6), load_4-drop s h 15))
                    (ap₂ ◌∷◌
                      (omega
                        (arith, mask_bit_and 21 (load_3 (drop 18 s) / 2 ^ 3), load_3-drop s h 18))
                      (ap₂ ◌∷◌
                        (omega (arith, mask_bit_and 21 (load_3 (drop 21 s)), load_3-drop s h 21))
                        (ap₂ ◌∷◌
                          (omega (
                            arith,
                            mask_bit_and 21 (load_4 (drop 23 s) / 2 ^ 5),
                            load_4-drop s h 23,
                          ))
                          (ap₂ ◌∷◌
                            (omega (
                              arith,
                              mask_bit_and 21 (load_3 (drop 26 s) / 2 ^ 2),
                              load_3-drop s h 26,
                            ))
                            (ap₂ ◌∷◌
                              (omega (
                                arith,
                                mask_bit_and 21 (load_4 (drop 28 s) / 2 ^ 7),
                                load_4-drop s h 28,
                              ))
                              (ap₂ ◌∷◌
                                (omega (
                                  arith,
                                  mask_bit_and 21 (load_4 (drop 31 s) / 2 ^ 4),
                                  load_4-drop s h 31,
                                ))
                                (ap₂ ◌∷◌
                                  (omega (
                                    arith,
                                    mask_bit_and 21 (load_3 (drop 34 s) / 2 ^ 1),
                                    load_3-drop s h 34,
                                  ))
                                  (ap₂ ◌∷◌
                                    (omega (
                                      arith,
                                      mask_bit_and 21 (load_4 (drop 36 s) / 2 ^ 6),
                                      load_4-drop s h 36,
                                    ))
                                    (ap₂ ◌∷◌
                                      (omega (
                                        arith,
                                        mask_bit_and 21 (load_3 (drop 39 s) / 2 ^ 3),
                                        load_3-drop s h 39,
                                      ))
                                      (ap₂ ◌∷◌
                                        (omega (
                                          arith,
                                          mask_bit_and 21 (load_3 (drop 42 s)),
                                          load_3-drop s h 42,
                                        ))
                                        (ap₂ ◌∷◌
                                          (omega (
                                            arith,
                                            mask_bit_and 21 (load_4 (drop 44 s) / 2 ^ 5),
                                            load_4-drop s h 44,
                                          ))
                                          (ap₂ ◌∷◌
                                            (omega (
                                              arith,
                                              mask_bit_and 21 (load_3 (drop 47 s) / 2 ^ 2),
                                              load_3-drop s h 47,
                                            ))
                                            (ap₂ ◌∷◌
                                              (omega (
                                                arith,
                                                mask_bit_and 21 (load_4 (drop 49 s) / 2 ^ 7),
                                                load_4-drop s h 49,
                                              ))
                                              (ap₂ ◌∷◌
                                                (omega (
                                                  arith,
                                                  mask_bit_and 21 (load_4 (drop 52 s) / 2 ^ 4),
                                                  load_4-drop s h 52,
                                                ))
                                                (ap₂ ◌∷◌
                                                  (omega (
                                                    arith,
                                                    mask_bit_and 21 (load_3 (drop 55 s) / 2 ^ 1),
                                                    load_3-drop s h 55,
                                                  ))
                                                  (ap₂ ◌∷◌
                                                    (omega (
                                                      arith,
                                                      mask_bit_and 21 (load_4 (drop 57 s) / 2 ^ 6),
                                                      load_4-drop s h 57,
                                                    ))
                                                    (ap₂ ◌∷◌
                                                      (omega (arith, load_4-drop s h 60, fits))
                                                      refl)))))))))))))))))))))))
