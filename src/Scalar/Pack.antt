-- ===== src/Scalar/Pack.antt =====
-- The bytes that `pack` writes of limbs in range are the bytes of the limbs' number.
use bitmonero.Base.{ℕ, ◌+◌, ◌*◌, ◌/◌, ◌%◌, ◌^◌, ◌<◌, ◌≡◌, refl, arith, ap₂}
use bitmonero.Base.{List, [], ◌∷◌}
use bitmonero.Base.Int.{ℤ, pos, ◌>>ℤ◌, ◌<<ℤ◌, pos_shl}
use bitmonero.Base.Bits.{bit_or_high}
use bitmonero.Base.Bytes.{IsBytes, le_value}
use bitmonero.Scalar.Codec.{pack, or_u8}

-- Twelve limbs: eleven of 21 bits, and the last of up to 25.
abbrev pub AreLimbs : (s0 s1 s2 s3 s4 s5 s6 s7 s8 s9 s10 s11 : ℕ) → Type 0
AreLimbs s0 s1 s2 s3 s4 s5 s6 s7 s8 s9 s10 s11 =
    (s0 < 2097152)
    × (s1 < 2097152)
    × (s2 < 2097152)
    × (s3 < 2097152)
    × (s4 < 2097152)
    × (s5 < 2097152)
    × (s6 < 2097152)
    × (s7 < 2097152)
    × (s8 < 2097152)
    × (s9 < 2097152)
    × (s10 < 2097152)
    × (s11 < 33554432)

pub or_1 : (x y : ℕ) → x < 2 → or_u8 (pos x) (pos y <<ℤ 1) ≡ x + y % 128 * 2
or_1 x y h =
    let e : x % 256 ≡ x = omega arith in
    let f : y * 2 ^ 1 % 256 ≡ y % 128 * 2 ^ 1 = omega arith in
    rw (pos_shl y 1, e, f) (bit_or_high 1 x (y % 128) (omega arith))

pub or_2 : (x y : ℕ) → x < 4 → or_u8 (pos x) (pos y <<ℤ 2) ≡ x + y % 64 * 4
or_2 x y h =
    let e : x % 256 ≡ x = omega arith in
    let f : y * 2 ^ 2 % 256 ≡ y % 64 * 2 ^ 2 = omega arith in
    rw (pos_shl y 2, e, f) (bit_or_high 2 x (y % 64) (omega arith))

pub or_3 : (x y : ℕ) → x < 8 → or_u8 (pos x) (pos y <<ℤ 3) ≡ x + y % 32 * 8
or_3 x y h =
    let e : x % 256 ≡ x = omega arith in
    let f : y * 2 ^ 3 % 256 ≡ y % 32 * 2 ^ 3 = omega arith in
    rw (pos_shl y 3, e, f) (bit_or_high 3 x (y % 32) (omega arith))

pub or_4 : (x y : ℕ) → x < 16 → or_u8 (pos x) (pos y <<ℤ 4) ≡ x + y % 16 * 16
or_4 x y h =
    let e : x % 256 ≡ x = omega arith in
    let f : y * 2 ^ 4 % 256 ≡ y % 16 * 2 ^ 4 = omega arith in
    rw (pos_shl y 4, e, f) (bit_or_high 4 x (y % 16) (omega arith))

pub or_5 : (x y : ℕ) → x < 32 → or_u8 (pos x) (pos y <<ℤ 5) ≡ x + y % 8 * 32
or_5 x y h =
    let e : x % 256 ≡ x = omega arith in
    let f : y * 2 ^ 5 % 256 ≡ y % 8 * 2 ^ 5 = omega arith in
    rw (pos_shl y 5, e, f) (bit_or_high 5 x (y % 8) (omega arith))

pub or_6 : (x y : ℕ) → x < 64 → or_u8 (pos x) (pos y <<ℤ 6) ≡ x + y % 4 * 64
or_6 x y h =
    let e : x % 256 ≡ x = omega arith in
    let f : y * 2 ^ 6 % 256 ≡ y % 4 * 2 ^ 6 = omega arith in
    rw (pos_shl y 6, e, f) (bit_or_high 6 x (y % 4) (omega arith))

pub or_7 : (x y : ℕ) → x < 128 → or_u8 (pos x) (pos y <<ℤ 7) ≡ x + y % 2 * 128
or_7 x y h =
    let e : x % 256 ≡ x = omega arith in
    let f : y * 2 ^ 7 % 256 ≡ y % 2 * 2 ^ 7 = omega arith in
    rw (pos_shl y 7, e, f) (bit_or_high 7 x (y % 2) (omega arith))

module _ (s0 s1 s2 s3 s4 s5 s6 s7 s8 s9 s10 s11 : ℕ)
    (h : AreLimbs s0 s1 s2 s3 s4 s5 s6 s7 s8 s9 s10 s11) where
  abbrev pub bytes : List ℕ
  bytes =
      (s0 / 1 % 256)
      ∷ (s0 / 256 % 256)
      ∷ (s0 / 65536 + s1 % 8 * 32)
      ∷ (s1 / 8 % 256)
      ∷ (s1 / 2048 % 256)
      ∷ (s1 / 524288 + s2 % 64 * 4)
      ∷ (s2 / 64 % 256)
      ∷ (s2 / 16384 + s3 % 2 * 128)
      ∷ (s3 / 2 % 256)
      ∷ (s3 / 512 % 256)
      ∷ (s3 / 131072 + s4 % 16 * 16)
      ∷ (s4 / 16 % 256)
      ∷ (s4 / 4096 % 256)
      ∷ (s4 / 1048576 + s5 % 128 * 2)
      ∷ (s5 / 128 % 256)
      ∷ (s5 / 32768 + s6 % 4 * 64)
      ∷ (s6 / 4 % 256)
      ∷ (s6 / 1024 % 256)
      ∷ (s6 / 262144 + s7 % 32 * 8)
      ∷ (s7 / 32 % 256)
      ∷ (s7 / 8192 % 256)
      ∷ (s8 / 1 % 256)
      ∷ (s8 / 256 % 256)
      ∷ (s8 / 65536 + s9 % 8 * 32)
      ∷ (s9 / 8 % 256)
      ∷ (s9 / 2048 % 256)
      ∷ (s9 / 524288 + s10 % 64 * 4)
      ∷ (s10 / 64 % 256)
      ∷ (s10 / 16384 + s11 % 2 * 128)
      ∷ (s11 / 2 % 256)
      ∷ (s11 / 512 % 256)
      ∷ (s11 / 131072 % 256)
      ∷ []

  pub pack_bytes :
      (rest : List ℤ)
      → pack (
          pos s0
          ∷ pos s1
          ∷ pos s2
          ∷ pos s3
          ∷ pos s4
          ∷ pos s5
          ∷ pos s6
          ∷ pos s7
          ∷ pos s8
          ∷ pos s9
          ∷ pos s10
          ∷ pos s11
          ∷ rest)
        ≡ bytes
  unfolding pack ◌>>ℤ◌
  pack_bytes rest = ap₂ ◌∷◌ refl (
      ap₂ ◌∷◌ refl (
        ap₂ ◌∷◌ (or_5 (s0 / 65536) s1 (omega arith)) (
          ap₂ ◌∷◌ refl (
            ap₂ ◌∷◌ refl (
              ap₂ ◌∷◌ (or_2 (s1 / 524288) s2 (omega arith)) (
                ap₂ ◌∷◌ refl (
                  ap₂ ◌∷◌ (or_7 (s2 / 16384) s3 (omega arith)) (
                    ap₂ ◌∷◌ refl (
                      ap₂ ◌∷◌ refl (
                        ap₂ ◌∷◌ (or_4 (s3 / 131072) s4 (omega arith)) (
                          ap₂ ◌∷◌ refl (
                            ap₂ ◌∷◌ refl (
                              ap₂ ◌∷◌ (or_1 (s4 / 1048576) s5 (omega arith)) (
                                ap₂ ◌∷◌ refl (
                                  ap₂ ◌∷◌ (or_6 (s5 / 32768) s6 (omega arith)) (
                                    ap₂ ◌∷◌ refl (
                                      ap₂ ◌∷◌ refl (
                                        ap₂ ◌∷◌ (or_3 (s6 / 262144) s7 (omega arith)) (
                                          ap₂ ◌∷◌ refl (
                                            ap₂ ◌∷◌ refl (
                                              ap₂ ◌∷◌ refl (
                                                ap₂ ◌∷◌ refl (
                                                  ap₂ ◌∷◌ (or_5 (s8 / 65536) s9 (omega arith)) (
                                                    ap₂ ◌∷◌ refl (
                                                      ap₂ ◌∷◌ refl (
                                                        ap₂ ◌∷◌
                                                          (or_2 (s9 / 524288) s10 (omega arith))
                                                          (ap₂ ◌∷◌ refl (
                                                            ap₂ ◌∷◌
                                                            (or_7 (s10 / 16384) s11 (omega arith))
                                                            (ap₂ ◌∷◌ refl (
                                                            ap₂ ◌∷◌ refl (
                                                            ap₂ ◌∷◌ refl
                                                            refl)))))))))))))))))))))))))))))))

  pub bytes_value :
      le_value bytes
      ≡ s0
        + 2097152
          * (s1
              + 2097152
                * (s2
                    + 2097152
                      * (s3
                          + 2097152
                            * (s4
                                + 2097152
                                  * (s5
                                      + 2097152
                                        * (s6
                                            + 2097152
                                              * (s7
                                                  + 2097152
                                                    * (s8
                                                        + 2097152
                                                          * (s9
                                                            + 2097152
                                                            * (s10 + 2097152 * (s11)))))))))))
  bytes_value = omega arith

  pub bytes-IsBytes : IsBytes bytes
  bytes-IsBytes = omega arith
