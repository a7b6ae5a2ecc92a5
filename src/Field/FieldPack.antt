-- ===== src/Field/FieldPack.antt =====
-- Results about `fe_pack`: the bytes of limbs in range.
use bitmonero.Base.{ℕ, ◌+◌, ◌*◌, ◌/◌, ◌%◌, ◌<◌, ◌≡◌, refl, arith, ap₂, List, [], ◌∷◌, length, true}
use bitmonero.Base.Int.{ℤ, pos, negsuc, ◌>>ℤ◌, int_laws, eq_of_parts}
use bitmonero.Field.Linear.{limbs_value, fe_value}
use bitmonero.Field.Trim.{Trimmed}
use bitmonero.Base.Bytes.{IsBytes, le_value}
use bitmonero.Scalar.Pack.{or_1, or_2, or_3, or_4, or_5, or_6}
use bitmonero.Field.Tobytes.{fe_pack}

-- Ten limbs of 26 and of 25 bits.
abbrev pub AreTrimmed : (h0 h1 h2 h3 h4 h5 h6 h7 h8 h9 : ℕ) → Type 0
AreTrimmed h0 h1 h2 h3 h4 h5 h6 h7 h8 h9 =
    (h0 < 67108864)
    × (h1 < 33554432)
    × (h2 < 67108864)
    × (h3 < 33554432)
    × (h4 < 67108864)
    × (h5 < 33554432)
    × (h6 < 67108864)
    × (h7 < 33554432)
    × (h8 < 67108864)
    × (h9 < 33554432)

module _ (h0 h1 h2 h3 h4 h5 h6 h7 h8 h9 : ℕ) (h : AreTrimmed h0 h1 h2 h3 h4 h5 h6 h7 h8 h9) where
  abbrev pub packed : List ℕ
  packed =
      (h0 / 1 % 256)
      ∷ (h0 / 256 % 256)
      ∷ (h0 / 65536 % 256)
      ∷ (h0 / 16777216 + h1 % 64 * 4)
      ∷ (h1 / 64 % 256)
      ∷ (h1 / 16384 % 256)
      ∷ (h1 / 4194304 + h2 % 32 * 8)
      ∷ (h2 / 32 % 256)
      ∷ (h2 / 8192 % 256)
      ∷ (h2 / 2097152 + h3 % 8 * 32)
      ∷ (h3 / 8 % 256)
      ∷ (h3 / 2048 % 256)
      ∷ (h3 / 524288 + h4 % 4 * 64)
      ∷ (h4 / 4 % 256)
      ∷ (h4 / 1024 % 256)
      ∷ (h4 / 262144 % 256)
      ∷ (h5 / 1 % 256)
      ∷ (h5 / 256 % 256)
      ∷ (h5 / 65536 % 256)
      ∷ (h5 / 16777216 + h6 % 128 * 2)
      ∷ (h6 / 128 % 256)
      ∷ (h6 / 32768 % 256)
      ∷ (h6 / 8388608 + h7 % 32 * 8)
      ∷ (h7 / 32 % 256)
      ∷ (h7 / 8192 % 256)
      ∷ (h7 / 2097152 + h8 % 16 * 16)
      ∷ (h8 / 16 % 256)
      ∷ (h8 / 4096 % 256)
      ∷ (h8 / 1048576 + h9 % 4 * 64)
      ∷ (h9 / 4 % 256)
      ∷ (h9 / 1024 % 256)
      ∷ (h9 / 262144 % 256)
      ∷ []

  pub fe_pack-packed :
      fe_pack (
        pos h0
        ∷ pos h1
        ∷ pos h2
        ∷ pos h3
        ∷ pos h4
        ∷ pos h5
        ∷ pos h6
        ∷ pos h7
        ∷ pos h8
        ∷ pos h9
        ∷ [])
      ≡ packed
  unfolding fe_pack ◌>>ℤ◌
  fe_pack-packed = ap₂ ◌∷◌ refl (
      ap₂ ◌∷◌ refl (
        ap₂ ◌∷◌ refl (
          ap₂ ◌∷◌ (or_2 (h0 / 16777216) h1 (omega arith)) (
            ap₂ ◌∷◌ refl (
              ap₂ ◌∷◌ refl (
                ap₂ ◌∷◌ (or_3 (h1 / 4194304) h2 (omega arith)) (
                  ap₂ ◌∷◌ refl (
                    ap₂ ◌∷◌ refl (
                      ap₂ ◌∷◌ (or_5 (h2 / 2097152) h3 (omega arith)) (
                        ap₂ ◌∷◌ refl (
                          ap₂ ◌∷◌ refl (
                            ap₂ ◌∷◌ (or_6 (h3 / 524288) h4 (omega arith)) (
                              ap₂ ◌∷◌ refl (
                                ap₂ ◌∷◌ refl (
                                  ap₂ ◌∷◌ refl (
                                    ap₂ ◌∷◌ refl (
                                      ap₂ ◌∷◌ refl (
                                        ap₂ ◌∷◌ refl (
                                          ap₂ ◌∷◌ (or_1 (h5 / 16777216) h6 (omega arith)) (
                                            ap₂ ◌∷◌ refl (
                                              ap₂ ◌∷◌ refl (
                                                ap₂ ◌∷◌ (or_3 (h6 / 8388608) h7 (omega arith)) (
                                                  ap₂ ◌∷◌ refl (
                                                    ap₂ ◌∷◌ refl (
                                                      ap₂ ◌∷◌ (or_4 (h7 / 2097152) h8 (omega arith))
                                                        (ap₂ ◌∷◌ refl (
                                                          ap₂ ◌∷◌ refl (
                                                            ap₂ ◌∷◌
                                                            (or_6 (h8 / 1048576) h9 (omega arith))
                                                            (ap₂ ◌∷◌ refl (
                                                            ap₂ ◌∷◌ refl (
                                                            ap₂ ◌∷◌ refl
                                                            (refl))))))))))))))))))))))))))))))))

  pub packed_value :
      le_value packed
      ≡ h0
        + 67108864
          * (h1
              + 33554432
                * (h2
                    + 67108864
                      * (h3
                          + 33554432
                            * (h4
                                + 67108864
                                  * (h5
                                      + 33554432
                                        * (h6
                                            + 67108864
                                              * (h7 + 33554432 * (h8 + 67108864 * (h9)))))))))
  packed_value = omega arith

  pub packed-IsBytes : IsBytes packed
  packed-IsBytes = omega arith

-- A statement about ten limbs in range.
pub trimmed_ten {κ} :
    (P : List ℤ → Type κ) (s : List ℤ)
    → length s ≡ 10
    → Trimmed true s
    → ((n0 n1 n2 n3 n4 n5 n6 n7 n8 n9 : ℕ)
        → AreTrimmed n0 n1 n2 n3 n4 n5 n6 n7 n8 n9
        → P (
            pos n0
            ∷ pos n1
            ∷ pos n2
            ∷ pos n3
            ∷ pos n4
            ∷ pos n5
            ∷ pos n6
            ∷ pos n7
            ∷ pos n8
            ∷ pos n9
            ∷ []))
    → P s
trimmed_ten P [] e t k = absurd (omega arith)
trimmed_ten P (negsuc n ∷ r) e t k = absurd (omega arith)
trimmed_ten P (pos n0 ∷ []) e t k = absurd (omega arith)
trimmed_ten P (pos n0 ∷ negsuc n ∷ r) e t k = absurd (omega arith)
trimmed_ten P (pos n0 ∷ pos n1 ∷ []) e t k = absurd (omega arith)
trimmed_ten P (pos n0 ∷ pos n1 ∷ negsuc n ∷ r) e t k = absurd (omega arith)
trimmed_ten P (pos n0 ∷ pos n1 ∷ pos n2 ∷ []) e t k = absurd (omega arith)
trimmed_ten P (pos n0 ∷ pos n1 ∷ pos n2 ∷ negsuc n ∷ r) e t k = absurd (omega arith)
trimmed_ten P (pos n0 ∷ pos n1 ∷ pos n2 ∷ pos n3 ∷ []) e t k = absurd (omega arith)
trimmed_ten P (pos n0 ∷ pos n1 ∷ pos n2 ∷ pos n3 ∷ negsuc n ∷ r) e t k = absurd (omega arith)
trimmed_ten P (pos n0 ∷ pos n1 ∷ pos n2 ∷ pos n3 ∷ pos n4 ∷ []) e t k = absurd (omega arith)
trimmed_ten P (pos n0 ∷ pos n1 ∷ pos n2 ∷ pos n3 ∷ pos n4 ∷ negsuc n ∷ r) e t k =
    absurd (omega arith)
trimmed_ten P (pos n0 ∷ pos n1 ∷ pos n2 ∷ pos n3 ∷ pos n4 ∷ pos n5 ∷ []) e t k =
    absurd (omega arith)
trimmed_ten P (pos n0 ∷ pos n1 ∷ pos n2 ∷ pos n3 ∷ pos n4 ∷ pos n5 ∷ negsuc n ∷ r) e t k =
    absurd (omega arith)
trimmed_ten P (pos n0 ∷ pos n1 ∷ pos n2 ∷ pos n3 ∷ pos n4 ∷ pos n5 ∷ pos n6 ∷ []) e t k =
    absurd (omega arith)
trimmed_ten P (pos n0 ∷ pos n1 ∷ pos n2 ∷ pos n3 ∷ pos n4 ∷ pos n5 ∷ pos n6 ∷ negsuc n ∷ r) e t k =
    absurd (omega arith)
trimmed_ten P (pos n0 ∷ pos n1 ∷ pos n2 ∷ pos n3 ∷ pos n4 ∷ pos n5 ∷ pos n6 ∷ pos n7 ∷ []) e t k =
    absurd (omega arith)
trimmed_ten P (pos n0 ∷ pos n1 ∷ pos n2 ∷ pos n3 ∷ pos n4 ∷ pos n5 ∷ pos n6 ∷ pos n7 ∷ negsuc n ∷ r)
      e t k =
    absurd (omega arith)
trimmed_ten P (pos n0 ∷ pos n1 ∷ pos n2 ∷ pos n3 ∷ pos n4 ∷ pos n5 ∷ pos n6 ∷ pos n7 ∷ pos n8 ∷ [])
      e t k =
    absurd (omega arith)
trimmed_ten P
      (pos n0
        ∷ pos n1
        ∷ pos n2
        ∷ pos n3
        ∷ pos n4
        ∷ pos n5
        ∷ pos n6
        ∷ pos n7
        ∷ pos n8
        ∷ negsuc n
        ∷ r)
      e t k =
    absurd (omega arith)
trimmed_ten P
      (pos n0
        ∷ pos n1
        ∷ pos n2
        ∷ pos n3
        ∷ pos n4
        ∷ pos n5
        ∷ pos n6
        ∷ pos n7
        ∷ pos n8
        ∷ pos n9
        ∷ x
        ∷ r)
      e t k =
    absurd (omega arith)
trimmed_ten P
      (pos n0 ∷ pos n1 ∷ pos n2 ∷ pos n3 ∷ pos n4 ∷ pos n5 ∷ pos n6 ∷ pos n7 ∷ pos n8 ∷ pos n9 ∷ [])
      e t k =
    k n0 n1 n2 n3 n4 n5 n6 n7 n8 n9 (omega arith)

pub fe_pack_value :
    (s : List ℤ)
    → length s ≡ 10
    → Trimmed true s
    → IsBytes (fe_pack s) × (length (fe_pack s) ≡ 32) × (pos (le_value (fe_pack s)) ≡ fe_value s)
unfolding limbs_value
fe_pack_value s n t =
    trimmed_ten
      (λ s.
        IsBytes (fe_pack s) × (length (fe_pack s) ≡ 32) × (pos (le_value (fe_pack s)) ≡ fe_value s))
      s n t
      (λ n0 n1 n2 n3 n4 n5 n6 n7 n8 n9 h. rw (fe_pack-packed n0 n1 n2 n3 n4 n5 n6 n7 n8 n9 h) (
        packed-IsBytes n0 n1 n2 n3 n4 n5 n6 n7 n8 n9 h,
        refl,
        eq_of_parts _ _ (omega (int_laws, packed_value n0 n1 n2 n3 n4 n5 n6 n7 n8 n9 h)),
      ))
