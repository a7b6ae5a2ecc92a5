-- ===== src/Field/Frombytes.antt =====
-- src/crypto/crypto-ops.c: the part of `ge_frombytes_vartime` and of `ge_fromfe_frombytes_vartime` that
-- reads a field element, from fe_frombytes.c.
use bitmonero.Base.{ℕ, ◌*◌, ◌^◌, bit_and, Bool, ◌&&◌, ◌==◌, leb, List, [], ◌∷◌, drop, get_or}
use bitmonero.Base.Int.{ℤ, pos}
use bitmonero.Scalar.Codec.{load_3, load_4}
use bitmonero.Field.Carry.{Carry, limb, top, carry_run}

-- h0, …, h8 of the bytes `s`, and `h9`.
unfoldable pub load_limbs : ℕ → List ℕ → List ℕ
load_limbs h9 s =
    load_4 s
    ∷ (load_3 (drop 4 s) * 2 ^ 6)
    ∷ (load_3 (drop 7 s) * 2 ^ 5)
    ∷ (load_3 (drop 10 s) * 2 ^ 3)
    ∷ (load_3 (drop 13 s) * 2 ^ 2)
    ∷ load_4 (drop 16 s)
    ∷ (load_3 (drop 20 s) * 2 ^ 7)
    ∷ (load_3 (drop 23 s) * 2 ^ 5)
    ∷ (load_3 (drop 26 s) * 2 ^ 4)
    ∷ h9
    ∷ []

-- `h9 = (load_3(s + 29) & 8388607) << 2;`, which leaves out the highest bit.
unfoldable pub masked_limbs : List ℕ → List ℕ
unfolding load_limbs
masked_limbs s = load_limbs (bit_and 8388607 (load_3 (drop 29 s)) * 2 ^ 2) s

-- The limbs with `h9 = load_3(s + 29) << 2;` in `ge_fromfe_frombytes_vartime`.
unfoldable pub unmasked_limbs : List ℕ → List ℕ
unfolding load_limbs
unmasked_limbs s = load_limbs (load_3 (drop 29 s) * 2 ^ 2) s

-- The test under "Validate the number to be canonical".
unfoldable pub is_too_large : List ℕ → Bool
is_too_large h =
    get_or h 9 0 == 33554428
    && (get_or h 8 0 == 268435440
        && (get_or h 7 0 == 536870880
            && (get_or h 6 0 == 2147483520
                && (get_or h 5 0 == 4294967295
                    && (get_or h 4 0 == 67108860
                        && (get_or h 3 0 == 134217720
                            && (get_or h 2 0 == 536870880
                                && (get_or h 1 0 == 1073741760
                                    && leb 4294967277 (get_or h 0 0)))))))))

abbrev pub to_int64 : List ℕ → List ℤ
to_int64 [] = []
to_int64 (n ∷ r) = pos n ∷ to_int64 r

-- carry9, then the odd ones, then the even ones.
abbrev pub load_carries : List Carry
load_carries =
    top ∷ limb 1 ∷ limb 3 ∷ limb 5 ∷ limb 7 ∷ limb 0 ∷ limb 2 ∷ limb 4 ∷ limb 6 ∷ limb 8 ∷ []

unfoldable pub carried_limbs : List ℕ → List ℤ
carried_limbs h = carry_run load_carries (to_int64 h)
