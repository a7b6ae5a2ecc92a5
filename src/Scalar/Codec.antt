-- ===== src/Scalar/Codec.antt =====
-- src/crypto/crypto-ops.c: `load_3`, `load_4`, the first statements of the `sc_…` functions, which
-- cut byte strings into limbs of 21 bits, and the last ones, which write the limbs as 32 bytes.
use bitmonero.Base.{ℕ, ◌*◌, ◌-◌, ◌/◌, ◌%◌, ◌^◌, bit_and, bit_or, List, [], ◌∷◌, get_or, drop}
use bitmonero.Base.Int.{ℤ, pos, negsuc, ◌>>ℤ◌, ◌<<ℤ◌}

-- Bytes widened to uint64_t and joined.
unfoldable pub load_3 : List ℕ → ℕ
load_3 s = bit_or (bit_or (get_or s 0 0) (get_or s 1 0 * 2 ^ 8)) (get_or s 2 0 * 2 ^ 16)

unfoldable pub load_4 : List ℕ → ℕ
load_4 s =
    bit_or (bit_or (bit_or (get_or s 0 0) (get_or s 1 0 * 2 ^ 8)) (get_or s 2 0 * 2 ^ 16))
      (get_or s 3 0 * 2 ^ 24)

-- The limbs of 32 bytes, as in `sc_reduce32`, `sc_add`, `sc_sub` and `sc_mulsub`. A pointer
-- `s + 2` is the string without its first two bytes.
unfoldable pub limbs : List ℕ → List ℕ
unfolding load_3 load_4
limbs s =
    bit_and 2097151 (load_3 s)
    ∷ bit_and 2097151 (load_4 (drop 2 s) / 2 ^ 5)
    ∷ bit_and 2097151 (load_3 (drop 5 s) / 2 ^ 2)
    ∷ bit_and 2097151 (load_4 (drop 7 s) / 2 ^ 7)
    ∷ bit_and 2097151 (load_4 (drop 10 s) / 2 ^ 4)
    ∷ bit_and 2097151 (load_3 (drop 13 s) / 2 ^ 1)
    ∷ bit_and 2097151 (load_4 (drop 15 s) / 2 ^ 6)
    ∷ bit_and 2097151 (load_3 (drop 18 s) / 2 ^ 3)
    ∷ bit_and 2097151 (load_3 (drop 21 s))
    ∷ bit_and 2097151 (load_4 (drop 23 s) / 2 ^ 5)
    ∷ bit_and 2097151 (load_3 (drop 26 s) / 2 ^ 2)
    ∷ load_4 (drop 28 s) / 2 ^ 7
    ∷ []

-- The limbs of 64 bytes, as in `sc_reduce`.
unfoldable pub wide_limbs : List ℕ → List ℕ
unfolding load_3 load_4
wide_limbs s =
    bit_and 2097151 (load_3 s)
    ∷ bit_and 2097151 (load_4 (drop 2 s) / 2 ^ 5)
    ∷ bit_and 2097151 (load_3 (drop 5 s) / 2 ^ 2)
    ∷ bit_and 2097151 (load_4 (drop 7 s) / 2 ^ 7)
    ∷ bit_and 2097151 (load_4 (drop 10 s) / 2 ^ 4)
    ∷ bit_and 2097151 (load_3 (drop 13 s) / 2 ^ 1)
    ∷ bit_and 2097151 (load_4 (drop 15 s) / 2 ^ 6)
    ∷ bit_and 2097151 (load_3 (drop 18 s) / 2 ^ 3)
    ∷ bit_and 2097151 (load_3 (drop 21 s))
    ∷ bit_and 2097151 (load_4 (drop 23 s) / 2 ^ 5)
    ∷ bit_and 2097151 (load_3 (drop 26 s) / 2 ^ 2)
    ∷ bit_and 2097151 (load_4 (drop 28 s) / 2 ^ 7)
    ∷ bit_and 2097151 (load_4 (drop 31 s) / 2 ^ 4)
    ∷ bit_and 2097151 (load_3 (drop 34 s) / 2 ^ 1)
    ∷ bit_and 2097151 (load_4 (drop 36 s) / 2 ^ 6)
    ∷ bit_and 2097151 (load_3 (drop 39 s) / 2 ^ 3)
    ∷ bit_and 2097151 (load_3 (drop 42 s))
    ∷ bit_and 2097151 (load_4 (drop 44 s) / 2 ^ 5)
    ∷ bit_and 2097151 (load_3 (drop 47 s) / 2 ^ 2)
    ∷ bit_and 2097151 (load_4 (drop 49 s) / 2 ^ 7)
    ∷ bit_and 2097151 (load_4 (drop 52 s) / 2 ^ 4)
    ∷ bit_and 2097151 (load_3 (drop 55 s) / 2 ^ 1)
    ∷ bit_and 2097151 (load_4 (drop 57 s) / 2 ^ 6)
    ∷ load_4 (drop 60 s) / 2 ^ 3
    ∷ []

-- The conversion of an int64_t to unsigned char.
abbrev pub u8 : ℤ → ℕ
u8 (pos n) = n % 256
u8 (negsuc n) = 255 - n % 256

-- The same of `a | b`: the lowest eight bits of each are joined.
abbrev pub or_u8 : ℤ → ℤ → ℕ
or_u8 a b = bit_or (u8 a) (u8 b)

-- `s[0] = s0 >> 0;` to `s[31] = s11 >> 17;`.
unfoldable pub pack : List ℤ → List ℕ
unfolding ◌>>ℤ◌ ◌<<ℤ◌
pack (s0 ∷ s1 ∷ s2 ∷ s3 ∷ s4 ∷ s5 ∷ s6 ∷ s7 ∷ s8 ∷ s9 ∷ s10 ∷ s11 ∷ rest) =
    u8 (s0 >>ℤ 0)
    ∷ u8 (s0 >>ℤ 8)
    ∷ or_u8 (s0 >>ℤ 16) (s1 <<ℤ 5)
    ∷ u8 (s1 >>ℤ 3)
    ∷ u8 (s1 >>ℤ 11)
    ∷ or_u8 (s1 >>ℤ 19) (s2 <<ℤ 2)
    ∷ u8 (s2 >>ℤ 6)
    ∷ or_u8 (s2 >>ℤ 14) (s3 <<ℤ 7)
    ∷ u8 (s3 >>ℤ 1)
    ∷ u8 (s3 >>ℤ 9)
    ∷ or_u8 (s3 >>ℤ 17) (s4 <<ℤ 4)
    ∷ u8 (s4 >>ℤ 4)
    ∷ u8 (s4 >>ℤ 12)
    ∷ or_u8 (s4 >>ℤ 20) (s5 <<ℤ 1)
    ∷ u8 (s5 >>ℤ 7)
    ∷ or_u8 (s5 >>ℤ 15) (s6 <<ℤ 6)
    ∷ u8 (s6 >>ℤ 2)
    ∷ u8 (s6 >>ℤ 10)
    ∷ or_u8 (s6 >>ℤ 18) (s7 <<ℤ 3)
    ∷ u8 (s7 >>ℤ 5)
    ∷ u8 (s7 >>ℤ 13)
    ∷ u8 (s8 >>ℤ 0)
    ∷ u8 (s8 >>ℤ 8)
    ∷ or_u8 (s8 >>ℤ 16) (s9 <<ℤ 5)
    ∷ u8 (s9 >>ℤ 3)
    ∷ u8 (s9 >>ℤ 11)
    ∷ or_u8 (s9 >>ℤ 19) (s10 <<ℤ 2)
    ∷ u8 (s10 >>ℤ 6)
    ∷ or_u8 (s10 >>ℤ 14) (s11 <<ℤ 7)
    ∷ u8 (s11 >>ℤ 1)
    ∷ u8 (s11 >>ℤ 9)
    ∷ u8 (s11 >>ℤ 17)
    ∷ []
pack s = []
