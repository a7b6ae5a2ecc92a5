-- ===== src/Field/Tobytes.antt =====
-- src/crypto/crypto-ops.c: `fe_tobytes`, `fe_isnegative` and `fe_isnonzero`.
use bitmonero.Base.{ℕ, ◌^◌, bit_and, Bool, true, List, [], ◌∷◌, get_or}
use bitmonero.Base.Int.{ℤ, pos, ◌+ℤ◌, ◌-ℤ◌, ◌*ℤ◌, ◌>>ℤ◌, ◌<<ℤ◌}
use bitmonero.Scalar.Codec.{u8, or_u8}
use bitmonero.Scalar.Nonzero.{sc_isnonzero}
use bitmonero.Field.Carry.{width, other}

-- `q = (h0 + q) >> 26; q = (h1 + q) >> 25; …`
unfoldable pub quotient : Bool → ℤ → List ℤ → ℤ
quotient even q [] = q
quotient even q (x ∷ h) = quotient (other even) ((x +ℤ q) >>ℤ width even) h

-- `q = (19 * h9 + (((int32_t) 1) << 24)) >> 25;`
unfoldable pub first_quotient : List ℤ → ℤ
first_quotient h = (pos 19 *ℤ get_or h 9 (pos 0) +ℤ pos (2 ^ 24)) >>ℤ 25

-- `carry0 = h0 >> 26; h1 += carry0; h0 -= carry0 << 26; …`, where `c` is what is added to the
-- first limb.
unfoldable pub trim : Bool → ℤ → List ℤ → List ℤ
trim even c [] = []
trim even c (x ∷ h) =
    let x' = x +ℤ c in
    let carry = x' >>ℤ width even in (x' -ℤ (carry <<ℤ width even)) ∷ trim (other even) carry h

-- `s[0] = h0 >> 0;` to `s[31] = h9 >> 18;`.
unfoldable pub fe_pack : List ℤ → List ℕ
fe_pack (h0 ∷ h1 ∷ h2 ∷ h3 ∷ h4 ∷ h5 ∷ h6 ∷ h7 ∷ h8 ∷ h9 ∷ []) =
    u8 (h0 >>ℤ 0)
    ∷ u8 (h0 >>ℤ 8)
    ∷ u8 (h0 >>ℤ 16)
    ∷ or_u8 (h0 >>ℤ 24) (h1 <<ℤ 2)
    ∷ u8 (h1 >>ℤ 6)
    ∷ u8 (h1 >>ℤ 14)
    ∷ or_u8 (h1 >>ℤ 22) (h2 <<ℤ 3)
    ∷ u8 (h2 >>ℤ 5)
    ∷ u8 (h2 >>ℤ 13)
    ∷ or_u8 (h2 >>ℤ 21) (h3 <<ℤ 5)
    ∷ u8 (h3 >>ℤ 3)
    ∷ u8 (h3 >>ℤ 11)
    ∷ or_u8 (h3 >>ℤ 19) (h4 <<ℤ 6)
    ∷ u8 (h4 >>ℤ 2)
    ∷ u8 (h4 >>ℤ 10)
    ∷ u8 (h4 >>ℤ 18)
    ∷ u8 (h5 >>ℤ 0)
    ∷ u8 (h5 >>ℤ 8)
    ∷ u8 (h5 >>ℤ 16)
    ∷ or_u8 (h5 >>ℤ 24) (h6 <<ℤ 1)
    ∷ u8 (h6 >>ℤ 7)
    ∷ u8 (h6 >>ℤ 15)
    ∷ or_u8 (h6 >>ℤ 23) (h7 <<ℤ 3)
    ∷ u8 (h7 >>ℤ 5)
    ∷ u8 (h7 >>ℤ 13)
    ∷ or_u8 (h7 >>ℤ 21) (h8 <<ℤ 4)
    ∷ u8 (h8 >>ℤ 4)
    ∷ u8 (h8 >>ℤ 12)
    ∷ or_u8 (h8 >>ℤ 20) (h9 <<ℤ 6)
    ∷ u8 (h9 >>ℤ 2)
    ∷ u8 (h9 >>ℤ 10)
    ∷ u8 (h9 >>ℤ 18)
    ∷ []
fe_pack h = []

-- `h0 += 19 * q;` stands before the carries.
unfoldable pub fe_tobytes : List ℤ → List ℕ
fe_tobytes h = let q = quotient true (first_quotient h) h in fe_pack (trim true (pos 19 *ℤ q) h)

unfoldable pub fe_isnegative : List ℤ → ℕ
fe_isnegative f = bit_and (get_or (fe_tobytes f) 0 0) 1

-- The expression is that of `sc_isnonzero`.
unfoldable pub fe_isnonzero : List ℤ → ℤ
fe_isnonzero f = sc_isnonzero (fe_tobytes f)
