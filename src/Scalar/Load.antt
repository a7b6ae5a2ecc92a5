-- ===== src/Scalar/Load.antt =====
-- What the loads and the masks of crypto-ops.c read: digits of the number in the bytes.
use bitmonero.Base.{ℕ, ◌+◌, ◌*◌, ◌/◌, ◌%◌, ◌^◌, ◌≡◌, refl, arith}
use bitmonero.Base.{List, [], ◌∷◌, drop, bit_or}
use bitmonero.Base.Bits.{bit_or_high}
use bitmonero.Base.Bytes.{IsByte, IsBytes, le_value, le_value-drop, drop-IsBytes}
use bitmonero.Scalar.Codec.{load_3, load_4}

three_bytes :
    (a b c : ℕ)
    → IsByte a
    → IsByte b
    → IsByte c
    → bit_or (bit_or a (b * 2 ^ 8)) (c * 2 ^ 16) ≡ a + b * 256 + c * 65536
three_bytes a b c ha hb hc =
    rw (bit_or_high 8 a b ha, bit_or_high 16 (a + b * 2 ^ 8) c (omega arith)) (omega arith)

four_bytes :
    (a b c d : ℕ)
    → IsByte a
    → IsByte b
    → IsByte c
    → IsByte d
    → bit_or (bit_or (bit_or a (b * 2 ^ 8)) (c * 2 ^ 16)) (d * 2 ^ 24)
      ≡ a + b * 256 + c * 65536 + d * 16777216
four_bytes a b c d ha hb hc hd =
    rw (three_bytes a b c ha hb hc, bit_or_high 24 (a + b * 256 + c * 65536) d (omega arith))
      (omega arith)

pub load_3_lem : (s : List ℕ) → IsBytes s → load_3 s ≡ le_value s % 2 ^ 24
unfolding load_3
load_3_lem [] h = refl
load_3_lem (a ∷ []) h = rw (three_bytes a 0 0 h.0 (omega arith) (omega arith)) (omega (arith, h.0))
load_3_lem (a ∷ b ∷ []) h =
    rw (three_bytes a b 0 h.0 h.1.0 (omega arith)) (omega (arith, h.0, h.1.0))
load_3_lem (a ∷ b ∷ c ∷ s) h =
    rw (three_bytes a b c h.0 h.1.0 h.1.1.0) (omega (arith, h.0, h.1.0, h.1.1.0))

pub load_4_lem : (s : List ℕ) → IsBytes s → load_4 s ≡ le_value s % 2 ^ 32
unfolding load_4
load_4_lem [] h = refl
load_4_lem (a ∷ []) h =
    rw (four_bytes a 0 0 0 h.0 (omega arith) (omega arith) (omega arith)) (omega (arith, h.0))
load_4_lem (a ∷ b ∷ []) h =
    rw (four_bytes a b 0 0 h.0 h.1.0 (omega arith) (omega arith)) (omega (arith, h.0, h.1.0))
load_4_lem (a ∷ b ∷ c ∷ []) h =
    rw (four_bytes a b c 0 h.0 h.1.0 h.1.1.0 (omega arith)) (omega (arith, h.0, h.1.0, h.1.1.0))
load_4_lem (a ∷ b ∷ c ∷ d ∷ s) h =
    rw (four_bytes a b c d h.0 h.1.0 h.1.1.0 h.1.1.1.0)
      (omega (arith, h.0, h.1.0, h.1.1.0, h.1.1.1.0))

-- A masked load is a digit to the base 2 ^ 21.
module _ (s : List ℕ) (h : IsBytes s) where
  pub load_3-drop : (n : ℕ) → load_3 (drop n s) ≡ le_value s / 256 ^ n % 2 ^ 24
  load_3-drop n = rw (load_3_lem (drop n s) (drop-IsBytes n s h), le_value-drop n s h)

  pub load_4-drop : (n : ℕ) → load_4 (drop n s) ≡ le_value s / 256 ^ n % 2 ^ 32
  load_4-drop n = rw (load_4_lem (drop n s) (drop-IsBytes n s h), le_value-drop n s h)
