-- ===== src/Group/Slid.antt =====
-- Results about the digits of `slide`.
use native.Mathlib.Nat.{pow-suc}
use bitmonero.Base.{
  ℕ, zero, suc, ◌+◌, ◌*◌, ◌/◌, ◌%◌, ◌^◌, ◌≤◌, ◌≡◌, ◌⊎◌, inl, inr, refl, ap, ◌∙◌, arith, bit_and,
  get_or, List, [], ◌∷◌, All, length,
}
use bitmonero.Base.Int.{ℤ, pos, negsuc, pos_part, neg_part, ◌+ℤ◌, ◌*ℤ◌, int_laws, eq_of_parts}
use bitmonero.Base.Ring.{size}
use bitmonero.Field.Linear.{one_sided}
use bitmonero.Base.Bytes.{IsByte, low_bytes, IsBytes, le_value}
use bitmonero.Base.Bits.{mask_bit_and}
use bitmonero.Group.Recode.{last_byte}
use bitmonero.Group.Slide.{scalar_bits, slide_turn, slide_turns, slide}
use bitmonero.Group.Window.{IsBit, bits_number, IsOddDigit, IsWindow, Keeps}
use bitmonero.Group.WindowRun.{window_lem}

-- r[0] + 2 * r[1] + 4 * r[2] + …
unfoldable pub slid_value : List ℤ → ℤ
slid_value [] = pos 0
slid_value (d ∷ r) = d +ℤ slid_value r *ℤ pos 2

-- 0, or an odd number from -15 to 15.
abbrev pub IsSlid : ℤ → Type 0
IsSlid d = (d ≡ pos 0) ⊎ ((size d ≤ 15) × (size d % 2 ≡ 1))

-- What a turn of the loop over `i` keeps.
record IsTurn (v n : ℕ) (x : ℤ) (r : List ℤ) : Type 0 where
  digit : IsSlid x
  bits : All IsBit r
  total : x +ℤ pos (bits_number r) *ℤ pos 2 ≡ pos v
  half : 2 * bits_number r ≤ 2 ^ length r
  same_length : length r ≡ n

first-IsWindow :
    (r : List ℤ)
    → All IsBit r
    → 2 * bits_number (pos 1 ∷ r) ≤ 2 ^ suc (length r)
    → IsWindow (pos (bits_number (pos 1 ∷ r))) 1 (pos 1) r
unfolding bits_number IsOddDigit
first-IsWindow r b h = record {
  digit = (omega arith, refl);
  bits = b;
  total = eq_of_parts _ _ (omega int_laws);
  half = omega (arith, pow-suc 2 (length r));
}

zero-IsTurn :
    (r : List ℤ)
    → All IsBit r
    → 2 * bits_number (pos 0 ∷ r) ≤ 2 ^ suc (length r)
    → IsTurn (bits_number (pos 0 ∷ r)) (length r) (slide_turn (pos 0) r).0 (slide_turn (pos 0) r).1
unfolding bits_number slide_turn
zero-IsTurn r b h = record {
  digit = inl refl;
  bits = b;
  total = eq_of_parts _ _ (omega int_laws);
  half = omega (arith, pow-suc 2 (length r));
  same_length = refl;
}

one-IsTurn :
    (r : List ℤ)
    → All IsBit r
    → 2 * bits_number (pos 1 ∷ r) ≤ 2 ^ suc (length r)
    → IsTurn (bits_number (pos 1 ∷ r)) (length r) (slide_turn (pos 1) r).0 (slide_turn (pos 1) r).1
unfolding slide_turn Keeps IsOddDigit
one-IsTurn r b h =
    let v = bits_number (pos 1 ∷ r) in
    let bound : pos_part (pos v *ℤ pos 2) ≤ 2 ^ 1 * 2 ^ length r =
      omega (int_laws, h, pow-suc 2 (length r), one_sided (pos v *ℤ pos 2)) in
    let (i, l) = window_lem 6 1 (pos 1) (pos v) r bound (omega arith) (first-IsWindow r b h) in
    record { digit = inr i.digit; bits = i.bits; total = i.total; half = i.half; same_length = l }

slide_turn_lem :
    (x : ℤ) (r : List ℤ)
    → All IsBit (x ∷ r)
    → 2 * bits_number (x ∷ r) ≤ 2 ^ suc (length r)
    → IsTurn (bits_number (x ∷ r)) (length r) (slide_turn x r).0 (slide_turn x r).1
slide_turn_lem (pos zero) r (z, b) h = zero-IsTurn r b h
slide_turn_lem (pos (suc zero)) r (z, b) h = one-IsTurn r b h
slide_turn_lem (pos (suc (suc n))) r (inl z, b) h = absurd (omega (arith, ap pos_part z))
slide_turn_lem (pos (suc (suc n))) r (inr z, b) h = absurd (omega (arith, ap pos_part z))
slide_turn_lem (negsuc n) r (inl z, b) h = absurd (omega (arith, ap neg_part z))
slide_turn_lem (negsuc n) r (inr z, b) h = absurd (omega (arith, ap neg_part z))

slide_turns_lem :
    (n : ℕ) (r : List ℤ)
    → length r ≡ n
    → All IsBit r
    → 2 * bits_number r ≤ 2 ^ length r
    → (slid_value (slide_turns n r) ≡ pos (bits_number r))
      × All IsSlid (slide_turns n r)
      × (length (slide_turns n r) ≡ n)
unfolding slide_turns slid_value bits_number
slide_turns_lem zero [] l b h = (refl, tt, refl)
slide_turns_lem zero (x ∷ r) l b h = absurd (omega arith)
slide_turns_lem (suc n) [] l b h = absurd (omega arith)
slide_turns_lem (suc n) (x ∷ r) l b h =
    let t = slide_turn_lem x r b h in
    let (v, d, m) =
      slide_turns_lem n (slide_turn x r).1 (t.same_length ∙ omega arith) t.bits t.half in
    (rw v t.total, (t.digit, d), ap suc m)

one_and : (a : ℕ) → bit_and 1 a ≡ a % 2
one_and a = mask_bit_and 1 a

remainder-IsBit : (a n : ℕ) → a ≡ n % 2 → IsBit (pos a)
remainder-IsBit zero n h = inl refl
remainder-IsBit (suc zero) n h = inr refl
remainder-IsBit (suc (suc a)) n h = absurd (omega arith)

lowest-IsBit : (a : ℕ) → IsBit (pos (bit_and 1 a))
lowest-IsBit a = remainder-IsBit (bit_and 1 a) a (one_and a)

byte-IsBit :
    (c : ℕ) (r : List ℤ)
    → All IsBit r
    → All IsBit (
        pos (bit_and 1 (c / 1))
        ∷ pos (bit_and 1 (c / 2))
        ∷ pos (bit_and 1 (c / 4))
        ∷ pos (bit_and 1 (c / 8))
        ∷ pos (bit_and 1 (c / 16))
        ∷ pos (bit_and 1 (c / 32))
        ∷ pos (bit_and 1 (c / 64))
        ∷ pos (bit_and 1 (c / 128))
        ∷ r)
byte-IsBit c r b = (
  lowest-IsBit (c / 1),
  (
    lowest-IsBit (c / 2),
    (
      lowest-IsBit (c / 4),
      (
        lowest-IsBit (c / 8),
        (
          lowest-IsBit (c / 16),
          (lowest-IsBit (c / 32), (lowest-IsBit (c / 64), (lowest-IsBit (c / 128), b))),
        ),
      ),
    ),
  ),
)

byte_bits :
    (c v : ℕ)
    → IsByte c
    → c / 1 % 2
        + 2
          * (c / 2 % 2
              + 2
                * (c / 4 % 2
                    + 2
                      * (c / 8 % 2
                          + 2
                            * (c / 16 % 2
                                + 2
                                  * (c / 32 % 2 + 2 * (c / 64 % 2 + 2 * (c / 128 % 2 + 2 * v)))))))
      ≡ c + 256 * v
byte_bits c v h = omega arith

scalar_bits_lem :
    (a : List ℕ)
    → IsBytes a
    → (bits_number (scalar_bits a) ≡ le_value a)
      × All IsBit (scalar_bits a)
      × (length (scalar_bits a) ≡ 8 * length a)
unfolding scalar_bits bits_number
scalar_bits_lem [] h = (refl, tt, refl)
scalar_bits_lem (c ∷ a) h =
    let (v, b, l) = scalar_bits_lem a h.1 in
    (
      rw
          (
            one_and (c / 2 ^ 0),
            one_and (c / 2 ^ 1),
            one_and (c / 2 ^ 2),
            one_and (c / 2 ^ 3),
            one_and (c / 2 ^ 4),
            one_and (c / 2 ^ 5),
            one_and (c / 2 ^ 6),
            one_and (c / 2 ^ 7),
            v,
          )
          (byte_bits c (le_value a) h.0),
      byte-IsBit c (scalar_bits a) b,
      omega (arith, l),
    )

last_element : (i : ℕ) (a : List ℕ) → length a ≡ suc i → get_or a i 0 ≡ last_byte a
last_element i [] l = absurd (omega arith)
last_element zero (b ∷ []) l = refl
last_element (suc i) (b ∷ []) l = absurd (omega arith)
last_element zero (b ∷ c ∷ a) l = absurd (omega arith)
last_element (suc i) (b ∷ c ∷ a) l = last_element i (c ∷ a) (omega arith)

-- For 32 bytes whose last is at most 127, the 256 digits of slide are 0 or odd numbers from -15 to 15,
-- and the sum of r[i] * 2 ^ i is the number of the bytes.
pub slide_lem :
    (a : List ℕ)
    → length a ≡ 32
    → IsBytes a
    → last_byte a ≤ 127
    → (slid_value (slide a) ≡ pos (le_value a)) × All IsSlid (slide a) × (length (slide a) ≡ 256)
unfolding slide
slide_lem a l h t =
    let (v, b, m) = scalar_bits_lem a h in
    let n : length (scalar_bits a) ≡ 256 = omega (arith, m, l) in
    let small : 2 * le_value a ≤ 2 ^ 256 = omega (arith, low_bytes 31 a h l, last_element 31 a l) in
    rw v at (slide_turns_lem 256 (scalar_bits a) n b (rw (v, n) small))
