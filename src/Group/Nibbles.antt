-- ===== src/Group/Nibbles.antt =====
-- Results about the digits of `ge_scalarmult_base`.
use bitmonero.Base.{
  ℕ, zero, suc, ◌+◌, ◌*◌, ◌/◌, ◌%◌, ◌^◌, ◌≤◌, ◌<◌, ◌≡◌, refl, ap, ◌∙◌, arith, bit_and, List, [],
  ◌∷◌, length,
}
use bitmonero.Base.Bits.{mask_bit_and}
use bitmonero.Base.Bytes.{IsBytes, le_value}
use bitmonero.Base.Int.{ℤ, pos, -ℤ_parts, ◌+ℤ◌, ◌-ℤ◌, ◌*ℤ◌, eq_of_parts, int_laws}
use bitmonero.Base.Ring.{size}
use bitmonero.Field.Linear.{one_sided}
use bitmonero.Group.Recode.{digits_value, AreDigits, last_byte}
use bitmonero.Group.ScalarmultBase.{nibbles, carry_digits, evens, odds}

unfoldable nibbles_number : List ℕ → ℕ
nibbles_number [] = 0
nibbles_number (e ∷ r) = e + 16 * nibbles_number r

low_bits : (a : ℕ) → bit_and 15 a ≡ a % 16
low_bits a = mask_bit_and 4 a

nibbles_value : (a : List ℕ) → IsBytes a → nibbles_number (nibbles a) ≡ le_value a
unfolding nibbles nibbles_number
nibbles_value [] h = refl
nibbles_value (a ∷ r) h =
    rw (low_bits (a / 2 ^ 0), low_bits (a / 2 ^ 4)) (omega (arith, h.0, nibbles_value r h.1))

nibbles-length : (a : List ℕ) → length (nibbles a) ≡ 2 * length a
unfolding nibbles
nibbles-length [] = refl
nibbles-length (a ∷ r) = omega (arith, nibbles-length r)

last_digit : (e c : ℕ) → pos (e + c) +ℤ pos 0 *ℤ pos 16 ≡ pos (e + 16 * 0 + c)
last_digit e c = eq_of_parts _ _ (omega int_laws)

next_digit :
    (e c c' v : ℕ) → (pos (e + c) -ℤ pos (c' * 16)) +ℤ pos (v + c') *ℤ pos 16 ≡ pos (e + 16 * v + c)
next_digit e c c' v = eq_of_parts _ _ (omega int_laws)

carry_digits_value :
    (c : ℕ) (e : List ℕ)
    → 0 < length e
    → digits_value (carry_digits c e) ≡ pos (nibbles_number e + c)
unfolding carry_digits digits_value nibbles_number
carry_digits_value c [] h = absurd (omega arith)
carry_digits_value c (e ∷ []) h = last_digit e c
carry_digits_value c (e ∷ f ∷ r) h =
    let c' = (e + c + 8) / 16 in
    rw (carry_digits_value c' (f ∷ r) (omega arith)) (next_digit e c c' (nibbles_number (f ∷ r)))

-- The digits before the carries: at most 15, the last at most 7.
abbrev AreNibbles : List ℕ → Type 0
AreNibbles [] = Unit
AreNibbles (e ∷ []) = e ≤ 7
AreNibbles (e ∷ f ∷ r) = (e ≤ 15) × AreNibbles (f ∷ r)

nibbles-AreNibbles : (a : List ℕ) → IsBytes a → last_byte a ≤ 127 → AreNibbles (nibbles a)
unfolding nibbles
nibbles-AreNibbles [] h l = tt
nibbles-AreNibbles (a ∷ []) h l =
    (omega (arith, low_bits (a / 1)), omega (arith, low_bits (a / 16)))
nibbles-AreNibbles (a ∷ b ∷ r) h l = (
  omega (arith, low_bits (a / 1)),
  (omega (arith, low_bits (a / 16)), nibbles-AreNibbles (b ∷ r) h.1 l),
)

digit_size : (e c : ℕ) → e ≤ 15 → c ≤ 1 → size (pos (e + c) -ℤ pos ((e + c + 8) / 16 * 16)) ≤ 8
digit_size e c h k = omega (
  arith,
  -ℤ_parts (pos (e + c)) (pos ((e + c + 8) / 16 * 16)),
  one_sided (pos (e + c) -ℤ pos ((e + c + 8) / 16 * 16)),
)

carry_digits-AreDigits : (c : ℕ) (e : List ℕ) → c ≤ 1 → AreNibbles e → AreDigits (carry_digits c e)
unfolding carry_digits
carry_digits-AreDigits c [] h k = tt
carry_digits-AreDigits c (e ∷ []) h k = (omega arith, tt)
carry_digits-AreDigits c (e ∷ f ∷ r) h k = (
  digit_size e c k.0 h,
  carry_digits-AreDigits ((e + c + 8) / 16) (f ∷ r) (omega (arith, k.0)) k.1,
)

carry_digits-length : (c : ℕ) (e : List ℕ) → length (carry_digits c e) ≡ length e
unfolding carry_digits
carry_digits-length c [] = refl
carry_digits-length c (e ∷ []) = refl
carry_digits-length c (e ∷ f ∷ r) = ap suc (carry_digits-length ((e + c + 8) / 16) (f ∷ r))

-- d[0] + 256 * d[1] + 256 ^ 2 * d[2] + …
unfoldable pub rows_value : List ℤ → ℤ
rows_value [] = pos 0
rows_value (d ∷ r) = d +ℤ rows_value r *ℤ pos 256

two_digits :
    (d e v w : ℤ)
    → d +ℤ (e +ℤ (w *ℤ pos 16 +ℤ v) *ℤ pos 16) *ℤ pos 16
      ≡ (e +ℤ w *ℤ pos 256) *ℤ pos 16 +ℤ (d +ℤ v *ℤ pos 256)
two_digits d e v w = eq_of_parts _ _ (omega int_laws)

one_digit : (d : ℤ) → d +ℤ pos 0 *ℤ pos 16 ≡ pos 0 *ℤ pos 16 +ℤ (d +ℤ pos 0 *ℤ pos 256)
one_digit d = eq_of_parts _ _ (omega int_laws)

no_digits : pos 0 ≡ pos 0 *ℤ pos 16 +ℤ pos 0
no_digits = eq_of_parts _ _ (omega int_laws)

-- The digits of the two loops.
pub evens-odds_value :
    (e : List ℤ) → digits_value e ≡ rows_value (odds e) *ℤ pos 16 +ℤ rows_value (evens e)
unfolding digits_value rows_value
evens-odds_value [] = no_digits
evens-odds_value (d ∷ []) = one_digit d
evens-odds_value (d ∷ e ∷ r) =
    rw (evens-odds_value r) (two_digits d e (rows_value (evens r)) (rows_value (odds r)))

pub evens-AreDigits : (e : List ℤ) → AreDigits e → AreDigits (evens e)
evens-AreDigits [] h = tt
evens-AreDigits (d ∷ []) h = h
evens-AreDigits (d ∷ e ∷ r) h = (h.0, evens-AreDigits r h.1.1)

pub odds-AreDigits : (e : List ℤ) → AreDigits e → AreDigits (odds e)
odds-AreDigits [] h = tt
odds-AreDigits (d ∷ []) h = tt
odds-AreDigits (d ∷ e ∷ r) h = (h.1.0, odds-AreDigits r h.1.1)

pub half_length :
    (n : ℕ) (e : List ℤ) → length e ≡ 2 * n → (length (evens e) ≡ n) × (length (odds e) ≡ n)
half_length n [] h = (omega arith, omega arith)
half_length n (d ∷ []) h = absurd (omega arith)
half_length (suc n) (d ∷ e ∷ r) h =
    let (a, b) = half_length n r (omega arith) in (ap suc a, ap suc b)
half_length zero (d ∷ e ∷ r) h = absurd (omega arith)

-- For 32 bytes whose last is at most 127, the 64 digits are from -8 to 8, and their number in base 16
-- is that of the bytes.
pub carry_digits-nibbles_lem :
    (a : List ℕ)
    → length a ≡ 32
    → IsBytes a
    → last_byte a ≤ 127
    → (digits_value (carry_digits 0 (nibbles a)) ≡ pos (le_value a))
      × AreDigits (carry_digits 0 (nibbles a))
      × (length (carry_digits 0 (nibbles a)) ≡ 64)
carry_digits-nibbles_lem a n h l =
    let m = nibbles-length a in
    (
      carry_digits_value 0 (nibbles a) (omega (arith, m, n))
          ∙ ap pos (omega (arith, nibbles_value a h)),
      carry_digits-AreDigits 0 (nibbles a) (omega arith) (nibbles-AreNibbles a h l),
      omega (arith, carry_digits-length 0 (nibbles a), m, n),
    )
