-- ===== src/Group/Recode.antt =====
-- src/crypto/crypto-ops.c: the digits of the scalar in `ge_scalarmult`, of 4 bits with a sign.
use bitmonero.Base.{
  ℕ, ◌+◌, ◌*◌, ◌/◌, ◌≤◌, ◌<◌, ◌≡◌, refl, ap, ◌∙◌, arith, List, [], ◌∷◌, length, All,
}
use bitmonero.Base.Bytes.{IsByte, IsBytes, le_value}
use bitmonero.Field.Linear.{one_sided}
use bitmonero.Base.Int.{ℤ, pos, -ℤ_parts, ◌+ℤ◌, ◌-ℤ◌, ◌*ℤ◌, eq_of_parts, int_laws}
use bitmonero.Base.Ring.{size}

-- e[2 * i], e[2 * i + 1], … from the bytes a[i], …, a[31], where `carry` is the carry before a[i].
unfoldable pub recode_from : ℕ → List ℕ → List ℤ
recode_from carry [] = []
recode_from carry (a ∷ []) =
    let carry' = carry + a in
    let carry2 = (carry' + 8) / 16 in (pos carry' -ℤ pos (carry2 * 16)) ∷ pos carry2 ∷ []
recode_from carry (a ∷ b ∷ r) =
    let carry' = carry + a in
    let carry2 = (carry' + 8) / 16 in
    let carry'' = (carry2 + 8) / 16 in
    (pos carry' -ℤ pos (carry2 * 16))
    ∷ (pos carry2 -ℤ pos (carry'' * 16))
    ∷ recode_from carry'' (b ∷ r)

unfoldable pub recode : List ℕ → List ℤ
unfolding recode_from
recode a = recode_from 0 a

-- e[0] + 16 * e[1] + 16 * 16 * e[2] + …
unfoldable pub digits_value : List ℤ → ℤ
digits_value [] = pos 0
digits_value (e ∷ r) = e +ℤ digits_value r *ℤ pos 16

-- The digits are from -8 to 8.
abbrev pub AreDigits : List ℤ → Type 0
AreDigits = All (λ e. size e ≤ 8)

carried_out : (c c2 : ℕ) → c2 ≡ (c + 8) / 16 → size (pos c -ℤ pos (c2 * 16)) ≤ 8
carried_out c c2 e =
    omega (arith, e, -ℤ_parts (pos c) (pos (c2 * 16)), one_sided (pos c -ℤ pos (c2 * 16)))

last_value : (c c2 : ℕ) → (pos c -ℤ pos (c2 * 16)) +ℤ (pos c2 +ℤ pos 0 *ℤ pos 16) *ℤ pos 16 ≡ pos c
last_value c c2 = eq_of_parts _ _ (omega int_laws)

turn_value :
    (c c2 c3 v : ℕ)
    → (pos c -ℤ pos (c2 * 16)) +ℤ ((pos c2 -ℤ pos (c3 * 16)) +ℤ pos (c3 + v) *ℤ pos 16) *ℤ pos 16
      ≡ pos (c + 256 * v)
turn_value c c2 c3 v = eq_of_parts _ _ (omega int_laws)

recode_from_value :
    (carry : ℕ) (a : List ℕ)
    → 0 < length a
    → digits_value (recode_from carry a) ≡ pos (carry + le_value a)
unfolding recode_from digits_value
recode_from_value carry [] h = absurd (omega arith)
recode_from_value carry (a ∷ []) h =
    last_value (carry + a) ((carry + a + 8) / 16) ∙ ap pos (omega arith)
recode_from_value carry (a ∷ b ∷ r) h =
    let c2 = (carry + a + 8) / 16 in
    let c3 = (c2 + 8) / 16 in
    rw (recode_from_value c3 (b ∷ r) (omega arith))
      (turn_value (carry + a) c2 c3 (le_value (b ∷ r)) ∙ ap pos (omega arith))

abbrev pub last_byte : List ℕ → ℕ
last_byte [] = 0
last_byte (a ∷ []) = a
last_byte (a ∷ b ∷ r) = last_byte (b ∷ r)

next_carry : (c a : ℕ) → c ≤ 1 → IsByte a → ((c + a + 8) / 16 + 8) / 16 ≤ 1
next_carry c a h k = omega arith

recode_from-AreDigits :
    (carry : ℕ) (a : List ℕ)
    → carry ≤ 1
    → IsBytes a
    → last_byte a ≤ 127
    → AreDigits (recode_from carry a)
unfolding recode_from
recode_from-AreDigits carry [] h k l = tt
recode_from-AreDigits carry (a ∷ []) h k l = (carried_out (carry + a) _ refl, (omega arith, tt))
recode_from-AreDigits carry (a ∷ b ∷ r) h k l = (
  carried_out (carry + a) _ refl,
  (
    carried_out ((carry + a + 8) / 16) _ refl,
    recode_from-AreDigits (((carry + a + 8) / 16 + 8) / 16) (b ∷ r) (next_carry carry a h k.0) k.1
        l,
  ),
)

recode_from-length : (carry : ℕ) (a : List ℕ) → length (recode_from carry a) ≡ 2 * length a
unfolding recode_from
recode_from-length carry [] = refl
recode_from-length carry (a ∷ []) = refl
recode_from-length carry (a ∷ b ∷ r) =
    omega (arith, recode_from-length (((carry + a + 8) / 16 + 8) / 16) (b ∷ r))

-- For 32 bytes whose last is at most 127, the recoding gives 64 digits from -8 to 8, whose number in
-- base 16 is that of the bytes.
pub recode_lem :
    (a : List ℕ)
    → length a ≡ 32
    → IsBytes a
    → last_byte a ≤ 127
    → (digits_value (recode a) ≡ pos (le_value a)) × AreDigits (recode a) × (length (recode a) ≡ 64)
unfolding recode
recode_lem a n h l = (
  recode_from_value 0 a (omega arith) ∙ ap pos (omega arith),
  recode_from-AreDigits 0 a (omega arith) h l,
  omega (arith, recode_from-length 0 a),
)
