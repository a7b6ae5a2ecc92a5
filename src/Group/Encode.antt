-- ===== src/Group/Encode.antt =====
-- Results about `ge_tobytes` and `ge_p3_tobytes`.
use bitmonero.Base.{
  ℕ, zero, suc, ◌+◌, ◌-◌, ◌*◌, ◌%◌, ◌^◌, ◌≤◌, ◌<◌, ◌≡◌, refl, ap, ◌∙◌, arith, bit_xor, List, [],
  ◌∷◌, length, length-set, get_or, set,
}
use bitmonero.Base.Bits.{xor_fields, bit_xor-zero, zero-bit_xor}
use bitmonero.Base.Bytes.{times_next, top_byte, IsByte, IsBytes, le_value}
use bitmonero.Base.Int.{ℤ, pos, ◌*ℤ◌}
use bitmonero.Base.Ring.{*ℤ_assoc, *ℤ_comm}
use bitmonero.Field.Operands.{tight, wide}
use bitmonero.Field.Congruence.{prime, Cong, Cong-trans, Cong-of_eq, Cong-*ℤ_left}
use bitmonero.Field.Element.{Stands, Stands-Cong, mul-Stands}
use bitmonero.Field.Exponents.{power, times_one, accepted, fe_invert-power}
use bitmonero.Field.Mul.{fe_mul}
use bitmonero.Field.Powers.{fe_invert}
use bitmonero.Field.Tobytes.{fe_tobytes}
use bitmonero.Field.Canonical.{fe_tobytes_lem, fe_tobytes_value, fe_isnegative_lem}
use bitmonero.Group.{Fe, GeP2, GeP3}
use bitmonero.Group.Curve.{IsP2, IsP3}
use bitmonero.Group.Codec.{encode, ge_tobytes, ge_p3_tobytes}

set_value :
    (i v : ℕ) (s : List ℕ)
    → i < length s
    → le_value (set s i v) + 256 ^ i * get_or s i 0 ≡ le_value s + 256 ^ i * v
set_value i v [] h = absurd (omega arith)
set_value zero v (b ∷ s) h = omega arith
set_value (suc i) v (b ∷ s) h =
    let e = times_next i (get_or s i 0) in
    let f = times_next i v in omega (arith, e, f, set_value i v s (omega arith))

set-IsBytes : (i v : ℕ) (s : List ℕ) → IsBytes s → IsByte v → IsBytes (set s i v)
set-IsBytes i v [] h k = tt
set-IsBytes zero v (b ∷ s) h k = (k, h.1)
set-IsBytes (suc i) v (b ∷ s) h k = (h.0, set-IsBytes i v s h.1 k)

sign_bit : (t b : ℕ) → t < 128 → bit_xor t (b * 2 ^ 7) ≡ t + b * 128
sign_bit t b h =
    let e : t + 0 * 2 ^ 7 ≡ t = omega arith in
    let f : 0 + b * 2 ^ 7 ≡ b * 2 ^ 7 = omega arith in
    let x = xor_fields 7 t 0 0 b h (omega arith) in rw (e, f, bit_xor-zero t, zero-bit_xor b) at x

-- The last byte takes the sign.
pub signed_bytes :
    (s : List ℕ) (b : ℕ)
    → length s ≡ 32
    → IsBytes s
    → le_value s < prime
    → b ≤ 1
    → IsBytes (set s 31 (bit_xor (get_or s 31 0) (b * 2 ^ 7)))
      × (length (set s 31 (bit_xor (get_or s 31 0) (b * 2 ^ 7))) ≡ 32)
      × (le_value (set s 31 (bit_xor (get_or s 31 0) (b * 2 ^ 7))) ≡ le_value s + b * 2 ^ 255)
signed_bytes s b l h p k =
    let t : get_or s 31 0 < 128 = omega (arith, top_byte 31 s) in
    let e = sign_bit (get_or s 31 0) b t in
    let v = get_or s 31 0 + b * 128 in
    rw e (
      set-IsBytes 31 v s h (omega arith),
      length-set s 31 v ∙ l,
      omega (arith, set_value 31 v s (omega (arith, l))),
    )

power_next : (v : ℤ) (n : ℕ) → v *ℤ power v n ≡ power v (suc n)
unfolding power
power_next v n = refl

-- z has the inverse that `fe_invert` computes.
abbrev pub FermatAt : ℤ → Type 0
FermatAt s = Cong (power s (prime - 1)) (pos 1)

divided : (v s : ℤ) → FermatAt s → Cong ((v *ℤ s) *ℤ power s (prime - 2)) v
divided v s f =
    Cong-trans
      (Cong-of_eq (*ℤ_assoc v s (power s (prime - 2)) ∙ ap (◌*ℤ◌ v) (power_next s (prime - 2))))
      (Cong-trans (Cong-*ℤ_left v f) (Cong-of_eq (*ℤ_comm v (pos 1) ∙ times_one v)))

-- A coordinate over Z.
divided-Stands :
    {f z : Fe} (v s : ℤ)
    → FermatAt s
    → Stands f tight (v *ℤ s)
    → Stands z tight s
    → Stands (fe_mul f (fe_invert z)) wide v
divided-Stands {f} {z} v s e h k = accepted (
    Stands-Cong (divided v s e)
      (mul-Stands (accepted h) (accepted (fe_invert-power z s (accepted k)))))

encode_lem :
    (fx fy fz : Fe) (x y s : ℤ) (m n : ℕ)
    → Stands fx tight (x *ℤ s)
    → Stands fy tight (y *ℤ s)
    → Stands fz tight s
    → FermatAt s
    → m < prime
    → n < prime
    → Cong x (pos m)
    → Cong y (pos n)
    → IsBytes (encode fx fy fz)
      × (length (encode fx fy fz) ≡ 32)
      × (le_value (encode fx fy fz) ≡ n + m % 2 * 2 ^ 255)
unfolding encode
encode_lem fx fy fz x y s m n h k z f i j c d =
    let x' = divided-Stands x s f h z in
    let y' = divided-Stands y s f k z in
    let fy' = fe_mul fy (fe_invert fz) in
    let (b, l, p, e) = fe_tobytes_lem fy' y'.bounded in
    let v = fe_tobytes_value fy' n y'.bounded j (Cong-trans y'.stands d) in
    let sign =
      fe_isnegative_lem (fe_mul fx (fe_invert fz)) m x'.bounded i (Cong-trans x'.stands c) in
    let (b', l', v') = signed_bytes (fe_tobytes fy') (m % 2) l b p (omega arith) in
    rw sign (b', l', v' ∙ ap (λ t. t + m % 2 * 2 ^ 255) v)

-- For a point (x, y) with Z = s and s ^ (p - 1) congruent to 1 modulo p = 2 ^ 255 - 19, and the
-- remainders m and n of x and y, ge_p3_tobytes gives 32 bytes whose number is n, with the lowest bit of
-- m as the bit 255.
pub ge_p3_tobytes_value :
    (p : GeP3) (x y : ℤ) (m n : ℕ)
    → (h : IsP3 p x y) → FermatAt h.s
    → m < prime
    → n < prime
    → Cong x (pos m)
    → Cong y (pos n)
    → IsBytes (ge_p3_tobytes p)
      × (length (ge_p3_tobytes p) ≡ 32)
      × (le_value (ge_p3_tobytes p) ≡ n + m % 2 * 2 ^ 255)
unfolding ge_p3_tobytes
ge_p3_tobytes_value p x y m n h =
    encode_lem p.x p.y p.z x y h.s m n h.x_stands h.y_stands h.z_stands

-- For a point (x, y) with Z = s and s ^ (p - 1) congruent to 1 modulo p = 2 ^ 255 - 19, and the
-- remainders m and n of x and y, ge_tobytes gives 32 bytes whose number is n, with the lowest bit of
-- m as the bit 255.
pub ge_tobytes_value :
    (p : GeP2) (x y : ℤ) (m n : ℕ)
    → (h : IsP2 p x y) → FermatAt h.s
    → m < prime
    → n < prime
    → Cong x (pos m)
    → Cong y (pos n)
    → IsBytes (ge_tobytes p)
      × (length (ge_tobytes p) ≡ 32)
      × (le_value (ge_tobytes p) ≡ n + m % 2 * 2 ^ 255)
unfolding ge_tobytes
ge_tobytes_value p x y m n h = encode_lem p.x p.y p.z x y h.s m n h.x_stands h.y_stands h.z_stands
