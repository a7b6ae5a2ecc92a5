-- ===== src/IntUtil/Division.antt =====
-- Results about `div128_32`.
use native.Mathlib.Nat.{div-add-mod', mod-lt, div-lt_iff_lt-mul}
use bitmonero.Base.{ℕ, ◌+◌, ◌*◌, ◌/◌, ◌%◌, ◌^◌, ◌<◌, ◌≡◌, ap, ap₂, ◌∙◌, arith, bit_or}
use bitmonero.Base.Bits.{mask_bit_and, bit_or_high, bit_or_comm}
use bitmonero.IntUtil.{hi_dword, lo_dword, div_with_reminder, div128_32}

-- A digit of the quotient in base 2 ^ 32, and the remainder.
record IsStep (dividend divisor remainder : ℕ) (q : ℕ × ℕ) : Type 0 where
  value : q.0 * divisor + q.1 ≡ dividend + remainder * 2 ^ 32
  digit : q.0 < 2 ^ 32
  rest : q.1 < divisor

below_products : (n r d : ℕ) → n < 2 ^ 32 → r < d → n + r * 2 ^ 32 < 2 ^ 32 * d
below_products n r d h k = omega arith

div_with_reminder-IsStep :
    (n d r : ℕ) → n < 2 ^ 32 → r < d → d < 2 ^ 32 → IsStep n d r (div_with_reminder n d r)
unfolding div_with_reminder
div_with_reminder-IsStep n d r h k l =
    let e : r * 2 ^ 32 % 2 ^ 64 ≡ r * 2 ^ 32 = omega arith in
    let m = n + r * 2 ^ 32 in
    let whole : bit_or n (r * 2 ^ 32 % 2 ^ 64) ≡ m = ap (bit_or n) e ∙ bit_or_high 32 n r h in
    let small : m % d < d = mod-lt m (omega arith) in
    let same : m % d % 2 ^ 32 ≡ m % d = omega (arith, small) in
    let below : m / d < 2 ^ 32 =
      (div-lt_iff_lt-mul {k = d} {x = m} {y = 2 ^ 32} (omega arith)).1 (below_products n r d h k) in
    rw (whole, same) (record { value = div-add-mod' m d; digit = below; rest = small })

two_digits : (q r : ℕ) → q < 2 ^ 32 → r < 2 ^ 32 → bit_or (q * 2 ^ 32 % 2 ^ 64) r ≡ r + q * 2 ^ 32
two_digits q r h k =
    let e : q * 2 ^ 32 % 2 ^ 64 ≡ q * 2 ^ 32 = omega arith in
    ap (λ t. bit_or t r) e ∙ bit_or_comm (q * 2 ^ 32) r ∙ bit_or_high 32 r q k

all_digits :
    (d n3 n2 n1 n0 q3 q2 q1 q0 r3 r2 r1 r0 : ℕ)
    → q3 * d + r3 ≡ n3
    → q2 * d + r2 ≡ n2 + r3 * 2 ^ 32
    → q1 * d + r1 ≡ n1 + r2 * 2 ^ 32
    → q0 * d + r0 ≡ n0 + r1 * 2 ^ 32
    → ((q2 + q3 * 2 ^ 32) * 2 ^ 64 + (q0 + q1 * 2 ^ 32)) * d + r0
      ≡ (n3 * 2 ^ 32 + n2) * 2 ^ 64 + (n1 * 2 ^ 32 + n0)
all_digits d n3 n2 n1 n0 q3 q2 q1 q0 r3 r2 r1 r0 e3 e2 e1 e0 = omega (arith, e3, e2, e1, e0)

-- A digit of the dividend.
high_digit : (v : ℕ) → v < 2 ^ 64 → hi_dword v < 2 ^ 32
unfolding hi_dword
high_digit v h = omega arith

low_digit : (v : ℕ) → lo_dword v < 2 ^ 32
unfolding lo_dword
low_digit v = omega (arith, mask_bit_and 32 v)

both_digits : (v : ℕ) → hi_dword v * 2 ^ 32 + lo_dword v ≡ v
unfolding hi_dword lo_dword
both_digits v = omega (arith, mask_bit_and 32 v)

-- For two words of 64 bits and a divisor that is not 0, div128_32 gives a quotient of two words of 64
-- bits and a remainder below the divisor, which make up the dividend.
pub div128_32_lem :
    (hi lo d : ℕ)
    → hi < 2 ^ 64
    → lo < 2 ^ 64
    → 0 < d
    → d < 2 ^ 32
    → (((div128_32 hi lo d).0 * 2 ^ 64 + (div128_32 hi lo d).1) * d + (div128_32 hi lo d).2
        ≡ hi * 2 ^ 64 + lo)
      × ((div128_32 hi lo d).2 < d)
      × ((div128_32 hi lo d).0 < 2 ^ 64)
      × ((div128_32 hi lo d).1 < 2 ^ 64)
unfolding div128_32
div128_32_lem hi lo d h l p k =
    let s3 = div_with_reminder-IsStep (hi_dword hi) d 0 (high_digit hi h) p k in
    let q3 = div_with_reminder (hi_dword hi) d 0 in
    let s2 = div_with_reminder-IsStep (lo_dword hi) d q3.1 (low_digit hi) s3.rest k in
    let q2 = div_with_reminder (lo_dword hi) d q3.1 in
    let s1 = div_with_reminder-IsStep (hi_dword lo) d q2.1 (high_digit lo l) s2.rest k in
    let q1 = div_with_reminder (hi_dword lo) d q2.1 in
    let s0 = div_with_reminder-IsStep (lo_dword lo) d q1.1 (low_digit lo) s1.rest k in
    let q0 = div_with_reminder (lo_dword lo) d q1.1 in
    let first : q3.0 * d + q3.1 ≡ hi_dword hi = omega (arith, s3.value) in
    let whole =
      all_digits d (hi_dword hi) (lo_dword hi) (hi_dword lo) (lo_dword lo) q3.0 q2.0 q1.0 q0.0 q3.1
        q2.1 q1.1 q0.1 first s2.value s1.value s0.value in
    rw (two_digits q3.0 q2.0 s3.digit s2.digit, two_digits q1.0 q0.0 s1.digit s0.digit)
      (
        whole ∙ ap₂ (λ a b. a * 2 ^ 64 + b) (both_digits hi) (both_digits lo),
        s0.rest,
        omega (arith, s3.digit, s2.digit),
        omega (arith, s1.digit, s0.digit),
      )
