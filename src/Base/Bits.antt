-- ===== src/Base/Bits.antt =====
-- `&`, `|` and `^` on words at every width: the lowest bit and the rest, masks, disjoint fields.
use Prim.Native.Nat.{ℕ, zero, suc, ◌+◌, ◌-◌, ◌*◌, ◌/◌, ◌%◌, ◌^◌, ◌≤◌, ◌<◌, min, max}
use Prim.Native.Nat.{bit_and, bit_or, bit_xor, digits, bitwise, differ}
use Prim.Native.Nat.{bit_and-bitwise, bit_or-bitwise, bit_xor-bitwise}
use mathlib.Core.Path.{◌≡◌, refl, ap, ◌∙◌}
use native.Mathlib.Nat.{pow-suc, one-le-pow}
use native.Mathlib.Omega.{arith}

module _ (z : ℕ → ℕ) (f : ℕ → ℕ → ℕ) where
  more_fuel : (d a b : ℕ) → digits z f (d + a) a b ≡ bitwise z f a b
  more_fuel d a b = agree (d + a) a a b (omega arith) (omega arith)
    where
      agree : (n m a b : ℕ) → a ≤ n → a ≤ m → digits z f n a b ≡ digits z f m a b
      agree zero zero a b p q = refl
      agree zero (suc m) zero b p q = refl
      agree zero (suc m) (suc a) b p q = absurd (omega arith)
      agree (suc n) zero zero b p q = refl
      agree (suc n) zero (suc a) b p q = absurd (omega arith)
      agree (suc n) (suc m) zero b p q = refl
      agree (suc n) (suc m) (suc a) b p q =
          ap (λ (t : ℕ). t * 2 + f (suc a % 2) (b % 2))
            (agree n m (suc a / 2) (b / 2) (omega arith) (omega arith))

  lowest :
      (a b : ℕ)
      → bitwise z f (suc a) b ≡ bitwise z f (suc a / 2) (b / 2) * 2 + f (suc a % 2) (b % 2)
  lowest a b =
      let e : a - suc a / 2 + suc a / 2 ≡ a = omega arith in
      ap (λ (t : ℕ). t * 2 + f (suc a % 2) (b % 2))
        (rw e at (more_fuel (a - suc a / 2) (suc a / 2) (b / 2)))

pub bit_or_low : (a b : ℕ) → bit_or a b ≡ bit_or (a / 2) (b / 2) * 2 + max (a % 2) (b % 2)
bit_or_low zero b = simp bit_or-bitwise (omega arith)
bit_or_low (suc a) b = simp bit_or-bitwise (lowest (λ y. y) max a b)

pub bit_and_low : (a b : ℕ) → bit_and a b ≡ bit_and (a / 2) (b / 2) * 2 + min (a % 2) (b % 2)
bit_and_low zero b = simp bit_and-bitwise (omega arith)
bit_and_low (suc a) b = simp bit_and-bitwise (lowest (λ y. 0) min a b)

pub bit_xor_low : (a b : ℕ) → bit_xor a b ≡ bit_xor (a / 2) (b / 2) * 2 + differ (a % 2) (b % 2)
bit_xor_low zero b = simp bit_xor-bitwise (omega arith)
bit_xor_low (suc a) b = simp bit_xor-bitwise (lowest (λ y. y) differ a b)

-- Two bits that differ.
differ_bits : (x y : ℕ) → x < 2 → y < 2 → (differ x y < 2) × (differ (differ x y) y ≡ x)
differ_bits zero zero p q = (omega arith, refl)
differ_bits zero (suc zero) p q = (omega arith, refl)
differ_bits (suc zero) zero p q = (omega arith, refl)
differ_bits (suc zero) (suc zero) p q = (omega arith, refl)
differ_bits (suc (suc x)) y p q = absurd (omega arith)
differ_bits zero (suc (suc y)) p q = absurd (omega arith)
differ_bits (suc zero) (suc (suc y)) p q = absurd (omega arith)

pub xor_halves :
    (a b : ℕ)
    → (bit_xor a b / 2 ≡ bit_xor (a / 2) (b / 2)) × (bit_xor a b % 2 ≡ differ (a % 2) (b % 2))
xor_halves a b = (
  omega (arith, bit_xor_low a b, (differ_bits (a % 2) (b % 2) (omega arith) (omega arith)).0),
  omega (arith, bit_xor_low a b, (differ_bits (a % 2) (b % 2) (omega arith) (omega arith)).0),
)

xor_cancel_below : (n a b : ℕ) → a ≤ n → b ≤ n → bit_xor (bit_xor a b) b ≡ a
xor_cancel_below zero zero zero p q = refl
xor_cancel_below zero (suc a) b p q = absurd (omega arith)
xor_cancel_below zero zero (suc b) p q = absurd (omega arith)
xor_cancel_below (suc n) a b p q =
    let (h, l) = xor_halves a b in
    let (h', l') = xor_halves (bit_xor a b) b in
    omega (
      arith,
      bit_xor_low (bit_xor a b) b,
      h',
      l',
      ap (λ (t : ℕ). bit_xor t (b / 2)) h,
      ap (λ (t : ℕ). differ t (b % 2)) l,
      xor_cancel_below n (a / 2) (b / 2) (omega arith) (omega arith),
      (differ_bits (a % 2) (b % 2) (omega arith) (omega arith)).1,
    )

-- Xor with the same word twice gives the first word back.
xor_cancel : (a b : ℕ) → bit_xor (bit_xor a b) b ≡ a
xor_cancel a b = xor_cancel_below (a + b) a b (omega arith) (omega arith)

differ_comm : (x y : ℕ) → x < 2 → y < 2 → differ x y ≡ differ y x
differ_comm zero zero p q = refl
differ_comm zero (suc zero) p q = refl
differ_comm (suc zero) zero p q = refl
differ_comm (suc zero) (suc zero) p q = refl
differ_comm (suc (suc x)) y p q = absurd (omega arith)
differ_comm zero (suc (suc y)) p q = absurd (omega arith)
differ_comm (suc zero) (suc (suc y)) p q = absurd (omega arith)

xor_comm_below : (n a b : ℕ) → a ≤ n → b ≤ n → bit_xor a b ≡ bit_xor b a
xor_comm_below zero zero zero p q = refl
xor_comm_below zero (suc a) b p q = absurd (omega arith)
xor_comm_below zero zero (suc b) p q = absurd (omega arith)
xor_comm_below (suc n) a b p q = omega (
  arith,
  bit_xor_low a b,
  bit_xor_low b a,
  xor_comm_below n (a / 2) (b / 2) (omega arith) (omega arith),
  differ_comm (a % 2) (b % 2) (omega arith) (omega arith),
)

pub xor_cancel_left : (a b : ℕ) → bit_xor a (bit_xor a b) ≡ b
xor_cancel_left a b =
    rw (xor_comm_below (a + b) a b (omega arith) (omega arith)) (
      xor_comm_below (a + bit_xor b a) a (bit_xor b a) (omega arith) (omega arith) ∙ xor_cancel b a)

pub bit_xor-lt : (k a b : ℕ) → a < 2 ^ k → b < 2 ^ k → bit_xor a b < 2 ^ k
bit_xor-lt zero zero zero p q = omega arith
bit_xor-lt zero (suc a) b p q = absurd (omega arith)
bit_xor-lt zero zero (suc b) p q = absurd (omega arith)
bit_xor-lt (suc k) a b p q = omega (
  arith,
  pow-suc 2 k,
  bit_xor_low a b,
  bit_xor-lt k (a / 2) (b / 2) (omega (arith, pow-suc 2 k)) (omega (arith, pow-suc 2 k)),
  (differ_bits (a % 2) (b % 2) (omega arith) (omega arith)).0,
)

zero-bit_or : (a : ℕ) → bit_or 0 a ≡ a
zero-bit_or a = simp bit_or-bitwise

times_pow : (q k : ℕ) → q * 2 ^ suc k ≡ 2 * (q * 2 ^ k)
times_pow q k = omega (arith, ap (λ (t : ℕ). q * t) (pow-suc 2 k))

-- Disjoint fields: `low | (high << k)` is a sum when `low` has `k` bits.
pub bit_or_high : (k low high : ℕ) → low < 2 ^ k → bit_or low (high * 2 ^ k) ≡ low + high * 2 ^ k
bit_or_high zero zero high fits = omega (arith, zero-bit_or (high * 2 ^ 0))
bit_or_high zero (suc low) high fits = absurd (omega arith)
bit_or_high (suc k) low high fits = ground (
  arith,
  bit_or_low low (high * 2 ^ suc k),
  times_pow high k,
  pow-suc 2 k,
  bit_or_high k (low / 2) high (omega (arith, pow-suc 2 k)),
)

pub zero-bit_and : (a : ℕ) → bit_and 0 a ≡ 0
zero-bit_and a = simp bit_and-bitwise

ones_bit_and : (k q r : ℕ) → r < 2 ^ k → bit_and (2 ^ k - 1) (r + q * 2 ^ k) ≡ r
ones_bit_and zero q r fits = omega (arith, zero-bit_and (r + q * 2 ^ 0))
ones_bit_and (suc k) q r fits = ground (
  arith,
  bit_and_low (2 ^ suc k - 1) (r + q * 2 ^ suc k),
  times_pow q k,
  pow-suc 2 k,
  one-le-pow k 2,
  ones_bit_and k q (r / 2) (omega (arith, pow-suc 2 k)),
)

-- A mask of `k` low bits, written on the left, is the remainder by 2 ^ k.
pub mask_bit_and : (k a : ℕ) → bit_and (2 ^ k - 1) a ≡ a % 2 ^ k
mask_bit_and k a = ground (arith, one-le-pow k 2, ones_bit_and k (a / 2 ^ k) (a % 2 ^ k))

pub zero-bit_xor : (a : ℕ) → bit_xor 0 a ≡ a
zero-bit_xor a = simp bit_xor-bitwise

-- Xor field by field.
pub xor_fields :
    (k r q r' q' : ℕ)
    → r < 2 ^ k
    → r' < 2 ^ k
    → bit_xor (r + q * 2 ^ k) (r' + q' * 2 ^ k) ≡ bit_xor r r' + bit_xor q q' * 2 ^ k
xor_fields zero zero q zero q' h h' =
    let e : 0 + q * 2 ^ 0 ≡ q = omega arith in
    let e' : 0 + q' * 2 ^ 0 ≡ q' = omega arith in rw (e, e', zero-bit_xor 0) (omega arith)
xor_fields zero (suc r) q r' q' h h' = absurd (omega arith)
xor_fields zero zero q (suc r') q' h h' = absurd (omega arith)
xor_fields (suc k) r q r' q' h h' = ground (
  arith,
  bit_xor_low (r + q * 2 ^ suc k) (r' + q' * 2 ^ suc k),
  bit_xor_low r r',
  times_pow q k,
  times_pow q' k,
  times_pow (bit_xor q q') k,
  pow-suc 2 k,
  xor_fields k (r / 2) q (r' / 2) q' (omega (arith, pow-suc 2 k)) (omega (arith, pow-suc 2 k)),
)

pub bit_xor-zero : (a : ℕ) → bit_xor a 0 ≡ a
bit_xor-zero a = xor_comm_below a a 0 (omega arith) (omega arith) ∙ zero-bit_xor a

bit_or_bounds_below :
    (n k a b : ℕ)
    → k ≤ n
    → a < 2 ^ k
    → b < 2 ^ k
    → (bit_or a b < 2 ^ k) × (a ≤ bit_or a b) × (b ≤ bit_or a b)
bit_or_bounds_below n zero zero zero m p q = (omega arith, omega arith, omega arith)
bit_or_bounds_below n zero (suc a) b m p q = absurd (omega arith)
bit_or_bounds_below n zero zero (suc b) m p q = absurd (omega arith)
bit_or_bounds_below zero (suc k) a b m p q = absurd (omega arith)
bit_or_bounds_below (suc n) (suc k) a b m p q =
    let (l, u, v) =
      bit_or_bounds_below n k (a / 2) (b / 2) (omega arith) (omega (arith, pow-suc 2 k))
        (omega (arith, pow-suc 2 k)) in
    (
      omega (arith, pow-suc 2 k, bit_or_low a b),
      omega (arith, bit_or_low a b),
      omega (arith, bit_or_low a b),
    )

-- The width and the order of `|`.
pub bit_or_bounds :
    (k a b : ℕ) → a < 2 ^ k → b < 2 ^ k → (bit_or a b < 2 ^ k) × (a ≤ bit_or a b) × (b ≤ bit_or a b)
bit_or_bounds k a b p q = bit_or_bounds_below k k a b (omega arith) p q

bit_or_comm_below : (k a b : ℕ) → a ≤ k → b ≤ k → bit_or a b ≡ bit_or b a
bit_or_comm_below zero zero zero h i = refl
bit_or_comm_below zero zero (suc b) h i = absurd (omega arith)
bit_or_comm_below zero (suc a) b h i = absurd (omega arith)
bit_or_comm_below (suc k) a b h i = omega (
  arith,
  bit_or_low a b,
  bit_or_low b a,
  bit_or_comm_below k (a / 2) (b / 2) (omega arith) (omega arith),
)

pub bit_or_comm : (a b : ℕ) → bit_or a b ≡ bit_or b a
bit_or_comm a b = bit_or_comm_below (a + b) a b (omega arith) (omega arith)
