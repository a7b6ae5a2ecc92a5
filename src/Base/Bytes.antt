-- ===== src/Base/Bytes.antt =====
-- Byte strings as numbers, lowest byte first.
use Prim.Native.Nat.{ℕ, zero, suc, ◌+◌, ◌*◌, ◌/◌, ◌^◌, ◌≤◌, ◌<◌}
use mathlib.Core.Path.{◌≡◌, sym}
use mathlib.Core.List.{List, [], ◌∷◌}
use native.Mathlib.Nat.{pow-suc, pow-succ', zero-div, div-div-eq-div-mul}
use native.Mathlib.Numerals.{unary_clauses}
use native.Mathlib.Omega.{arith}
use bitmonero.Base.Lists.{length, get_or, take, drop, All}

abbrev pub IsByte : ℕ → Type 0
IsByte b = b < 256

abbrev pub IsBytes : List ℕ → Type 0
IsBytes s = All IsByte s

-- s[0] + 256 * s[1] + 256 ^ 2 * s[2] + …
abbrev pub le_value : List ℕ → ℕ
le_value [] = 0
le_value (b ∷ s) = b + 256 * le_value s

pub drop-IsBytes : (n : ℕ) (s : List ℕ) → IsBytes s → IsBytes (drop n s)
drop-IsBytes zero s h = h
drop-IsBytes (suc n) [] h = h
drop-IsBytes (suc n) (b ∷ s) h = drop-IsBytes n s h.1

-- The bytes from `n` on.
pub le_value-drop : (n : ℕ) (s : List ℕ) → IsBytes s → le_value (drop n s) ≡ le_value s / 256 ^ n
le_value-drop zero s h = omega arith
le_value-drop (suc n) [] h = sym (zero-div (256 ^ suc n))
le_value-drop (suc n) (b ∷ s) h =
    rw (pow-succ' 256 n, ← div-div-eq-div-mul (b + 256 * le_value s) 256 (256 ^ n))
      (let e : (b + 256 * le_value s) / 256 ≡ le_value s = omega (arith, h.0) in
        rw e (le_value-drop n s h.1))

pub le_value-lt : (s : List ℕ) → IsBytes s → le_value s < 256 ^ length s
le_value-lt [] h = omega arith
le_value-lt (b ∷ s) h = omega (arith, le_value-lt s h.1, pow-suc 256 (length s))

pub take-IsBytes : (n : ℕ) (s : List ℕ) → IsBytes s → IsBytes (take n s)
take-IsBytes zero s h = tt
take-IsBytes (suc n) [] h = tt
take-IsBytes (suc n) (x ∷ s) h = (h.0, take-IsBytes n s h.1)

-- The numbers of the highest bytes.
pub times_next : (i v : ℕ) → 256 ^ suc i * v ≡ 256 * (256 ^ i * v)
times_next i v = simp unary_clauses (grind arith)

pub top_byte : (i : ℕ) (s : List ℕ) → 256 ^ i * get_or s i 0 ≤ le_value s
top_byte i [] = omega arith
top_byte zero (b ∷ s) = omega arith
top_byte (suc i) (b ∷ s) = omega (arith, times_next i (get_or s i 0), top_byte i s)

pub low_bytes :
    (i : ℕ) (s : List ℕ)
    → IsBytes s
    → length s ≡ suc i
    → le_value s < 256 ^ i * get_or s i 0 + 256 ^ i
low_bytes i [] h l = absurd (omega arith)
low_bytes zero (b ∷ []) h l = omega arith
low_bytes zero (b ∷ c ∷ s) h l = absurd (omega arith)
low_bytes (suc i) (b ∷ s) h l =
    omega (arith, times_next i (get_or s i 0), times_next i 1, low_bytes i s h.1 (omega arith), h.0)
