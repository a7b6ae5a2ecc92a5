-- ===== src/Scalar/Nonzero.antt =====
-- src/crypto/crypto-ops.c: `sc_isnonzero`.
use bitmonero.Base.{ℕ, zero, suc, ◌+◌, ◌*◌, ◌^◌, ◌≤◌, ◌<◌, ◌≡◌, refl, arith}
use bitmonero.Base.{◌⊎◌, inl, inr, List, [], ◌∷◌, get_or, take, drop, length, bit_or}
use bitmonero.Base.Int.{ℤ, pos, ◌+ℤ◌, ◌-ℤ◌, ◌>>ℤ◌}
use bitmonero.Base.Bits.{bit_or_bounds}
use bitmonero.Base.Bytes.{IsBytes, le_value, take-IsBytes}

-- a | s[0] | s[1] | …
unfoldable pub or_all : ℕ → List ℕ → ℕ
or_all a [] = a
or_all a (b ∷ s) = or_all (bit_or a b) s

unfoldable pub sc_isnonzero : List ℕ → ℤ
unfolding or_all ◌+ℤ◌ ◌-ℤ◌ ◌>>ℤ◌
sc_isnonzero s = ((pos (or_all (get_or s 0 0) (take 31 (drop 1 s))) -ℤ pos 1) >>ℤ 8) +ℤ pos 1

or_all_cases :
    (a : ℕ) (s : List ℕ)
    → a < 2 ^ 8
    → IsBytes s
    → (or_all a s < 2 ^ 8)
      × (0 < a + le_value s → 0 < or_all a s)
      × (a + le_value s ≡ 0 → or_all a s ≡ 0)
unfolding or_all
or_all_cases a [] p h = (p, λ (q : 0 < a + 0). omega arith, λ (q : a + 0 ≡ 0). omega arith)
or_all_cases a (b ∷ s) p h =
    let (l, u, v) = bit_or_bounds 8 a b p h.0 in
    let (w, x, y) = or_all_cases (bit_or a b) s l h.1 in
    (
      w,
      λ (q : 0 < a + (b + 256 * le_value s)). x (omega arith),
      λ (q : a + (b + 256 * le_value s) ≡ 0).
          y (let z = none_set a b (omega arith) (omega arith) in omega arith),
    )
  where
    none_set : (a b : ℕ) → a ≡ 0 → b ≡ 0 → bit_or a b ≡ 0
    none_set a b e f = rw (e, f) refl

flag : (x : ℕ) → x < 2 ^ 8 → 0 < x → ((pos x -ℤ pos 1) >>ℤ 8) +ℤ pos 1 ≡ pos 1
unfolding ◌+ℤ◌ ◌-ℤ◌ ◌>>ℤ◌
flag zero p q = absurd (omega arith)
flag (suc x) p q = ground arith

zero_or_more : (n : ℕ) → (n ≡ 0) ⊎ (0 < n)
zero_or_more zero = inl refl
zero_or_more (suc n) = inr (omega arith)

-- For 32 bytes and more, sc_isnonzero answers 0 when the number of the first 32 is 0, and 1 when
-- it is not.
pub sc_isnonzero_decides :
    (s : List ℕ)
    → IsBytes s
    → 32 ≤ length s
    → ((le_value (take 32 s) ≡ 0) × (sc_isnonzero s ≡ pos 0))
      ⊎ ((0 < le_value (take 32 s)) × (sc_isnonzero s ≡ pos 1))
unfolding sc_isnonzero
sc_isnonzero_decides [] h n = absurd (omega arith)
sc_isnonzero_decides (b ∷ r) h n =
    let (w, x, y) = or_all_cases b (take 31 r) h.0 (take-IsBytes 31 r h.1) in
    elim (zero_or_more (b + 256 * le_value (take 31 r))) [
      | inl q ↦ inl (q, rw (y (omega arith)) refl)
      | inr q ↦ inr (q, flag (or_all b (take 31 r)) w (x (omega arith)))
    ]
