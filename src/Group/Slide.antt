-- ===== src/Group/Slide.antt =====
-- src/crypto/crypto-ops.c: `slide`, the digits of a scalar in `ge_double_scalarmult_base_vartime` and
-- `ge_double_scalarmult_precomp_vartime`. A list is the array from an index on.
use bitmonero.Base.{ℕ, zero, suc, ◌/◌, ◌^◌, bit_and, List, [], ◌∷◌, if◌then◌else◌}
use bitmonero.Base.Int.{ℤ, pos, negsuc, ◌+ℤ◌, ◌-ℤ◌, ◌<<ℤ◌, leb_ℤ, holds}

-- `r[i] = 1 & (a[i >> 3] >> (i & 7));` for the eight `i` of a byte, and then for the next byte.
unfoldable pub scalar_bits : List ℕ → List ℤ
scalar_bits [] = []
scalar_bits (c ∷ a) =
    pos (bit_and 1 (c / 2 ^ 0))
    ∷ pos (bit_and 1 (c / 2 ^ 1))
    ∷ pos (bit_and 1 (c / 2 ^ 2))
    ∷ pos (bit_and 1 (c / 2 ^ 3))
    ∷ pos (bit_and 1 (c / 2 ^ 4))
    ∷ pos (bit_and 1 (c / 2 ^ 5))
    ∷ pos (bit_and 1 (c / 2 ^ 6))
    ∷ pos (bit_and 1 (c / 2 ^ 7))
    ∷ scalar_bits a

-- The loop over `k`, from r[k] on.
unfoldable pub set_next : List ℤ → List ℤ
set_next [] = []
set_next (d ∷ r) = let rest = set_next r in if holds d then pos 0 ∷ rest else pos 1 ∷ r

-- What a turn of the loop over `b` does.
pub data Action : Type 0 where
  skip : Action
  absorb : Action
  borrow : Action
  break : Action

-- `x` is r[i], `d` is r[i + b], and `e` is r[i + b] << b.
unfoldable pub action : ℤ → ℤ → ℤ → Action
action x d e =
    if holds d
    then if leb_ℤ (x +ℤ e) (pos 15)
      then absorb
      else if leb_ℤ (negsuc 14) (x -ℤ e)
      then borrow
      else break
    else skip

-- The loop over `b`, with `n` turns left, from r[i + b] on. When it borrows, r[i + b] is not 0, and so
-- the loop over `k` sets it to 0 and goes on.
unfoldable pub window : ℕ → ℕ → ℤ → List ℤ → ℤ × List ℤ
window zero b x r = (x, r)
window (suc n) b x [] = (x, [])
window (suc n) b x (d ∷ r) =
    let e = d <<ℤ b in
    elim (action x d e) [
      | skip ↦ let (x', r') = window n (suc b) x r in (x', d ∷ r')
      | absorb ↦ let (x', r') = window n (suc b) (x +ℤ e) r in (x', pos 0 ∷ r')
      | borrow ↦ let (x', r') = window n (suc b) (x -ℤ e) (set_next r) in (x', pos 0 ∷ r')
      | break ↦ (x, d ∷ r)
    ]

-- The turn of the loop over `i`, for r[i] and the array behind it.
unfoldable pub slide_turn : ℤ → List ℤ → ℤ × List ℤ
slide_turn x r = if holds x then window 6 1 x r else (x, r)

-- The loop over `i`, with `n` turns left.
unfoldable pub slide_turns : ℕ → List ℤ → List ℤ
slide_turns zero r = r
slide_turns (suc n) [] = []
slide_turns (suc n) (x ∷ r) = let (x', r') = slide_turn x r in x' ∷ slide_turns n r'

unfoldable pub slide : List ℕ → List ℤ
slide a = slide_turns 256 (scalar_bits a)
