-- ===== src/Field/Carry.antt =====
-- src/crypto/crypto-ops.c: the carries of `fe_mul`, `fe_sq` and `fe_sq2`, on the limbs h0 … h9 in
-- int64_t. A limb at an even place has 26 bits, the others have 25.
use bitmonero.Base.{ℕ, zero, suc, ◌^◌, List, [], ◌∷◌, Bool, true, false}
use bitmonero.Base.Int.{ℤ, pos, ◌+ℤ◌, ◌-ℤ◌, ◌*ℤ◌, ◌>>ℤ◌, ◌<<ℤ◌}

abbrev pub width : Bool → ℕ
width true = 26
width false = 25

abbrev pub half : Bool → ℕ
half true = 2 ^ 25
half false = 2 ^ 24

abbrev pub other : Bool → Bool
other true = false
other false = true

-- `carry = (h_k + (1 << (w - 1))) >> w; h_(k+1) += carry; h_k -= carry << w;`, where limb 0 of the
-- list is at an even place if `even` is true.
unfoldable pub carry_limb : Bool → ℕ → List ℤ → List ℤ
carry_limb even zero [] = []
carry_limb even zero (x ∷ []) = x ∷ []
carry_limb even zero (x ∷ y ∷ r) =
    let c = (x +ℤ pos (half even)) >>ℤ width even in (x -ℤ (c <<ℤ width even)) ∷ (y +ℤ c) ∷ r
carry_limb even (suc k) [] = []
carry_limb even (suc k) (x ∷ r) = x ∷ carry_limb (other even) k r

-- `carry9 = (h9 + (1 << 24)) >> 25; h0 += carry9 * 19; h9 -= carry9 << 25;`
unfoldable pub carry_top : List ℤ → List ℤ
carry_top (h0 ∷ h1 ∷ h2 ∷ h3 ∷ h4 ∷ h5 ∷ h6 ∷ h7 ∷ h8 ∷ h9 ∷ []) =
    let c = (h9 +ℤ pos (half false)) >>ℤ 25 in
    (h0 +ℤ c *ℤ pos 19) ∷ h1 ∷ h2 ∷ h3 ∷ h4 ∷ h5 ∷ h6 ∷ h7 ∷ h8 ∷ (h9 -ℤ (c <<ℤ 25)) ∷ []
carry_top h = h

pub data Carry : Type 0 where
  limb : ℕ → Carry
  top : Carry

unfoldable pub carry_step : Carry → List ℤ → List ℤ
unfolding carry_limb carry_top
carry_step (limb k) h = carry_limb true k h
carry_step top h = carry_top h

unfoldable pub carry_run : List Carry → List ℤ → List ℤ
unfolding carry_step
carry_run [] h = h
carry_run (c ∷ cs) h = carry_run cs (carry_step c h)

-- The twelve carries, in the source's order.
abbrev pub carries : List Carry
carries =
    limb 0
    ∷ limb 4
    ∷ limb 1
    ∷ limb 5
    ∷ limb 2
    ∷ limb 6
    ∷ limb 3
    ∷ limb 7
    ∷ limb 4
    ∷ limb 8
    ∷ top
    ∷ limb 0
    ∷ []
