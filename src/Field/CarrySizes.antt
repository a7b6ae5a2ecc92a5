-- ===== src/Field/CarrySizes.antt =====
-- The carries of Field.Carry on sizes.
use bitmonero.Base.{
  ℕ, zero, suc, ◌+◌, ◌-◌, ◌*◌, ◌/◌, ◌^◌, ◌≤◌, ◌<◌, ◌≡◌, refl, ap, ◌∙◌, arith, List, [], ◌∷◌, length,
  Bool, true, false, ◌&&◌, leb, leb→le,
}
use bitmonero.Base.Int.{
  ℤ, pos, negsuc, pos_part, neg_part, ◌+ℤ◌, ◌-ℤ◌, ◌*ℤ◌, ◌>>ℤ◌, ◌<<ℤ◌, +ℤ_parts, -ℤ_parts,
}
use bitmonero.Base.Ring.{size, *ℤ_size}
use bitmonero.Base.Range.{Within, int64}
use bitmonero.Field.Linear.{one_sided}
use bitmonero.Field.Carry.{Carry, limb, top, other, half, width, carry_limb, carry_top, carry_step}
use bitmonero.Field.Sizes.{AtMost}
use bitmonero.Field.Sums.{size-int64, +ℤ_size}
use bitmonero.Field.Ten.{ten}
use bitmonero.Base.{and_cases}

abbrev IsInt64 : ℤ → Type 0
IsInt64 x = Within x int64

-- Every value that a carry computes is an int64_t.
abbrev pub LimbFits : Bool → ℕ → List ℤ → Type 0
LimbFits even zero [] = Unit {0}
LimbFits even zero (x ∷ []) = Unit {0}
LimbFits even zero (x ∷ y ∷ r) =
    let c = (x +ℤ pos (half even)) >>ℤ width even in
    IsInt64 (x +ℤ pos (half even))
    × IsInt64 (c <<ℤ width even)
    × IsInt64 (x -ℤ (c <<ℤ width even))
    × IsInt64 (y +ℤ c)
LimbFits even (suc k) [] = Unit {0}
LimbFits even (suc k) (x ∷ r) = LimbFits (other even) k r

abbrev pub TopFits : List ℤ → Type 0
TopFits (h0 ∷ h1 ∷ h2 ∷ h3 ∷ h4 ∷ h5 ∷ h6 ∷ h7 ∷ h8 ∷ h9 ∷ []) =
    let c = (h9 +ℤ pos (half false)) >>ℤ 25 in
    IsInt64 (h9 +ℤ pos (half false))
    × IsInt64 (c *ℤ pos 19)
    × IsInt64 (h0 +ℤ c *ℤ pos 19)
    × IsInt64 (c <<ℤ 25)
    × IsInt64 (h9 -ℤ (c <<ℤ 25))
TopFits h = Unit {0}

abbrev pub CarryFits : Carry → List ℤ → Type 0
CarryFits (limb k) h = LimbFits true k h
CarryFits top h = TopFits h

-- No carry of a run overflows.
abbrev pub CarriesFit : List Carry → List ℤ → Type 0
CarriesFit [] h = Unit {0}
CarriesFit (c ∷ cs) h = CarryFits c h × CarriesFit cs (carry_step c h)

-- The carry out of a limb of at most `m`.
unfoldable pub out : Bool → ℕ → ℕ
out even m = (m + half even) / 2 ^ width even

shifted_26 :
    (y : ℤ) (m : ℕ)
    → pos_part y ≤ m + 2 ^ 25
    → neg_part y ≤ m - 2 ^ 25
    → size (y >>ℤ 26) ≤ (m + 2 ^ 25) / 2 ^ 26
unfolding ◌>>ℤ◌
shifted_26 (pos n) m h k = omega arith
shifted_26 (negsuc n) m h k = omega arith

shifted_25 :
    (y : ℤ) (m : ℕ)
    → pos_part y ≤ m + 2 ^ 24
    → neg_part y ≤ m - 2 ^ 24
    → size (y >>ℤ 25) ≤ (m + 2 ^ 24) / 2 ^ 25
unfolding ◌>>ℤ◌
shifted_25 (pos n) m h k = omega arith
shifted_25 (negsuc n) m h k = omega arith

pub shifted_size :
    (even : Bool) (x : ℤ) (m : ℕ)
    → size x ≤ m
    → size ((x +ℤ pos (half even)) >>ℤ width even) ≤ out even m
unfolding out
shifted_size true x m h =
    let y = x +ℤ pos (2 ^ 25) in
    let s = +ℤ_parts x (pos (2 ^ 25)) in
    let o = one_sided y in shifted_26 y m (omega arith) (omega arith)
shifted_size false x m h =
    let y = x +ℤ pos (2 ^ 24) in
    let s = +ℤ_parts x (pos (2 ^ 24)) in
    let o = one_sided y in shifted_25 y m (omega arith) (omega arith)

low_26 :
    (y : ℤ)
    → (neg_part (y -ℤ ((y >>ℤ 26) <<ℤ 26)) ≡ 0) × (pos_part (y -ℤ ((y >>ℤ 26) <<ℤ 26)) < 2 ^ 26)
unfolding ◌-ℤ◌ ◌>>ℤ◌ ◌<<ℤ◌ ◌*ℤ◌
low_26 (pos n) = ground arith
low_26 (negsuc n) = ground arith

low_25 :
    (y : ℤ)
    → (neg_part (y -ℤ ((y >>ℤ 25) <<ℤ 25)) ≡ 0) × (pos_part (y -ℤ ((y >>ℤ 25) <<ℤ 25)) < 2 ^ 25)
unfolding ◌-ℤ◌ ◌>>ℤ◌ ◌<<ℤ◌ ◌*ℤ◌
low_25 (pos n) = ground arith
low_25 (negsuc n) = ground arith

remainder_size :
    (even : Bool) (x : ℤ)
    → size (x -ℤ (((x +ℤ pos (half even)) >>ℤ width even) <<ℤ width even)) ≤ half even
remainder_size true x =
    let y = x +ℤ pos (2 ^ 25) in
    let c = (y >>ℤ 26) <<ℤ 26 in
    omega
      (arith, low_26 y, +ℤ_parts x (pos (2 ^ 25)), -ℤ_parts y c, -ℤ_parts x c, one_sided (x -ℤ c))
remainder_size false x =
    let y = x +ℤ pos (2 ^ 24) in
    let c = (y >>ℤ 25) <<ℤ 25 in
    omega
      (arith, low_25 y, +ℤ_parts x (pos (2 ^ 24)), -ℤ_parts y c, -ℤ_parts x c, one_sided (x -ℤ c))

unfoldable pub limb_sizes : Bool → ℕ → List ℕ → List ℕ
unfolding out
limb_sizes even zero [] = []
limb_sizes even zero (x ∷ []) = x ∷ []
limb_sizes even zero (x ∷ y ∷ r) = half even ∷ (y + out even x) ∷ r
limb_sizes even (suc k) [] = []
limb_sizes even (suc k) (x ∷ r) = x ∷ limb_sizes (other even) k r

unfoldable pub top_sizes : List ℕ → List ℕ
unfolding out
top_sizes (h0 ∷ h1 ∷ h2 ∷ h3 ∷ h4 ∷ h5 ∷ h6 ∷ h7 ∷ h8 ∷ h9 ∷ []) =
    (h0 + out false h9 * 19) ∷ h1 ∷ h2 ∷ h3 ∷ h4 ∷ h5 ∷ h6 ∷ h7 ∷ h8 ∷ half false ∷ []
top_sizes h = h

unfoldable pub limb_fits : Bool → ℕ → List ℕ → Bool
unfolding out
limb_fits even zero [] = true
limb_fits even zero (x ∷ []) = true
limb_fits even zero (x ∷ y ∷ r) = leb (x + half even) (2 ^ 62) && leb (y + out even x) (2 ^ 63 - 1)
limb_fits even (suc k) [] = true
limb_fits even (suc k) (x ∷ r) = limb_fits (other even) k r

half_small : (even : Bool) → half even ≤ 2 ^ 25
half_small true = omega arith
half_small false = omega arith

back_size : (x y : ℤ) (m n : ℕ) → size x ≤ m → size (x -ℤ y) ≤ n → size y ≤ m + n
back_size x y m n h k = omega (arith, -ℤ_parts x y, one_sided y)

pub limb_fits-LimbFits :
    (even : Bool) (k : ℕ) (s : List ℤ) (bs : List ℕ)
    → AtMost s bs
    → limb_fits even k bs ≡ true
    → LimbFits even k s × AtMost (carry_limb even k s) (limb_sizes even k bs)
unfolding limb_fits limb_sizes carry_limb
limb_fits-LimbFits even zero [] [] h e = (tt, tt)
limb_fits-LimbFits even zero [] (b ∷ bs) h e = absurd h
limb_fits-LimbFits even zero (x ∷ []) [] h e = absurd h
limb_fits-LimbFits even zero (x ∷ []) (b ∷ []) h e = (tt, h)
limb_fits-LimbFits even zero (x ∷ []) (b ∷ d ∷ bs) h e = absurd h.1
limb_fits-LimbFits even zero (x ∷ y ∷ s) [] h e = absurd h
limb_fits-LimbFits even zero (x ∷ y ∷ s) (b ∷ []) h e = absurd h.1
limb_fits-LimbFits even zero (x ∷ y ∷ s) (b ∷ d ∷ bs) (hx, (hy, hs)) e =
    let c = (x +ℤ pos (half even)) >>ℤ width even in
    let (e0, e1) = and_cases _ _ e in
    let big = leb→le (b + half even) (2 ^ 62) e0 in
    let sum = leb→le (d + out even b) (2 ^ 63 - 1) e1 in
    let low = remainder_size even x in
    let high : size (y +ℤ c) ≤ d + out even b =
      omega (arith, +ℤ_size y c, shifted_size even x b hx) in
    (
      (
        size-int64 (x +ℤ pos (half even)) (2 ^ 62) (omega (arith, +ℤ_size x (pos (half even))))
            (omega arith),
        size-int64 (c <<ℤ width even) (b + half even)
            (back_size x (c <<ℤ width even) b (half even) hx low) (omega arith),
        size-int64 (x -ℤ (c <<ℤ width even)) (half even) low (omega (arith, half_small even)),
        size-int64 (y +ℤ c) (d + out even b) high sum,
      ),
      (low, (high, hs)),
    )
limb_fits-LimbFits even (suc k) [] [] h e = (tt, tt)
limb_fits-LimbFits even (suc k) [] (b ∷ bs) h e = absurd h
limb_fits-LimbFits even (suc k) (x ∷ s) [] h e = absurd h
limb_fits-LimbFits even (suc k) (x ∷ s) (b ∷ bs) h e =
    let (f, a) = limb_fits-LimbFits (other even) k s bs h.1 e in (f, (h.0, a))

-- The sizes that the last carry needs.
unfoldable pub top_fits : List ℕ → Bool
unfolding out
top_fits (h0 ∷ h1 ∷ h2 ∷ h3 ∷ h4 ∷ h5 ∷ h6 ∷ h7 ∷ h8 ∷ h9 ∷ []) =
    leb (h9 + half false) (2 ^ 62) && leb (h0 + out false h9 * 19) (2 ^ 63 - 1)
top_fits h = false

pub AtMost-length : (s : List ℤ) (bs : List ℕ) → AtMost s bs → length bs ≡ length s
AtMost-length [] [] h = refl
AtMost-length [] (b ∷ bs) h = absurd h
AtMost-length (x ∷ s) [] h = absurd h
AtMost-length (x ∷ s) (b ∷ bs) h = ap suc (AtMost-length s bs h.1)

-- The limbs that the last carry changes.
top_values :
    (x0 x9 : ℤ) (b0 b9 : ℕ)
    → size x0 ≤ b0
    → size x9 ≤ b9
    → b9 + half false ≤ 2 ^ 62
    → b0 + out false b9 * 19 ≤ 2 ^ 63 - 1
    → let c = (x9 +ℤ pos (half false)) >>ℤ 25 in
      (IsInt64 (x9 +ℤ pos (half false))
        × IsInt64 (c *ℤ pos 19)
        × IsInt64 (x0 +ℤ c *ℤ pos 19)
        × IsInt64 (c <<ℤ 25)
        × IsInt64 (x9 -ℤ (c <<ℤ 25)))
      × (size (x0 +ℤ c *ℤ pos 19) ≤ b0 + out false b9 * 19)
      × (size (x9 -ℤ (c <<ℤ 25)) ≤ half false)
top_values x0 x9 b0 b9 h0 h9 e0 e1 =
    let c = (x9 +ℤ pos (half false)) >>ℤ 25 in
    let low = remainder_size false x9 in
    let small = shifted_size false x9 b9 h9 in
    let times : size (c *ℤ pos 19) ≤ out false b9 * 19 = omega (arith, *ℤ_size c (pos 19)) in
    let first : size (x0 +ℤ c *ℤ pos 19) ≤ b0 + out false b9 * 19 =
      omega (arith, +ℤ_size x0 (c *ℤ pos 19)) in
    (
      (
        size-int64 (x9 +ℤ pos (half false)) (2 ^ 62) (omega (arith, +ℤ_size x9 (pos (half false))))
            (omega arith),
        size-int64 (c *ℤ pos 19) (out false b9 * 19) times (omega arith),
        size-int64 (x0 +ℤ c *ℤ pos 19) (b0 + out false b9 * 19) first e1,
        size-int64 (c <<ℤ 25) (b9 + half false) (back_size x9 (c <<ℤ 25) b9 (half false) h9 low)
            (omega arith),
        size-int64 (x9 -ℤ (c <<ℤ 25)) (half false) low (omega arith),
      ),
      first,
      low,
    )

pub top_fits-TopFits :
    (s : List ℤ) (bs : List ℕ)
    → length s ≡ 10
    → AtMost s bs
    → top_fits bs ≡ true
    → TopFits s × AtMost (carry_top s) (top_sizes bs)
unfolding top_fits top_sizes carry_top
top_fits-TopFits s bs n h e =
    ten (λ bs. AtMost s bs → top_fits bs ≡ true → TopFits s × AtMost (carry_top s) (top_sizes bs))
      bs (AtMost-length s bs h ∙ n)
      (λ b0 b1 b2 b3 b4 b5 b6 b7 b8 b9.
        let bs : List ℕ = b0 ∷ b1 ∷ b2 ∷ b3 ∷ b4 ∷ b5 ∷ b6 ∷ b7 ∷ b8 ∷ b9 ∷ [] in
        ten
          (λ s. AtMost s bs → top_fits bs ≡ true → TopFits s × AtMost (carry_top s) (top_sizes bs))
          s n
          (λ x0 x1 x2 x3 x4 x5 x6 x7 x8 x9
              (h0, (h1, (h2, (h3, (h4, (h5, (h6, (h7, (h8, (h9, h)))))))))) e.
            let (e0, e1) = and_cases _ _ e in
            let (fits, first, last) =
              top_values x0 x9 b0 b9 h0 h9 (leb→le (b9 + half false) (2 ^ 62) e0)
                (leb→le (b0 + out false b9 * 19) (2 ^ 63 - 1) e1) in
            (fits, (first, (h1, (h2, (h3, (h4, (h5, (h6, (h7, (h8, (last, h)))))))))))))
      h e
