-- ===== src/Scalar/Overflow.antt =====
-- Which values the statements compute, and that a test on ranges keeps all of them in int64_t.
use bitmonero.Base.{and_cases}
use bitmonero.Base.{ℕ, zero, suc, ◌+◌, ◌^◌, ◌<◌, ◌≡◌, arith, Bool, true, false, ◌&&◌}
use bitmonero.Base.{List, [], ◌∷◌, length}
use bitmonero.Base.Int.{ℤ, pos, ◌+ℤ◌, ◌-ℤ◌, ◌*ℤ◌, ◌>>ℤ◌, ◌<<ℤ◌}
use bitmonero.Base.Range
use bitmonero.Base.Range.{Range, Within, int64, inside, inside-Within}
use bitmonero.Scalar.Bounds.{
  AllWithin, bias, low_digit, point_self, carry_range, carry_out, carry_low,
}
use bitmonero.Scalar.FoldBounds.{plus, minus, plus-Within, minus-Within, six}

abbrev pub IsInt64 : ℤ → Type 0
IsInt64 x = Within x int64

-- Every value that a carry at limb `k` computes is an int64_t.
abbrev pub CarryFits : ℤ → ℕ → List ℤ → Type 0
CarryFits b zero [] = Unit {0}
CarryFits b zero (x ∷ []) = Unit {0}
CarryFits b zero (x ∷ y ∷ r) =
    let c = (x +ℤ b) >>ℤ 21 in
    IsInt64 (x +ℤ b) × IsInt64 (c <<ℤ 21) × IsInt64 (x -ℤ (c <<ℤ 21)) × IsInt64 (y +ℤ c)
CarryFits b (suc k) [] = Unit {0}
CarryFits b (suc k) (x ∷ r) = CarryFits b k r

-- Every value that a fold of `z` at limb `j` computes is an int64_t.
abbrev pub MultiplesFit : ℕ → ℤ → List ℤ → Type 0
MultiplesFit (suc j) z [] = Unit {0}
MultiplesFit (suc j) z (x ∷ r) = MultiplesFit j z r
MultiplesFit zero z (x0 ∷ x1 ∷ x2 ∷ x3 ∷ x4 ∷ x5 ∷ r) =
    IsInt64 (z *ℤ pos 666643)
    × IsInt64 (z *ℤ pos 470296)
    × IsInt64 (z *ℤ pos 654183)
    × IsInt64 (z *ℤ pos 997805)
    × IsInt64 (z *ℤ pos 136657)
    × IsInt64 (z *ℤ pos 683901)
    × IsInt64 (x0 +ℤ z *ℤ pos 666643)
    × IsInt64 (x1 +ℤ z *ℤ pos 470296)
    × IsInt64 (x2 +ℤ z *ℤ pos 654183)
    × IsInt64 (x3 -ℤ z *ℤ pos 997805)
    × IsInt64 (x4 +ℤ z *ℤ pos 136657)
    × IsInt64 (x5 -ℤ z *ℤ pos 683901)
MultiplesFit zero z s = Unit {0}

unfoldable pub in64 : Range → Bool
in64 r = inside r int64

unfoldable pub carry_fits : Bool → ℕ → List Range → Bool
unfolding in64 carry_range Range.add Range.scale
carry_fits b zero [] = true
carry_fits b zero (x ∷ []) = true
carry_fits b zero (x ∷ y ∷ r) =
    in64 (Range.add x (record { lo = bias b; hi = bias b }))
    && (in64 (Range.scale (2 ^ 21) (carry_range b x)) && in64 (Range.add y (carry_range b x)))
carry_fits b (suc k) [] = true
carry_fits b (suc k) (x ∷ r) = carry_fits b k r

in64-IsInt64 : (r : Range) (x : ℤ) → in64 r ≡ true → Within x r → IsInt64 x
unfolding in64
in64-IsInt64 r x h w = inside-Within r int64 x h w

low-IsInt64 : (b : Bool) (x : ℤ) → Within x (low_digit b) → IsInt64 x
low-IsInt64 true x h = omega arith
low-IsInt64 false x h = omega arith

pub carry_fits-CarryFits :
    (b : Bool) (k : ℕ) (s : List ℤ) (rs : List Range)
    → carry_fits b k rs ≡ true
    → AllWithin s rs
    → CarryFits (bias b) k s
unfolding carry_fits ◌<<ℤ◌
carry_fits-CarryFits b zero [] rs h w = tt
carry_fits-CarryFits b zero (x ∷ []) rs h w = tt
carry_fits-CarryFits b zero (x ∷ y ∷ s) [] h w = absurd w
carry_fits-CarryFits b zero (x ∷ y ∷ s) (r ∷ []) h w = absurd w.1
carry_fits-CarryFits b zero (x ∷ y ∷ s) (r ∷ q ∷ rs) h (wx, (wy, ws)) =
    let p : Range = record { lo = bias b; hi = bias b } in
    let c = (x +ℤ bias b) >>ℤ 21 in
    let (h0, h1) = and_cases _ _ h in
    let (h2, h3) = and_cases _ _ h1 in
    let wc : Within c (carry_range b r) = carry_out b x r wx in
    (
      in64-IsInt64 (Range.add r p) (x +ℤ bias b) h0
          (Range.add-Within r p x (bias b) wx (point_self (bias b))),
      in64-IsInt64 (Range.scale (2 ^ 21) (carry_range b r)) (c <<ℤ 21) h2
          (Range.scale-Within (2 ^ 21) (carry_range b r) c wc),
      low-IsInt64 b (x -ℤ (c <<ℤ 21)) (carry_low b x),
      in64-IsInt64 (Range.add q (carry_range b r)) (y +ℤ c) h3
          (Range.add-Within q (carry_range b r) y c wy wc),
    )
carry_fits-CarryFits b (suc k) [] rs h w = tt
carry_fits-CarryFits b (suc k) (x ∷ s) [] h w = absurd w
carry_fits-CarryFits b (suc k) (x ∷ s) (r ∷ rs) h w = carry_fits-CarryFits b k s rs h w.1

unfoldable pub multiples_fit : ℕ → Range → List Range → Bool
unfolding in64 plus minus Range.scale
multiples_fit (suc j) z [] = true
multiples_fit (suc j) z (r ∷ rs) = multiples_fit j z rs
multiples_fit zero z (r0 ∷ r1 ∷ r2 ∷ r3 ∷ r4 ∷ r5 ∷ rs) =
    in64 (Range.scale 666643 z)
    && (in64 (Range.scale 470296 z)
        && (in64 (Range.scale 654183 z)
            && (in64 (Range.scale 997805 z)
                && (in64 (Range.scale 136657 z)
                    && (in64 (Range.scale 683901 z)
                        && (in64 (plus 666643 z r0)
                            && (in64 (plus 470296 z r1)
                                && (in64 (plus 654183 z r2)
                                    && (in64 (minus 997805 z r3)
                                        && (in64 (plus 136657 z r4)
                                            && (in64 (minus 683901 z r5))))))))))))
multiples_fit zero z rs = true

pub multiples_fit-MultiplesFit :
    (j : ℕ) (c : ℤ) (z : Range) (s : List ℤ) (rs : List Range)
    → multiples_fit j z rs ≡ true
    → Within c z
    → 5 + j < length s
    → AllWithin s rs
    → MultiplesFit j c s
unfolding multiples_fit
multiples_fit-MultiplesFit zero c z s rs h hc l w =
    six (λ s rs. multiples_fit 0 z rs ≡ true → MultiplesFit 0 c s) s rs (omega arith) w
      (λ x0 x1 x2 x3 x4 x5 s r0 r1 r2 r3 r4 r5 rs (w0, (w1, (w2, (w3, (w4, (w5, ws)))))) e.
        let (e0, k0) = and_cases _ _ e in
        let (e1, k1) = and_cases _ _ k0 in
        let (e2, k2) = and_cases _ _ k1 in
        let (e3, k3) = and_cases _ _ k2 in
        let (e4, k4) = and_cases _ _ k3 in
        let (e5, k5) = and_cases _ _ k4 in
        let (e6, k6) = and_cases _ _ k5 in
        let (e7, k7) = and_cases _ _ k6 in
        let (e8, k8) = and_cases _ _ k7 in
        let (e9, k9) = and_cases _ _ k8 in
        let (e10, k10) = and_cases _ _ k9 in
        (
          in64-IsInt64 (Range.scale 666643 z) (c *ℤ pos 666643) e0
              (Range.scale-Within 666643 z c hc),
          in64-IsInt64 (Range.scale 470296 z) (c *ℤ pos 470296) e1
              (Range.scale-Within 470296 z c hc),
          in64-IsInt64 (Range.scale 654183 z) (c *ℤ pos 654183) e2
              (Range.scale-Within 654183 z c hc),
          in64-IsInt64 (Range.scale 997805 z) (c *ℤ pos 997805) e3
              (Range.scale-Within 997805 z c hc),
          in64-IsInt64 (Range.scale 136657 z) (c *ℤ pos 136657) e4
              (Range.scale-Within 136657 z c hc),
          in64-IsInt64 (Range.scale 683901 z) (c *ℤ pos 683901) e5
              (Range.scale-Within 683901 z c hc),
          in64-IsInt64 (plus 666643 z r0) (x0 +ℤ c *ℤ pos 666643) e6
              (plus-Within 666643 z r0 c x0 hc w0),
          in64-IsInt64 (plus 470296 z r1) (x1 +ℤ c *ℤ pos 470296) e7
              (plus-Within 470296 z r1 c x1 hc w1),
          in64-IsInt64 (plus 654183 z r2) (x2 +ℤ c *ℤ pos 654183) e8
              (plus-Within 654183 z r2 c x2 hc w2),
          in64-IsInt64 (minus 997805 z r3) (x3 -ℤ c *ℤ pos 997805) e9
              (minus-Within 997805 z r3 c x3 hc w3),
          in64-IsInt64 (plus 136657 z r4) (x4 +ℤ c *ℤ pos 136657) e10
              (plus-Within 136657 z r4 c x4 hc w4),
          in64-IsInt64 (minus 683901 z r5) (x5 -ℤ c *ℤ pos 683901) k10
              (minus-Within 683901 z r5 c x5 hc w5),
        ))
      h
multiples_fit-MultiplesFit (suc j) c z [] rs h hc l w = absurd (omega arith)
multiples_fit-MultiplesFit (suc j) c z (x ∷ s) [] h hc l w = absurd w
multiples_fit-MultiplesFit (suc j) c z (x ∷ s) (r ∷ rs) h hc l w =
    multiples_fit-MultiplesFit j c z s rs h hc (omega arith) w.1
