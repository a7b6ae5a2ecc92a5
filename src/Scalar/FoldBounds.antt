-- ===== src/Scalar/FoldBounds.antt =====
-- What a fold makes of ranges of limbs.
use bitmonero.Base.{ℕ, zero, suc, ◌+◌, ◌<◌, arith, List, [], ◌∷◌, length}
use bitmonero.Base.Int.{ℤ, pos, ◌+ℤ◌, ◌-ℤ◌, ◌*ℤ◌}
use bitmonero.Base.Range
use bitmonero.Base.Range.{Range, Within}
use bitmonero.Scalar.Limbs.{add_multiples}
use bitmonero.Scalar.Bounds.{AllWithin}

unfoldable pub plus : ℕ → Range → Range → Range
unfolding Range.add Range.scale
plus k z r = Range.add r (Range.scale k z)

unfoldable pub minus : ℕ → Range → Range → Range
unfolding Range.sub Range.scale
minus k z r = Range.sub r (Range.scale k z)

pub plus-Within :
    (k : ℕ) (z r : Range) (c x : ℤ)
    → Within c z
    → Within x r
    → Within (x +ℤ c *ℤ pos k) (plus k z r)
unfolding plus
plus-Within k z r c x hc hx =
    Range.add-Within r (Range.scale k z) x (c *ℤ pos k) hx (Range.scale-Within k z c hc)

pub minus-Within :
    (k : ℕ) (z r : Range) (c x : ℤ)
    → Within c z
    → Within x r
    → Within (x -ℤ c *ℤ pos k) (minus k z r)
unfolding minus
minus-Within k z r c x hc hx =
    Range.sub-Within r (Range.scale k z) x (c *ℤ pos k) hx (Range.scale-Within k z c hc)

-- The ranges of the limbs after the six statements of a fold.
unfoldable pub multiples_ranges : ℕ → Range → List Range → List Range
unfolding plus minus
multiples_ranges (suc j) z [] = []
multiples_ranges (suc j) z (r ∷ rs) = r ∷ multiples_ranges j z rs
multiples_ranges zero z (r0 ∷ r1 ∷ r2 ∷ r3 ∷ r4 ∷ r5 ∷ rs) =
    plus 666643 z r0
    ∷ plus 470296 z r1
    ∷ plus 654183 z r2
    ∷ minus 997805 z r3
    ∷ plus 136657 z r4
    ∷ minus 683901 z r5
    ∷ rs
multiples_ranges zero z rs = rs

-- Two lists of one length with at least six limbs.
pub six :
    (P : List ℤ → List Range → Type 0) (s : List ℤ) (rs : List Range)
    → 5 < length s
    → AllWithin s rs
    → (f : (x0 x1 x2 x3 x4 x5 : ℤ) (s : List ℤ) (r0 r1 r2 r3 r4 r5 : Range) (rs : List Range)
        → AllWithin (x0 ∷ x1 ∷ x2 ∷ x3 ∷ x4 ∷ x5 ∷ s) (r0 ∷ r1 ∷ r2 ∷ r3 ∷ r4 ∷ r5 ∷ rs)
        → P (x0 ∷ x1 ∷ x2 ∷ x3 ∷ x4 ∷ x5 ∷ s) (r0 ∷ r1 ∷ r2 ∷ r3 ∷ r4 ∷ r5 ∷ rs))
    → P s rs
six P [] rs h w f = absurd (omega arith)
six P (x0 ∷ []) rs h w f = absurd (omega arith)
six P (x0 ∷ x1 ∷ []) rs h w f = absurd (omega arith)
six P (x0 ∷ x1 ∷ x2 ∷ []) rs h w f = absurd (omega arith)
six P (x0 ∷ x1 ∷ x2 ∷ x3 ∷ []) rs h w f = absurd (omega arith)
six P (x0 ∷ x1 ∷ x2 ∷ x3 ∷ x4 ∷ []) rs h w f = absurd (omega arith)
six P (x0 ∷ x1 ∷ x2 ∷ x3 ∷ x4 ∷ x5 ∷ s) [] h w f = absurd w
six P (x0 ∷ x1 ∷ x2 ∷ x3 ∷ x4 ∷ x5 ∷ s) (r0 ∷ []) h w f = absurd w.1
six P (x0 ∷ x1 ∷ x2 ∷ x3 ∷ x4 ∷ x5 ∷ s) (r0 ∷ r1 ∷ []) h w f = absurd w.1.1
six P (x0 ∷ x1 ∷ x2 ∷ x3 ∷ x4 ∷ x5 ∷ s) (r0 ∷ r1 ∷ r2 ∷ []) h w f = absurd w.1.1.1
six P (x0 ∷ x1 ∷ x2 ∷ x3 ∷ x4 ∷ x5 ∷ s) (r0 ∷ r1 ∷ r2 ∷ r3 ∷ []) h w f = absurd w.1.1.1.1
six P (x0 ∷ x1 ∷ x2 ∷ x3 ∷ x4 ∷ x5 ∷ s) (r0 ∷ r1 ∷ r2 ∷ r3 ∷ r4 ∷ []) h w f = absurd w.1.1.1.1.1
six P (x0 ∷ x1 ∷ x2 ∷ x3 ∷ x4 ∷ x5 ∷ s) (r0 ∷ r1 ∷ r2 ∷ r3 ∷ r4 ∷ r5 ∷ rs) h w f =
    f x0 x1 x2 x3 x4 x5 s r0 r1 r2 r3 r4 r5 rs w

pub multiples-AllWithin :
    (j : ℕ) (c : ℤ) (z : Range) (s : List ℤ) (rs : List Range)
    → Within c z
    → 5 + j < length s
    → AllWithin s rs
    → AllWithin (add_multiples j c s) (multiples_ranges j z rs)
unfolding add_multiples multiples_ranges
multiples-AllWithin zero c z s rs hc h w =
    six (λ s rs. AllWithin (add_multiples 0 c s) (multiples_ranges 0 z rs)) s rs (omega arith) w
      λ x0 x1 x2 x3 x4 x5 s r0 r1 r2 r3 r4 r5 rs (w0, (w1, (w2, (w3, (w4, (w5, ws)))))). (
        plus-Within 666643 z r0 c x0 hc w0,
        (
          plus-Within 470296 z r1 c x1 hc w1,
          (
            plus-Within 654183 z r2 c x2 hc w2,
            (
              minus-Within 997805 z r3 c x3 hc w3,
              (plus-Within 136657 z r4 c x4 hc w4, (minus-Within 683901 z r5 c x5 hc w5, ws)),
            ),
          ),
        ),
      )
multiples-AllWithin (suc j) c z [] rs hc h w = absurd (omega arith)
multiples-AllWithin (suc j) c z (x ∷ s) [] hc h w = absurd w
multiples-AllWithin (suc j) c z (x ∷ s) (r ∷ rs) hc h w =
    (w.0, multiples-AllWithin j c z s rs hc (omega arith) w.1)
