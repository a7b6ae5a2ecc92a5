-- ===== src/Scalar/Bounds.antt =====
-- The limbs on whole ranges at a time: what each statement makes of the ranges of its operands,
-- and a test that none of its values leaves int64_t.
use bitmonero.Base.{ℕ, zero, suc, ◌-◌, ◌^◌, arith, Bool, true, false}
use bitmonero.Base.{List, [], ◌∷◌, if◌then◌else◌}
use bitmonero.Base.Int.{ℤ, pos, negsuc, ◌+ℤ◌, ◌-ℤ◌, ◌*ℤ◌, ◌>>ℤ◌, ◌<<ℤ◌, int_laws}
use bitmonero.Base.Range
use bitmonero.Base.Range.{Range, Within, int64, inside}
use bitmonero.Scalar.Limbs.{half}
use bitmonero.Scalar.Limbs.{carry}

-- Each limb lies in the range at its place.
abbrev pub AllWithin : List ℤ → List Range → Type 0
AllWithin [] [] = Unit {0}
AllWithin [] (r ∷ rs) = ⊥
AllWithin (x ∷ s) [] = ⊥
AllWithin (x ∷ s) (r ∷ rs) = Within x r × AllWithin s rs

abbrev point : ℕ → Range
point n = record { lo = pos n; hi = pos n }

-- What a carry leaves, with no rounding term and with one.
abbrev pub low_digit : Bool → Range
low_digit rounds =
    if rounds
    then record { lo = negsuc (2 ^ 20 - 1); hi = pos (2 ^ 20 - 1) }
    else record { lo = pos 0; hi = pos (2 ^ 21 - 1) }

abbrev pub bias : Bool → ℤ
bias rounds = if rounds then half else pos 0

unfoldable pub carry_range : Bool → Range → Range
unfolding Range.add Range.shr
carry_range rounds r = Range.shr 21 (Range.add r (record { lo = bias rounds; hi = bias rounds }))

unfoldable pub carry_ranges : Bool → ℕ → List Range → List Range
unfolding carry_range
carry_ranges b zero [] = []
carry_ranges b zero (x ∷ []) = x ∷ []
carry_ranges b zero (x ∷ y ∷ r) = low_digit b ∷ Range.add y (carry_range b x) ∷ r
carry_ranges b (suc k) [] = []
carry_ranges b (suc k) (x ∷ r) = x ∷ carry_ranges b k r

shift_back : (y : ℤ) → Within (y -ℤ ((y >>ℤ 21) <<ℤ 21)) (low_digit false)
unfolding ◌-ℤ◌ ◌>>ℤ◌ ◌<<ℤ◌ ◌*ℤ◌
shift_back (pos n) = ground arith
shift_back (negsuc n) = ground arith

pub carry_low : (b : Bool) (x : ℤ) → Within (x -ℤ (((x +ℤ bias b) >>ℤ 21) <<ℤ 21)) (low_digit b)
carry_low true x = omega (int_laws, shift_back (x +ℤ half))
carry_low false x = omega (int_laws, shift_back (x +ℤ pos 0))

pub point_self : (b : ℤ) → Within b (record { lo = b; hi = b })
point_self b = omega arith

pub carry_out :
    (b : Bool) (x : ℤ) (r : Range) → Within x r → Within ((x +ℤ bias b) >>ℤ 21) (carry_range b r)
unfolding carry_range
carry_out b x r h =
    let p : Range = record { lo = bias b; hi = bias b } in
    Range.shr-Within 21 (Range.add r p) (x +ℤ bias b)
      (Range.add-Within r p x (bias b) h (point_self (bias b)))

pub carry-AllWithin :
    (b : Bool) (k : ℕ) (s : List ℤ) (rs : List Range)
    → AllWithin s rs
    → AllWithin (carry (bias b) k s) (carry_ranges b k rs)
unfolding carry carry_ranges
carry-AllWithin b zero [] [] h = h
carry-AllWithin b zero [] (r ∷ rs) h = absurd h
carry-AllWithin b zero (x ∷ []) (r ∷ []) h = h
carry-AllWithin b zero (x ∷ y ∷ s) (r ∷ q ∷ rs) (hx, (hy, hs)) = (
  carry_low b x,
  (Range.add-Within q (carry_range b r) y ((x +ℤ bias b) >>ℤ 21) hy (carry_out b x r hx), hs),
)
carry-AllWithin b zero (x ∷ []) (r ∷ q ∷ rs) h = absurd h.1
carry-AllWithin b zero (x ∷ y ∷ s) (r ∷ []) h = absurd h.1
carry-AllWithin b zero (x ∷ s) [] h = absurd h
carry-AllWithin b (suc k) [] [] h = h
carry-AllWithin b (suc k) [] (r ∷ rs) h = absurd h
carry-AllWithin b (suc k) (x ∷ s) [] h = absurd h
carry-AllWithin b (suc k) (x ∷ s) (r ∷ rs) h = (h.0, carry-AllWithin b k s rs h.1)
