-- ===== src/Scalar/Inputs.antt =====
-- The limbs that the scalar functions start from: their ranges and their number.
use bitmonero.Base.{ℕ, zero, suc, ◌+◌, ◌*◌, ◌-◌, ◌/◌, ◌^◌, ◌<◌, ◌≡◌, refl, arith, ap}
use bitmonero.Base.{List, [], ◌∷◌, ◌++◌, length, map}
use bitmonero.Base.Int.{ℤ, pos, ◌+ℤ◌, ◌-ℤ◌, int_laws}
use bitmonero.Base.Range.{Range, Within}
use bitmonero.Scalar.Value.{up, down}
use bitmonero.Scalar.Bounds.{AllWithin}
use bitmonero.Scalar.RunBounds.{nought}
use bitmonero.Scalar.Finish.{digit}
use bitmonero.Scalar.Functions.{zip_with}
use bitmonero.Scalar.Digits.{digits}
use native.Mathlib.Nat.{pow-suc}

abbrev pub upto : ℕ → Range
upto t = record { lo = pos 0; hi = pos (t - 1) }

abbrev pub digit_ranges : ℕ → ℕ → List Range
digit_ranges zero t = upto t ∷ []
digit_ranges (suc n) t = digit ∷ digit_ranges n t

pub digits-AllWithin :
    (n t v : ℕ) → v < t * 2097152 ^ n → AllWithin (map pos (digits n v)) (digit_ranges n t)
digits-AllWithin zero t v h = (omega arith, tt)
digits-AllWithin (suc n) t v h = (
  omega arith,
  digits-AllWithin n t (v / 2097152) (omega (arith, ap (λ (x : ℕ). t * x) (pow-suc 2097152 n))),
)

pub length-digits : (n v : ℕ) → length (map pos (digits n v)) ≡ suc n
length-digits zero v = refl
length-digits (suc n) v = ap suc (length-digits n (v / 2097152))

-- One more limb, which is 0.
pub snoc-AllWithin :
    (s : List ℤ) (rs : List Range)
    → AllWithin s rs
    → AllWithin (s ++ (pos 0 ∷ [])) (rs ++ (nought ∷ []))
snoc-AllWithin [] [] w = (omega arith, tt)
snoc-AllWithin [] (r ∷ rs) w = absurd w
snoc-AllWithin (x ∷ s) [] w = absurd w
snoc-AllWithin (x ∷ s) (r ∷ rs) w = (w.0, snoc-AllWithin s rs w.1)

pub snoc_value :
    (s : List ℤ) → (up (s ++ (pos 0 ∷ [])) ≡ up s) × (down (s ++ (pos 0 ∷ [])) ≡ down s)
snoc_value [] = (refl, refl)
snoc_value (x ∷ s) = let (p, q) = snoc_value s in (omega (arith, p), omega (arith, q))

unfoldable pub zip_ranges : (Range → Range → Range) → List Range → List Range → List Range
zip_ranges f [] qs = []
zip_ranges f (r ∷ rs) [] = []
zip_ranges f (r ∷ rs) (q ∷ qs) = f r q ∷ zip_ranges f rs qs

-- Limb by limb, by an operation that keeps to the ranges that `g` gives.
pub zip-AllWithin :
    (f : ℤ → ℤ → ℤ) (g : Range → Range → Range)
    → ((r q : Range) (x y : ℤ) → Within x r → Within y q → Within (f x y) (g r q))
    → (a b : List ℕ) (rs qs : List Range) → AllWithin (map pos a) rs
    → AllWithin (map pos b) qs
    → AllWithin (zip_with f a b) (zip_ranges g rs qs)
unfolding zip_ranges
zip-AllWithin f g h [] b [] qs v w = tt
zip-AllWithin f g h [] b (r ∷ rs) qs v w = absurd v
zip-AllWithin f g h (x ∷ a) b [] qs v w = absurd v
zip-AllWithin f g h (x ∷ a) [] (r ∷ rs) [] v w = tt
zip-AllWithin f g h (x ∷ a) [] (r ∷ rs) (q ∷ qs) v w = absurd w
zip-AllWithin f g h (x ∷ a) (y ∷ b) (r ∷ rs) [] v w = absurd w
zip-AllWithin f g h (x ∷ a) (y ∷ b) (r ∷ rs) (q ∷ qs) v w =
    (h r q (pos x) (pos y) v.0 w.0, zip-AllWithin f g h a b rs qs v.1 w.1)

pub length-zip : (f : ℤ → ℤ → ℤ) (n a b : ℕ) → length (zip_with f (digits n a) (digits n b)) ≡ suc n
length-zip f zero a b = refl
length-zip f (suc n) a b = ap suc (length-zip f n (a / 2097152) (b / 2097152))

pub zip_add_value :
    (n a b : ℕ) → let z = zip_with ◌+ℤ◌ (digits n a) (digits n b) in up z ≡ down z + a + b
zip_add_value zero a b = omega int_laws
zip_add_value (suc n) a b = omega (int_laws, zip_add_value n (a / 2097152) (b / 2097152))

pub zip_sub_value :
    (n a b : ℕ) → let z = zip_with ◌-ℤ◌ (digits n a) (digits n b) in up z + b ≡ down z + a
zip_sub_value zero a b = omega int_laws
zip_sub_value (suc n) a b = omega (int_laws, zip_sub_value n (a / 2097152) (b / 2097152))
