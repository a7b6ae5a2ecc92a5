-- ===== src/Scalar/Product.antt =====
-- Products of numbers given by digits to the base 2 ^ 21: the reference for `sc_mulsub`.
use bitmonero.Base.{ℕ, ◌+◌, ◌*◌, ◌≤◌, ◌≡◌, refl, arith, List, [], ◌∷◌, length}
use bitmonero.Base.Int.{pos, sub_ℕ, ◌-ℤ◌, -ℤ_parts, int_laws}
use bitmonero.Base.Range.{Range, Within}
use bitmonero.Scalar.Bounds.{AllWithin}
use native.Mathlib.Nat.{mul-le-mul}
use bitmonero.Scalar.Value.{up, down}
use bitmonero.Scalar.Functions.{zip_with}

-- The number of a list of digits, lowest first.
abbrev pub value : List ℕ → ℕ
value [] = 0
value (x ∷ r) = x + 2097152 * value r

abbrev pub sum : List ℕ → List ℕ → List ℕ
sum [] s = s
sum (x ∷ r) [] = x ∷ r
sum (x ∷ r) (y ∷ s) = (x + y) ∷ sum r s

abbrev pub scaled : ℕ → List ℕ → List ℕ
scaled x [] = []
scaled x (y ∷ s) = (x * y) ∷ scaled x s

abbrev pub product : List ℕ → List ℕ → List ℕ
product [] s = []
product (x ∷ r) s = sum (scaled x s) (0 ∷ product r s)

value-sum : (r s : List ℕ) → value (sum r s) ≡ value r + value s
value-sum [] s = omega arith
value-sum (x ∷ r) [] = omega arith
value-sum (x ∷ r) (y ∷ s) = omega (arith, value-sum r s)

value-scaled : (x : ℕ) (s : List ℕ) → value (scaled x s) ≡ x * value s
value-scaled x [] = omega arith
value-scaled x (y ∷ s) = omega (arith, value-scaled x s)

pub value-product : (r s : List ℕ) → value (product r s) ≡ value r * value s
value-product [] s = omega arith
value-product (x ∷ r) s =
    omega (arith, value-sum (scaled x s) (0 ∷ product r s), value-scaled x s, value-product r s)

-- Digit by digit differences of lists of one length.
pub value-differences :
    (c p : List ℕ)
    → length c ≡ length p
    → up (zip_with ◌-ℤ◌ c p) + value p ≡ down (zip_with ◌-ℤ◌ c p) + value c
value-differences [] [] h = refl
value-differences [] (y ∷ p) h = absurd (omega arith)
value-differences (x ∷ c) [] h = absurd (omega arith)
value-differences (x ∷ c) (y ∷ p) h = omega (int_laws, value-differences c p (omega arith))

-- Digit by digit, at most.
abbrev pub AtMost : List ℕ → List ℕ → Type 0
AtMost [] [] = Unit {0}
AtMost [] (y ∷ s) = ⊥
AtMost (x ∷ r) [] = ⊥
AtMost (x ∷ r) (y ∷ s) = (x ≤ y) × AtMost r s

sum-AtMost : (r r' s s' : List ℕ) → AtMost r r' → AtMost s s' → AtMost (sum r s) (sum r' s')
sum-AtMost [] [] s s' p q = q
sum-AtMost [] (x' ∷ r') s s' p q = absurd p
sum-AtMost (x ∷ r) [] s s' p q = absurd p
sum-AtMost (x ∷ r) (x' ∷ r') [] [] p q = p
sum-AtMost (x ∷ r) (x' ∷ r') [] (y' ∷ s') p q = absurd q
sum-AtMost (x ∷ r) (x' ∷ r') (y ∷ s) [] p q = absurd q
sum-AtMost (x ∷ r) (x' ∷ r') (y ∷ s) (y' ∷ s') p q =
    (omega (arith, p.0, q.0), sum-AtMost r r' s s' p.1 q.1)

scaled-AtMost :
    (x x' : ℕ) (s s' : List ℕ) → x ≤ x' → AtMost s s' → AtMost (scaled x s) (scaled x' s')
scaled-AtMost x x' [] [] p q = q
scaled-AtMost x x' [] (y' ∷ s') p q = absurd q
scaled-AtMost x x' (y ∷ s) [] p q = absurd q
scaled-AtMost x x' (y ∷ s) (y' ∷ s') p q = (mul-le-mul p q.0, scaled-AtMost x x' s s' p q.1)

pub product-AtMost :
    (r r' s s' : List ℕ) → AtMost r r' → AtMost s s' → AtMost (product r s) (product r' s')
product-AtMost [] [] s s' p q = tt
product-AtMost [] (x' ∷ r') s s' p q = absurd p
product-AtMost (x ∷ r) [] s s' p q = absurd p
product-AtMost (x ∷ r) (x' ∷ r') s s' p q =
    sum-AtMost (scaled x s) (scaled x' s') (0 ∷ product r s) (0 ∷ product r' s')
      (scaled-AtMost x x' s s' p.0 q) (omega arith, product-AtMost r r' s s' p.1 q)

-- From -p to c, at each place.
abbrev pub spans : List ℕ → List ℕ → List Range
spans [] ps = []
spans (c ∷ cs) [] = []
spans (c ∷ cs) (p ∷ ps) = record { lo = sub_ℕ 0 p; hi = pos c } ∷ spans cs ps

pub differences-AllWithin :
    (c cs p ps : List ℕ) → AtMost c cs → AtMost p ps → AllWithin (zip_with ◌-ℤ◌ c p) (spans cs ps)
differences-AllWithin [] [] p ps v w = tt
differences-AllWithin [] (x' ∷ cs) p ps v w = absurd v
differences-AllWithin (x ∷ c) [] p ps v w = absurd v
differences-AllWithin (x ∷ c) (x' ∷ cs) [] [] v w = tt
differences-AllWithin (x ∷ c) (x' ∷ cs) [] (y' ∷ ps) v w = absurd w
differences-AllWithin (x ∷ c) (x' ∷ cs) (y ∷ p) [] v w = absurd w
differences-AllWithin (x ∷ c) (x' ∷ cs) (y ∷ p) (y' ∷ ps) v w =
    (within x x' y y' v.0 w.0, differences-AllWithin c cs p ps v.1 w.1)
  where
    within :
        (x x' y y' : ℕ)
        → x ≤ x'
        → y ≤ y'
        → Within (pos x -ℤ pos y) (record { lo = sub_ℕ 0 y'; hi = pos x' })
    within x x' y y' h k = ground (arith, -ℤ_parts (pos x) (pos y))
