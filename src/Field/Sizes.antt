-- ===== src/Field/Sizes.antt =====
-- The sizes of limbs, and of the values that the columns and the carries compute from them.
use bitmonero.Base.{ℕ, ◌+◌, ◌-◌, ◌*◌, ◌^◌, ◌≤◌, List, [], ◌∷◌, Bool, true, ◌&&◌, leb}
use bitmonero.Base.Int.{ℤ, pos, ◌+ℤ◌, ◌*ℤ◌}
use bitmonero.Base.Ring.{size}
use bitmonero.Base.Range.{Within, int32, int64}

-- Each limb is at most as large as the number at its place.
abbrev pub AtMost : List ℤ → List ℕ → Type 0
AtMost [] [] = Unit {0}
AtMost [] (b ∷ bs) = ⊥
AtMost (x ∷ s) [] = ⊥
AtMost (x ∷ s) (b ∷ bs) = (size x ≤ b) × AtMost s bs

abbrev pub AllWithin32 : List ℤ → Type 0
AllWithin32 [] = Unit {0}
AllWithin32 (x ∷ s) = Within x int32 × AllWithin32 s

-- Every product and every sum behind `acc` is an int64_t.
abbrev pub SumsFit : ℤ → List ℤ → List ℤ → Type 0
SumsFit acc [] ys = Unit {0}
SumsFit acc (x ∷ xs) [] = Unit {0}
SumsFit acc (x ∷ xs) (y ∷ ys) =
    Within (x *ℤ y) int64 × Within (acc +ℤ x *ℤ y) int64 × SumsFit (acc +ℤ x *ℤ y) xs ys

-- The factors are int32_t, and every product and every sum is an int64_t.
abbrev pub ColumnsFit : List (List ℤ × List ℤ) → Type 0
ColumnsFit [] = Unit {0}
ColumnsFit ((xs, ys) ∷ r) = AllWithin32 xs × AllWithin32 ys × SumsFit (pos 0) xs ys × ColumnsFit r

abbrev pub PairsAtMost : List (List ℤ × List ℤ) → List (List ℕ × List ℕ) → Type 0
PairsAtMost [] [] = Unit {0}
PairsAtMost [] (b ∷ bs) = ⊥
PairsAtMost (p ∷ ps) [] = ⊥
PairsAtMost ((xs, ys) ∷ ps) ((cs, bs) ∷ r) = AtMost xs cs × AtMost ys bs × PairsAtMost ps r

unfoldable pub total : ℕ → List ℕ → List ℕ → ℕ
total acc [] bs = acc
total acc (a ∷ cs) [] = acc
total acc (a ∷ cs) (b ∷ bs) = total (acc + a * b) cs bs

unfoldable pub totals : List (List ℕ × List ℕ) → List ℕ
unfolding total
totals [] = []
totals ((cs, bs) ∷ r) = total 0 cs bs ∷ totals r

unfoldable pub all_below : ℕ → List ℕ → Bool
all_below n [] = true
all_below n (b ∷ bs) = leb b n && all_below n bs

-- The test that goes with ColumnsFit.
unfoldable pub columns_fit : List (List ℕ × List ℕ) → Bool
unfolding all_below total
columns_fit [] = true
columns_fit ((cs, bs) ∷ r) =
    all_below (2 ^ 31 - 1) cs
    && (all_below (2 ^ 31 - 1) bs && (leb (total 0 cs bs) (2 ^ 63 - 1) && columns_fit r))
