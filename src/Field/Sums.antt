-- ===== src/Field/Sums.antt =====
-- Sums of products, and the bounds under which they are in int64_t.
use bitmonero.Base.{ℕ, ◌+◌, ◌-◌, ◌*◌, ◌^◌, ◌≤◌, ◌≡◌, refl, ap, arith, List, [], ◌∷◌, true, leb→le}
use bitmonero.Base.Int.{ℤ, pos, ◌+ℤ◌, ◌*ℤ◌, +ℤ_parts, int_laws, eq_of_parts}
use bitmonero.Base.Ring.{size, *ℤ_size}
use bitmonero.Base.Range.{Within, int32, int64}
use bitmonero.Field.Linear.{one_sided}
use bitmonero.Field.Mul.{sum_from, sum_products, columns}
use bitmonero.Field.Sizes.{
  AtMost, AllWithin32, SumsFit, ColumnsFit, PairsAtMost, total, totals, all_below, columns_fit,
}
use bitmonero.Base.{and_cases}
use native.Mathlib.Nat.{mul-le-mul}

pub size-int64 : (x : ℤ) (n : ℕ) → size x ≤ n → n ≤ 2 ^ 63 - 1 → Within x int64
size-int64 x n h k = (omega arith, omega arith)

pub size-int32 : (x : ℤ) (n : ℕ) → size x ≤ n → n ≤ 2 ^ 31 - 1 → Within x int32
size-int32 x n h k = (omega arith, omega arith)

pub +ℤ_size : (x y : ℤ) → size (x +ℤ y) ≤ size x + size y
+ℤ_size x y = omega (arith, +ℤ_parts x y, one_sided (x +ℤ y))

product_size : (x y : ℤ) (a b : ℕ) → size x ≤ a → size y ≤ b → size (x *ℤ y) ≤ a * b
product_size x y a b h k = rw (*ℤ_size x y) (mul-le-mul h k)

total-le : (m : ℕ) (cs bs : List ℕ) → m ≤ total m cs bs
unfolding total
total-le m [] bs = omega arith
total-le m (a ∷ cs) [] = omega arith
total-le m (a ∷ cs) (b ∷ bs) = omega (arith, total-le (m + a * b) cs bs)

sum_from-SumsFit :
    (acc : ℤ) (m : ℕ) (xs ys : List ℤ) (cs bs : List ℕ)
    → size acc ≤ m
    → AtMost xs cs
    → AtMost ys bs
    → total m cs bs ≤ 2 ^ 63 - 1
    → SumsFit acc xs ys × (size (sum_from acc xs ys) ≤ total m cs bs)
unfolding sum_from total
sum_from-SumsFit acc m [] ys cs bs h p q t = (tt, omega (arith, total-le m cs bs))
sum_from-SumsFit acc m (x ∷ xs) [] cs bs h p q t = (tt, omega (arith, total-le m cs bs))
sum_from-SumsFit acc m (x ∷ xs) (y ∷ ys) [] bs h p q t = absurd p
sum_from-SumsFit acc m (x ∷ xs) (y ∷ ys) (a ∷ cs) [] h p q t = absurd q
sum_from-SumsFit acc m (x ∷ xs) (y ∷ ys) (a ∷ cs) (b ∷ bs) h p q t =
    let xy = product_size x y a b p.0 q.0 in
    let ab = total-le (m + a * b) cs bs in
    let s : size (acc +ℤ x *ℤ y) ≤ m + a * b = omega (arith, +ℤ_size acc (x *ℤ y)) in
    let rest = sum_from-SumsFit (acc +ℤ x *ℤ y) (m + a * b) xs ys cs bs s p.1 q.1 t in
    (
      (
        size-int64 (x *ℤ y) (a * b) xy (omega arith),
        size-int64 (acc +ℤ x *ℤ y) (m + a * b) s (omega arith),
        rest.0,
      ),
      rest.1,
    )

all_below-AllWithin32 :
    (xs : List ℤ) (cs : List ℕ) → AtMost xs cs → all_below (2 ^ 31 - 1) cs ≡ true → AllWithin32 xs
unfolding all_below
all_below-AllWithin32 [] cs h e = tt
all_below-AllWithin32 (x ∷ xs) [] h e = absurd h
all_below-AllWithin32 (x ∷ xs) (c ∷ cs) h e =
    let (e0, e1) = and_cases _ _ e in
    (size-int32 x c h.0 (leb→le c (2 ^ 31 - 1) e0), all_below-AllWithin32 xs cs h.1 e1)

sum_products_from : (xs ys : List ℤ) → sum_products xs ys ≡ sum_from (pos 0) xs ys
unfolding sum_products sum_from
sum_products_from [] ys = refl
sum_products_from (x ∷ xs) [] = refl
sum_products_from (x ∷ xs) (y ∷ ys) = ap (λ t. sum_from t xs ys) (eq_of_parts _ _ (omega int_laws))

none_yet : size (pos 0) ≤ 0
none_yet = omega arith

-- Where the test passes, nothing overflows, and the totals bound the columns.
pub columns_fit-ColumnsFit :
    (ps : List (List ℤ × List ℤ)) (bs : List (List ℕ × List ℕ))
    → PairsAtMost ps bs
    → columns_fit bs ≡ true
    → ColumnsFit ps × AtMost (columns ps) (totals bs)
unfolding columns_fit columns totals
columns_fit-ColumnsFit [] [] h e = (tt, tt)
columns_fit-ColumnsFit [] (b ∷ bs) h e = absurd h
columns_fit-ColumnsFit (p ∷ ps) [] h e = absurd h
columns_fit-ColumnsFit ((xs, ys) ∷ ps) ((cs, ds) ∷ bs) (hx, hy, h) e =
    let (e0, e1) = and_cases _ _ e in
    let (e2, e3) = and_cases _ _ e1 in
    let (e4, e5) = and_cases _ _ e3 in
    let (fit, small) =
      sum_from-SumsFit (pos 0) 0 xs ys cs ds none_yet hx hy
        (leb→le (total 0 cs ds) (2 ^ 63 - 1) e4) in
    let (rest, more) = columns_fit-ColumnsFit ps bs h e5 in
    (
      (all_below-AllWithin32 xs cs hx e0, all_below-AllWithin32 ys ds hy e2, fit, rest),
      (rw (sum_products_from xs ys) small, more),
    )
