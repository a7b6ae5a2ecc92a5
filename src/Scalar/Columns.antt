-- ===== src/Scalar/Columns.antt =====
-- The limbs that `sc_mulsub` starts from are the digits of c less those of the product a * b.
use bitmonero.Base.{ℕ, zero, suc, ◌/◌, ◌%◌, ◌≡◌, refl, arith, ap, ap₂}
use bitmonero.Base.{List, [], ◌∷◌, ◌++◌, replicate}
use bitmonero.Base.Int.{pos, ◌-ℤ◌}
use bitmonero.Scalar.Functions.{zip_with, mulsub_limbs}
use bitmonero.Scalar.Digits.{digits}
use bitmonero.Scalar.Product.{product}

less : (c : ℕ) {p q : ℕ} → p ≡ q → pos c -ℤ pos p ≡ pos c -ℤ pos q
less c e = ap (λ (t : ℕ). pos c -ℤ pos t) e

-- The limbs of the operands as variables.
module _ (a0 a1 a2 a3 a4 a5 a6 a7 a8 a9 a10 a11 : ℕ) (b0 b1 b2 b3 b4 b5 b6 b7 b8 b9 b10 b11 : ℕ)
    (c0 c1 c2 c3 c4 c5 c6 c7 c8 c9 c10 c11 : ℕ) where
  abbrev a_limbs : List ℕ
  a_limbs = a0 ∷ a1 ∷ a2 ∷ a3 ∷ a4 ∷ a5 ∷ a6 ∷ a7 ∷ a8 ∷ a9 ∷ a10 ∷ a11 ∷ []

  abbrev b_limbs : List ℕ
  b_limbs = b0 ∷ b1 ∷ b2 ∷ b3 ∷ b4 ∷ b5 ∷ b6 ∷ b7 ∷ b8 ∷ b9 ∷ b10 ∷ b11 ∷ []

  abbrev c_limbs : List ℕ
  c_limbs = c0 ∷ c1 ∷ c2 ∷ c3 ∷ c4 ∷ c5 ∷ c6 ∷ c7 ∷ c8 ∷ c9 ∷ c10 ∷ c11 ∷ []

  mulsub_columns :
      mulsub_limbs a_limbs b_limbs c_limbs
      ≡ zip_with ◌-ℤ◌ (c_limbs ++ replicate 11 0) (product a_limbs b_limbs) ++ (pos 0 ∷ [])
  unfolding mulsub_limbs
  mulsub_columns = ap₂ ◌∷◌ (less c0 (omega arith)) (
      ap₂ ◌∷◌ (less c1 (omega arith)) (
        ap₂ ◌∷◌ (less c2 (omega arith)) (
          ap₂ ◌∷◌ (less c3 (omega arith)) (
            ap₂ ◌∷◌ (less c4 (omega arith)) (
              ap₂ ◌∷◌ (less c5 (omega arith)) (
                ap₂ ◌∷◌ (less c6 (omega arith)) (
                  ap₂ ◌∷◌ (less c7 (omega arith)) (
                    ap₂ ◌∷◌ (less c8 (omega arith)) (
                      ap₂ ◌∷◌ (less c9 (omega arith)) (
                        ap₂ ◌∷◌ (less c10 (omega arith)) (
                          ap₂ ◌∷◌ (less c11 (omega arith)) (
                            ap₂ ◌∷◌ (less 0 (omega arith)) (
                              ap₂ ◌∷◌ (less 0 (omega arith)) (
                                ap₂ ◌∷◌ (less 0 (omega arith)) (
                                  ap₂ ◌∷◌ (less 0 (omega arith)) (
                                    ap₂ ◌∷◌ (less 0 (omega arith)) (
                                      ap₂ ◌∷◌ (less 0 (omega arith)) (
                                        ap₂ ◌∷◌ (less 0 (omega arith)) (
                                          ap₂ ◌∷◌ (less 0 (omega arith)) (
                                            ap₂ ◌∷◌ (less 0 (omega arith)) (
                                              ap₂ ◌∷◌ (less 0 (omega arith)) (
                                                ap₂ ◌∷◌ (less 0 (omega arith))
                                                  refl))))))))))))))))))))))

abbrev part : ℕ → ℕ → ℕ
part zero v = v
part (suc k) v = part k (v / 2097152)

pub mulsub_digits :
    (x y z : ℕ)
    → mulsub_limbs (digits 11 x) (digits 11 y) (digits 11 z)
      ≡ zip_with ◌-ℤ◌ (digits 11 z ++ replicate 11 0) (product (digits 11 x) (digits 11 y))
        ++ (pos 0 ∷ [])
mulsub_digits x y z =
    mulsub_columns (part 0 x % 2097152) (part 1 x % 2097152) (part 2 x % 2097152)
      (part 3 x % 2097152) (part 4 x % 2097152) (part 5 x % 2097152) (part 6 x % 2097152)
      (part 7 x % 2097152) (part 8 x % 2097152) (part 9 x % 2097152) (part 10 x % 2097152)
      (part 11 x) (part 0 y % 2097152) (part 1 y % 2097152) (part 2 y % 2097152)
      (part 3 y % 2097152) (part 4 y % 2097152) (part 5 y % 2097152) (part 6 y % 2097152)
      (part 7 y % 2097152) (part 8 y % 2097152) (part 9 y % 2097152) (part 10 y % 2097152)
      (part 11 y) (part 0 z % 2097152) (part 1 z % 2097152) (part 2 z % 2097152)
      (part 3 z % 2097152) (part 4 z % 2097152) (part 5 z % 2097152) (part 6 z % 2097152)
      (part 7 z % 2097152) (part 8 z % 2097152) (part 9 z % 2097152) (part 10 z % 2097152)
      (part 11 z)
