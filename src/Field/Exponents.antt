-- ===== src/Field/Exponents.antt =====
-- Results about `fe_invert` and `fe_divpowm1`: the exponents of their chains.
use bitmonero.Base.{
  ℕ, zero, suc, ◌+◌, ◌-◌, ◌*◌, ◌/◌, ◌^◌, ◌≡◌, refl, sym, ap, ◌∙◌, arith, List, [], ◌∷◌,
}
use native.Mathlib.Numerals.{unary_clauses}
use bitmonero.Base.Int.{ℤ, pos, ◌*ℤ◌}
use bitmonero.Base.Ring.{*ℤ_comm, *ℤ_assoc}
use bitmonero.Base.Polynomial.{var, num, times, value, solve, vanishes, expand}
use bitmonero.Field.Mul.{fe_mul, fe_sq}
use bitmonero.Field.Operands.{tight, wide}
use bitmonero.Field.Fits.{no_larger}
use bitmonero.Field.Congruence.{prime, Cong-of_eq}
use bitmonero.Field.Element.{Stands, Stands-weaken, Stands-Cong, mul-Stands, sq-Stands}
use bitmonero.Field.Powers.{fe_squares, fe_invert, fe_pow22523, fe_divpowm1}

unfoldable pub power : ℤ → ℕ → ℤ
power v zero = pos 1
power v (suc n) = v *ℤ power v n

pub times_one : (a : ℤ) → pos 1 *ℤ a ≡ a
unfolding value vanishes expand
times_one a = solve (a ∷ []) (times (num 1) (var 0)) (var 0) refl

zero_plus : (n : ℕ) → 0 + n ≡ n
zero_plus n = omega arith

suc_plus : (m n : ℕ) → suc m + n ≡ suc (m + n)
suc_plus m n = omega arith

power_add : (v : ℤ) (m n : ℕ) → power v (m + n) ≡ power v m *ℤ power v n
unfolding power
power_add v zero n = ap (power v) (zero_plus n) ∙ sym (times_one (power v n))
power_add v (suc m) n =
    ap (power v) (suc_plus m n)
    ∙ ap (◌*ℤ◌ v) (power_add v m n)
    ∙ sym (*ℤ_assoc v (power v m) (power v n))

-- `f` is the power of `v`, with limbs that `fe_mul` accepts.
abbrev IsPower : ℤ → List ℤ → ℕ → Type 0
IsPower v f n = Stands f wide (power v n)

pub accepted : {f : List ℤ} {v : ℤ} → Stands f tight v → Stands f wide v
unfolding no_larger
accepted s = Stands-weaken refl s

times_two_zero : (n : ℕ) → n * 2 ^ zero ≡ n
times_two_zero n = omega arith

times_two_suc : (k n : ℕ) → n * 2 ^ suc k ≡ (n + n) * 2 ^ k
times_two_suc k n = simp unary_clauses (grind arith)

module _ (v : ℤ) where
  mul-tight :
      {f g : List ℤ} (m n : ℕ)
      → IsPower v f m
      → IsPower v g n
      → Stands (fe_mul f g) tight (power v (m + n))
  mul-tight m n s r = Stands-Cong (Cong-of_eq (sym (power_add v m n))) (mul-Stands s r)

  mul-IsPower :
      {f g : List ℤ} (m n : ℕ) → IsPower v f m → IsPower v g n → IsPower v (fe_mul f g) (m + n)
  mul-IsPower m n s r = accepted (mul-tight m n s r)

  sq-IsPower : {f : List ℤ} (n : ℕ) → IsPower v f n → IsPower v (fe_sq f) (n + n)
  sq-IsPower n s = accepted (Stands-Cong (Cong-of_eq (sym (power_add v n n))) (sq-Stands s))

  squares-IsPower :
      (k : ℕ) {f : List ℤ} (n : ℕ) → IsPower v f n → IsPower v (fe_squares k f) (n * 2 ^ k)
  unfolding fe_squares
  squares-IsPower zero n s = rw (times_two_zero n) s
  squares-IsPower (suc k) n s = rw (times_two_suc k n) (squares-IsPower k (n + n) (sq-IsPower n s))

  -- A turn of the chains: `k` more squares, and a product.
  climb :
      (k : ℕ) {f g : List ℤ} (m n : ℕ)
      → IsPower v f m
      → IsPower v g n
      → IsPower v (fe_mul (fe_squares k (fe_sq f)) g) ((m + m) * 2 ^ k + n)
  climb k m n s r = mul-IsPower ((m + m) * 2 ^ k) n (squares-IsPower k (m + m) (sq-IsPower m s)) r

  one_lem : {f : List ℤ} → Stands f wide v → IsPower v f 1
  unfolding power
  one_lem s = Stands-Cong (Cong-of_eq (sym (*ℤ_comm v (pos 1) ∙ times_one v))) s

-- For limbs within the bounds of fe_mul, fe_invert gives the power with the exponent p - 2 modulo
-- p = 2 ^ 255 - 19, with limbs in the bounds that fe_mul promises.
pub fe_invert-power :
    (z : List ℤ) (v : ℤ) → Stands z wide v → Stands (fe_invert z) tight (power v (prime - 2))
unfolding fe_invert
fe_invert-power z v s =
    let h = one_lem v s in
    let t0 = sq-IsPower v 1 h in
    let t1 = mul-IsPower v 1 8 h (sq-IsPower v 4 (sq-IsPower v 2 t0)) in
    let t0' = mul-IsPower v 2 9 t0 t1 in
    let a5 = mul-IsPower v 9 22 t1 (sq-IsPower v 11 t0') in
    let a10 = climb v 4 (2 ^ 5 - 1) (2 ^ 5 - 1) a5 a5 in
    let a20 = climb v 9 (2 ^ 10 - 1) (2 ^ 10 - 1) a10 a10 in
    let a40 = climb v 19 (2 ^ 20 - 1) (2 ^ 20 - 1) a20 a20 in
    let a50 = climb v 9 (2 ^ 40 - 1) (2 ^ 10 - 1) a40 a10 in
    let a100 = climb v 49 (2 ^ 50 - 1) (2 ^ 50 - 1) a50 a50 in
    let a200 = climb v 99 (2 ^ 100 - 1) (2 ^ 100 - 1) a100 a100 in
    let a250 = climb v 49 (2 ^ 200 - 1) (2 ^ 50 - 1) a200 a50 in
    let last = squares-IsPower v 4 (2 ^ 251 - 2) (sq-IsPower v (2 ^ 250 - 1) a250) in
    mul-tight v (2 ^ 255 - 32) 11 last t0'

fe_pow22523-power :
    (z : List ℤ) (v : ℤ)
    → Stands z wide v
    → Stands (fe_pow22523 z) tight (power v ((prime - 5) / 8))
unfolding fe_pow22523
fe_pow22523-power z v s =
    let h = one_lem v s in
    let t0 = sq-IsPower v 1 h in
    let t1 = mul-IsPower v 1 8 h (sq-IsPower v 4 (sq-IsPower v 2 t0)) in
    let t0' = mul-IsPower v 2 9 t0 t1 in
    let a5 = mul-IsPower v 9 22 t1 (sq-IsPower v 11 t0') in
    let a10 = climb v 4 (2 ^ 5 - 1) (2 ^ 5 - 1) a5 a5 in
    let a20 = climb v 9 (2 ^ 10 - 1) (2 ^ 10 - 1) a10 a10 in
    let a40 = climb v 19 (2 ^ 20 - 1) (2 ^ 20 - 1) a20 a20 in
    let t40 = squares-IsPower v 10 (2 ^ 40 - 1) a40 in
    let a50 = mul-IsPower v (2 ^ 50 - 2 ^ 10) (2 ^ 10 - 1) t40 a10 in
    let a100 = climb v 49 (2 ^ 50 - 1) (2 ^ 50 - 1) a50 a50 in
    let a200 = climb v 99 (2 ^ 100 - 1) (2 ^ 100 - 1) a100 a100 in
    let t200 = squares-IsPower v 50 (2 ^ 200 - 1) a200 in
    let a250 = mul-IsPower v (2 ^ 250 - 2 ^ 50) (2 ^ 50 - 1) t200 a50 in
    let last = sq-IsPower v (2 ^ 251 - 2) (sq-IsPower v (2 ^ 250 - 1) a250) in
    mul-tight v (2 ^ 252 - 4) 1 last h

-- For limbs within the bounds of fe_mul, fe_divpowm1 gives u * v ^ 3 * (u * v ^ 7) ^ m modulo
-- p = 2 ^ 255 - 19, where m is (p - 5) / 8, with limbs in the bounds that fe_mul promises.
pub fe_divpowm1-power :
    (f g : List ℤ) (u v : ℤ)
    → Stands f wide u
    → Stands g wide v
    → Stands (fe_divpowm1 f g) tight (power (power v 7 *ℤ u) ((prime - 5) / 8) *ℤ power v 3 *ℤ u)
unfolding fe_divpowm1
fe_divpowm1-power f g u v s r =
    let h = one_lem v r in
    let v3 = mul-IsPower v 2 1 (sq-IsPower v 1 h) h in
    let v7 = mul-IsPower v 6 1 (sq-IsPower v 3 v3) h in
    let t = fe_pow22523-power _ _ (accepted (mul-Stands v7 s)) in
    mul-Stands (accepted (mul-Stands (accepted t) v3)) s
