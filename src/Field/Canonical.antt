-- ===== src/Field/Canonical.antt =====
-- Results about `fe_tobytes`, `fe_isnonzero` and `fe_isnegative`.
use bitmonero.Base.{
  ℕ, ◌-◌, ◌%◌, ◌^◌, ◌≤◌, ◌<◌, ◌≡◌, ◌⊎◌, inl, inr, refl, sym, ap, ◌∙◌, subst, arith, true, List, [],
  ◌∷◌, length, get_or, bit_and, take, zero, suc, ◌/◌,
}
use bitmonero.Base.Int.{
  ℤ, pos, pos_part, neg_part, ◌+ℤ◌, ◌-ℤ◌, ◌*ℤ◌, ◌≤ℤ◌, ◌>>ℤ◌, ◌<<ℤ◌, int_laws, eq_of_parts,
}
use bitmonero.Base.Ring.{size, *ℤ_comm}
use bitmonero.Base.Bytes.{IsBytes, le_value}
use bitmonero.Base.Bits.{bit_and_low}
use bitmonero.Scalar.Nonzero.{sc_isnonzero_decides}
use bitmonero.Field.Linear.{limbs_value, fe_value, one_sided}
use bitmonero.Field.Ten.{ten}
use bitmonero.Field.Sizes.{AtMost}
use bitmonero.Field.CarrySizes.{AtMost-length}
use bitmonero.Field.Operands.{wide}
use bitmonero.Field.Congruence.{prime, Cong, Cong-trans, Cong-sym}
use bitmonero.Field.Tobytes.{
  quotient, first_quotient, trim, fe_tobytes, fe_isnonzero, fe_isnegative,
}
use bitmonero.Field.Trim.{Trimmed, trim-Trimmed, trim-length, above, trim_value, shift_25}
use bitmonero.Field.FieldPack.{fe_pack_value}

final_range :
    (s : List ℤ)
    → length s ≡ 10
    → Trimmed true s
    → (neg_part (fe_value s) ≡ 0)
      × (pos_part (fe_value s)
          < 57896044618658097711785492504343953926634992332820282019728792003956564819968)
unfolding limbs_value
final_range s n =
    ten
      (λ s.
        Trimmed true s
        → (neg_part (fe_value s) ≡ 0)
          × (pos_part (fe_value s)
              < 57896044618658097711785492504343953926634992332820282019728792003956564819968))
      s n
      (λ h0 h1 h2 h3 h4 h5 h6 h7 h8 h9 t.
        omega
          (int_laws, one_sided (fe_value (h0 ∷ h1 ∷ h2 ∷ h3 ∷ h4 ∷ h5 ∷ h6 ∷ h7 ∷ h8 ∷ h9 ∷ []))))

above_ten :
    (s : List ℤ) (v : ℤ)
    → length s ≡ 10
    → above true s v
      ≡ v *ℤ pos 57896044618658097711785492504343953926634992332820282019728792003956564819968
unfolding above
above_ten s v n =
    ten
      (λ s.
        above true s v
        ≡ v *ℤ pos 57896044618658097711785492504343953926634992332820282019728792003956564819968)
      s n (λ h0 h1 h2 h3 h4 h5 h6 h7 h8 h9. eq_of_parts _ _ (omega int_laws))

abbrev low_part : List ℤ → ℤ
low_part s =
    fe_value s
    -ℤ get_or s 9 (pos 0)
      *ℤ pos 1725436586697640946858688965569256363112777243042596638790631055949824

low_bounds :
    (s : List ℤ)
    → length s ≡ 10
    → AtMost s wide
    → (size (low_part s) ≤ 6901746346790563787434755862277025452451108972170386555162524223799296)
      × (size (get_or s 9 (pos 0)) ≤ 55364812)
unfolding limbs_value
low_bounds s n =
    ten
      (λ s.
        AtMost s wide
        → (size (low_part s)
            ≤ 6901746346790563787434755862277025452451108972170386555162524223799296)
          × (size (get_or s 9 (pos 0)) ≤ 55364812))
      s n
      (λ h0 h1 h2 h3 h4 h5 h6 h7 h8 h9 t.
        omega
          (int_laws, one_sided (low_part (h0 ∷ h1 ∷ h2 ∷ h3 ∷ h4 ∷ h5 ∷ h6 ∷ h7 ∷ h8 ∷ h9 ∷ []))))

-- What is left of the number is from 0 to the prime.
remainder_bounds :
    (v h9 c q0 q v1 : ℤ)
    → size (v -ℤ h9 *ℤ pos 1725436586697640946858688965569256363112777243042596638790631055949824)
      ≤ 6901746346790563787434755862277025452451108972170386555162524223799296
    → size h9 ≤ 55364812
    → neg_part (c -ℤ (q0 <<ℤ 25)) ≡ 0
    → pos_part (c -ℤ (q0 <<ℤ 25)) < 33554432
    → c ≡ h9 *ℤ pos 19 +ℤ pos 16777216
    → v +ℤ q0
      ≡ v1 +ℤ q *ℤ pos 57896044618658097711785492504343953926634992332820282019728792003956564819968
    → neg_part v1 ≡ 0
    → pos_part v1 < 57896044618658097711785492504343953926634992332820282019728792003956564819968
    → (pos 0 ≤ℤ v -ℤ q *ℤ pos prime) × (v -ℤ q *ℤ pos prime ≤ℤ pos (prime - 1))
remainder_bounds v h9 c q0 q v1 l b f0 f1 e g i j =
    omega (int_laws, ap pos_part e, ap neg_part e, ap pos_part g, ap neg_part g)

right_quotient :
    (v q q' v2 : ℤ)
    → (pos 0 ≤ℤ v -ℤ q *ℤ pos prime) × (v -ℤ q *ℤ pos prime ≤ℤ pos (prime - 1))
    → v +ℤ q *ℤ pos 19
      ≡ v2
        +ℤ q' *ℤ pos 57896044618658097711785492504343953926634992332820282019728792003956564819968
    → neg_part v2 ≡ 0
    → pos_part v2 < 57896044618658097711785492504343953926634992332820282019728792003956564819968
    → v2 ≡ v -ℤ q *ℤ pos prime
right_quotient v q q' v2 b e i j = eq_of_parts _ _ (omega (int_laws, ap pos_part e, ap neg_part e))

module _ (h : List ℤ) (k : AtMost h wide) where
  abbrev final : ℤ
  final = quotient true (first_quotient h) h

  ten_limbs : length h ≡ 10
  ten_limbs = sym (AtMost-length h wide k)

  left_over :
      (pos 0 ≤ℤ fe_value h -ℤ final *ℤ pos prime)
      × (fe_value h -ℤ final *ℤ pos prime ≤ℤ pos (prime - 1))
  unfolding first_quotient
  left_over =
      let h9 = get_or h 9 (pos 0) in
      let c = pos 19 *ℤ h9 +ℤ pos (2 ^ 24) in
      let q0 = c >>ℤ 25 in
      let (l, b) = low_bounds h ten_limbs k in
      let (i, j) =
        final_range (trim true q0 h) (trim-length true q0 h ∙ ten_limbs) (trim-Trimmed true q0 h) in
      let (f0, f1) = shift_25 c in
      remainder_bounds (fe_value h) h9 c q0 final (fe_value (trim true q0 h)) l b f0 f1
        (ap (λ t. t +ℤ pos 16777216) (*ℤ_comm (pos 19) h9))
        (trim_value true q0 h
          ∙ ap (λ t. fe_value (trim true q0 h) +ℤ t) (above_ten h final ten_limbs))
        i j

  trimmed_value : fe_value (trim true (pos 19 *ℤ final) h) ≡ fe_value h -ℤ final *ℤ pos prime
  trimmed_value =
      let c = pos 19 *ℤ final in
      let (i, j) =
        final_range (trim true c h) (trim-length true c h ∙ ten_limbs) (trim-Trimmed true c h) in
      right_quotient (fe_value h) final (quotient true c h) (fe_value (trim true c h)) left_over
        (ap (λ t. fe_value h +ℤ t) (*ℤ_comm final (pos 19))
          ∙ trim_value true c h
          ∙ ap (λ t. fe_value (trim true c h) +ℤ t) (above_ten h (quotient true c h) ten_limbs))
        i j

add_back : (v q : ℤ) → v ≡ (v -ℤ q *ℤ pos prime) +ℤ q *ℤ pos prime
add_back v q = eq_of_parts _ _ (omega int_laws)

-- For limbs within the bounds of fe_mul, fe_tobytes gives 32 bytes of a number below p = 2 ^ 255 - 19,
-- which the limbs stand for modulo p.
pub fe_tobytes_lem :
    (h : List ℤ)
    → AtMost h wide
    → IsBytes (fe_tobytes h)
      × (length (fe_tobytes h) ≡ 32)
      × (le_value (fe_tobytes h) < prime)
      × Cong (fe_value h) (pos (le_value (fe_tobytes h)))
unfolding fe_tobytes
fe_tobytes_lem h k =
    let q = final h k in
    let c = pos 19 *ℤ q in
    let (b, l, e) =
      fe_pack_value (trim true c h) (trim-length true c h ∙ ten_limbs h k)
        (trim-Trimmed true c h) in
    let v = e ∙ trimmed_value h k in
    let (low, high) = left_over h k in
    (
      b,
      l,
      omega (arith, ap pos_part v, ap neg_part v, high),
      record {
        quotient = q;
        split = add_back (fe_value h) q ∙ ap (λ t. t +ℤ q *ℤ pos prime) (sym v);
      },
    )

pub canonical_eq : (a b : ℕ) → a < prime → b < prime → Cong (pos a) (pos b) → a ≡ b
canonical_eq a b h k c = omega (int_laws, ap pos_part c.split, ap neg_part c.split)

-- fe_tobytes gives the bytes of the remainder.
pub fe_tobytes_value :
    (h : List ℤ) (n : ℕ)
    → AtMost h wide
    → n < prime
    → Cong (fe_value h) (pos n)
    → le_value (fe_tobytes h) ≡ n
fe_tobytes_value h n k l c =
    let (b, m, p, d) = fe_tobytes_lem h k in
    canonical_eq (le_value (fe_tobytes h)) n p l (Cong-trans (Cong-sym d) c)

take-all : (n : ℕ) (s : List ℕ) → length s ≡ n → take n s ≡ s
take-all zero [] h = refl
take-all zero (x ∷ s) h = absurd (omega arith)
take-all (suc n) [] h = refl
take-all (suc n) (x ∷ s) h = ap (λ r. x ∷ r) (take-all n s (omega arith))

-- For limbs within the bounds of fe_mul, fe_isnonzero answers 0 for the multiples of the prime, and 1
-- for all others.
pub fe_isnonzero_decides :
    (f : List ℤ)
    → AtMost f wide
    → (Cong (fe_value f) (pos 0) × (fe_isnonzero f ≡ pos 0))
      ⊎ ((¬ Cong (fe_value f) (pos 0)) × (fe_isnonzero f ≡ pos 1))
unfolding fe_isnonzero
fe_isnonzero_decides f k =
    let (b, l, p, c) = fe_tobytes_lem f k in
    let whole = take-all 32 (fe_tobytes f) l in
    elim (sc_isnonzero_decides (fe_tobytes f) b (omega (arith, l))) [
      | inl (z, e) ↦ inl (subst (λ n. Cong (fe_value f) (pos n)) (sym (ap le_value whole) ∙ z) c, e)
      | inr (z, e) ↦ inr (
        λ d. absurd (omega (arith, ap le_value whole, fe_tobytes_value f 0 k (omega arith) d)),
        e,
      )
    ]

zero_right : (k a : ℕ) → a ≤ k → bit_and a 0 ≡ 0
zero_right zero zero h = refl
zero_right zero (suc a) h = absurd (omega arith)
zero_right (suc k) zero h = refl
zero_right (suc k) (suc a) h =
    omega (arith, bit_and_low (suc a) 0, zero_right k (suc a / 2) (omega arith))

bit_and-one : (a : ℕ) → bit_and a 1 ≡ a % 2
bit_and-one a = omega (arith, bit_and_low a 1, zero_right (a / 2) (a / 2) (omega arith))

lowest_byte : (s : List ℕ) → get_or s 0 0 % 2 ≡ le_value s % 2
lowest_byte [] = refl
lowest_byte (b ∷ s) = omega arith

-- For limbs within the bounds of fe_mul that stand for n < p modulo p, fe_isnegative is the lowest bit
-- of n.
pub fe_isnegative_lem :
    (f : List ℤ) (n : ℕ)
    → AtMost f wide
    → n < prime
    → Cong (fe_value f) (pos n)
    → fe_isnegative f ≡ n % 2
unfolding fe_isnegative
fe_isnegative_lem f n k l c =
    let (b, m, p, d) = fe_tobytes_lem f k in
    bit_and-one (get_or (fe_tobytes f) 0 0)
    ∙ lowest_byte (fe_tobytes f)
    ∙ ap (λ m. m % 2) (fe_tobytes_value f n k l c)
