-- ===== src/Group/FromfeCurve.antt =====
-- Results about `ge_fromfe_frombytes_vartime`.
use mathlib.Core.Option.{some-injective}
use bitmonero.Base.{
  ℕ, ◌%◌, ◌^◌, ◌≡◌, ◌⊎◌, inl, inr, refl, subst, arith, Bool, true, false, Option, none, some, List,
  [], ◌∷◌, ◌==◌, if◌then◌else◌,
}
use bitmonero.Base.Int.{holds, ℤ, pos, ◌+ℤ◌, ◌-ℤ◌, ◌*ℤ◌, eq_of_parts, int_laws}
use bitmonero.Base.Bytes.{IsBytes, le_value}
use bitmonero.Base.Polynomial.{var, num, minus, times, value, solve, vanishes, expand}
use bitmonero.Field.{fe_1, fe_add, fe_sub, fe_copy, fe_neg}
use bitmonero.Field.Linear.{fe_value, limbs_value}
use bitmonero.Field.Mul.{fe_mul, fe_sq, fe_sq2}
use bitmonero.Field.Operands.{tight, wide}
use bitmonero.Field.Fits.{no_larger}
use bitmonero.Field.Powers.{fe_divpowm1}
use bitmonero.Field.Exponents.{accepted, fe_divpowm1-power}
use bitmonero.Field.Congruence.{Cong, Cong-trans, Cong-sym, Cong-of_eq, Cong-refl, Cong--ℤ}
use bitmonero.Field.Element.{
  Stands, add-Stands, sub-Stands, mul-Stands, sq-Stands, sq2-Stands, copy-Stands,
}
use bitmonero.Field.Tobytes.{fe_isnegative, fe_isnonzero}
use bitmonero.Field.Frombytes.{carried_limbs, unmasked_limbs}
use bitmonero.Field.Unmasked.{unmasked_limbs_lem}
use bitmonero.Group.{Fe, GeP2}
use bitmonero.Group.Codec.{fe_sqrtm1, with_sign}
use bitmonero.Group.Decode.{chosen, one-Stands}
use bitmonero.Group.Roots.{
  loose, sqrtm1, sqrtm1-Stands, holds-zero, Cong-difference, sign_cases, neg-Stands, fits,
}
use bitmonero.Group.OnImage.{
  IsImage, OnCurveOver, IsSign, k_number, v_of, w_of, x_of, positive-IsImage, negative-IsImage,
  squared-IsImage, IsImage-OnCurveOver,
}
use bitmonero.Group.Fromfe.{
  fe_ma, fe_ma2, fe_fffb1, fe_fffb2, fe_fffb3, fe_fffb4, Parts, positive_parts, negative_parts,
  parts, from_parts, ge_fromfe_frombytes_vartime,
}

-- What the branches leave.
record HasImage (u : ℤ) (p : Parts) : Type 0 where
  x : ℤ
  z : ℤ
  x_stands : Stands p.x tight x
  z_stands : Stands p.z tight z
  image : IsImage x z (w_of u)

abbrev minus_a : ℤ
minus_a = pos 0 -ℤ pos 486662

ma-Stands : Stands fe_ma tight minus_a
unfolding limbs_value ◌+ℤ◌ ◌-ℤ◌ ◌*ℤ◌
ma-Stands = record { bounded = omega arith; stands = record { quotient = pos 0; split = refl } }

ma2-Stands : Stands fe_ma2 tight (pos 0 -ℤ pos 236839902244)
unfolding limbs_value ◌+ℤ◌ ◌-ℤ◌ ◌*ℤ◌
ma2-Stands = record { bounded = omega arith; stands = record { quotient = pos 0; split = refl } }

minus_one : ℤ
minus_one = pos 0 -ℤ pos 1

minus_one-IsSign : IsSign minus_one
unfolding minus_one ◌-ℤ◌ ◌*ℤ◌
minus_one-IsSign = refl

one-IsSign : IsSign (pos 1)
unfolding ◌*ℤ◌
one-IsSign = refl

fe_fffb1_square : Cong (fe_value fe_fffb1 *ℤ fe_value fe_fffb1) (minus_one *ℤ (pos 2 *ℤ k_number))
unfolding minus_one sqrtm1 limbs_value ◌+ℤ◌ ◌-ℤ◌ ◌*ℤ◌
fe_fffb1_square = record {
  quotient = pos 8541807999629177022622485976777824916889076321483502149449674648148155333;
  split = refl;
}

fe_fffb1-Stands : Stands fe_fffb1 wide (fe_value fe_fffb1)
fe_fffb1-Stands = record { bounded = omega arith; stands = Cong-refl _ }

fe_fffb2_square : Cong (fe_value fe_fffb2 *ℤ fe_value fe_fffb2) (pos 1 *ℤ (pos 2 *ℤ k_number))
unfolding minus_one sqrtm1 limbs_value ◌+ℤ◌ ◌-ℤ◌ ◌*ℤ◌
fe_fffb2_square = record {
  quotient = pos 9182527501155079853014997979756392388284717163381950860790556154704119286861;
  split = refl;
}

fe_fffb2-Stands : Stands fe_fffb2 wide (fe_value fe_fffb2)
fe_fffb2-Stands = record { bounded = omega arith; stands = Cong-refl _ }

fe_fffb3_square : Cong (fe_value fe_fffb3 *ℤ fe_value fe_fffb3) ((minus_one *ℤ sqrtm1) *ℤ k_number)
unfolding minus_one sqrtm1 limbs_value ◌+ℤ◌ ◌-ℤ◌ ◌*ℤ◌
fe_fffb3_square = record {
  quotient = pos 2157735735436890667404237773353690192313663208276088634631419752372585196245;
  split = refl;
}

fe_fffb3-Stands : Stands fe_fffb3 wide (fe_value fe_fffb3)
fe_fffb3-Stands = record { bounded = omega arith; stands = Cong-refl _ }

fe_fffb4_square : Cong (fe_value fe_fffb4 *ℤ fe_value fe_fffb4) ((pos 1 *ℤ sqrtm1) *ℤ k_number)
unfolding minus_one sqrtm1 limbs_value ◌+ℤ◌ ◌-ℤ◌ ◌*ℤ◌
fe_fffb4_square = record {
  quotient = pos 2437798919140463847614572459512894914287139911575628546838583162303548524852;
  split = refl;
}

fe_fffb4-Stands : Stands fe_fffb4 wide (fe_value fe_fffb4)
fe_fffb4-Stands = record { bounded = omega arith; stands = Cong-refl _ }

branch_cases :
    (c d : Bool) (m : Option Parts) (a b p : Parts)
    → (if c then if d then m else some a else some b) ≡ some p
    → ((c ≡ false) × (b ≡ p)) ⊎ ((d ≡ false) × (a ≡ p)) ⊎ (m ≡ some p)
branch_cases false d m a b p e = inl (refl, some-injective b p e)
branch_cases true false m a b p e = inr (inl (refl, some-injective a p e))
branch_cases true true m a b p e = inr (inr e)

times_by_one : (w : ℤ) → w ≡ pos 1 *ℤ w
unfolding value vanishes expand
times_by_one w = solve (w ∷ []) (var 0) (times (num 1) (var 0)) refl

times_by_minus_one : (w : ℤ) → pos 0 -ℤ w ≡ minus_one *ℤ w
unfolding minus_one value vanishes expand
times_by_minus_one w =
    solve (w ∷ []) (minus (num 0) (var 0)) (times (minus (num 0) (num 1)) (var 0)) refl

other_term : (w q : ℤ) → q ≡ (w +ℤ q) -ℤ w
other_term w q = eq_of_parts _ _ (omega int_laws)

module _ (fw fq : Fe) (w q : ℤ) (a : Stands fw loose w) (b : Stands fq tight q) where
  equal_case : holds (fe_isnonzero (fe_sub fw fq)) ≡ false → Cong q (pos 1 *ℤ w)
  unfolding no_larger
  equal_case h =
      let d = fits refl (sub-Stands refl a b) in
      let z = Cong-difference w q (Cong-trans (Cong-sym d.stands) (holds-zero _ d.bounded h)) in
      Cong-trans (Cong-sym z) (Cong-of_eq (times_by_one w))

  opposite_case : holds (fe_isnonzero (fe_add fw fq)) ≡ false → Cong q (minus_one *ℤ w)
  unfolding no_larger
  opposite_case h =
      let d = fits refl (add-Stands refl a b) in
      let z = Cong-trans (Cong-sym d.stands) (holds-zero _ d.bounded h) in
      Cong-trans (Cong-of_eq (other_term w q))
        (Cong-trans (Cong--ℤ z (Cong-refl w)) (Cong-of_eq (times_by_minus_one w)))

module _ (fu fv fw fr fx : Fe) (u r : ℤ) (su : Stands fu tight u) (sv : Stands fv tight (v_of u))
    (sw : Stands fw loose (w_of u)) (sr : Stands fr tight r)
    (sx : Stands fx tight ((r *ℤ r) *ℤ x_of u)) where
  positive-HasImage :
      (fc : Fe) (s c : ℤ)
      → IsSign s
      → Stands fc wide c
      → Cong ((r *ℤ r) *ℤ x_of u) (s *ℤ w_of u)
      → Cong (c *ℤ c) (s *ℤ (pos 2 *ℤ k_number))
      → HasImage u (positive_parts fu fv (fe_mul fr fc))
  unfolding positive_parts
  positive-HasImage fc s c e sc h k = record {
    x = (r *ℤ c) *ℤ u;
    z = minus_a *ℤ v_of u;
    x_stands = mul-Stands (accepted (mul-Stands (accepted sr) sc)) (accepted su);
    z_stands = mul-Stands (accepted (copy-Stands ma-Stands)) (accepted sv);
    image = positive-IsImage s r c u e h k;
  }

  negative-HasImage :
      (fc : Fe) (s c : ℤ)
      → IsSign s
      → Stands fc wide c
      → Cong (((r *ℤ r) *ℤ x_of u) *ℤ sqrtm1) (s *ℤ w_of u)
      → Cong (c *ℤ c) ((s *ℤ sqrtm1) *ℤ k_number)
      → HasImage u (record { x = fe_mul fr fc; z = fe_copy fe_ma; sign = 1 })
  negative-HasImage fc s c e sc h k = record {
    x = r *ℤ c;
    z = minus_a;
    x_stands = mul-Stands (accepted sr) sc;
    z_stands = copy-Stands ma-Stands;
    image = negative-IsImage s sqrtm1 r c u e h k;
  }

  negative_parts-HasImage : (p : Parts) → negative_parts fw fr fx ≡ some p → HasImage u p
  unfolding negative_parts
  negative_parts-HasImage p e =
      let fq = fe_mul fx fe_sqrtm1 in
      let sq = mul-Stands (accepted sx) sqrtm1-Stands in
      let q = ((r *ℤ r) *ℤ x_of u) *ℤ sqrtm1 in
      elim (branch_cases (holds (fe_isnonzero (fe_sub fw fq))) (holds (fe_isnonzero (fe_add fw fq)))
        none (record { x = fe_mul fr fe_fffb3; z = fe_copy fe_ma; sign = 1 })
        (record { x = fe_mul fr fe_fffb4; z = fe_copy fe_ma; sign = 1 }) p e) [
          | inl (h, g) ↦ subst (HasImage u) g (
              negative-HasImage fe_fffb4 (pos 1) (fe_value fe_fffb4) one-IsSign fe_fffb4-Stands
                (equal_case fw fq (w_of u) q sw sq h) fe_fffb4_square)
          | inr (inl (h, g)) ↦ subst (HasImage u) g (
              negative-HasImage fe_fffb3 minus_one (fe_value fe_fffb3) minus_one-IsSign
                fe_fffb3-Stands (opposite_case fw fq (w_of u) q sw sq h) fe_fffb3_square)
          | inr (inr h) ↦ absurd cc
        ]

  parts-HasImage : (p : Parts) → parts fu fv fw fr fx ≡ some p → HasImage u p
  unfolding parts
  parts-HasImage p e =
      let q = (r *ℤ r) *ℤ x_of u in
      elim (branch_cases (holds (fe_isnonzero (fe_sub fw fx))) (holds (fe_isnonzero (fe_add fw fx)))
        (negative_parts fw fr fx) (positive_parts fu fv (fe_mul fr fe_fffb1))
        (positive_parts fu fv (fe_mul fr fe_fffb2)) p e) [
          | inl (h, g) ↦ subst (HasImage u) g (
              positive-HasImage fe_fffb2 (pos 1) (fe_value fe_fffb2) one-IsSign fe_fffb2-Stands
                (equal_case fw fx (w_of u) q sw sx h) fe_fffb2_square)
          | inr (inl (h, g)) ↦ subst (HasImage u) g (
              positive-HasImage fe_fffb1 minus_one (fe_value fe_fffb1) minus_one-IsSign
                fe_fffb1-Stands (opposite_case fw fx (w_of u) q sw sx h) fe_fffb1_square)
          | inr (inr h) ↦ negative_parts-HasImage p h
        ]

-- The coordinates of the answer are those of a point of the curve, over z.
pub record IsOver (q : GeP2) : Type 0 where
  pub x : ℤ
  pub y : ℤ
  pub z : ℤ
  pub x_stands : Stands q.x tight x
  pub y_stands : Stands q.y wide y
  pub z_stands : Stands q.z wide z
  pub on_curve : OnCurveOver x y z

-- X with the sign that is asked for.
record IsRooted (z w : ℤ) (f : Fe) : Type 0 where
  x : ℤ
  x_stands : Stands f tight x
  image : IsImage x z w

signed-IsRooted :
    (u : ℤ) (p : Parts) (f : Fe)
    → (h : HasImage u p) → with_sign p.sign p.x ≡ some f
    → IsRooted h.z (w_of u) f
unfolding with_sign
signed-IsRooted u p f h e =
    elim (sign_cases (fe_isnegative p.x == p.sign) (holds (fe_isnonzero p.x)) p.x (fe_neg p.x) f
      e) [
        | inl (c, g) ↦ record {
          x = h.x;
          x_stands = subst (λ f. Stands f tight h.x) g h.x_stands;
          image = h.image;
        }
        | inr (c, d, g) ↦ record {
          x = pos 0 -ℤ h.x;
          x_stands = subst (λ f. Stands f tight (pos 0 -ℤ h.x)) g (neg-Stands h.x_stands);
          image = squared-IsImage h.x h.z (w_of u) h.image;
        }
      ]

from_parts-IsOver :
    (u : ℤ) (fw : Fe) (p : Parts) (q : GeP2)
    → Stands fw loose (w_of u)
    → HasImage u p
    → from_parts fw p ≡ some q
    → IsOver q
unfolding from_parts no_larger
from_parts-IsOver u fw p q sw h e =
    let answer : Fe → GeP2 =
      λ x. record { x = fe_mul x (fe_add p.z fw); y = fe_sub p.z fw; z = fe_add p.z fw } in
    let (f, g, k) = chosen (with_sign p.sign p.x) (λ x. some (answer x)) q e in
    let r = signed-IsRooted u p f h g in
    let z = fits refl (add-Stands refl h.z_stands sw) in
    let y = fits refl (sub-Stands refl h.z_stands sw) in
    subst IsOver (some-injective (answer f) q k) (record {
      x = r.x *ℤ (h.z +ℤ w_of u);
      y = h.z -ℤ w_of u;
      z = h.z +ℤ w_of u;
      x_stands = mul-Stands (accepted r.x_stands) z;
      y_stands = y;
      z_stands = z;
      on_curve = IsImage-OnCurveOver r.x h.z (w_of u) r.image;
    })

-- When the assertions of ge_fromfe_frombytes_vartime hold for a byte string, its answer has limbs
-- within the bounds of fe_mul, which stand for X, Y and Z with
-- Y ^ 2 * Z ^ 2 - X ^ 2 * Z ^ 2 = Z ^ 4 + d * X ^ 2 * Y ^ 2 modulo 2 ^ 255 - 19.
pub ge_fromfe_frombytes_vartime-IsOver :
    (s : List ℕ) (q : GeP2) → IsBytes s → ge_fromfe_frombytes_vartime s ≡ some q → IsOver q
unfolding ge_fromfe_frombytes_vartime no_larger
ge_fromfe_frombytes_vartime-IsOver s q b e =
    let fu = carried_limbs (unmasked_limbs s) in
    let fv = fe_sq2 fu in
    let fw = fe_add fv fe_1 in
    let fx = fe_add (fe_sq fw) (fe_mul fe_ma2 fv) in
    let fr = fe_divpowm1 fw fx in
    let fq = fe_mul (fe_sq fr) fx in
    let u = pos (le_value s % 2 ^ 256) in
    let (fits_words, small, c) = unmasked_limbs_lem s b in
    let su : Stands fu tight u = record { bounded = small; stands = c } in
    let sv = sq2-Stands (accepted su) in
    let sw : Stands fw loose (w_of u) = add-Stands refl sv one-Stands in
    let sx : Stands fx loose (x_of u) =
      add-Stands refl (sq-Stands (fits refl sw)) (mul-Stands (accepted ma2-Stands) (accepted sv)) in
    let sr = fe_divpowm1-power fw fx (w_of u) (x_of u) (fits refl sw) (fits refl sx) in
    let sq = mul-Stands (accepted (sq-Stands (accepted sr))) (fits refl sx) in
    let (p, g, k) = chosen (parts fu fv fw fr fq) (from_parts fw) q e in
    from_parts-IsOver u fw p q sw (parts-HasImage fu fv fw fr fq u _ su sv sw sr sq p g) k
