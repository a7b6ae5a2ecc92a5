-- ===== src/Field/Element.antt =====
-- Field elements in bounds that stand for numbers modulo 2 ^ 255 - 19, and the field functions on
-- them.
use bitmonero.Base.{ℕ, ◌+◌, ◌≤◌, ◌≡◌, refl, sym, ap, ◌∙◌, arith, List, [], ◌∷◌, length, true}
use bitmonero.Base.Int.{ℤ, pos, ◌+ℤ◌, ◌-ℤ◌, ◌*ℤ◌, -ℤ_parts}
use bitmonero.Base.Ring.{size}
use bitmonero.Field.{fe_add, fe_sub, fe_copy}
use bitmonero.Field.Linear.{fe_value, limbs_value-fe_add, limbs_value-fe_sub, one_sided}
use bitmonero.Field.Mul.{fe_mul, fe_sq, fe_sq2}
use bitmonero.Field.Sizes.{AtMost}
use bitmonero.Field.Sums.{+ℤ_size}
use bitmonero.Field.CarrySizes.{AtMost-length}
use bitmonero.Field.Operands.{wide, tight}
use bitmonero.Field.Fits.{AtMost-weaken, no_larger, fe_sq-fe_sq2_fits}
use bitmonero.Field.Congruence.{
  Cong, Cong-trans, Cong-of_eq, Cong-+ℤ, Cong--ℤ, Cong-*ℤ, Cong-*ℤ_right,
}
use bitmonero.Field.Laws.{fe_mul_value, fe_sq-fe_mul, fe_sq2_value}

-- The limbs of `f` are at most `bs`, and stand for `v` modulo the prime.
pub record Stands (f : List ℤ) (bs : List ℕ) (v : ℤ) : Type 0 where
  pub bounded : AtMost f bs
  pub stands : Cong (fe_value f) v

abbrev pub sums : List ℕ → List ℕ → List ℕ
sums [] cs = []
sums (b ∷ bs) [] = []
sums (b ∷ bs) (c ∷ cs) = (b + c) ∷ sums bs cs

pub Stands-weaken :
    {f : List ℤ} {bs cs : List ℕ} {v : ℤ} → no_larger bs cs ≡ true → Stands f bs v → Stands f cs v
Stands-weaken {f} {bs} {cs} e s = record {
  bounded = AtMost-weaken f bs cs s.bounded e;
  stands = s.stands;
}

pub Stands-Cong : {f : List ℤ} {bs : List ℕ} {v w : ℤ} → Cong v w → Stands f bs v → Stands f bs w
Stands-Cong c s = record { bounded = s.bounded; stands = Cong-trans s.stands c }

fe_add-AtMost :
    (f g : List ℤ) (bs cs : List ℕ) → AtMost f bs → AtMost g cs → AtMost (fe_add f g) (sums bs cs)
unfolding fe_add
fe_add-AtMost [] g [] cs h k = tt
fe_add-AtMost [] g (b ∷ bs) cs h k = absurd h
fe_add-AtMost (x ∷ f) g [] cs h k = absurd h
fe_add-AtMost (x ∷ f) [] (b ∷ bs) [] h k = tt
fe_add-AtMost (x ∷ f) [] (b ∷ bs) (c ∷ cs) h k = absurd k
fe_add-AtMost (x ∷ f) (y ∷ g) (b ∷ bs) [] h k = absurd k
fe_add-AtMost (x ∷ f) (y ∷ g) (b ∷ bs) (c ∷ cs) h k =
    (omega (arith, +ℤ_size x y), fe_add-AtMost f g bs cs h.1 k.1)

-ℤ_size : (x y : ℤ) → size (x -ℤ y) ≤ size x + size y
-ℤ_size x y = omega (arith, -ℤ_parts x y, one_sided (x -ℤ y))

fe_sub-AtMost :
    (f g : List ℤ) (bs cs : List ℕ) → AtMost f bs → AtMost g cs → AtMost (fe_sub f g) (sums bs cs)
unfolding fe_sub
fe_sub-AtMost [] g [] cs h k = tt
fe_sub-AtMost [] g (b ∷ bs) cs h k = absurd h
fe_sub-AtMost (x ∷ f) g [] cs h k = absurd h
fe_sub-AtMost (x ∷ f) [] (b ∷ bs) [] h k = tt
fe_sub-AtMost (x ∷ f) [] (b ∷ bs) (c ∷ cs) h k = absurd k
fe_sub-AtMost (x ∷ f) (y ∷ g) (b ∷ bs) [] h k = absurd k
fe_sub-AtMost (x ∷ f) (y ∷ g) (b ∷ bs) (c ∷ cs) h k =
    (omega (arith, -ℤ_size x y), fe_sub-AtMost f g bs cs h.1 k.1)

same_length :
    (f g : List ℤ) (bs cs : List ℕ)
    → AtMost f bs
    → AtMost g cs
    → length bs ≡ length cs
    → length f ≡ length g
same_length f g bs cs h k e = sym (AtMost-length f bs h) ∙ e ∙ AtMost-length g cs k

pub add-Stands :
    {f g : List ℤ} {bs cs : List ℕ} {v w : ℤ}
    → length bs ≡ length cs
    → Stands f bs v
    → Stands g cs w
    → Stands (fe_add f g) (sums bs cs) (v +ℤ w)
add-Stands {f} {g} {bs} {cs} {v} {w} n s r = record {
  bounded = fe_add-AtMost f g bs cs s.bounded r.bounded;
  stands =
      Cong-trans
        (Cong-of_eq (limbs_value-fe_add true f g (same_length f g bs cs s.bounded r.bounded n)))
        (Cong-+ℤ s.stands r.stands);
}

pub sub-Stands :
    {f g : List ℤ} {bs cs : List ℕ} {v w : ℤ}
    → length bs ≡ length cs
    → Stands f bs v
    → Stands g cs w
    → Stands (fe_sub f g) (sums bs cs) (v -ℤ w)
sub-Stands {f} {g} {bs} {cs} {v} {w} n s r = record {
  bounded = fe_sub-AtMost f g bs cs s.bounded r.bounded;
  stands =
      Cong-trans
        (Cong-of_eq (limbs_value-fe_sub true f g (same_length f g bs cs s.bounded r.bounded n)))
        (Cong--ℤ s.stands r.stands);
}

pub mul-Stands :
    {f g : List ℤ} {v w : ℤ}
    → Stands f wide v
    → Stands g wide w
    → Stands (fe_mul f g) tight (v *ℤ w)
mul-Stands {f} {g} {v} {w} s r =
    let (fits, carried, small, value) = fe_mul_value f g s.bounded r.bounded in
    record { bounded = small; stands = Cong-trans value (Cong-*ℤ s.stands r.stands) }

pub sq-Stands : {f : List ℤ} {v : ℤ} → Stands f wide v → Stands (fe_sq f) tight (v *ℤ v)
sq-Stands {f} s = rw ((fe_sq-fe_mul f s.bounded).5) (mul-Stands s s)

pub sq2-Stands :
    {f : List ℤ} {v : ℤ} → Stands f wide v → Stands (fe_sq2 f) tight ((v *ℤ v) *ℤ pos 2)
sq2-Stands {f} s = record {
  bounded = (fe_sq-fe_sq2_fits f s.bounded).5;
  stands =
      Cong-trans (fe_sq2_value f s.bounded) (Cong-*ℤ_right (pos 2) (Cong-*ℤ s.stands s.stands));
}

fe_copy-eq : (f : List ℤ) → fe_copy f ≡ f
unfolding fe_copy
fe_copy-eq [] = refl
fe_copy-eq (x ∷ f) = ap (λ r. x ∷ r) (fe_copy-eq f)

pub copy-Stands : {f : List ℤ} {bs : List ℕ} {v : ℤ} → Stands f bs v → Stands (fe_copy f) bs v
copy-Stands {f} s = rw (fe_copy-eq f) s
