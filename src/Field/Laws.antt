-- ===== src/Field/Laws.antt =====
-- Results about `fe_mul`, `fe_sq` and `fe_sq2`: products modulo 2 ^ 255 - 19.
use bitmonero.Base.{suc, ◌≡◌, refl, sym, ap, ◌∙◌, List, [], ◌∷◌, length, Bool, true, false}
use bitmonero.Base.Int.{ℤ, pos, ◌*ℤ◌, int_laws, eq_of_parts}
use bitmonero.Field.Linear.{limbs_value, fe_value}
use bitmonero.Field.Mul.{
  mul_operands, mul_columns, fe_mul, sq_operands, sq_columns, fe_sq, double_limbs, fe_sq2,
}
use bitmonero.Field.Sizes.{AtMost, ColumnsFit}
use bitmonero.Field.CarrySizes.{CarriesFit, AtMost-length}
use bitmonero.Field.Operands.{wide, tight}
use bitmonero.Field.Fits.{fe_mul_fits, fe_sq-fe_sq2_fits}
use bitmonero.Field.Carry.{carries, carry_run}
use bitmonero.Field.Carried.{carry_run_value}
use bitmonero.Field.Congruence.{Cong, Cong-trans, Cong-*ℤ_right}
use bitmonero.Field.Product.{mul_columns_value}
use bitmonero.Field.Square.{sq_columns-mul_columns}
use bitmonero.Field.Ten.{ten}

mul_columns-length : (f g : List ℤ) → length f ≡ 10 → length g ≡ 10 → length (mul_columns f g) ≡ 10
unfolding mul_columns
mul_columns-length f g lf lg =
    ten (λ f. length (mul_columns f g) ≡ 10) f lf
      (λ f0 f1 f2 f3 f4 f5 f6 f7 f8 f9.
        let f : List ℤ = f0 ∷ f1 ∷ f2 ∷ f3 ∷ f4 ∷ f5 ∷ f6 ∷ f7 ∷ f8 ∷ f9 ∷ [] in
        ten (λ g. length (mul_columns f g) ≡ 10) g lg (λ g0 g1 g2 g3 g4 g5 g6 g7 g8 g9. refl))

ten_limbs : (f : List ℤ) → AtMost f wide → length f ≡ 10
ten_limbs f h = sym (AtMost-length f wide h)

-- For limbs within the bounds of its comment, every value that fe_mul computes fits its type, the
-- limbs of the result are within the bounds that the comment promises, and their number is the
-- product modulo 2 ^ 255 - 19.
pub fe_mul_value :
    (f g : List ℤ)
    → AtMost f wide
    → AtMost g wide
    → ColumnsFit (mul_operands f g)
      × CarriesFit carries (mul_columns f g)
      × AtMost (fe_mul f g) tight
      × Cong (fe_value (fe_mul f g)) (fe_value f *ℤ fe_value g)
unfolding fe_mul
fe_mul_value f g hf hg =
    let (fits, carried, small) = fe_mul_fits f g hf hg in
    let lf = ten_limbs f hf in
    let lg = ten_limbs g hg in
    (
      fits,
      carried,
      small,
      Cong-trans (carry_run_value carries (mul_columns f g) (mul_columns-length f g lf lg))
          (mul_columns_value f g lf lg),
    )

-- For limbs within the bounds of their comments, every value that fe_sq computes for an element,
-- and fe_mul for its product with itself, fits its type, and both give the same limbs.
pub fe_sq-fe_mul :
    (f : List ℤ)
    → AtMost f wide
    → ColumnsFit (sq_operands f)
      × CarriesFit carries (sq_columns f)
      × ColumnsFit (mul_operands f f)
      × CarriesFit carries (mul_columns f f)
      × AtMost (fe_sq f) tight
      × (fe_sq f ≡ fe_mul f f)
unfolding fe_sq fe_mul
fe_sq-fe_mul f h =
    let (fits, carried, small, room, carried2, small2) = fe_sq-fe_sq2_fits f h in
    let (fits', carried', small') = fe_mul_fits f f h h in
    (
      fits,
      carried,
      fits',
      carried',
      small,
      ap (carry_run carries) (sq_columns-mul_columns f (ten_limbs f h)),
    )

double_limbs_value :
    (even : Bool) (h : List ℤ) → limbs_value even (double_limbs h) ≡ limbs_value even h *ℤ pos 2
unfolding limbs_value double_limbs
double_limbs_value true [] = eq_of_parts _ _ (omega int_laws)
double_limbs_value false [] = eq_of_parts _ _ (omega int_laws)
double_limbs_value true (x ∷ r) = rw (double_limbs_value false r) (eq_of_parts _ _ (omega int_laws))
double_limbs_value false (x ∷ r) = rw (double_limbs_value true r) (eq_of_parts _ _ (omega int_laws))

double_limbs-length : (h : List ℤ) → length (double_limbs h) ≡ length h
unfolding double_limbs
double_limbs-length [] = refl
double_limbs-length (x ∷ r) = ap suc (double_limbs-length r)

-- For limbs within the bounds of its comment, fe_sq2 gives limbs of twice the square modulo
-- 2 ^ 255 - 19.
pub fe_sq2_value :
    (f : List ℤ) → AtMost f wide → Cong (fe_value (fe_sq2 f)) ((fe_value f *ℤ fe_value f) *ℤ pos 2)
unfolding fe_sq2
fe_sq2_value f h =
    let n = ten_limbs f h in
    let same = sq_columns-mul_columns f n in
    let len : length (double_limbs (sq_columns f)) ≡ 10 =
      double_limbs-length (sq_columns f) ∙ ap length same ∙ mul_columns-length f f n n in
    Cong-trans (carry_run_value carries (double_limbs (sq_columns f)) len) (
      rw (double_limbs_value true (sq_columns f), same)
        (Cong-*ℤ_right (pos 2) (mul_columns_value f f n n)))
