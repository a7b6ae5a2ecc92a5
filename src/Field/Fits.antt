-- ===== src/Field/Fits.antt =====
-- The bounds of `fe_mul`, `fe_sq` and `fe_sq2`: what the columns and the carries need and leave.
use bitmonero.Base.{
  ℕ, ◌-◌, ◌*◌, ◌^◌, ◌≤◌, ◌≡◌, refl, sym, ◌∙◌, arith, List, [], ◌∷◌, length, Bool, true, false, ◌&&◌,
  leb, leb→le,
}
use bitmonero.Base.Int.{ℤ, ◌+ℤ◌}
use bitmonero.Base.Ring.{size}
use bitmonero.Base.Range.{Within, int64}
use bitmonero.Field.Carry.{Carry, limb, top, carry_step, carry_run, carries}
use bitmonero.Field.Carried.{carry_step-length}
use bitmonero.Field.CarrySizes.{
  CarryFits, CarriesFit, limb_sizes, top_sizes, limb_fits, top_fits, limb_fits-LimbFits,
  top_fits-TopFits, AtMost-length,
}
use bitmonero.Field.Mul.{
  columns, mul_operands, mul_columns, fe_mul, sq_operands, sq_columns, fe_sq, double_limbs, fe_sq2,
}
use bitmonero.Field.Sizes.{AtMost, ColumnsFit, totals, all_below, columns_fit}
use bitmonero.Field.Sums.{columns_fit-ColumnsFit, +ℤ_size, size-int64}
use bitmonero.Field.Operands.{wide, tight, mul_sizes, mul_operands-PairsAtMost}
use bitmonero.Field.SquareOperands.{sq_sizes, sq_operands-PairsAtMost}
use bitmonero.Base.{and_cases}

unfoldable pub step_sizes : Carry → List ℕ → List ℕ
unfolding limb_sizes top_sizes
step_sizes (limb k) bs = limb_sizes true k bs
step_sizes top bs = top_sizes bs

unfoldable pub run_sizes : List Carry → List ℕ → List ℕ
unfolding step_sizes
run_sizes [] bs = bs
run_sizes (c ∷ cs) bs = run_sizes cs (step_sizes c bs)

unfoldable pub step_fits : Carry → List ℕ → Bool
unfolding limb_fits top_fits
step_fits (limb k) bs = limb_fits true k bs
step_fits top bs = top_fits bs

unfoldable pub run_fits : List Carry → List ℕ → Bool
unfolding step_fits step_sizes
run_fits [] bs = true
run_fits (c ∷ cs) bs = step_fits c bs && run_fits cs (step_sizes c bs)

step_fits-CarryFits :
    (c : Carry) (s : List ℤ) (bs : List ℕ)
    → length s ≡ 10
    → AtMost s bs
    → step_fits c bs ≡ true
    → CarryFits c s × AtMost (carry_step c s) (step_sizes c bs)
unfolding step_fits step_sizes carry_step
step_fits-CarryFits (limb k) s bs n h e = limb_fits-LimbFits true k s bs h e
step_fits-CarryFits top s bs n h e = top_fits-TopFits s bs n h e

pub run_fits-CarriesFit :
    (cs : List Carry) (s : List ℤ) (bs : List ℕ)
    → length s ≡ 10
    → AtMost s bs
    → run_fits cs bs ≡ true
    → CarriesFit cs s × AtMost (carry_run cs s) (run_sizes cs bs)
unfolding run_fits run_sizes carry_run
run_fits-CarriesFit [] s bs n h e = (tt, h)
run_fits-CarriesFit (c ∷ cs) s bs n h e =
    let (e0, e1) = and_cases _ _ e in
    let (fits, more) = step_fits-CarryFits c s bs n h e0 in
    let (rest, last) =
      run_fits-CarriesFit cs (carry_step c s) (step_sizes c bs) (carry_step-length c s n) more e1 in
    ((fits, rest), last)

unfoldable pub no_larger : List ℕ → List ℕ → Bool
no_larger [] [] = true
no_larger [] (c ∷ cs) = false
no_larger (b ∷ bs) [] = false
no_larger (b ∷ bs) (c ∷ cs) = leb b c && no_larger bs cs

pub AtMost-weaken :
    (s : List ℤ) (bs cs : List ℕ) → AtMost s bs → no_larger bs cs ≡ true → AtMost s cs
unfolding no_larger
AtMost-weaken [] [] [] h e = tt
AtMost-weaken [] [] (c ∷ cs) h e = cc
AtMost-weaken [] (b ∷ bs) cs h e = absurd h
AtMost-weaken (x ∷ s) [] cs h e = absurd h
AtMost-weaken (x ∷ s) (b ∷ bs) [] h e = cc
AtMost-weaken (x ∷ s) (b ∷ bs) (c ∷ cs) h e =
    let (e0, e1) = and_cases (leb b c) (no_larger bs cs) e in
    (omega (arith, leb→le b c e0), AtMost-weaken s bs cs h.1 e1)

-- The twelve carries on limbs of known sizes.
carried_fits :
    (s : List ℤ) (bs : List ℕ)
    → length bs ≡ 10
    → AtMost s bs
    → run_fits carries bs ≡ true
    → no_larger (run_sizes carries bs) tight ≡ true
    → CarriesFit carries s × AtMost (carry_run carries s) tight
carried_fits s bs n h e t =
    let (fits, last) = run_fits-CarriesFit carries s bs (sym (AtMost-length s bs h) ∙ n) h e in
    (fits, AtMost-weaken (carry_run carries s) (run_sizes carries bs) tight last t)

module _ (f g : List ℤ) (hf : AtMost f wide) (hg : AtMost g wide) where
  pub fe_mul_fits :
      ColumnsFit (mul_operands f g)
      × CarriesFit carries (mul_columns f g)
      × AtMost (fe_mul f g) tight
  unfolding fe_mul mul_columns columns_fit totals run_fits run_sizes no_larger
  fe_mul_fits =
      let (fits, small) =
        columns_fit-ColumnsFit (mul_operands f g) mul_sizes
          (mul_operands-PairsAtMost f g (sym (AtMost-length f wide hf))
            (sym (AtMost-length g wide hg)) hf hg)
          refl in
      let (carried, last) =
        carried_fits (columns (mul_operands f g)) (totals mul_sizes) refl small refl refl in
      (fits, carried, last)

unfoldable double_all : List ℕ → List ℕ
double_all [] = []
double_all (b ∷ bs) = (2 * b) ∷ double_all bs

abbrev pub AllInt64 : List ℤ → Type 0
AllInt64 [] = Unit {0}
AllInt64 (x ∷ s) = Within x int64 × AllInt64 s

double_limbs-AtMost :
    (s : List ℤ) (bs : List ℕ)
    → AtMost s bs
    → all_below (2 ^ 62 - 1) bs ≡ true
    → AllInt64 (double_limbs s) × AtMost (double_limbs s) (double_all bs)
unfolding double_limbs double_all all_below
double_limbs-AtMost [] [] h e = (tt, tt)
double_limbs-AtMost [] (b ∷ bs) h e = absurd h
double_limbs-AtMost (x ∷ s) [] h e = absurd h
double_limbs-AtMost (x ∷ s) (b ∷ bs) h e =
    let (e0, e1) = and_cases (leb b (2 ^ 62 - 1)) (all_below (2 ^ 62 - 1) bs) e in
    let (fits, more) = double_limbs-AtMost s bs h.1 e1 in
    let twice : size (x +ℤ x) ≤ 2 * b = omega (arith, +ℤ_size x x) in
    let room = leb→le b (2 ^ 62 - 1) e0 in
    ((size-int64 (x +ℤ x) (2 * b) twice (omega arith), fits), (twice, more))

module _ (f : List ℤ) (hf : AtMost f wide) where
  sq_fits : ColumnsFit (sq_operands f) × AtMost (columns (sq_operands f)) (totals sq_sizes)
  unfolding columns_fit
  sq_fits =
      columns_fit-ColumnsFit (sq_operands f) sq_sizes
        (sq_operands-PairsAtMost f (sym (AtMost-length f wide hf)) hf) refl

  -- For limbs within the bounds of their comments, every value that fe_sq and fe_sq2 compute fits
  -- its type, and the results are within the bounds that the comments promise.
  pub fe_sq-fe_sq2_fits :
      ColumnsFit (sq_operands f)
      × CarriesFit carries (sq_columns f)
      × AtMost (fe_sq f) tight
      × AllInt64 (double_limbs (sq_columns f))
      × CarriesFit carries (double_limbs (sq_columns f))
      × AtMost (fe_sq2 f) tight
  unfolding fe_sq fe_sq2 sq_columns totals run_fits run_sizes no_larger double_all all_below
  fe_sq-fe_sq2_fits =
      let (fits, small) = sq_fits in
      let (carried, last) =
        carried_fits (columns (sq_operands f)) (totals sq_sizes) refl small refl refl in
      let (room, twice) =
        double_limbs-AtMost (columns (sq_operands f)) (totals sq_sizes) small refl in
      let (carried', last') =
        carried_fits (double_limbs (columns (sq_operands f))) (double_all (totals sq_sizes)) refl
          twice refl refl in
      (fits, carried, last, room, carried', last')
