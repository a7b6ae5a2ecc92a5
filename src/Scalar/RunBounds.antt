-- ===== src/Scalar/RunBounds.antt =====
-- Runs of statements on ranges.
use bitmonero.Base.{and_cases}
use bitmonero.Base.{ℕ, zero, suc, ◌+◌, ◌≡◌, arith, Bool, true, false, ◌&&◌}
use bitmonero.Base.{List, [], ◌∷◌, length, get_or, set, length-set, All}
use bitmonero.Base.Int.{ℤ, pos}
use bitmonero.Base.Range.{Range, Within}
use bitmonero.Scalar.Limbs.{Op, carry_round, carry_floor, fold, half, step, run}
use bitmonero.Scalar.Value.{Fits, length-step}
use bitmonero.Scalar.Bounds.{AllWithin, carry_ranges, carry-AllWithin}
use bitmonero.Scalar.FoldBounds.{multiples_ranges, multiples-AllWithin}
use bitmonero.Scalar.Overflow.{CarryFits, MultiplesFit, carry_fits, multiples_fit}
use bitmonero.Scalar.Overflow.{carry_fits-CarryFits, multiples_fit-MultiplesFit}

abbrev pub nought : Range
nought = record { lo = pos 0; hi = pos 0 }

unfoldable pub step_ranges : Op → List Range → List Range
unfolding carry_ranges multiples_ranges
step_ranges (carry_round k) rs = carry_ranges true k rs
step_ranges (carry_floor k) rs = carry_ranges false k rs
step_ranges (fold j) rs = multiples_ranges j (get_or rs (12 + j) nought) (set rs (12 + j) nought)

unfoldable pub run_ranges : List Op → List Range → List Range
unfolding step_ranges
run_ranges [] rs = rs
run_ranges (o ∷ os) rs = run_ranges os (step_ranges o rs)

-- Every value that the statement computes is an int64_t.
abbrev pub StepFits : Op → List ℤ → Type 0
StepFits (carry_round k) s = CarryFits half k s
StepFits (carry_floor k) s = CarryFits (pos 0) k s
StepFits (fold j) s = MultiplesFit j (get_or s (12 + j) (pos 0)) (set s (12 + j) (pos 0))

-- No statement of a run overflows.
abbrev pub RunFits : List Op → List ℤ → Type 0
RunFits [] s = Unit {0}
RunFits (o ∷ os) s = StepFits o s × RunFits os (step o s)

unfoldable pub step_fits : Op → List Range → Bool
unfolding carry_fits multiples_fit
step_fits (carry_round k) rs = carry_fits true k rs
step_fits (carry_floor k) rs = carry_fits false k rs
step_fits (fold j) rs = multiples_fit j (get_or rs (12 + j) nought) (set rs (12 + j) nought)

unfoldable pub run_fits : List Op → List Range → Bool
unfolding step_fits step_ranges
run_fits [] rs = true
run_fits (o ∷ os) rs = step_fits o rs && run_fits os (step_ranges o rs)

get_or-Within :
    (n : ℕ) (s : List ℤ) (rs : List Range)
    → AllWithin s rs
    → Within (get_or s n (pos 0)) (get_or rs n nought)
get_or-Within zero [] [] w = omega arith
get_or-Within (suc n) [] [] w = omega arith
get_or-Within n [] (r ∷ rs) w = absurd w
get_or-Within n (x ∷ s) [] w = absurd w
get_or-Within zero (x ∷ s) (r ∷ rs) w = w.0
get_or-Within (suc n) (x ∷ s) (r ∷ rs) w = get_or-Within n s rs w.1

set-AllWithin :
    (n : ℕ) (s : List ℤ) (rs : List Range)
    → AllWithin s rs
    → AllWithin (set s n (pos 0)) (set rs n nought)
set-AllWithin n [] [] w = w
set-AllWithin n [] (r ∷ rs) w = absurd w
set-AllWithin n (x ∷ s) [] w = absurd w
set-AllWithin zero (x ∷ s) (r ∷ rs) w = (omega arith, w.1)
set-AllWithin (suc n) (x ∷ s) (r ∷ rs) w = (w.0, set-AllWithin n s rs w.1)

pub step-AllWithin :
    (o : Op) (s : List ℤ) (rs : List Range)
    → Fits o (length s)
    → AllWithin s rs
    → AllWithin (step o s) (step_ranges o rs)
unfolding step step_ranges
step-AllWithin (carry_round k) s rs h w = carry-AllWithin true k s rs w
step-AllWithin (carry_floor k) s rs h w = carry-AllWithin false k s rs w
step-AllWithin (fold j) s rs h w =
    multiples-AllWithin j (get_or s (12 + j) (pos 0)) (get_or rs (12 + j) nought)
      (set s (12 + j) (pos 0)) (set rs (12 + j) nought) (get_or-Within (12 + j) s rs w)
      (omega (arith, length-set s (12 + j) (pos 0))) (set-AllWithin (12 + j) s rs w)

pub run-AllWithin :
    (os : List Op) (s : List ℤ) (rs : List Range)
    → All (λ o. Fits o (length s)) os
    → AllWithin s rs
    → AllWithin (run os s) (run_ranges os rs)
unfolding run run_ranges
run-AllWithin [] s rs h w = w
run-AllWithin (o ∷ os) s rs (h, hs) w =
    run-AllWithin os (step o s) (step_ranges o rs) (rw (length-step o s) hs)
      (step-AllWithin o s rs h w)

step_fits-StepFits :
    (o : Op) (s : List ℤ) (rs : List Range)
    → Fits o (length s)
    → step_fits o rs ≡ true
    → AllWithin s rs
    → StepFits o s
unfolding step_fits
step_fits-StepFits (carry_round k) s rs h e w = carry_fits-CarryFits true k s rs e w
step_fits-StepFits (carry_floor k) s rs h e w = carry_fits-CarryFits false k s rs e w
step_fits-StepFits (fold j) s rs h e w =
    multiples_fit-MultiplesFit j (get_or s (12 + j) (pos 0)) (get_or rs (12 + j) nought)
      (set s (12 + j) (pos 0)) (set rs (12 + j) nought) e (get_or-Within (12 + j) s rs w)
      (omega (arith, length-set s (12 + j) (pos 0))) (set-AllWithin (12 + j) s rs w)

-- A run that the test passes on ranges has no overflow on any limbs in them.
pub run_fits-RunFits :
    (os : List Op) (s : List ℤ) (rs : List Range)
    → All (λ o. Fits o (length s)) os
    → run_fits os rs ≡ true
    → AllWithin s rs
    → RunFits os s
unfolding run_fits
run_fits-RunFits [] s rs h e w = tt
run_fits-RunFits (o ∷ os) s rs (h, hs) e w =
    let (e0, e1) = and_cases _ _ e in
    (
      step_fits-StepFits o s rs h e0 w,
      run_fits-RunFits os (step o s) (step_ranges o rs) (rw (length-step o s) hs) e1
          (step-AllWithin o s rs h w),
    )
