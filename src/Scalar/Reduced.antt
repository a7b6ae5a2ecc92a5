-- ===== src/Scalar/Reduced.antt =====
-- From limbs in known ranges to the reduced bytes: the part that the scalar functions share.
use bitmonero.Base.{ℕ, ◌+◌, ◌*◌, ◌<◌, ◌≡◌, refl, arith, ap, ◌∙◌}
use bitmonero.Base.{List, [], ◌∷◌, ◌++◌, length, All, Bool, true, false, ◌&&◌}
use bitmonero.Base.Int.{ℤ}
use bitmonero.Base.Range.{Range, inside, inside-Within}
use bitmonero.Base.Bytes.{IsBytes, le_value}
use bitmonero.Scalar.Limbs.{Op, fold, step, run, floors, final_ops}
use bitmonero.Scalar.Value.{
  order, up, down, Fits, Congruent-trans, run-Congruent, length-run, length-step,
}
use bitmonero.Scalar.Bounds.{AllWithin}
use bitmonero.Base.{and_cases}
use bitmonero.Scalar.RunBounds.{run_ranges, run-AllWithin}
use bitmonero.Scalar.Codec.{pack}
use bitmonero.Scalar.Functions.{finish}
use bitmonero.Scalar.Finish.{settled, ended, fold_settled, floors-SameValue, pack-ended}

-- Each range lies inside the one at its place.
unfoldable pub all_inside : List Range → List Range → Bool
all_inside [] [] = true
all_inside [] (q ∷ qs) = false
all_inside (r ∷ rs) [] = false
all_inside (r ∷ rs) (q ∷ qs) = inside r q && all_inside rs qs

pub widen :
    (s : List ℤ) (rs qs : List Range) → all_inside rs qs ≡ true → AllWithin s rs → AllWithin s qs
unfolding all_inside
widen [] [] [] h w = w
widen [] (r ∷ rs) qs h w = absurd w
widen [] [] (q ∷ qs) h w = cc
widen (x ∷ s) [] qs h w = absurd w
widen (x ∷ s) (r ∷ rs) [] h w = cc
widen (x ∷ s) (r ∷ rs) (q ∷ qs) h w =
    let (h0, h1) = and_cases _ _ h in (inside-Within r q x h0 w.0, widen s rs qs h1 w.1)

-- `out` is the number of the limbs `s` modulo the order, as 32 bytes.
pub record IsReduced (s : List ℤ) (out : List ℕ) : Type 0 where
  pub below : le_value out < order
  pub above : ℕ
  pub under : ℕ
  pub balance : le_value out + order * above + down s ≡ up s + order * under
  pub bytes : IsBytes out
  pub size : length out ≡ 32

abbrev pub last_ops : List Op
last_ops = fold 0 ∷ floors 0 11

run-append : (os ps : List Op) (s : List ℤ) → run (os ++ ps) s ≡ run ps (run os s)
unfolding run
run-append [] ps s = refl
run-append (o ∷ os) ps s = run-append os ps (step o s)

last_run : (s : List ℤ) → run last_ops s ≡ run (floors 0 11) (step (fold 0) s)
unfolding run
last_run s = refl

finish_parts : (os : List Op) (s : List ℤ) → finish os s ≡ pack (run final_ops (run os s))
unfolding finish
finish_parts os s = refl

-- What is to be evaluated on ranges: the statements fit the number of limbs, the first chain
-- settles the limbs, and the last statements keep settled limbs in range.
pub record Settles (os : List Op) (rs : List Range) (n : ℕ) : Type 0 where
  pub fits : All (λ o. Fits o (13 + n)) os
  pub first : All (λ o. Fits o (13 + n)) (floors 0 12)
  pub last : All (λ o. Fits o (13 + n)) last_ops
  pub settles : all_inside (run_ranges (floors 0 12) (run_ranges os rs)) (settled n) ≡ true
  pub ends : all_inside (run_ranges last_ops (settled n)) (ended n) ≡ true

module _ (os : List Op) (s : List ℤ) (rs : List Range) (n : ℕ) (c : Settles os rs n)
    (size : length s ≡ 13 + n) (within : AllWithin s rs) where
  abbrev first_chain : List ℤ
  first_chain = run (floors 0 12) (run os s)

  abbrev folded : List ℤ
  folded = step (fold 0) first_chain

  abbrev last_chain : List ℤ
  last_chain = run (floors 0 11) folded

  size_first : length first_chain ≡ 13 + n
  size_first = length-run (floors 0 12) (run os s) ∙ (length-run os s ∙ size)

  first_chain-AllWithin : AllWithin first_chain (settled n)
  first_chain-AllWithin =
      widen first_chain (run_ranges (floors 0 12) (run_ranges os rs)) (settled n) c.settles (
        run-AllWithin (floors 0 12) (run os s) (run_ranges os rs) (rw (length-run, size) c.first)
          (run-AllWithin os s rs (rw size c.fits) within))

  last_chain-AllWithin : AllWithin last_chain (ended n)
  unfolding run
  last_chain-AllWithin =
      widen last_chain (run_ranges last_ops (settled n)) (ended n) c.ends (
        run-AllWithin last_ops first_chain (settled n) (rw size_first c.last) first_chain-AllWithin)

  finish_lem : finish os s ≡ pack last_chain
  finish_lem =
      finish_parts os s
      ∙ ap pack (run-append (floors 0 12) last_ops (run os s) ∙ last_run first_chain)

  folded_value : (v : ℕ) × (v < order) × (up folded ≡ down folded + v)
  folded_value = fold_settled n first_chain first_chain-AllWithin

  last_value : up last_chain ≡ down last_chain + folded_value.0
  last_value =
      let size_folded = length-step (fold 0) first_chain ∙ size_first in
      omega (arith, floors-SameValue 0 11 folded (omega (arith, size_folded)), folded_value.2)

  pub finish-IsReduced : IsReduced s (finish os s)
  finish-IsReduced =
      let (v, b, e) = folded_value in
      let (value, is_bytes, len) = pack-ended n v last_chain last_chain-AllWithin b last_value in
      let g = run-Congruent last_ops first_chain (rw size_first c.last) in
      let f = run-Congruent (floors 0 12) (run os s) (rw (length-run, size) c.first) in
      let o = run-Congruent os s (rw size c.fits) in
      let k = Congruent-trans g (Congruent-trans f o) in
      let lv : up (run last_ops first_chain) ≡ down (run last_ops first_chain) + v =
        rw last_run last_value in
      rw finish_lem record {
        below = rw value b;
        above = k.above;
        under = k.below;
        balance = omega (arith, value, k.balance, lv);
        bytes = is_bytes;
        size = len;
      }
