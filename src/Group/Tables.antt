-- ===== src/Group/Tables.antt =====
-- src/crypto/crypto-ops.c: the tables of multiples that `ge_dsm_precomp` and `ge_scalarmult` fill.
use bitmonero.Base.{ℕ, zero, suc, ◌+◌, ◌≡◌, refl, sym, List, [], ◌∷◌, length}
use bitmonero.Base.Int.{ℤ, pos, ◌+ℤ◌, eq_of_parts, int_laws}
use bitmonero.Group.{GeP3, GeCached, ge_add, ge_p3_dbl, ge_p1p1_to_p3, ge_p3_to_cached}
use bitmonero.Group.Curve.{IsP3, IsCached}
use bitmonero.Group.Convert.{ge_p1p1_to_p3-IsP3, ge_p3_to_cached-IsCached}
use bitmonero.Group.Multiples.{Multiples, p3_dbl_multiple, ge_add-IsCached}

-- The entry `c`, and `n` more, each the sum of `p` and the one before.
unfoldable pub entries_from : ℕ → GeP3 → GeCached → List GeCached
entries_from zero p c = c ∷ []
entries_from (suc n) p c = c ∷ entries_from n p (ge_p3_to_cached (ge_p1p1_to_p3 (ge_add p c)))

unfoldable pub ge_dsm_precomp : GeP3 → List GeCached
unfolding entries_from
ge_dsm_precomp s = let s2 = ge_p1p1_to_p3 (ge_p3_dbl s) in entries_from 7 s2 (ge_p3_to_cached s)

-- The entries of a table are the multiples start, start + step, start + 2 * step, …, where `Is`
-- says that an entry stands for a point.
abbrev pub AreEntries :
    {E : Type 0} → (E → ℤ → ℤ → Type 0) → (ℤ → ℤ) → (ℤ → ℤ) → ℕ → ℕ → List E → Type 0
AreEntries Is x y step start [] = Unit {0}
AreEntries Is x y step start (c ∷ r) =
    Is c (x (pos start)) (y (pos start)) × AreEntries Is x y step (step + start) r

abbrev pub AreMultiples : (ℤ → ℤ) → (ℤ → ℤ) → ℕ → ℕ → List GeCached → Type 0
AreMultiples = AreEntries IsCached

pos_sum : (m n : ℕ) → pos m +ℤ pos n ≡ pos (m + n)
pos_sum m n = eq_of_parts _ _ (omega int_laws)

module _ {x y : ℤ → ℤ} (law : Multiples x y) where
  pub entries_from-AreMultiples :
      (n : ℕ) (p : GeP3) (step start : ℕ) (c : GeCached)
      → IsP3 p (x (pos step)) (y (pos step))
      → IsCached c (x (pos start)) (y (pos start))
      → AreMultiples x y step start (entries_from n p c)
  unfolding entries_from
  entries_from-AreMultiples zero p step start c h k = (k, tt)
  entries_from-AreMultiples (suc n) p step start c h k = (
    k,
    entries_from-AreMultiples n p step (step + start) _ h
        (rw (sym (pos_sum step start)) (ge_add-IsCached law p c (pos step) (pos start) h k)),
  )

  -- For a point P between whose multiples the addition law holds, the table of ge_dsm_precomp has P,
  -- 3 * P, 5 * P, …, 15 * P.
  pub ge_dsm_precomp-AreMultiples :
      (s : GeP3)
      → IsP3 s (x (pos 1)) (y (pos 1))
      → AreMultiples x y 2 1 (ge_dsm_precomp s) × (length (ge_dsm_precomp s) ≡ 8)
  unfolding ge_dsm_precomp entries_from ◌+ℤ◌
  ge_dsm_precomp-AreMultiples s h = (
    entries_from-AreMultiples 7 _ 2 1 _ (ge_p1p1_to_p3-IsP3 _ _ _ (p3_dbl_multiple law s (pos 1) h))
        (ge_p3_to_cached-IsCached s _ _ h),
    refl,
  )
