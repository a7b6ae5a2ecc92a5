-- ===== src/Group/AddDigit.antt =====
-- Results about the digits in `ge_double_scalarmult_precomp_vartime` and
-- `ge_double_scalarmult_base_vartime`.
use bitmonero.Base.{
  ℕ, zero, suc, ◌+◌, ◌*◌, ◌/◌, ◌%◌, ◌≤◌, ◌<◌, ◌≡◌, inl, inr, refl, sym, ap, ◌∙◌, arith, some, List,
  [], ◌∷◌, length, get_elem?,
}
use bitmonero.Base.Int.{ℤ, pos, negsuc, pos_part, neg_part, ◌-ℤ◌, eq_of_parts, int_laws}
use bitmonero.Group.{GeP1P1, GeCached, GePrecomp, ge_add, ge_sub, ge_madd, ge_msub, ge_p1p1_to_p3}
use bitmonero.Group.Curve.{IsSum, IsP1P1, IsCached, IsPrecomp}
use bitmonero.Group.Convert.{ge_p1p1_to_p3-IsP3}
use bitmonero.Group.Add.{ge_add-IsP1P1}
use bitmonero.Group.Variants.{ge_sub-IsP1P1, ge_madd-IsP1P1, ge_msub-IsP1P1}
use bitmonero.Group.Multiples.{Multiples}
use bitmonero.Group.Tables.{AreEntries, AreMultiples}
use bitmonero.Group.Slid.{IsSlid}
use bitmonero.Group.DoubleScalarmult.{add_cached, add_precomp}

-- The entry for an odd digit.
odd_entry :
    {E : Type 0} (Is : E → ℤ → ℤ → Type 0) (x y : ℤ → ℤ) (start i : ℕ) (table : List E)
    → AreEntries Is x y 2 start table
    → i < length table
    → (c : E) × (get_elem? table i ≡ some c)
      × Is c (x (pos (2 * i + start))) (y (pos (2 * i + start)))
odd_entry Is x y start i [] h k = absurd (omega arith)
odd_entry Is x y start zero (c ∷ r) h k =
    let same : start ≡ 2 * 0 + start = omega arith in (c, refl, rw same at h.0)
odd_entry Is x y start (suc i) (c ∷ r) h k =
    let (e, g, j) = odd_entry Is x y (2 + start) i r h.1 (omega arith) in
    let same : 2 * i + (2 + start) ≡ 2 * suc i + start = omega arith in (e, g, rw same at j)

half_odd : (n : ℕ) → n % 2 ≡ 1 → 2 * (n / 2) + 1 ≡ n
half_odd n h = omega arith

odd_multiple :
    {E : Type 0} (Is : E → ℤ → ℤ → Type 0) (x y : ℤ → ℤ) (n : ℕ) (table : List E)
    → AreEntries Is x y 2 1 table
    → length table ≡ 8
    → n ≤ 15
    → n % 2 ≡ 1
    → (c : E) × (get_elem? table (n / 2) ≡ some c) × Is c (x (pos n)) (y (pos n))
odd_multiple Is x y n table m l h k =
    let (c, e, i) = odd_entry Is x y 1 (n / 2) table m (omega (arith, l)) in
    (c, e, rw (half_odd n k) at i)

opposite_digit : (n : ℕ) → pos 0 -ℤ pos (suc n) ≡ negsuc n
opposite_digit n = eq_of_parts _ _ (omega int_laws)

-- The digit added to a point: (hx k, hy k) is the sum of the point and the multiple k.
module _ {x y hx hy : ℤ → ℤ} (law : Multiples x y)
    (sum : (k : ℤ) → IsSum (hx (pos 0)) (hy (pos 0)) (x k) (y k) (hx k) (hy k)) where
  minus-IsSum :
      (n : ℕ)
      → IsSum
          (hx (pos 0))
          (hy (pos 0))
          (pos 0 -ℤ x (pos (suc n)))
          (y (pos (suc n)))
          (hx (negsuc n))
          (hy (negsuc n))
  minus-IsSum n =
      let e = opposite_digit n in
      rw (sym (ap x e) ∙ law.x_opposite (pos (suc n)), sym (ap y e) ∙ law.y_opposite (pos (suc n)))
        at (sum (negsuc n))

  pub add_cached-IsP1P1 :
      (table : List GeCached) (d : ℤ) (t : GeP1P1)
      → AreMultiples x y 2 1 table
      → length table ≡ 8
      → IsSlid d
      → IsP1P1 t (hx (pos 0)) (hy (pos 0))
      → (t' : GeP1P1) × (add_cached table d t ≡ some t') × IsP1P1 t' (hx d) (hy d)
  unfolding add_cached
  add_cached-IsP1P1 table (pos zero) t m l h i = (t, refl, i)
  add_cached-IsP1P1 table (pos (suc n)) t m l (inl e) i = absurd (omega (arith, ap pos_part e))
  add_cached-IsP1P1 table (pos (suc n)) t m l (inr h) i =
      let (c, e, j) =
        odd_multiple IsCached x y (suc n) table m l (omega (arith, h.0)) (omega (arith, h.1)) in
      (
        ge_add (ge_p1p1_to_p3 t) c,
        rw e refl,
        ge_add-IsP1P1 _ c _ _ _ _ _ _ (ge_p1p1_to_p3-IsP3 t _ _ i) j (sum (pos (suc n))),
      )
  add_cached-IsP1P1 table (negsuc n) t m l (inl e) i = absurd (omega (arith, ap neg_part e))
  add_cached-IsP1P1 table (negsuc n) t m l (inr h) i =
      let (c, e, j) =
        odd_multiple IsCached x y (suc n) table m l (omega (arith, h.0)) (omega (arith, h.1)) in
      (
        ge_sub (ge_p1p1_to_p3 t) c,
        rw e refl,
        ge_sub-IsP1P1 _ c _ _ _ _ _ _ (ge_p1p1_to_p3-IsP3 t _ _ i) j (minus-IsSum n),
      )

  pub add_precomp-IsP1P1 :
      (table : List GePrecomp) (d : ℤ) (t : GeP1P1)
      → AreEntries IsPrecomp x y 2 1 table
      → length table ≡ 8
      → IsSlid d
      → IsP1P1 t (hx (pos 0)) (hy (pos 0))
      → (t' : GeP1P1) × (add_precomp table d t ≡ some t') × IsP1P1 t' (hx d) (hy d)
  unfolding add_precomp
  add_precomp-IsP1P1 table (pos zero) t m l h i = (t, refl, i)
  add_precomp-IsP1P1 table (pos (suc n)) t m l (inl e) i = absurd (omega (arith, ap pos_part e))
  add_precomp-IsP1P1 table (pos (suc n)) t m l (inr h) i =
      let (c, e, j) =
        odd_multiple IsPrecomp x y (suc n) table m l (omega (arith, h.0)) (omega (arith, h.1)) in
      (
        ge_madd (ge_p1p1_to_p3 t) c,
        rw e refl,
        ge_madd-IsP1P1 _ c _ _ _ _ _ _ (ge_p1p1_to_p3-IsP3 t _ _ i) j (sum (pos (suc n))),
      )
  add_precomp-IsP1P1 table (negsuc n) t m l (inl e) i = absurd (omega (arith, ap neg_part e))
  add_precomp-IsP1P1 table (negsuc n) t m l (inr h) i =
      let (c, e, j) =
        odd_multiple IsPrecomp x y (suc n) table m l (omega (arith, h.0)) (omega (arith, h.1)) in
      (
        ge_msub (ge_p1p1_to_p3 t) c,
        rw e refl,
        ge_msub-IsP1P1 _ c _ _ _ _ _ _ (ge_p1p1_to_p3-IsP3 t _ _ i) j (minus-IsSum n),
      )
