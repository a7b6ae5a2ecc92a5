-- ===== src/Group/Sums.antt =====
-- The sums of multiples of two points, and results about `ge_double_scalarmult_precomp_vartime` and
-- `ge_double_scalarmult_base_vartime`.
use bitmonero.Base.{◌≡◌, refl, sym, Option, some, List, [], ◌∷◌, All, length}
use bitmonero.Base.Int.{ℤ, pos, ◌+ℤ◌, ◌-ℤ◌, ◌*ℤ◌, eq_of_parts, int_laws}
use bitmonero.Group.{GeP2, GeP1P1, GeCached, GePrecomp, ge_p2_0, ge_p2_dbl, ge_p1p1_to_p2}
use bitmonero.Group.Curve.{OnCurve, IsSum, IsP2, IsP1P1, IsPrecomp}
use bitmonero.Group.Convert.{ge_p1p1_to_p2-IsP2}
use bitmonero.Group.Double.{ge_p2_dbl-IsP1P1}
use bitmonero.Group.Multiples.{Multiples}
use bitmonero.Group.Tables.{AreEntries, AreMultiples}
use bitmonero.Group.ScalarTimes.{ge_p2_0-IsP2}
use bitmonero.Group.Slid.{slid_value, IsSlid}
use bitmonero.Group.DoubleScalarmult.{add_cached, add_precomp, double_turn, double_loop}
use bitmonero.Group.AddDigit.{add_cached-IsP1P1, add_precomp-IsP1P1}

-- The points m * P + n * Q, as the coordinates (x m n, y m n): the addition law holds between them.
pub record Combinations (x y : ℤ → ℤ → ℤ) : Type 0 where
  pub x_zero : x (pos 0) (pos 0) ≡ pos 0
  pub y_zero : y (pos 0) (pos 0) ≡ pos 1
  pub x_opposite : (m n : ℤ) → x (pos 0 -ℤ m) (pos 0 -ℤ n) ≡ pos 0 -ℤ x m n
  pub y_opposite : (m n : ℤ) → y (pos 0 -ℤ m) (pos 0 -ℤ n) ≡ y m n
  pub on_curve : (m n : ℤ) → OnCurve (x m n) (y m n)
  pub adds :
      (m n k l : ℤ)
      → IsSum (x m n) (y m n) (x k l) (y k l) (x (m +ℤ k) (n +ℤ l)) (y (m +ℤ k) (n +ℤ l))

plus_zero : (m : ℤ) → m +ℤ pos 0 ≡ m
plus_zero m = eq_of_parts _ _ (omega int_laws)

times_two : (m d : ℤ) → (m +ℤ m) +ℤ d ≡ d +ℤ m *ℤ pos 2
times_two m d = eq_of_parts _ _ (omega int_laws)

abbrev pub firsts : List (ℤ × ℤ) → List ℤ
firsts [] = []
firsts ((d, e) ∷ l) = d ∷ firsts l

abbrev pub seconds : List (ℤ × ℤ) → List ℤ
seconds [] = []
seconds ((d, e) ∷ l) = e ∷ seconds l

-- How `add_b` adds the digits of b: to m * P + n * Q, the multiple k of Q.
unfoldable pub AddsDigits : (ℤ → ℤ → ℤ) → (ℤ → ℤ → ℤ) → (ℤ → GeP1P1 → Option GeP1P1) → Type 0
AddsDigits x y add_b =
    (e m n : ℤ) (t : GeP1P1)
    → IsSlid e
    → IsP1P1 t (x m n) (y m n)
    → (t' : GeP1P1) × (add_b e t ≡ some t') × IsP1P1 t' (x m (n +ℤ e)) (y m (n +ℤ e))

module _ {x y : ℤ → ℤ → ℤ} (law : Combinations x y) where
  double_zero : pos 0 +ℤ pos 0 ≡ pos 0
  double_zero = plus_zero (pos 0)

  minus_zero : pos 0 -ℤ pos 0 ≡ pos 0
  minus_zero = eq_of_parts _ _ (omega int_laws)

  pub first-Multiples : Multiples (λ m. x m (pos 0)) (λ m. y m (pos 0))
  first-Multiples = record {
    x_zero = law.x_zero;
    y_zero = law.y_zero;
    x_opposite = λ n. rw minus_zero at (law.x_opposite n (pos 0));
    y_opposite = λ n. rw minus_zero at (law.y_opposite n (pos 0));
    on_curve = λ n. law.on_curve n (pos 0);
    adds = λ m n. rw double_zero at (law.adds m (pos 0) n (pos 0));
  }

  pub second-Multiples : Multiples (x (pos 0)) (y (pos 0))
  second-Multiples = record {
    x_zero = law.x_zero;
    y_zero = law.y_zero;
    x_opposite = λ n. rw minus_zero at (law.x_opposite (pos 0) n);
    y_opposite = λ n. rw minus_zero at (law.y_opposite (pos 0) n);
    on_curve = law.on_curve (pos 0);
    adds = λ m n. rw double_zero at (law.adds (pos 0) m (pos 0) n);
  }

  dbl_combination :
      (r : GeP2) (m n : ℤ)
      → IsP2 r (x m n) (y m n)
      → IsP1P1 (ge_p2_dbl r) (x (m +ℤ m) (n +ℤ n)) (y (m +ℤ m) (n +ℤ n))
  dbl_combination r m n h =
      ge_p2_dbl-IsP1P1 r (x m n) (y m n) _ _ h (law.on_curve m n) (law.adds m n m n)

  first-IsSum :
      (m n k : ℤ)
      → IsSum
          (x (m +ℤ pos 0) n)
          (y (m +ℤ pos 0) n)
          (x k (pos 0))
          (y k (pos 0))
          (x (m +ℤ k) n)
          (y (m +ℤ k) n)
  first-IsSum m n k = rw (plus_zero m) (rw (plus_zero n) at (law.adds m n k (pos 0)))

  second-IsSum :
      (m n k : ℤ)
      → IsSum
          (x m (n +ℤ pos 0))
          (y m (n +ℤ pos 0))
          (x (pos 0) k)
          (y (pos 0) k)
          (x m (n +ℤ k))
          (y m (n +ℤ k))
  second-IsSum m n k = rw (plus_zero n) (rw (plus_zero m) at (law.adds m n (pos 0) k))

  -- A table of odd multiples of Q.
  pub cached-AddsDigits :
      (bi : List GeCached)
      → AreMultiples (x (pos 0)) (y (pos 0)) 2 1 bi
      → length bi ≡ 8
      → AddsDigits x y (add_cached bi)
  unfolding AddsDigits
  cached-AddsDigits bi h l e m n t s i =
      add_cached-IsP1P1 {hx = λ k. x m (n +ℤ k)} {hy = λ k. y m (n +ℤ k)} second-Multiples
        (second-IsSum m n) bi e t h l s (rw (plus_zero n) i)

  -- A table of odd multiples of Q, as points over 1.
  pub precomp-AddsDigits :
      (bi : List GePrecomp)
      → AreEntries IsPrecomp (x (pos 0)) (y (pos 0)) 2 1 bi
      → length bi ≡ 8
      → AddsDigits x y (add_precomp bi)
  unfolding AddsDigits
  precomp-AddsDigits bi h l e m n t s i =
      add_precomp-IsP1P1 {hx = λ k. x m (n +ℤ k)} {hy = λ k. y m (n +ℤ k)} second-Multiples
        (second-IsSum m n) bi e t h l s (rw (plus_zero n) i)

  module _ (ai : List GeCached) (h : AreMultiples (λ m. x m (pos 0)) (λ m. y m (pos 0)) 2 1 ai)
      (l : length ai ≡ 8) (add_b : ℤ → GeP1P1 → Option GeP1P1) (adds_b : AddsDigits x y add_b) where
    double_turn-IsP2 :
        (d e m n : ℤ) (r : GeP2)
        → IsSlid d
        → IsSlid e
        → IsP2 r (x m n) (y m n)
        → (q : GeP2) × (double_turn ai add_b d e r ≡ some q)
          × IsP2 q (x (d +ℤ m *ℤ pos 2) (e +ℤ n *ℤ pos 2)) (y (d +ℤ m *ℤ pos 2) (e +ℤ n *ℤ pos 2))
    unfolding double_turn AddsDigits
    double_turn-IsP2 d e m n r s s' i =
        let m2 = m +ℤ m in
        let n2 = n +ℤ n in
        let t0 : IsP1P1 (ge_p2_dbl r) (x (m2 +ℤ pos 0) n2) (y (m2 +ℤ pos 0) n2) =
          rw (plus_zero m2) (dbl_combination r m n i) in
        let (t1, e1, i1) =
          add_cached-IsP1P1 {hx = λ k. x (m2 +ℤ k) n2} {hy = λ k. y (m2 +ℤ k) n2} first-Multiples
            (first-IsSum m2 n2) ai d (ge_p2_dbl r) h l s t0 in
        let (t2, e2, i2) = adds_b e (m2 +ℤ d) n2 t1 s' i1 in
        (
          ge_p1p1_to_p2 t2,
          rw (e1, e2) refl,
          rw (sym (times_two m d), sym (times_two n e)) (ge_p1p1_to_p2-IsP2 t2 _ _ i2),
        )

    pub double_loop-IsP2 :
        (k : List (ℤ × ℤ))
        → All IsSlid (firsts k)
        → All IsSlid (seconds k)
        → (q : GeP2) × (double_loop ai add_b k ≡ some q)
          × IsP2 q
              (x (slid_value (firsts k)) (slid_value (seconds k)))
              (y (slid_value (firsts k)) (slid_value (seconds k)))
    unfolding double_loop slid_value
    double_loop-IsP2 [] s s' = (ge_p2_0, refl, rw (law.x_zero, law.y_zero) ge_p2_0-IsP2)
    double_loop-IsP2 ((d, e) ∷ k) s s' =
        let (r, g, i) = double_loop-IsP2 k s.1 s'.1 in
        let (q, c, j) =
          double_turn-IsP2 d e (slid_value (firsts k)) (slid_value (seconds k)) r s.0 s'.0 i in
        (q, rw g c, j)
