-- ===== src/Group/Choice.antt =====
-- Results about the choice of a table's entry by a digit.
use bitmonero.Base.{
  ℕ, zero, suc, ◌+◌, ◌-◌, ◌^◌, ◌≤◌, ◌<◌, ◌≡◌, refl, sym, ap, ◌∙◌, subst, arith, Option, some, List,
  [], ◌∷◌, length, All, Bool, true, false, ◌&&◌, ◌==◌, if◌then◌else◌, Bool-cases, ==_iff, inl, inr,
}
use bitmonero.Base.Int.{ℤ, pos, negsuc, -ℤ_parts, ◌+ℤ◌, ◌-ℤ◌, ◌*ℤ◌, ◌<<ℤ◌, eq_of_parts, int_laws}
use bitmonero.Base.Ring.{size}
use bitmonero.Base.Range.{Within, int32}
use bitmonero.Base.Polynomial.{var, num, plus, minus, times, value, solve, vanishes, expand}
use bitmonero.Field.{fe_cmov, fe_neg}
use bitmonero.Field.Cmov.{fe_cmov_chooses}
use bitmonero.Field.Sizes.{AtMost}
use bitmonero.Field.CarrySizes.{AtMost-length}
use bitmonero.Field.Operands.{wide}
use bitmonero.Field.Congruence.{Cong-of_eq, Cong-trans, Cong--ℤ, Cong-refl}
use bitmonero.Field.Linear.{limbs_value, limbs_value-fe_neg, one_sided}
use bitmonero.Field.Sums.{size-int32}
use bitmonero.Base.{and_cases}
use bitmonero.Field.Element.{Stands, Stands-Cong, copy-Stands}
use bitmonero.Group.{GeCached}
use bitmonero.Group.Curve.{IsCached, curve_d, one-IsUnit}
use bitmonero.Group.Convert.{loosen}
use bitmonero.Group.Multiples.{Multiples}
use bitmonero.Group.Tables.{AreEntries, AreMultiples}
use bitmonero.Group.Select.{
  equal, negative, absolute, ge_cached_0, ge_cached_cmov, pick, minus_cached, choose,
}

unfoldable for_below : ℕ → (ℕ → Bool) → Bool
for_below zero p = true
for_below (suc n) p = p n && for_below n p

other_one : (k n : ℕ) → (k == n) ≡ false → k < suc n → k < n
other_one k n q h = ground arith

for_below_lem : (n : ℕ) (p : ℕ → Bool) (k : ℕ) → for_below n p ≡ true → k < n → p k ≡ true
unfolding for_below
for_below_lem zero p k e h = absurd (omega arith)
for_below_lem (suc n) p k e h = elim (Bool-cases (k == n)) [
  | inl q ↦ rw ((==_iff k n).0 q) (and_cases (p n) (for_below n p) e).0
  | inr q ↦ for_below_lem n p k (and_cases (p n) (for_below n p) e).1 (other_one k n q h)
]

equal_checked : for_below 9 (λ n. for_below 10 (λ j. equal n j == (if n == j then 1 else 0))) ≡ true
unfolding for_below equal
equal_checked = refl

pos_checked : for_below 9 (λ n. (negative (pos n) == 0) && (absolute (pos n) 0 == n)) ≡ true
unfolding for_below negative absolute ◌-ℤ◌ ◌<<ℤ◌
pos_checked = refl

negsuc_checked :
    for_below 8 (λ n. (negative (negsuc n) == 1) && (absolute (negsuc n) 1 == suc n)) ≡ true
unfolding for_below negative absolute ◌-ℤ◌ ◌<<ℤ◌
negsuc_checked = refl

fe_neg-AtMost : (f : List ℤ) (bs : List ℕ) → AtMost f bs → AtMost (fe_neg f) bs
unfolding fe_neg
fe_neg-AtMost [] [] h = tt
fe_neg-AtMost [] (b ∷ bs) h = absurd h
fe_neg-AtMost (x ∷ f) [] h = absurd h
fe_neg-AtMost (x ∷ f) (b ∷ bs) h =
    (omega (arith, -ℤ_parts (pos 0) x, one_sided (pos 0 -ℤ x)), fe_neg-AtMost f bs h.1)

pub neg-Stands :
    {f : List ℤ} {bs : List ℕ} {v : ℤ} → Stands f bs v → Stands (fe_neg f) bs (pos 0 -ℤ v)
neg-Stands {f} {bs} {v} s = record {
  bounded = fe_neg-AtMost f bs s.bounded;
  stands =
      Cong-trans (Cong-of_eq (limbs_value-fe_neg true f)) (Cong--ℤ (Cong-refl (pos 0)) s.stands);
}

pub swap_minus : (x y s : ℤ) → (y -ℤ x) *ℤ s ≡ (y +ℤ (pos 0 -ℤ x)) *ℤ s
unfolding value vanishes expand
swap_minus x y s =
    solve (x ∷ y ∷ s ∷ []) (times (minus (var 1) (var 0)) (var 2))
      (times (plus (var 1) (minus (num 0) (var 0))) (var 2)) refl

pub swap_plus : (x y s : ℤ) → (y +ℤ x) *ℤ s ≡ (y -ℤ (pos 0 -ℤ x)) *ℤ s
unfolding value vanishes expand
swap_plus x y s =
    solve (x ∷ y ∷ s ∷ []) (times (plus (var 1) (var 0)) (var 2))
      (times (minus (var 1) (minus (num 0) (var 0))) (var 2)) refl

swap_product : (x y s d : ℤ) → pos 0 -ℤ (((x *ℤ y) *ℤ s) *ℤ d) ≡ (((pos 0 -ℤ x) *ℤ y) *ℤ s) *ℤ d
unfolding value vanishes expand
swap_product x y s d =
    solve (x ∷ y ∷ s ∷ d ∷ [])
      (minus (num 0) (times (times (times (var 0) (var 1)) (var 2)) (var 3)))
      (times (times (times (minus (num 0) (var 0)) (var 1)) (var 2)) (var 3)) refl

-- The opposite of a cached point.
minus_cached-IsCached :
    (c : GeCached) (x y : ℤ) → IsCached c x y → IsCached (minus_cached c) (pos 0 -ℤ x) y
unfolding minus_cached
minus_cached-IsCached c x y h = record {
  s = h.s;
  s_unit = h.s_unit;
  plus_stands = Stands-Cong (Cong-of_eq (swap_minus x y h.s)) (copy-Stands h.minus_stands);
  minus_stands = Stands-Cong (Cong-of_eq (swap_plus x y h.s)) (copy-Stands h.plus_stands);
  z_stands = copy-Stands h.z_stands;
  t_stands =
      Stands-Cong (Cong-of_eq (swap_product x y h.s (curve_d *ℤ pos 2))) (neg-Stands h.t_stands);
}

-- The entry for the digit 0.
ge_cached_0-IsCached : IsCached ge_cached_0 (pos 0) (pos 1)
unfolding limbs_value ◌+ℤ◌ ◌-ℤ◌ ◌*ℤ◌
ge_cached_0-IsCached = record {
  s = pos 1;
  s_unit = one-IsUnit;
  plus_stands = record { bounded = omega arith; stands = Cong-refl (pos 1) };
  minus_stands = record { bounded = omega arith; stands = Cong-refl (pos 1) };
  z_stands = record { bounded = omega arith; stands = Cong-refl (pos 1) };
  t_stands = record { bounded = omega arith; stands = Cong-refl (pos 0) };
}

record FitsCached (c : GeCached) : Type 0 where
  plus_fits : AtMost c.yplusx wide
  minus_fits : AtMost c.yminusx wide
  z_fits : AtMost c.z wide
  t_fits : AtMost c.t2d wide

IsCached-FitsCached : {c : GeCached} {x y : ℤ} → IsCached c x y → FitsCached c
IsCached-FitsCached h = record {
  plus_fits = h.plus_stands.bounded;
  minus_fits = h.minus_stands.bounded;
  z_fits = (loosen h.z_stands).bounded;
  t_fits = (loosen h.t_stands).bounded;
}

wide-Within :
    (f : List ℤ) (bs : List ℕ)
    → AtMost f bs
    → All (λ b. b ≤ 2 ^ 31 - 1) bs
    → All (λ x. Within x int32) f
wide-Within [] bs h k = tt
wide-Within (x ∷ f) [] h k = absurd h
wide-Within (x ∷ f) (b ∷ bs) h k = (size-int32 x b h.0 k.0, wide-Within f bs h.1 k.1)

pub wide_cmov :
    (f g : List ℤ)
    → AtMost f wide
    → AtMost g wide
    → (fe_cmov f g 0 ≡ some f) × (fe_cmov f g 1 ≡ some g)
wide_cmov f g h k =
    let small : All (λ b. b ≤ 2 ^ 31 - 1) wide = omega arith in
    fe_cmov_chooses f g (wide-Within f wide h small) (wide-Within g wide k small)
      (sym (AtMost-length f wide h) ∙ AtMost-length g wide k)

ge_cached_cmov_chooses :
    (t u : GeCached)
    → FitsCached t
    → FitsCached u
    → (ge_cached_cmov t u 0 ≡ some t) × (ge_cached_cmov t u 1 ≡ some u)
unfolding ge_cached_cmov
ge_cached_cmov_chooses t u h k =
    let a = wide_cmov t.yplusx u.yplusx h.plus_fits k.plus_fits in
    let b = wide_cmov t.yminusx u.yminusx h.minus_fits k.minus_fits in
    let c = wide_cmov t.z u.z h.z_fits k.z_fits in
    let d = wide_cmov t.t2d u.t2d h.t_fits k.t_fits in
    (rw (a.0, b.0, c.0, d.0) refl, rw (a.1, b.1, c.1, d.1) refl)

equal_lem : (n j : ℕ) → n ≤ 8 → j ≤ 9 → equal n j ≡ (if n == j then 1 else 0)
equal_lem n j h k = (==_iff (equal n j) (if n == j then 1 else 0)).0 (
    for_below_lem 10 (λ j. equal n j == (if n == j then 1 else 0)) j
      (for_below_lem 9 (λ n. for_below 10 (λ j. equal n j == (if n == j then 1 else 0))) n
        equal_checked (omega arith))
      (omega arith))

pub digit_zero_up : (n : ℕ) → n ≤ 8 → (negative (pos n) ≡ 0) × (absolute (pos n) 0 ≡ n)
digit_zero_up n h =
    let (a, b) = and_cases _ _ (
      for_below_lem 9 (λ n. (negative (pos n) == 0) && (absolute (pos n) 0 == n)) n pos_checked
        (omega arith)) in
    ((==_iff _ _).0 a, (==_iff _ _).0 b)

pub digit_negative : (n : ℕ) → n < 8 → (negative (negsuc n) ≡ 1) × (absolute (negsuc n) 1 ≡ suc n)
digit_negative n h =
    let (a, b) = and_cases _ _ (
      for_below_lem 8 (λ n. (negative (negsuc n) == 1) && (absolute (negsuc n) 1 == suc n)) n
        negsuc_checked h) in
    ((==_iff _ _).0 a, (==_iff _ _).0 b)

choose_eq :
    (table : List GeCached) (b : ℤ) {k n : ℕ} {c c' : GeCached}
    → negative b ≡ k
    → absolute b k ≡ n
    → pick ge_cached_cmov 1 n ge_cached_0 table ≡ some c
    → ge_cached_cmov c (minus_cached c) k ≡ some c'
    → choose table b ≡ some c'
unfolding choose
choose_eq table b d e r f = rw (d, e, r, f) refl

pub opposite : (n : ℕ) → pos 0 -ℤ pos (suc n) ≡ negsuc n
opposite n = eq_of_parts _ _ (omega int_laws)

one_more : (j : ℕ) → 1 + j ≡ suc j
one_more j = omega arith

-- The multiple n of the point, or an entry that a later turn replaces: for the entries `Is` speaks
-- of, between which `cmov` chooses.
module _ {E : Type 0} (cmov : E → E → ℕ → Option E) (Fits : E → Type 0) (Is : E → ℤ → ℤ → Type 0)
    (chooses : (t u : E) → Fits t → Fits u → (cmov t u 0 ≡ some t) × (cmov t u 1 ≡ some u))
    (fits : (c : E) (a b : ℤ) → Is c a b → Fits c) (x y : ℤ → ℤ) where
  pub pick_lem :
      (j n : ℕ) (cur : E) (us : List E)
      → n ≤ 8
      → j + length us ≤ 9
      → AreEntries Is x y 1 j us
      → Fits cur
      → (n < j → Is cur (x (pos n)) (y (pos n)))
      → n < j + length us
      → (c : E) × (pick cmov j n cur us ≡ some c) × Is c (x (pos n)) (y (pos n))
  unfolding pick
  pick_lem j n cur [] h k m f before l = (cur, refl, before (omega arith))
  pick_lem j n cur (u ∷ us) h k m f before l =
      let fu = fits u _ _ m.0 in
      let both = chooses cur u f fu in
      let rest = subst (λ i. AreEntries Is x y 1 i us) (one_more j) m.1 in
      elim (Bool-cases (n == j)) [
        | inl q ↦
            let e : equal n j ≡ 1 =
              equal_lem n j h (omega arith) ∙ ap (λ b. if b then 1 else 0) q in
            let (c, r, i) =
              pick_lem (suc j) n u us h (omega arith) rest fu
                (λ p. subst (λ i. Is u (x (pos i)) (y (pos i))) (sym ((==_iff n j).0 q)) m.0)
                (omega arith) in
            (c, rw (e, both.1) r, i)
        | inr q ↦
            let e : equal n j ≡ 0 =
              equal_lem n j h (omega arith) ∙ ap (λ b. if b then 1 else 0) q in
            let (c, r, i) =
              pick_lem (suc j) n cur us h (omega arith) rest f (λ p. before (other_one n j q p))
                (omega arith) in
            (c, rw (e, both.0) r, i)
      ]

module _ {x y : ℤ → ℤ} (law : Multiples x y) where
  ge_cached_0_lem : IsCached ge_cached_0 (x (pos 0)) (y (pos 0))
  ge_cached_0_lem = rw (law.x_zero, law.y_zero) ge_cached_0-IsCached

  module _ (table : List GeCached) (m : AreMultiples x y 1 1 table) (l : length table ≡ 8) where
    picked :
        (n : ℕ)
        → n ≤ 8
        → (c : GeCached) × (pick ge_cached_cmov 1 n ge_cached_0 table ≡ some c)
          × IsCached c (x (pos n)) (y (pos n))
    picked n h =
        pick_lem ge_cached_cmov FitsCached IsCached ge_cached_cmov_chooses
          (λ c a b h. IsCached-FitsCached h) x y 1 n ge_cached_0 table h (omega arith) m
          (IsCached-FitsCached ge_cached_0_lem)
          (λ p.
            subst (λ i. IsCached ge_cached_0 (x (pos i)) (y (pos i))) (omega arith) ge_cached_0_lem)
          (omega arith)

    -- For a table of the multiples from 1 to 8, the choice gives the multiple of the digit.
    pub choose_lem :
        (b : ℤ) → size b ≤ 8 → (c : GeCached) × (choose table b ≡ some c) × IsCached c (x b) (y b)
    unfolding choose
    choose_lem (pos n) h =
        let (d, e) = digit_zero_up n (omega arith) in
        let (c, r, i) = picked n (omega arith) in
        let o = minus_cached-IsCached c (x (pos n)) (y (pos n)) i in
        let both =
          ge_cached_cmov_chooses c (minus_cached c) (IsCached-FitsCached i)
            (IsCached-FitsCached o) in
        (c, choose_eq table (pos n) d e r both.0, i)
    choose_lem (negsuc n) h =
        let (d, e) = digit_negative n (omega arith) in
        let (c, r, i) = picked (suc n) (omega arith) in
        let o = minus_cached-IsCached c (x (pos (suc n))) (y (pos (suc n))) i in
        let both =
          ge_cached_cmov_chooses c (minus_cached c) (IsCached-FitsCached i)
            (IsCached-FitsCached o) in
        (
          minus_cached c,
          choose_eq table (negsuc n) d e r both.1,
          rw
              (
                ap x (sym (opposite n)) ∙ law.x_opposite (pos (suc n)),
                ap y (sym (opposite n)) ∙ law.y_opposite (pos (suc n)),
              )
              o,
        )
