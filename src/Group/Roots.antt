-- ===== src/Group/Roots.antt =====
-- Results about the parts of `ge_frombytes_vartime`: the root, and its sign.
use mathlib.Core.Option.{some-injective}
use bitmonero.Base.{
  ℕ, ◌-◌, ◌%◌, ◌≤◌, ◌<◌, ◌≡◌, ◌≢◌, ◌⊎◌, inl, inr, refl, sym, ap, ◌∙◌, subst, arith, Bool, true,
  false, none, some, List, [], ◌∷◌, ◌==◌, ==_iff, if◌then◌else◌,
}
use bitmonero.Base.Int.{holds, ℤ, pos, negsuc, ◌+ℤ◌, ◌-ℤ◌, ◌*ℤ◌, int_laws, eq_of_parts}
use bitmonero.Base.Ring.{product_parts}
use bitmonero.Base.Polynomial.{var, num, minus, times, value, solve, vanishes, expand}
use bitmonero.Base.Bytes.{le_value}
use bitmonero.Field.{fe_neg}
use bitmonero.Field.Linear.{fe_value, limbs_value, limbs_value-fe_neg, one_sided}
use bitmonero.Field.Operands.{tight, wide}
use bitmonero.Field.Sizes.{AtMost}
use bitmonero.Field.Fits.{no_larger}
use bitmonero.Field.Congruence.{
  prime, Cong, Cong-trans, Cong-sym, Cong-of_eq, Cong-refl, Cong-+ℤ, Cong--ℤ, Cong-*ℤ,
}
use bitmonero.Field.Element.{
  Stands, sums, Stands-weaken, Stands-Cong, add-Stands, sub-Stands, mul-Stands, sq-Stands,
}
use bitmonero.Field.Exponents.{accepted}
use bitmonero.Field.Tobytes.{fe_tobytes, fe_isnegative, fe_isnonzero}
use bitmonero.Field.Canonical.{fe_tobytes_lem, fe_isnonzero_decides, fe_isnegative_lem}
use bitmonero.Group.{Fe}
use bitmonero.Group.Codec.{fe_sqrtm1, root_of, with_sign}

-- The bounds of a sum or a difference of products.
abbrev pub loose : List ℕ
loose = sums tight tight

-- `r` is a root of u / v.
pub record IsRoot (u v : ℤ) (r : Fe) : Type 0 where
  pub root : ℤ
  pub root_stands : Stands r tight root
  pub root_law : Cong ((root *ℤ root) *ℤ v) u

pub holds-zero :
    (f : Fe) → AtMost f wide → holds (fe_isnonzero f) ≡ false → Cong (fe_value f) (pos 0)
holds-zero f k e = elim (fe_isnonzero_decides f k) [
  | inl (c, d) ↦ c
  | inr (c, d) ↦ let x : true ≡ false = sym (ap holds d) ∙ e in absurd cc
]

holds-nonzero :
    (f : Fe) → AtMost f wide → holds (fe_isnonzero f) ≡ true → ¬ Cong (fe_value f) (pos 0)
holds-nonzero f k e = elim (fe_isnonzero_decides f k) [
  | inl (c, d) ↦ let x : false ≡ true = sym (ap holds d) ∙ e in absurd cc
  | inr (c, d) ↦ c
]

pub root_cases :
    (c d : Bool) (a b r : Fe)
    → (if c then if d then none else some a else some b) ≡ some r
    → ((c ≡ false) × (b ≡ r)) ⊎ ((d ≡ false) × (a ≡ r))
root_cases false d a b r e = inl (refl, some-injective b r e)
root_cases true false a b r e = inr (refl, some-injective a r e)
root_cases true true a b r e = absurd cc

pub sign_cases :
    (c d : Bool) (a b r : Fe)
    → (if c then some a else if d then some b else none) ≡ some r
    → ((c ≡ true) × (a ≡ r)) ⊎ ((c ≡ false) × (d ≡ true) × (b ≡ r))
sign_cases true d a b r e = inl (refl, some-injective a r e)
sign_cases false true a b r e = inr (refl, refl, some-injective b r e)
sign_cases false false a b r e = absurd cc

-- sqrt(-1) ^ 2 = -1.
unfoldable pub sqrtm1 : ℤ
sqrtm1 = fe_value fe_sqrtm1

sqrtm1_law : Cong (sqrtm1 *ℤ sqrtm1) (negsuc 0)
unfolding sqrtm1 limbs_value ◌+ℤ◌ ◌*ℤ◌
sqrtm1_law = record {
  quotient = pos 6690407189080634018507799843845558368979872843924222843531373839242004886245;
  split = refl;
}

pub sqrtm1-Stands : Stands fe_sqrtm1 wide sqrtm1
unfolding sqrtm1
sqrtm1-Stands = record { bounded = omega arith; stands = Cong-refl _ }

move_left : (a b : ℤ) → a ≡ (a -ℤ b) +ℤ b
move_left a b = eq_of_parts _ _ (omega int_laws)

zero_plus : (a : ℤ) → pos 0 +ℤ a ≡ a
zero_plus a = eq_of_parts _ _ (omega int_laws)

move_right : (a b : ℤ) → a ≡ (a +ℤ b) -ℤ b
move_right a b = eq_of_parts _ _ (omega int_laws)

pub Cong-difference : (a b : ℤ) → Cong (a -ℤ b) (pos 0) → Cong a b
Cong-difference a b c =
    Cong-trans (Cong-of_eq (move_left a b))
      (Cong-trans (Cong-+ℤ c (Cong-refl b)) (Cong-of_eq (zero_plus b)))

Cong-sum : (a b : ℤ) → Cong (a +ℤ b) (pos 0) → Cong a (pos 0 -ℤ b)
Cong-sum a b c = Cong-trans (Cong-of_eq (move_right a b)) (Cong--ℤ c (Cong-refl b))

regroup : (x i v : ℤ) → ((x *ℤ i) *ℤ (x *ℤ i)) *ℤ v ≡ ((x *ℤ x) *ℤ v) *ℤ (i *ℤ i)
unfolding value vanishes expand
regroup x i v =
    solve (x ∷ i ∷ v ∷ []) (times (times (times (var 0) (var 1)) (times (var 0) (var 1))) (var 2))
      (times (times (times (var 0) (var 0)) (var 2)) (times (var 1) (var 1))) refl

minus_minus : (u : ℤ) → (pos 0 -ℤ u) *ℤ negsuc 0 ≡ u
minus_minus u = eq_of_parts _ _ (omega (int_laws, product_parts (pos 0 -ℤ u) (negsuc 0)))

pub fits :
    {f : Fe} {bs : List ℕ} {v : ℤ} → no_larger bs wide ≡ true → Stands f bs v → Stands f wide v
fits e s = Stands-weaken e s

-- The answer of the search is a root.
pub root_of-IsRoot :
    (fu fv x r : Fe) (u v w : ℤ)
    → Stands fu loose u
    → Stands fv wide v
    → Stands x tight w
    → root_of fu fv x ≡ some r
    → IsRoot u v r
unfolding root_of no_larger
root_of-IsRoot fu fv x r u v w a b c e =
    let vxx = mul-Stands (accepted (sq-Stands (accepted c))) b in
    let difference = fits refl (sub-Stands refl vxx a) in
    let sum = fits refl (add-Stands refl vxx a) in
    elim (root_cases _ _ _ _ _ e) [
      | inl (h, g) ↦
          let law =
            Cong-difference _ _
              (Cong-trans (Cong-sym difference.stands) (holds-zero _ difference.bounded h)) in
          record { root = w; root_stands = subst (λ f. Stands f tight w) g c; root_law = law }
      | inr (h, g) ↦
          let law = Cong-sum _ _ (Cong-trans (Cong-sym sum.stands) (holds-zero _ sum.bounded h)) in
          record {
            root = w *ℤ sqrtm1;
            root_stands =
                subst (λ f. Stands f tight (w *ℤ sqrtm1)) g (mul-Stands (accepted c) sqrtm1-Stands);
            root_law =
                Cong-trans (Cong-of_eq (regroup w sqrtm1 v))
                  (Cong-trans (Cong-*ℤ law sqrtm1_law) (Cong-of_eq (minus_minus u)));
          }
    ]

-- `r` is a root of u / v with the remainder `x`, whose lowest bit is the sign.
pub record IsSigned (sign : ℕ) (u v : ℤ) (r : Fe) : Type 0 where
  pub x : ℕ
  pub x_lt : x < prime
  pub x_stands : Stands r tight (pos x)
  pub x_sign : x % 2 ≡ sign
  pub x_law : Cong ((pos x *ℤ pos x) *ℤ v) u

neg_AtMost : (f : Fe) (bs : List ℕ) → AtMost f bs → AtMost (fe_neg f) bs
unfolding fe_neg
neg_AtMost [] [] h = tt
neg_AtMost [] (b ∷ bs) h = absurd h
neg_AtMost (x ∷ f) [] h = absurd h
neg_AtMost (x ∷ f) (b ∷ bs) h =
    (omega (int_laws, h.0, one_sided x, one_sided (pos 0 -ℤ x)), neg_AtMost f bs h.1)

pub neg-Stands : {f : Fe} {bs : List ℕ} {v : ℤ} → Stands f bs v → Stands (fe_neg f) bs (pos 0 -ℤ v)
neg-Stands {f} {bs} {v} s = record {
  bounded = neg_AtMost f bs s.bounded;
  stands =
      Cong-trans (Cong-of_eq (limbs_value-fe_neg true f)) (Cong--ℤ (Cong-refl (pos 0)) s.stands);
}

negative_eq : (n : ℕ) → n ≤ prime → Cong (pos 0 -ℤ pos n) (pos (prime - n))
negative_eq n h = record { quotient = negsuc 0; split = eq_of_parts _ _ (omega int_laws) }

squares_opposite : (w v : ℤ) → ((pos 0 -ℤ w) *ℤ (pos 0 -ℤ w)) *ℤ v ≡ (w *ℤ w) *ℤ v
unfolding value vanishes expand
squares_opposite w v =
    solve (w ∷ v ∷ []) (times (times (minus (num 0) (var 0)) (minus (num 0) (var 0))) (var 1))
      (times (times (var 0) (var 0)) (var 1)) refl

squared : {a b : ℤ} (v u : ℤ) → Cong a b → Cong ((a *ℤ a) *ℤ v) u → Cong ((b *ℤ b) *ℤ v) u
squared v u c d = Cong-trans (Cong-*ℤ (Cong-sym (Cong-*ℤ c c)) (Cong-refl v)) d

odd_prime : (n sign : ℕ) → n < prime → sign ≤ 1 → n % 2 ≢ sign → (prime - n) % 2 ≡ sign
odd_prime n sign h k e = omega arith

different : (a b : ℕ) → (a == b) ≡ false → a ≢ b
different a b h = ground arith

nonzero_lt : (n : ℕ) → n ≢ 0 → prime - n < prime
nonzero_lt n h = omega arith

-- The answer has the sign that is asked for.
pub with_sign-IsSigned :
    (sign : ℕ) (f r : Fe) (u v : ℤ)
    → sign ≤ 1
    → IsRoot u v f
    → with_sign sign f ≡ some r
    → IsSigned sign u v r
unfolding with_sign
with_sign-IsSigned sign f r u v k w e =
    let s = accepted w.root_stands in
    let n = le_value (fe_tobytes f) in
    let (b, l, p, c) = fe_tobytes_lem f s.bounded in
    let d : Cong w.root (pos n) = Cong-trans (Cong-sym s.stands) c in
    let bit = fe_isnegative_lem f n s.bounded p c in
    let law = squared v u d w.root_law in
    elim (sign_cases (fe_isnegative f == sign) (holds (fe_isnonzero f)) f (fe_neg f) r e) [
      | inl (h, g) ↦ record {
        x = n;
        x_lt = p;
        x_stands = subst (λ f. Stands f tight (pos n)) g (Stands-Cong d w.root_stands);
        x_sign = sym bit ∙ (==_iff _ _).0 h;
        x_law = law;
      }
      | inr (h, z, g) ↦
          let zero = holds-nonzero f s.bounded z in
          let n0 : n ≢ 0 = λ q. zero (subst (λ m. Cong (fe_value f) (pos m)) q c) in
          let m = negative_eq n (omega arith) in
          let other : n % 2 ≢ sign = λ q. different (fe_isnegative f) sign h (bit ∙ q) in
          record {
            x = prime - n;
            x_lt = nonzero_lt n n0;
            x_stands =
                subst (λ f. Stands f tight (pos (prime - n))) g
                  (Stands-Cong m (neg-Stands (Stands-Cong d w.root_stands)));
            x_sign = odd_prime n sign p k other;
            x_law = squared v u m (Cong-trans (Cong-of_eq (squares_opposite (pos n) v)) law);
          }
    ]
