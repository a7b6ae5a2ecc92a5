-- ===== src/Field/Linear.antt =====
-- The numbers that limbs stand for, and the bounds in the comments of the source.
use bitmonero.Base.{ℕ, suc, ◌+◌, ◌*◌, ◌^◌, ◌≤◌, ◌≡◌, refl, arith}
use bitmonero.Base.{◌⊎◌, inl, inr, Bool, true, false}
use bitmonero.Base.{List, [], ◌∷◌, length, All}
use bitmonero.Base.Int.{
  ℤ, pos, negsuc, pos_part, neg_part, ◌+ℤ◌, ◌-ℤ◌, ◌*ℤ◌, int_laws, eq_of_parts, +ℤ_parts, -ℤ_parts,
}
use bitmonero.Base.Range.{Within, int32}
use bitmonero.Field.{fe_0, fe_1, fe_add, fe_sub, fe_neg}

-- h0 + 2 ^ 26 * h1 + 2 ^ 51 * h2 + 2 ^ 77 * h3 + …: the limbs have 26 and 25 bits in turn.
unfoldable pub limbs_value : Bool → List ℤ → ℤ
limbs_value even [] = pos 0
limbs_value true (x ∷ r) = x +ℤ limbs_value false r *ℤ pos 67108864
limbs_value false (x ∷ r) = x +ℤ limbs_value true r *ℤ pos 33554432

abbrev pub fe_value : List ℤ → ℤ
fe_value f = limbs_value true f

pub limbs_value-fe_add :
    (even : Bool) (f g : List ℤ)
    → length f ≡ length g
    → limbs_value even (fe_add f g) ≡ limbs_value even f +ℤ limbs_value even g
unfolding limbs_value fe_add
limbs_value-fe_add true [] [] h = omega int_laws
limbs_value-fe_add false [] [] h = omega int_laws
limbs_value-fe_add even [] (y ∷ g) h = absurd (omega arith)
limbs_value-fe_add even (x ∷ f) [] h = absurd (omega arith)
limbs_value-fe_add true (x ∷ f) (y ∷ g) h =
    rw (limbs_value-fe_add false f g (omega arith)) (eq_of_parts _ _ (omega int_laws))
limbs_value-fe_add false (x ∷ f) (y ∷ g) h =
    rw (limbs_value-fe_add true f g (omega arith)) (eq_of_parts _ _ (omega int_laws))

pub limbs_value-fe_sub :
    (even : Bool) (f g : List ℤ)
    → length f ≡ length g
    → limbs_value even (fe_sub f g) ≡ limbs_value even f -ℤ limbs_value even g
unfolding limbs_value fe_sub
limbs_value-fe_sub true [] [] h = omega int_laws
limbs_value-fe_sub false [] [] h = omega int_laws
limbs_value-fe_sub even [] (y ∷ g) h = absurd (omega arith)
limbs_value-fe_sub even (x ∷ f) [] h = absurd (omega arith)
limbs_value-fe_sub true (x ∷ f) (y ∷ g) h =
    rw (limbs_value-fe_sub false f g (omega arith)) (eq_of_parts _ _ (omega int_laws))
limbs_value-fe_sub false (x ∷ f) (y ∷ g) h =
    rw (limbs_value-fe_sub true f g (omega arith)) (eq_of_parts _ _ (omega int_laws))

pub limbs_value-fe_neg :
    (even : Bool) (f : List ℤ) → limbs_value even (fe_neg f) ≡ pos 0 -ℤ limbs_value even f
unfolding limbs_value fe_neg
limbs_value-fe_neg true [] = omega int_laws
limbs_value-fe_neg false [] = omega int_laws
limbs_value-fe_neg true (x ∷ f) = rw (limbs_value-fe_neg false f) (eq_of_parts _ _ (omega int_laws))
limbs_value-fe_neg false (x ∷ f) = rw (limbs_value-fe_neg true f) (eq_of_parts _ _ (omega int_laws))

-- fe_0 and fe_1 stand for 0 and 1, and for lists of limbs of one length, fe_add, fe_sub and fe_neg
-- give limbs of the sum, of the difference and of the negative.
pub fe_value-linear :
    (f g : List ℤ)
    → length f ≡ length g
    → (fe_value fe_0 ≡ pos 0)
      × (fe_value fe_1 ≡ pos 1)
      × (fe_value (fe_add f g) ≡ fe_value f +ℤ fe_value g)
      × (fe_value (fe_sub f g) ≡ fe_value f -ℤ fe_value g)
      × (fe_value (fe_neg f) ≡ pos 0 -ℤ fe_value f)
unfolding limbs_value ◌+ℤ◌ ◌*ℤ◌
fe_value-linear f g h = (
  refl,
  refl,
  limbs_value-fe_add true f g h,
  limbs_value-fe_sub true f g h,
  limbs_value-fe_neg true f,
)

-- |f| bounded by 1.1 * 2 ^ (k + 1), 1.1 * 2 ^ k, 1.1 * 2 ^ (k + 1), …, or from 1.1 * 2 ^ k on.
abbrev pub IsBounded : Bool → ℕ → List ℤ → Type 0
IsBounded even k [] = Unit
IsBounded true k (x ∷ r) = (10 * (pos_part x + neg_part x) ≤ 11 * 2 ^ suc k) × IsBounded false k r
IsBounded false k (x ∷ r) = (10 * (pos_part x + neg_part x) ≤ 11 * 2 ^ k) × IsBounded true k r

pub one_sided : (x : ℤ) → (pos_part x ≡ 0) ⊎ (neg_part x ≡ 0)
one_sided (pos n) = inr refl
one_sided (negsuc n) = inl refl

abbrev size : ℤ → ℕ
size x = pos_part x + neg_part x

size_+ℤ :
    (x y : ℤ) (m n : ℕ) → 10 * size x ≤ m → 10 * size y ≤ m → 2 * m ≡ n → 10 * size (x +ℤ y) ≤ n
size_+ℤ x y m n p q e = omega (arith, +ℤ_parts x y, one_sided (x +ℤ y))

size_-ℤ :
    (x y : ℤ) (m n : ℕ) → 10 * size x ≤ m → 10 * size y ≤ m → 2 * m ≡ n → 10 * size (x -ℤ y) ≤ n
size_-ℤ x y m n p q e = omega (arith, -ℤ_parts x y, one_sided (x -ℤ y))

size-neg : (x : ℤ) (m : ℕ) → 10 * size x ≤ m → 10 * size (pos 0 -ℤ x) ≤ m
size-neg x m p = omega (arith, -ℤ_parts (pos 0) x, one_sided (pos 0 -ℤ x))

fe_add-IsBounded :
    (even : Bool) (f g : List ℤ)
    → IsBounded even 24 f
    → IsBounded even 24 g
    → IsBounded even 25 (fe_add f g)
unfolding fe_add
fe_add-IsBounded even [] g p q = tt
fe_add-IsBounded even (x ∷ f) [] p q = tt
fe_add-IsBounded true (x ∷ f) (y ∷ g) p q =
    (size_+ℤ x y (11 * 2 ^ 25) (11 * 2 ^ 26) p.0 q.0 refl, fe_add-IsBounded false f g p.1 q.1)
fe_add-IsBounded false (x ∷ f) (y ∷ g) p q =
    (size_+ℤ x y (11 * 2 ^ 24) (11 * 2 ^ 25) p.0 q.0 refl, fe_add-IsBounded true f g p.1 q.1)

fe_sub-IsBounded :
    (even : Bool) (f g : List ℤ)
    → IsBounded even 24 f
    → IsBounded even 24 g
    → IsBounded even 25 (fe_sub f g)
unfolding fe_sub
fe_sub-IsBounded even [] g p q = tt
fe_sub-IsBounded even (x ∷ f) [] p q = tt
fe_sub-IsBounded true (x ∷ f) (y ∷ g) p q =
    (size_-ℤ x y (11 * 2 ^ 25) (11 * 2 ^ 26) p.0 q.0 refl, fe_sub-IsBounded false f g p.1 q.1)
fe_sub-IsBounded false (x ∷ f) (y ∷ g) p q =
    (size_-ℤ x y (11 * 2 ^ 24) (11 * 2 ^ 25) p.0 q.0 refl, fe_sub-IsBounded true f g p.1 q.1)

fe_neg-IsBounded : (even : Bool) (f : List ℤ) → IsBounded even 24 f → IsBounded even 24 (fe_neg f)
unfolding fe_neg
fe_neg-IsBounded even [] p = tt
fe_neg-IsBounded true (x ∷ f) p = (size-neg x (11 * 2 ^ 25) p.0, fe_neg-IsBounded false f p.1)
fe_neg-IsBounded false (x ∷ f) p = (size-neg x (11 * 2 ^ 24) p.0, fe_neg-IsBounded true f p.1)

IsBounded-int32 : (even : Bool) (f : List ℤ) → IsBounded even 25 f → All (λ x. Within x int32) f
IsBounded-int32 even [] p = tt
IsBounded-int32 true (x ∷ f) p = ((omega arith, omega arith), IsBounded-int32 false f p.1)
IsBounded-int32 false (x ∷ f) p = ((omega arith, omega arith), IsBounded-int32 true f p.1)

-- Under the bounds that the comments of fe_add, fe_sub and fe_neg ask for, the limbs keep the
-- bounds that these comments promise, and those of fe_add and fe_sub stay in int32_t.
pub linear-IsBounded :
    (f g : List ℤ)
    → IsBounded true 24 f
    → IsBounded true 24 g
    → IsBounded true 25 (fe_add f g)
      × IsBounded true 25 (fe_sub f g)
      × IsBounded true 24 (fe_neg f)
      × All (λ x. Within x int32) (fe_add f g)
      × All (λ x. Within x int32) (fe_sub f g)
linear-IsBounded f g p q =
    let a = fe_add-IsBounded true f g p q in
    let s = fe_sub-IsBounded true f g p q in
    (
      a,
      s,
      fe_neg-IsBounded true f p,
      IsBounded-int32 true (fe_add f g) a,
      IsBounded-int32 true (fe_sub f g) s,
    )
