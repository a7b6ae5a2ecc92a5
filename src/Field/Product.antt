-- ===== src/Field/Product.antt =====
-- The number of the columns of `fe_mul`, modulo 2 ^ 255 - 19.
use bitmonero.Base.{suc, ◌≡◌, refl, sym, ap, ◌∙◌, arith, List, [], ◌∷◌, length, Bool, true, false}
use bitmonero.Base.Int.{ℤ, pos, ◌+ℤ◌, ◌-ℤ◌, ◌*ℤ◌, int_laws, eq_of_parts}
use bitmonero.Base.Ring.{*ℤ_comm, *ℤ_assoc, *ℤ-+ℤ, +ℤ-*ℤ}
use bitmonero.Field.{fe_add}
use bitmonero.Field.Linear.{limbs_value, fe_value, limbs_value-fe_add}
use bitmonero.Field.Mul.{mul_columns}
use bitmonero.Field.Congruence.{Cong, Cong-trans, Cong-of_eq, Cong-refl, Cong-+ℤ, Cong-*ℤ_left}
use bitmonero.Field.Ten.{ten}
use bitmonero.Field.Rows.{scale, shift_one, shift_two, add_rows, mul_columns_rows}

scale_value :
    (even : Bool) (x : ℤ) (r : List ℤ) → limbs_value even (scale x r) ≡ x *ℤ limbs_value even r
unfolding limbs_value scale
scale_value true x [] = eq_of_parts _ _ (omega int_laws)
scale_value false x [] = eq_of_parts _ _ (omega int_laws)
scale_value true x (y ∷ r) =
    rw (scale_value false x r, *ℤ_assoc x (limbs_value false r) (pos 67108864))
      (sym (*ℤ-+ℤ y (limbs_value false r *ℤ pos 67108864) x))
scale_value false x (y ∷ r) =
    rw (scale_value true x r, *ℤ_assoc x (limbs_value true r) (pos 33554432))
      (sym (*ℤ-+ℤ y (limbs_value true r *ℤ pos 33554432) x))

shift_two_value :
    (h : List ℤ)
    → length h ≡ 10
    → Cong (fe_value (shift_two h)) (pos 2251799813685248 *ℤ fe_value h)
unfolding limbs_value shift_two
shift_two_value h n =
    ten (λ h. Cong (fe_value (shift_two h)) (pos 2251799813685248 *ℤ fe_value h)) h n
      (λ h0 h1 h2 h3 h4 h5 h6 h7 h8 h9.
        rw
          (*ℤ_comm (pos 2251799813685248)
            (fe_value (h0 ∷ h1 ∷ h2 ∷ h3 ∷ h4 ∷ h5 ∷ h6 ∷ h7 ∷ h8 ∷ h9 ∷ [])))
          (record {
            quotient = pos 0 -ℤ (h8 +ℤ h9 *ℤ pos 67108864);
            split = eq_of_parts _ _ (omega int_laws);
          }))

shift_one_value :
    (h : List ℤ) → length h ≡ 10 → Cong (fe_value (shift_one h)) (pos 67108864 *ℤ fe_value h)
unfolding limbs_value shift_one
shift_one_value h n =
    ten (λ h. Cong (fe_value (shift_one h)) (pos 67108864 *ℤ fe_value h)) h n
      (λ h0 h1 h2 h3 h4 h5 h6 h7 h8 h9.
        rw
          (
            *ℤ_comm (pos 67108864)
                (fe_value (h0 ∷ h1 ∷ h2 ∷ h3 ∷ h4 ∷ h5 ∷ h6 ∷ h7 ∷ h8 ∷ h9 ∷ [])),
            *ℤ_comm (pos 2) (h9 *ℤ pos 19),
            *ℤ_comm (pos 2) h1,
            *ℤ_comm (pos 2) h3,
            *ℤ_comm (pos 2) h5,
            *ℤ_comm (pos 2) h7,
          )
          (record { quotient = pos 0 -ℤ h9 *ℤ pos 2; split = eq_of_parts _ _ (omega int_laws) }))

-- The weight of the next place.
abbrev base : Bool → ℤ
base true = pos 67108864
base false = pos 33554432

abbrev next : Bool → Bool
next true = false
next false = true

limbs_value-cons :
    (even : Bool) (x : ℤ) (f : List ℤ)
    → limbs_value even (x ∷ f) ≡ x +ℤ limbs_value (next even) f *ℤ base even
unfolding limbs_value
limbs_value-cons true x f = refl
limbs_value-cons false x f = refl

scale-length : (x : ℤ) (r : List ℤ) → length (scale x r) ≡ length r
unfolding scale
scale-length x [] = refl
scale-length x (y ∷ r) = ap suc (scale-length x r)

fe_add-length : (f g : List ℤ) → length f ≡ length g → length (fe_add f g) ≡ length g
unfolding fe_add
fe_add-length [] g e = e
fe_add-length (x ∷ f) [] e = refl
fe_add-length (x ∷ f) (y ∷ g) e = ap suc (fe_add-length f g (omega arith))

shift_two-length : (h : List ℤ) → length h ≡ 10 → length (shift_two h) ≡ 10
unfolding shift_two
shift_two-length h n =
    ten (λ h. length (shift_two h) ≡ 10) h n (λ h0 h1 h2 h3 h4 h5 h6 h7 h8 h9. refl)

collect :
    (v x w g l c : ℤ)
    → (v +ℤ x *ℤ (w *ℤ g)) +ℤ (l *ℤ (w *ℤ c)) *ℤ g ≡ v +ℤ ((x +ℤ l *ℤ c) *ℤ w) *ℤ g
collect v x w g l c =
    let e : l *ℤ (w *ℤ c) ≡ (l *ℤ c) *ℤ w = ap (◌*ℤ◌ l) (*ℤ_comm w c) ∙ sym (*ℤ_assoc l c w) in
    rw (e, ← *ℤ_assoc x w g, +ℤ-*ℤ x (l *ℤ c) w, +ℤ-*ℤ (x *ℤ w) ((l *ℤ c) *ℤ w) g)
      (eq_of_parts _ _ (omega int_laws))

two_places :
    (even : Bool) (w : ℤ) → (w *ℤ base even) *ℤ base (next even) ≡ pos 2251799813685248 *ℤ w
two_places true w = rw (*ℤ_comm (pos 2251799813685248) w) (eq_of_parts _ _ (omega int_laws))
two_places false w = rw (*ℤ_comm (pos 2251799813685248) w) (eq_of_parts _ _ (omega int_laws))

zero_times : (w : ℤ) → pos 0 *ℤ w ≡ pos 0
zero_times w = rw (*ℤ_comm (pos 0) w) (eq_of_parts _ _ (omega int_laws))

nothing : (even : Bool) (v w g : ℤ) → v ≡ v +ℤ (limbs_value even [] *ℤ w) *ℤ g
unfolding limbs_value
nothing even v w g = rw (zero_times w, zero_times g) (eq_of_parts _ _ (omega int_laws))

-- With the rows of weight w and of the next weight, multiples of g modulo the prime.
add_rows_value :
    (even : Bool) (w g : ℤ) (acc f r r' : List ℤ)
    → length acc ≡ 10
    → length r ≡ 10
    → length r' ≡ 10
    → Cong (fe_value r) (w *ℤ g)
    → Cong (fe_value r') ((w *ℤ base even) *ℤ g)
    → Cong (fe_value (add_rows acc f r r')) (fe_value acc +ℤ (limbs_value even f *ℤ w) *ℤ g)
unfolding add_rows
add_rows_value even w g acc [] r r' la lr lr' c c' = Cong-of_eq (nothing even (fe_value acc) w g)
add_rows_value even w g acc (x ∷ f) r r' la lr lr' c c' =
    let more = fe_add acc (scale x r) in
    let len : length more ≡ 10 =
      fe_add-length acc (scale x r) (omega (arith, scale-length x r)) ∙ scale-length x r ∙ lr in
    let third : Cong (fe_value (shift_two r)) (((w *ℤ base even) *ℤ base (next even)) *ℤ g) =
      rw (two_places even w, *ℤ_assoc (pos 2251799813685248) w g)
        (Cong-trans (shift_two_value r lr) (Cong-*ℤ_left (pos 2251799813685248) c)) in
    let rest =
      add_rows_value (next even) (w *ℤ base even) g more f r' (shift_two r) len lr'
        (shift_two-length r lr) c' third in
    let first : Cong (fe_value more) (fe_value acc +ℤ x *ℤ (w *ℤ g)) =
      rw
        (
          limbs_value-fe_add true acc (scale x r) (omega (arith, scale-length x r)),
          scale_value true x r,
        )
        (Cong-+ℤ (Cong-refl (fe_value acc)) (Cong-*ℤ_left x c)) in
    rw (limbs_value-cons even x f) (
      Cong-trans rest (
        Cong-trans
          (Cong-+ℤ first (Cong-refl ((limbs_value (next even) f *ℤ (w *ℤ base even)) *ℤ g)))
          (Cong-of_eq (collect (fe_value acc) x w g (limbs_value (next even) f) (base even)))))

shift_one-length : (h : List ℤ) → length h ≡ 10 → length (shift_one h) ≡ 10
unfolding shift_one
shift_one-length h n =
    ten (λ h. length (shift_one h) ≡ 10) h n (λ h0 h1 h2 h3 h4 h5 h6 h7 h8 h9. refl)

rows_value :
    (x : ℤ) (f g : List ℤ)
    → length g ≡ 10
    → Cong
        (fe_value (add_rows (scale x g) f (shift_one g) (shift_two g)))
        (fe_value (x ∷ f) *ℤ fe_value g)
unfolding ◌*ℤ◌
rows_value x f g n =
    let v = fe_value g in
    let more =
      add_rows_value false (pos 67108864) v (scale x g) f (shift_one g) (shift_two g)
        (scale-length x g ∙ n) (shift_one-length g n) (shift_two-length g n) (shift_one_value g n)
        (shift_two_value g n) in
    Cong-trans more (
      rw
        (
          scale_value true x g,
          limbs_value-cons true x f,
          +ℤ-*ℤ x (limbs_value false f *ℤ pos 67108864) v,
        )
        (Cong-refl (x *ℤ v +ℤ (limbs_value false f *ℤ pos 67108864) *ℤ v)))

-- The columns stand for the product.
pub mul_columns_value :
    (f g : List ℤ)
    → length f ≡ 10
    → length g ≡ 10
    → Cong (fe_value (mul_columns f g)) (fe_value f *ℤ fe_value g)
mul_columns_value f g lf lg =
    ten (λ f. Cong (fe_value (mul_columns f g)) (fe_value f *ℤ fe_value g)) f lf
      (λ f0 f1 f2 f3 f4 f5 f6 f7 f8 f9.
        ten
          (λ g.
            Cong (fe_value (mul_columns (f0 ∷ f1 ∷ f2 ∷ f3 ∷ f4 ∷ f5 ∷ f6 ∷ f7 ∷ f8 ∷ f9 ∷ []) g))
              (fe_value (f0 ∷ f1 ∷ f2 ∷ f3 ∷ f4 ∷ f5 ∷ f6 ∷ f7 ∷ f8 ∷ f9 ∷ []) *ℤ fe_value g))
          g lg
          (λ g0 g1 g2 g3 g4 g5 g6 g7 g8 g9.
            rw (mul_columns_rows f0 f1 f2 f3 f4 f5 f6 f7 f8 f9 g0 g1 g2 g3 g4 g5 g6 g7 g8 g9) (
              rows_value f0 (f1 ∷ f2 ∷ f3 ∷ f4 ∷ f5 ∷ f6 ∷ f7 ∷ f8 ∷ f9 ∷ [])
                (g0 ∷ g1 ∷ g2 ∷ g3 ∷ g4 ∷ g5 ∷ g6 ∷ g7 ∷ g8 ∷ g9 ∷ []) refl)))
