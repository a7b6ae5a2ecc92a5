-- ===== src/Base/Polynomial.antt =====
-- Identities of the ring of integers by computation: the difference of the two sides is expanded
-- into a sum of monomials, and holds if all their coefficients are 0.
use Prim.Native.Nat.{ℕ, zero, suc}
use mathlib.Core.Path.{◌≡◌, refl, sym, ap, ap₂, ◌∙◌}
use mathlib.Core.Bool.{Bool, true, false, ◌&&◌}
use mathlib.Core.List.{List, [], ◌∷◌}
use mathlib.Core.Logic.{inl, inr}
use bitmonero.Base.Tests.{◌==◌, leb, ==_iff, if◌then◌else◌, Bool-cases}
use bitmonero.Base.Lists.{get_or}
use bitmonero.Base.Int.{ℤ, pos, negsuc, pos_part, neg_part, ◌+ℤ◌, ◌-ℤ◌, ◌*ℤ◌, int_laws, eq_of_parts}
use bitmonero.Base.Ring.{product_parts, *ℤ_comm, *ℤ_assoc, +ℤ-*ℤ, *ℤ-+ℤ}

pub data Expr : Type 0 where
  var : ℕ → Expr
  num : ℕ → Expr
  plus : Expr → Expr → Expr
  minus : Expr → Expr → Expr
  times : Expr → Expr → Expr

-- A coefficient and the variables, in order, with repetitions.
abbrev pub Poly : Type 0
Poly = List (ℤ × List ℕ)

unfoldable insert_var : ℕ → List ℕ → List ℕ
insert_var i [] = i ∷ []
insert_var i (j ∷ m) = if leb i j then i ∷ j ∷ m else j ∷ insert_var i m

unfoldable join_vars : List ℕ → List ℕ → List ℕ
unfolding insert_var
join_vars [] n = n
join_vars (i ∷ m) n = insert_var i (join_vars m n)

unfoldable same_vars : List ℕ → List ℕ → Bool
same_vars [] [] = true
same_vars [] (j ∷ n) = false
same_vars (i ∷ m) [] = false
same_vars (i ∷ m) (j ∷ n) = (i == j) && same_vars m n

unfoldable add_term : ℤ → List ℕ → Poly → Poly
unfolding same_vars ◌+ℤ◌
add_term c m [] = (c, m) ∷ []
add_term c m ((d, n) ∷ p) = if same_vars m n then (c +ℤ d, n) ∷ p else (d, n) ∷ add_term c m p

unfoldable add_poly : Poly → Poly → Poly
unfolding add_term
add_poly [] q = q
add_poly ((c, m) ∷ p) q = add_term c m (add_poly p q)

unfoldable scale_poly : ℤ → List ℕ → Poly → Poly
unfolding join_vars ◌*ℤ◌
scale_poly c m [] = []
scale_poly c m ((d, n) ∷ p) = (c *ℤ d, join_vars m n) ∷ scale_poly c m p

unfoldable times_poly : Poly → Poly → Poly
unfolding add_poly scale_poly
times_poly [] q = []
times_poly ((c, m) ∷ p) q = add_poly (scale_poly c m q) (times_poly p q)

unfoldable pub expand : Expr → Poly
unfolding add_poly times_poly scale_poly
expand (var i) = (pos 1, i ∷ []) ∷ []
expand (num n) = (pos n, []) ∷ []
expand (plus a b) = add_poly (expand a) (expand b)
expand (minus a b) = add_poly (expand a) (scale_poly (negsuc 0) [] (expand b))
expand (times a b) = times_poly (expand a) (expand b)

unfoldable is_zero : ℤ → Bool
is_zero (pos zero) = true
is_zero (pos (suc n)) = false
is_zero (negsuc n) = false

unfoldable pub vanishes : Poly → Bool
unfolding is_zero
vanishes [] = true
vanishes ((c, m) ∷ p) = is_zero c && vanishes p

minus_one : negsuc 0 *ℤ pos 1 ≡ negsuc 0
unfolding ◌*ℤ◌
minus_one = refl

negative : (x y : ℤ) → x +ℤ (negsuc 0 *ℤ pos 1) *ℤ y ≡ x -ℤ y
negative x y =
    rw (minus_one, *ℤ_comm (negsuc 0) y)
      (eq_of_parts _ _ (omega (int_laws, product_parts y (negsuc 0))))

same_vars-eq : (m n : List ℕ) → same_vars m n ≡ true → m ≡ n
unfolding same_vars
same_vars-eq [] [] e = refl
same_vars-eq [] (j ∷ n) e = cc
same_vars-eq (i ∷ m) [] e = cc
same_vars-eq (i ∷ m) (j ∷ n) e = elim (Bool-cases (i == j)) [
  | inl h ↦ ap₂ (λ (x : ℕ) (y : List ℕ). x ∷ y) ((==_iff i j).0 h) (same_vars-eq m n (rw h at e))
  | inr h ↦ absurd (bad (rw h at e))
]
  where
    bad : false ≡ true → ⊥
    bad h = cc

module _ (env : List ℤ) where
  unfoldable pub value : Expr → ℤ
  value (var i) = get_or env i (pos 0)
  value (num n) = pos n
  value (plus a b) = value a +ℤ value b
  value (minus a b) = value a -ℤ value b
  value (times a b) = value a *ℤ value b

  vars_value : List ℕ → ℤ
  vars_value [] = pos 1
  vars_value (i ∷ m) = get_or env i (pos 0) *ℤ vars_value m

  poly_value : Poly → ℤ
  unfolding vars_value
  poly_value [] = pos 0
  poly_value ((c, m) ∷ p) = c *ℤ vars_value m +ℤ poly_value p

  insert_var_value :
      (i : ℕ) (m : List ℕ) → vars_value (insert_var i m) ≡ get_or env i (pos 0) *ℤ vars_value m
  unfolding vars_value insert_var
  insert_var_value i [] = refl
  insert_var_value i (j ∷ m) = elim (Bool-cases (leb i j)) [
    | inl e ↦ rw e refl
    | inr e ↦
        rw (e, vars_value, insert_var_value i m)
          (swap (get_or env j (pos 0)) (get_or env i (pos 0)) (vars_value m))
  ]
    where
      swap : (x y z : ℤ) → x *ℤ (y *ℤ z) ≡ y *ℤ (x *ℤ z)
      swap x y z = rw (← *ℤ_assoc x y z, *ℤ_comm x y) (*ℤ_assoc y x z)

  join_vars_value : (m n : List ℕ) → vars_value (join_vars m n) ≡ vars_value m *ℤ vars_value n
  unfolding vars_value join_vars
  join_vars_value [] n = rw (*ℤ_comm (pos 1) (vars_value n)) (eq_of_parts _ _ (omega int_laws))
  join_vars_value (i ∷ m) n =
      rw (insert_var_value i (join_vars m n), join_vars_value m n)
        (sym (*ℤ_assoc (get_or env i (pos 0)) (vars_value m) (vars_value n)))

  add_term_value :
      (c : ℤ) (m : List ℕ) (p : Poly)
      → poly_value (add_term c m p) ≡ c *ℤ vars_value m +ℤ poly_value p
  unfolding poly_value add_term
  add_term_value c m [] = refl
  add_term_value c m ((d, n) ∷ p) = elim (Bool-cases (same_vars m n)) [
    | inl e ↦
        rw (e, same_vars-eq m n e, +ℤ-*ℤ c d (vars_value n))
          (regroup (c *ℤ vars_value n) (d *ℤ vars_value n) (poly_value p))
    | inr e ↦
        rw (e, poly_value, add_term_value c m p)
          (swap_first (c *ℤ vars_value m) (d *ℤ vars_value n) (poly_value p))
  ]
    where
      regroup : (x y z : ℤ) → (x +ℤ y) +ℤ z ≡ x +ℤ (y +ℤ z)
      regroup x y z = eq_of_parts _ _ (omega int_laws)

      swap_first : (x y z : ℤ) → y +ℤ (x +ℤ z) ≡ x +ℤ (y +ℤ z)
      swap_first x y z = eq_of_parts _ _ (omega int_laws)

  add_poly_value : (p q : Poly) → poly_value (add_poly p q) ≡ poly_value p +ℤ poly_value q
  unfolding poly_value add_poly
  add_poly_value [] q = eq_of_parts _ _ (omega int_laws)
  add_poly_value ((c, m) ∷ p) q =
      rw (add_term_value c m (add_poly p q), add_poly_value p q)
        (regroup (c *ℤ vars_value m) (poly_value p) (poly_value q))
    where
      regroup : (x y z : ℤ) → x +ℤ (y +ℤ z) ≡ (x +ℤ y) +ℤ z
      regroup x y z = eq_of_parts _ _ (omega int_laws)

  scale_poly_value :
      (c : ℤ) (m : List ℕ) (p : Poly)
      → poly_value (scale_poly c m p) ≡ (c *ℤ vars_value m) *ℤ poly_value p
  unfolding poly_value scale_poly
  scale_poly_value c m [] = eq_of_parts _ _ (omega int_laws)
  scale_poly_value c m ((d, n) ∷ p) =
      rw (join_vars_value m n, scale_poly_value c m p, cross c d (vars_value m) (vars_value n))
        (sym (*ℤ-+ℤ (d *ℤ vars_value n) (poly_value p) (c *ℤ vars_value m)))
    where
      cross : (c d x y : ℤ) → (c *ℤ d) *ℤ (x *ℤ y) ≡ (c *ℤ x) *ℤ (d *ℤ y)
      cross c d x y =
          *ℤ_assoc c d (x *ℤ y)
          ∙ ap (◌*ℤ◌ c) (sym (*ℤ_assoc d x y) ∙ ap (λ t. t *ℤ y) (*ℤ_comm d x) ∙ *ℤ_assoc x d y)
          ∙ sym (*ℤ_assoc c x (d *ℤ y))

  times_poly_value : (p q : Poly) → poly_value (times_poly p q) ≡ poly_value p *ℤ poly_value q
  unfolding poly_value times_poly
  times_poly_value [] q = rw (*ℤ_comm (pos 0) (poly_value q)) (eq_of_parts _ _ (omega int_laws))
  times_poly_value ((c, m) ∷ p) q =
      rw
        (
          add_poly_value (scale_poly c m q) (times_poly p q),
          scale_poly_value c m q,
          times_poly_value p q,
        )
        (sym (+ℤ-*ℤ (c *ℤ vars_value m) (poly_value p) (poly_value q)))

  expand_value : (e : Expr) → poly_value (expand e) ≡ value e
  unfolding poly_value vars_value expand value
  expand_value (var i) = one_more (get_or env i (pos 0))
    where
      one_more : (x : ℤ) → pos 1 *ℤ (x *ℤ pos 1) +ℤ pos 0 ≡ x
      one_more x = rw (*ℤ_comm (pos 1) (x *ℤ pos 1)) (eq_of_parts _ _ (omega int_laws))
  expand_value (num n) = eq_of_parts _ _ (omega int_laws)
  expand_value (plus a b) =
      rw (add_poly_value (expand a) (expand b), expand_value a, expand_value b) refl
  expand_value (minus a b) =
      rw
        (
          add_poly_value (expand a) (scale_poly (negsuc 0) [] (expand b)),
          scale_poly_value (negsuc 0) [] (expand b),
          expand_value a,
          expand_value b,
        )
        (negative (value a) (value b))
  expand_value (times a b) =
      rw (times_poly_value (expand a) (expand b), expand_value a, expand_value b) refl

  vanishes_value : (p : Poly) → vanishes p ≡ true → poly_value p ≡ pos 0
  unfolding poly_value vanishes
  vanishes_value [] e = refl
  vanishes_value ((pos zero, m) ∷ p) e =
      rw (*ℤ_comm (pos 0) (vars_value m), vanishes_value p e) (eq_of_parts _ _ (omega int_laws))
  vanishes_value ((pos (suc n), m) ∷ p) e = cc
  vanishes_value ((negsuc n, m) ∷ p) e = cc

  -- The two sides of an identity, written as expressions over the numbers of `env`.
  pub solve : (a b : Expr) → vanishes (expand (minus a b)) ≡ true → value a ≡ value b
  unfolding value
  solve a b e =
      difference (value a) (value b)
        (sym (expand_value (minus a b)) ∙ vanishes_value (expand (minus a b)) e)
    where
      difference : (x y : ℤ) → x -ℤ y ≡ pos 0 → x ≡ y
      difference x y h = eq_of_parts _ _ (omega (int_laws, ap pos_part h, ap neg_part h))
