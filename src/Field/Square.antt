-- ===== src/Field/Square.antt =====
-- Results about the columns of `fe_sq`, next to those of `fe_mul` on equal operands.
use bitmonero.Base.{ℕ, ◌+◌, ◌*◌, ◌≡◌, refl, ap, ◌∙◌, arith, List, [], ◌∷◌, length}
use bitmonero.Base.Int.{ℤ, pos, pos_part, neg_part, ◌*ℤ◌, *ℤ_parts, int_laws, eq_of_parts}
use bitmonero.Base.Ring.{*ℤ_comm, *ℤ_assoc}
use bitmonero.Field.Mul.{sum_from, sum_products, columns, mul_columns, sq_columns}
use bitmonero.Field.Ten.{ten}

-- A number of times an integer.
multiple : ℕ → ℤ → ℤ
multiple k x = x *ℤ pos k

to_multiple : (x : ℤ) (k : ℕ) → x *ℤ pos k ≡ multiple k x
unfolding multiple
to_multiple x k = refl

multiple_right : (x y : ℤ) (k : ℕ) → x *ℤ multiple k y ≡ multiple k (x *ℤ y)
unfolding multiple
multiple_right x y k = rw (*ℤ_assoc x y (pos k))

multiple_left : (x y : ℤ) (k : ℕ) → multiple k x *ℤ y ≡ multiple k (x *ℤ y)
multiple_left x y k = rw (*ℤ_comm (multiple k x) y, *ℤ_comm x y) (multiple_right y x k)

multiple_parts :
    (x : ℤ) (k : ℕ)
    → pos_part (multiple k x) + k * neg_part x ≡ neg_part (multiple k x) + k * pos_part x
unfolding multiple
multiple_parts x k = *ℤ_parts x k

pos_times : (j k : ℕ) → pos j *ℤ pos k ≡ pos (j * k)
unfolding ◌*ℤ◌
pos_times j k = ground arith

multiple_twice : (x : ℤ) (j k : ℕ) → multiple j (multiple k x) ≡ multiple (k * j) x
unfolding multiple
multiple_twice x j k = *ℤ_assoc x (pos k) (pos j) ∙ ap (◌*ℤ◌ x) (pos_times k j)

ruleset multiples = (to_multiple, multiple_right, multiple_left, multiple_twice)

module _ (f0 f1 f2 f3 f4 f5 f6 f7 f8 f9 : ℤ) where
  abbrev plain : List ℤ
  plain = f0 ∷ f1 ∷ f2 ∷ f3 ∷ f4 ∷ f5 ∷ f6 ∷ f7 ∷ f8 ∷ f9 ∷ []

  abbrev twice : List ℤ
  twice =
      f0
      ∷ (f1 *ℤ pos 2)
      ∷ f2
      ∷ (f3 *ℤ pos 2)
      ∷ f4
      ∷ (f5 *ℤ pos 2)
      ∷ f6
      ∷ (f7 *ℤ pos 2)
      ∷ f8
      ∷ (f9 *ℤ pos 2)
      ∷ []

  column_0 :
      sum_products (f0 ∷ (f1 *ℤ pos 2) ∷ (f2 *ℤ pos 2) ∷ (f3 *ℤ pos 2) ∷ (f4 *ℤ pos 2) ∷ f5 ∷ []) (
        f0
        ∷ (f9 *ℤ pos 38)
        ∷ (f8 *ℤ pos 19)
        ∷ (f7 *ℤ pos 38)
        ∷ (f6 *ℤ pos 19)
        ∷ (f5 *ℤ pos 38)
        ∷ [])
      ≡ sum_products twice (
          f0
          ∷ (f9 *ℤ pos 19)
          ∷ (f8 *ℤ pos 19)
          ∷ (f7 *ℤ pos 19)
          ∷ (f6 *ℤ pos 19)
          ∷ (f5 *ℤ pos 19)
          ∷ (f4 *ℤ pos 19)
          ∷ (f3 *ℤ pos 19)
          ∷ (f2 *ℤ pos 19)
          ∷ (f1 *ℤ pos 19)
          ∷ [])
  unfolding sum_products sum_from
  column_0 =
      simp (multiples, *ℤ_comm f6 f4, *ℤ_comm f7 f3, *ℤ_comm f8 f2, *ℤ_comm f9 f1)
        (eq_of_parts _ _ (omega (int_laws, multiple_parts)))

  column_1 :
      sum_products
        ((f0 *ℤ pos 2) ∷ f2 ∷ (f3 *ℤ pos 2) ∷ f4 ∷ (f5 *ℤ pos 2) ∷ [])
        (f1 ∷ (f9 *ℤ pos 38) ∷ (f8 *ℤ pos 19) ∷ (f7 *ℤ pos 38) ∷ (f6 *ℤ pos 19) ∷ [])
      ≡ sum_products plain (
          f1
          ∷ f0
          ∷ (f9 *ℤ pos 19)
          ∷ (f8 *ℤ pos 19)
          ∷ (f7 *ℤ pos 19)
          ∷ (f6 *ℤ pos 19)
          ∷ (f5 *ℤ pos 19)
          ∷ (f4 *ℤ pos 19)
          ∷ (f3 *ℤ pos 19)
          ∷ (f2 *ℤ pos 19)
          ∷ [])
  unfolding sum_products sum_from
  column_1 =
      simp (multiples, *ℤ_comm f1 f0, *ℤ_comm f6 f5, *ℤ_comm f7 f4, *ℤ_comm f8 f3, *ℤ_comm f9 f2)
        (eq_of_parts _ _ (omega (int_laws, multiple_parts)))

  column_2 :
      sum_products
        ((f0 *ℤ pos 2) ∷ (f1 *ℤ pos 2) ∷ (f3 *ℤ pos 2) ∷ (f4 *ℤ pos 2) ∷ (f5 *ℤ pos 2) ∷ f6 ∷ [])
        (f2 ∷ f1 ∷ (f9 *ℤ pos 38) ∷ (f8 *ℤ pos 19) ∷ (f7 *ℤ pos 38) ∷ (f6 *ℤ pos 19) ∷ [])
      ≡ sum_products twice (
          f2
          ∷ f1
          ∷ f0
          ∷ (f9 *ℤ pos 19)
          ∷ (f8 *ℤ pos 19)
          ∷ (f7 *ℤ pos 19)
          ∷ (f6 *ℤ pos 19)
          ∷ (f5 *ℤ pos 19)
          ∷ (f4 *ℤ pos 19)
          ∷ (f3 *ℤ pos 19)
          ∷ [])
  unfolding sum_products sum_from
  column_2 =
      simp (multiples, *ℤ_comm f2 f0, *ℤ_comm f7 f5, *ℤ_comm f8 f4, *ℤ_comm f9 f3)
        (eq_of_parts _ _ (omega (int_laws, multiple_parts)))

  column_3 :
      sum_products
        ((f0 *ℤ pos 2) ∷ (f1 *ℤ pos 2) ∷ f4 ∷ (f5 *ℤ pos 2) ∷ f6 ∷ [])
        (f3 ∷ f2 ∷ (f9 *ℤ pos 38) ∷ (f8 *ℤ pos 19) ∷ (f7 *ℤ pos 38) ∷ [])
      ≡ sum_products plain (
          f3
          ∷ f2
          ∷ f1
          ∷ f0
          ∷ (f9 *ℤ pos 19)
          ∷ (f8 *ℤ pos 19)
          ∷ (f7 *ℤ pos 19)
          ∷ (f6 *ℤ pos 19)
          ∷ (f5 *ℤ pos 19)
          ∷ (f4 *ℤ pos 19)
          ∷ [])
  unfolding sum_products sum_from
  column_3 =
      simp (multiples, *ℤ_comm f2 f1, *ℤ_comm f3 f0, *ℤ_comm f7 f6, *ℤ_comm f8 f5, *ℤ_comm f9 f4)
        (eq_of_parts _ _ (omega (int_laws, multiple_parts)))

  column_4 :
      sum_products
        ((f0 *ℤ pos 2) ∷ (f1 *ℤ pos 2) ∷ f2 ∷ (f5 *ℤ pos 2) ∷ (f6 *ℤ pos 2) ∷ f7 ∷ [])
        (f4 ∷ (f3 *ℤ pos 2) ∷ f2 ∷ (f9 *ℤ pos 38) ∷ (f8 *ℤ pos 19) ∷ (f7 *ℤ pos 38) ∷ [])
      ≡ sum_products twice (
          f4
          ∷ f3
          ∷ f2
          ∷ f1
          ∷ f0
          ∷ (f9 *ℤ pos 19)
          ∷ (f8 *ℤ pos 19)
          ∷ (f7 *ℤ pos 19)
          ∷ (f6 *ℤ pos 19)
          ∷ (f5 *ℤ pos 19)
          ∷ [])
  unfolding sum_products sum_from
  column_4 =
      simp (multiples, *ℤ_comm f3 f1, *ℤ_comm f4 f0, *ℤ_comm f8 f6, *ℤ_comm f9 f5)
        (eq_of_parts _ _ (omega (int_laws, multiple_parts)))

  column_5 :
      sum_products
        ((f0 *ℤ pos 2) ∷ (f1 *ℤ pos 2) ∷ (f2 *ℤ pos 2) ∷ f6 ∷ (f7 *ℤ pos 2) ∷ [])
        (f5 ∷ f4 ∷ f3 ∷ (f9 *ℤ pos 38) ∷ (f8 *ℤ pos 19) ∷ [])
      ≡ sum_products plain (
          f5
          ∷ f4
          ∷ f3
          ∷ f2
          ∷ f1
          ∷ f0
          ∷ (f9 *ℤ pos 19)
          ∷ (f8 *ℤ pos 19)
          ∷ (f7 *ℤ pos 19)
          ∷ (f6 *ℤ pos 19)
          ∷ [])
  unfolding sum_products sum_from
  column_5 =
      simp (multiples, *ℤ_comm f3 f2, *ℤ_comm f4 f1, *ℤ_comm f5 f0, *ℤ_comm f8 f7, *ℤ_comm f9 f6)
        (eq_of_parts _ _ (omega (int_laws, multiple_parts)))

  column_6 :
      sum_products
        ((f0 *ℤ pos 2) ∷ (f1 *ℤ pos 2) ∷ (f2 *ℤ pos 2) ∷ (f3 *ℤ pos 2) ∷ (f7 *ℤ pos 2) ∷ f8 ∷ [])
        (f6 ∷ (f5 *ℤ pos 2) ∷ f4 ∷ f3 ∷ (f9 *ℤ pos 38) ∷ (f8 *ℤ pos 19) ∷ [])
      ≡ sum_products twice
          (f6 ∷ f5 ∷ f4 ∷ f3 ∷ f2 ∷ f1 ∷ f0 ∷ (f9 *ℤ pos 19) ∷ (f8 *ℤ pos 19) ∷ (f7 *ℤ pos 19) ∷ [])
  unfolding sum_products sum_from
  column_6 =
      simp (multiples, *ℤ_comm f4 f2, *ℤ_comm f5 f1, *ℤ_comm f6 f0, *ℤ_comm f9 f7)
        (eq_of_parts _ _ (omega (int_laws, multiple_parts)))

  column_7 :
      sum_products
        ((f0 *ℤ pos 2) ∷ (f1 *ℤ pos 2) ∷ (f2 *ℤ pos 2) ∷ (f3 *ℤ pos 2) ∷ f8 ∷ [])
        (f7 ∷ f6 ∷ f5 ∷ f4 ∷ (f9 *ℤ pos 38) ∷ [])
      ≡ sum_products plain
          (f7 ∷ f6 ∷ f5 ∷ f4 ∷ f3 ∷ f2 ∷ f1 ∷ f0 ∷ (f9 *ℤ pos 19) ∷ (f8 *ℤ pos 19) ∷ [])
  unfolding sum_products sum_from
  column_7 =
      simp (multiples, *ℤ_comm f4 f3, *ℤ_comm f5 f2, *ℤ_comm f6 f1, *ℤ_comm f7 f0, *ℤ_comm f9 f8)
        (eq_of_parts _ _ (omega (int_laws, multiple_parts)))

  column_8 :
      sum_products
        ((f0 *ℤ pos 2) ∷ (f1 *ℤ pos 2) ∷ (f2 *ℤ pos 2) ∷ (f3 *ℤ pos 2) ∷ f4 ∷ f9 ∷ [])
        (f8 ∷ (f7 *ℤ pos 2) ∷ f6 ∷ (f5 *ℤ pos 2) ∷ f4 ∷ (f9 *ℤ pos 38) ∷ [])
      ≡ sum_products twice (f8 ∷ f7 ∷ f6 ∷ f5 ∷ f4 ∷ f3 ∷ f2 ∷ f1 ∷ f0 ∷ (f9 *ℤ pos 19) ∷ [])
  unfolding sum_products sum_from
  column_8 =
      simp (multiples, *ℤ_comm f5 f3, *ℤ_comm f6 f2, *ℤ_comm f7 f1, *ℤ_comm f8 f0)
        (eq_of_parts _ _ (omega (int_laws, multiple_parts)))

  column_9 :
      sum_products
        ((f0 *ℤ pos 2) ∷ (f1 *ℤ pos 2) ∷ (f2 *ℤ pos 2) ∷ (f3 *ℤ pos 2) ∷ (f4 *ℤ pos 2) ∷ [])
        (f9 ∷ f8 ∷ f7 ∷ f6 ∷ f5 ∷ [])
      ≡ sum_products plain (f9 ∷ f8 ∷ f7 ∷ f6 ∷ f5 ∷ f4 ∷ f3 ∷ f2 ∷ f1 ∷ f0 ∷ [])
  unfolding sum_products sum_from
  column_9 =
      simp (multiples, *ℤ_comm f5 f4, *ℤ_comm f6 f3, *ℤ_comm f7 f2, *ℤ_comm f8 f1, *ℤ_comm f9 f0)
        (eq_of_parts _ _ (omega (int_laws, multiple_parts)))

pub sq_columns-mul_columns : (f : List ℤ) → length f ≡ 10 → sq_columns f ≡ mul_columns f f
unfolding sq_columns mul_columns columns
sq_columns-mul_columns f n =
    ten (λ f. sq_columns f ≡ mul_columns f f) f n
      (λ f0 f1 f2 f3 f4 f5 f6 f7 f8 f9. rw (
        column_0 f0 f1 f2 f3 f4 f5 f6 f7 f8 f9,
        column_1 f0 f1 f2 f3 f4 f5 f6 f7 f8 f9,
        column_2 f0 f1 f2 f3 f4 f5 f6 f7 f8 f9,
        column_3 f0 f1 f2 f3 f4 f5 f6 f7 f8 f9,
        column_4 f0 f1 f2 f3 f4 f5 f6 f7 f8 f9,
        column_5 f0 f1 f2 f3 f4 f5 f6 f7 f8 f9,
        column_6 f0 f1 f2 f3 f4 f5 f6 f7 f8 f9,
        column_7 f0 f1 f2 f3 f4 f5 f6 f7 f8 f9,
        column_8 f0 f1 f2 f3 f4 f5 f6 f7 f8 f9,
        column_9 f0 f1 f2 f3 f4 f5 f6 f7 f8 f9,
      ))
