-- ===== src/Field/Congruence.antt =====
-- Equality modulo 2 ^ 255 - 19.
use bitmonero.Base.{ℕ, ◌≡◌, refl, sym, ap, ap₂, ◌∙◌}
use bitmonero.Base.Int.{ℤ, pos, pos_part, neg_part, ◌+ℤ◌, ◌-ℤ◌, ◌*ℤ◌, int_laws, eq_of_parts}
use bitmonero.Base.Ring.{*ℤ_comm, +ℤ-*ℤ, *ℤ_assoc}

abbrev pub prime : ℕ
prime = 57896044618658097711785492504343953926634992332820282019728792003956564819949

pub record Cong (a b : ℤ) : Type 0 where
  pub quotient : ℤ
  pub split : a ≡ b +ℤ quotient *ℤ pos prime

pub Cong-of_eq : {a b : ℤ} → a ≡ b → Cong a b
Cong-of_eq {a} {b} e = record {
  quotient = pos 0;
  split = eq_of_parts _ _ (omega (int_laws, ap pos_part e, ap neg_part e));
}

pub Cong-refl : (a : ℤ) → Cong a a
Cong-refl a = Cong-of_eq refl

pub Cong-sym : {a b : ℤ} → Cong a b → Cong b a
Cong-sym {a} {b} c =
    let q = c.quotient in
    record {
      quotient = pos 0 -ℤ q;
      split =
          rw c.split
            (eq_of_parts b (b +ℤ q *ℤ pos prime +ℤ (pos 0 -ℤ q) *ℤ pos prime) (omega int_laws));
    }

pub Cong-trans : {a b c : ℤ} → Cong a b → Cong b c → Cong a c
Cong-trans {a} {b} {c} r s = record {
  quotient = r.quotient +ℤ s.quotient;
  split =
      r.split ∙ ap (λ t. t +ℤ r.quotient *ℤ pos prime) s.split ∙ regroup c r.quotient s.quotient;
}
  where
    regroup : (c q r : ℤ) → c +ℤ r *ℤ pos prime +ℤ q *ℤ pos prime ≡ c +ℤ (q +ℤ r) *ℤ pos prime
    regroup c q r = eq_of_parts _ _ (omega int_laws)

pub Cong-+ℤ : {a b c d : ℤ} → Cong a b → Cong c d → Cong (a +ℤ c) (b +ℤ d)
Cong-+ℤ {a} {b} {c} {d} r s = record {
  quotient = r.quotient +ℤ s.quotient;
  split = ap₂ ◌+ℤ◌ r.split s.split ∙ regroup b d r.quotient s.quotient;
}
  where
    regroup :
        (b d q r : ℤ)
        → (b +ℤ q *ℤ pos prime) +ℤ (d +ℤ r *ℤ pos prime) ≡ b +ℤ d +ℤ (q +ℤ r) *ℤ pos prime
    regroup b d q r = eq_of_parts _ _ (omega int_laws)

pub Cong--ℤ : {a b c d : ℤ} → Cong a b → Cong c d → Cong (a -ℤ c) (b -ℤ d)
Cong--ℤ {a} {b} {c} {d} r s = record {
  quotient = r.quotient -ℤ s.quotient;
  split = ap₂ ◌-ℤ◌ r.split s.split ∙ regroup b d r.quotient s.quotient;
}
  where
    regroup :
        (b d q r : ℤ)
        → (b +ℤ q *ℤ pos prime) -ℤ (d +ℤ r *ℤ pos prime) ≡ b -ℤ d +ℤ (q -ℤ r) *ℤ pos prime
    regroup b d q r = eq_of_parts _ _ (omega int_laws)

multiple_left : (q x : ℤ) → (q *ℤ pos prime) *ℤ x ≡ (q *ℤ x) *ℤ pos prime
multiple_left q x =
    *ℤ_assoc q (pos prime) x ∙ ap (◌*ℤ◌ q) (*ℤ_comm (pos prime) x) ∙ sym (*ℤ_assoc q x (pos prime))

pub Cong-*ℤ_right : {a b : ℤ} (x : ℤ) → Cong a b → Cong (a *ℤ x) (b *ℤ x)
Cong-*ℤ_right {a} {b} x r = record {
  quotient = r.quotient *ℤ x;
  split =
      ap (λ t. t *ℤ x) r.split
      ∙ +ℤ-*ℤ b (r.quotient *ℤ pos prime) x
      ∙ ap (◌+ℤ◌ (b *ℤ x)) (multiple_left r.quotient x);
}

pub Cong-*ℤ_left : {a b : ℤ} (x : ℤ) → Cong a b → Cong (x *ℤ a) (x *ℤ b)
Cong-*ℤ_left {a} {b} x r = rw (*ℤ_comm x a, *ℤ_comm x b) (Cong-*ℤ_right x r)

pub Cong-*ℤ : {a b c d : ℤ} → Cong a b → Cong c d → Cong (a *ℤ c) (b *ℤ d)
Cong-*ℤ {a} {b} {c} {d} r s = Cong-trans (Cong-*ℤ_right c r) (Cong-*ℤ_left b s)
