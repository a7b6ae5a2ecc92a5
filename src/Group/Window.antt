-- ===== src/Group/Window.antt =====
-- Results about the loop over `b` in `slide`: what a turn of it keeps.
use native.Mathlib.Nat.{pow-suc}
use native.Mathlib.Numerals.{unary_clauses}
use bitmonero.Base.{
  ℕ, zero, suc, ◌+◌, ◌*◌, ◌%◌, ◌^◌, ◌≤◌, ◌<◌, ◌≡◌, ◌⊎◌, inl, inr, refl, ap, ◌∙◌, arith, true, false,
  Bool-cases, leb→le, leb, List, [], ◌∷◌, All, length,
}
use bitmonero.Base.Int.{
  ℤ, pos, negsuc, pos_part, neg_part, ◌+ℤ◌, ◌-ℤ◌, ◌*ℤ◌, ◌<<ℤ◌, leb_ℤ, int_laws, eq_of_parts,
}
use bitmonero.Base.Ring.{size}
use bitmonero.Field.Linear.{one_sided}
use bitmonero.Group.Slide.{set_next, skip, absorb, borrow, break, action}

abbrev pub IsBit : ℤ → Type 0
IsBit d = (d ≡ pos 0) ⊎ (d ≡ pos 1)

unfoldable pub bits_number : List ℤ → ℕ
bits_number [] = 0
bits_number (d ∷ r) = pos_part d + 2 * bits_number r

-- An odd number from -15 to 15.
unfoldable pub IsOddDigit : ℤ → Type 0
IsOddDigit d = (size d ≤ 15) × (size d % 2 ≡ 1)

set_next_lem :
    (r : List ℤ)
    → All IsBit r
    → suc (bits_number r) < 2 ^ length r
    → (bits_number (set_next r) ≡ suc (bits_number r))
      × All IsBit (set_next r)
      × (length (set_next r) ≡ length r)
unfolding set_next bits_number
set_next_lem [] h k = absurd (omega arith)
set_next_lem (pos zero ∷ r) h k = (omega arith, (inr refl, h.1), refl)
set_next_lem (pos (suc n) ∷ r) (inl e, h) k = absurd (omega (arith, ap pos_part e))
set_next_lem (pos (suc n) ∷ r) (inr e, h) k =
    let (v, b, l) = set_next_lem r h (omega (arith, pow-suc 2 (length r), ap pos_part e)) in
    (omega (arith, v, ap pos_part e), (inl refl, b), ap suc l)
set_next_lem (negsuc n ∷ r) (inl e, h) k = absurd (omega (arith, ap neg_part e))
set_next_lem (negsuc n ∷ r) (inr e, h) k = absurd (omega (arith, ap neg_part e))

pub action-skip : (x e : ℤ) → action x (pos 0) e ≡ skip
unfolding action
action-skip x e = refl

pub action_cases :
    (x e : ℤ)
    → ((action x (pos 1) e ≡ absorb) × (leb_ℤ (x +ℤ e) (pos 15) ≡ true))
      ⊎ ((action x (pos 1) e ≡ borrow)
          × (leb_ℤ (x +ℤ e) (pos 15) ≡ false)
          × (leb_ℤ (negsuc 14) (x -ℤ e) ≡ true))
      ⊎ (action x (pos 1) e ≡ break)
unfolding action
action_cases x e = elim (Bool-cases (leb_ℤ (x +ℤ e) (pos 15))) [
  | inl h ↦ inl (rw h refl, h)
  | inr h ↦ elim (Bool-cases (leb_ℤ (negsuc 14) (x -ℤ e))) [
    | inl k ↦ inr (inl (rw (h, k) refl, h, k))
    | inr k ↦ inr (inr (rw (h, k) refl))
  ]
]

-- What a run of the loop over `b` keeps: `w` is r[i] + 2 ^ b * the number behind it.
pub record IsWindow (w : ℤ) (b : ℕ) (x : ℤ) (r : List ℤ) : Type 0 where
  pub digit : IsOddDigit x
  pub bits : All IsBit r
  pub total : x +ℤ pos (bits_number r) *ℤ pos (2 ^ b) ≡ w
  pub half : 2 * bits_number r ≤ 2 ^ length r

double_out : (t p : ℕ) → p * (2 * t) ≡ (p * 2) * t
double_out t p = grind arith

-- The equations of the turns, for p = 2 ^ b.
skip_total : (x w : ℤ) (t p : ℕ) → x +ℤ pos (0 + 2 * t) *ℤ pos p ≡ w → x +ℤ pos t *ℤ pos (p * 2) ≡ w
skip_total x w t p h =
    eq_of_parts _ _ (omega (int_laws, double_out t p, ap pos_part h, ap neg_part h))

leave_total :
    (x w : ℤ) (t p : ℕ) → x +ℤ pos t *ℤ pos (p * 2) ≡ w → x +ℤ pos (0 + 2 * t) *ℤ pos p ≡ w
leave_total x w t p h =
    eq_of_parts _ _ (omega (int_laws, double_out t p, ap pos_part h, ap neg_part h))

one_plus : (t p : ℕ) → p * (1 + 2 * t) ≡ p + (p * 2) * t
one_plus t p = grind arith

absorb_total :
    (x w : ℤ) (t p : ℕ)
    → x +ℤ pos (1 + 2 * t) *ℤ pos p ≡ w
    → (x +ℤ pos 1 *ℤ pos p) +ℤ pos t *ℤ pos (p * 2) ≡ w
absorb_total x w t p h =
    eq_of_parts _ _ (omega (int_laws, one_plus t p, ap pos_part h, ap neg_part h))

plus_one : (t p : ℕ) → (p * 2) * suc t ≡ p * 2 + (p * 2) * t
plus_one t p = grind arith

borrow_total :
    (x w : ℤ) (t p : ℕ)
    → x +ℤ pos (1 + 2 * t) *ℤ pos p ≡ w
    → (x -ℤ pos 1 *ℤ pos p) +ℤ pos (suc t) *ℤ pos (p * 2) ≡ w
borrow_total x w t p h =
    eq_of_parts _ _ (omega (int_laws, one_plus t p, plus_one t p, ap pos_part h, ap neg_part h))

pow_next : (b : ℕ) → 2 ^ suc b ≡ 2 ^ b * 2
pow_next b = omega (arith, pow-suc 2 b)

even_pow : (b : ℕ) → 1 ≤ b → (m : ℕ) × (2 ^ b ≡ m * 2)
even_pow zero h = absurd (omega arith)
even_pow (suc b) h = (2 ^ b, pow_next b)

absorb_digit :
    (x e : ℤ) (m : ℕ)
    → IsOddDigit x
    → e ≡ pos (m * 2)
    → leb_ℤ (x +ℤ e) (pos 15) ≡ true
    → IsOddDigit (x +ℤ e)
unfolding IsOddDigit
absorb_digit x e m (i, j) h k =
    let l = leb→le _ _ k in
    let small : size (x +ℤ e) ≤ 15 =
      omega (int_laws, ap pos_part h, ap neg_part h, one_sided x, one_sided (x +ℤ e)) in
    let odd : size (x +ℤ e) % 2 ≡ 1 =
      omega (int_laws, ap pos_part h, ap neg_part h, one_sided x, one_sided (x +ℤ e)) in
    (small, odd)

borrow_digit :
    (x e : ℤ) (m : ℕ)
    → IsOddDigit x
    → e ≡ pos (m * 2)
    → leb_ℤ (negsuc 14) (x -ℤ e) ≡ true
    → IsOddDigit (x -ℤ e)
unfolding IsOddDigit
borrow_digit x e m (i, j) h k =
    let l = leb→le _ _ k in
    let small : size (x -ℤ e) ≤ 15 =
      omega (int_laws, ap pos_part h, ap neg_part h, one_sided x, one_sided (x -ℤ e)) in
    let odd : size (x -ℤ e) % 2 ≡ 1 =
      omega (int_laws, ap pos_part h, ap neg_part h, one_sided x, one_sided (x -ℤ e)) in
    (small, odd)

shifted : (b : ℕ) → (pos 1 <<ℤ b) ≡ pos (2 ^ b)
unfolding ◌<<ℤ◌ ◌*ℤ◌
shifted b = eq_of_parts _ _ (omega int_laws)

pub bound_next : (b n : ℕ) → 2 ^ b * 2 ^ suc n ≡ 2 ^ suc b * 2 ^ n
bound_next b n = simp unary_clauses (grind arith)

pub skip_lem :
    (w : ℤ) (b : ℕ) (x : ℤ) (r : List ℤ) → IsWindow w b x (pos 0 ∷ r) → IsWindow w (suc b) x r
unfolding bits_number
skip_lem w b x r i = record {
  digit = i.digit;
  bits = i.bits.1;
  total = rw (pow_next b) (skip_total x w (bits_number r) (2 ^ b) i.total);
  half = omega (arith, pow-suc 2 (length r), i.half);
}

leave_lem :
    (w : ℤ) (b : ℕ) (x : ℤ) (r : List ℤ) → IsWindow w (suc b) x r → IsWindow w b x (pos 0 ∷ r)
unfolding bits_number
leave_lem w b x r i = record {
  digit = i.digit;
  bits = (inl refl, i.bits);
  total = leave_total x w (bits_number r) (2 ^ b) (rw (pow_next b) at i.total);
  half = omega (arith, pow-suc 2 (length r), i.half);
}

pub absorb_lem :
    (w : ℤ) (b : ℕ) (x : ℤ) (r : List ℤ)
    → 1 ≤ b
    → leb_ℤ (x +ℤ (pos 1 <<ℤ b)) (pos 15) ≡ true
    → IsWindow w b x (pos 1 ∷ r)
    → IsWindow w (suc b) (x +ℤ (pos 1 <<ℤ b)) r
unfolding bits_number ◌<<ℤ◌
absorb_lem w b x r k h i =
    let (m, e) = even_pow b k in
    record {
      digit = absorb_digit x (pos 1 <<ℤ b) m i.digit (shifted b ∙ ap pos e) h;
      bits = i.bits.1;
      total = rw (pow_next b) (absorb_total x w (bits_number r) (2 ^ b) i.total);
      half = omega (arith, pow-suc 2 (length r), i.half);
    }

leb→gt : (a b : ℕ) → leb a b ≡ false → b < a
leb→gt a b h = ground arith

-- The loop over `k` ends at an element that is 0.
no_overflow :
    (w x e : ℤ) (p : ℕ) (r : List ℤ)
    → e ≡ pos p
    → x +ℤ pos (1 + 2 * bits_number r) *ℤ pos p ≡ w
    → 2 * (1 + 2 * bits_number r) ≤ 2 ^ suc (length r)
    → pos_part (w *ℤ pos 2) ≤ p * 2 ^ suc (length r)
    → leb_ℤ (x +ℤ e) (pos 15) ≡ false
    → leb_ℤ (negsuc 14) (x -ℤ e) ≡ true
    → (suc (bits_number r) < 2 ^ length r) × (2 * suc (bits_number r) ≤ 2 ^ length r)
unfolding bits_number
no_overflow w x e p [] d t l h i j =
    let below = leb→le _ _ j in
    let above = leb→gt _ _ i in
    absurd (
      omega (
        int_laws,
        below,
        above,
        ap pos_part d,
        ap neg_part d,
        ap pos_part t,
        ap neg_part t,
        one_sided x,
        one_sided w,
      ))
no_overflow w x e p (c ∷ r) d t l h i j =
    omega (arith, pow-suc 2 (length r), pow-suc 2 (suc (length r)))

pub borrow_lem :
    (w : ℤ) (b : ℕ) (x : ℤ) (r : List ℤ)
    → 1 ≤ b
    → pos_part (w *ℤ pos 2) ≤ 2 ^ b * 2 ^ suc (length r)
    → leb_ℤ (x +ℤ (pos 1 <<ℤ b)) (pos 15) ≡ false
    → leb_ℤ (negsuc 14) (x -ℤ (pos 1 <<ℤ b)) ≡ true
    → IsWindow w b x (pos 1 ∷ r)
    → IsWindow w (suc b) (x -ℤ (pos 1 <<ℤ b)) (set_next r) × (length (set_next r) ≡ length r)
unfolding bits_number ◌<<ℤ◌
borrow_lem w b x r k h g j i =
    let (m, e) = even_pow b k in
    let (fits, half) = no_overflow w x (pos 1 <<ℤ b) (2 ^ b) r (shifted b) i.total i.half h g j in
    let (v, c, l) = set_next_lem r i.bits.1 fits in
    (
      record {
        digit = borrow_digit x (pos 1 <<ℤ b) m i.digit (shifted b ∙ ap pos e) j;
        bits = c;
        total = rw (pow_next b, v) (borrow_total x w (bits_number r) (2 ^ b) i.total);
        half = rw (v, l) half;
      },
      l,
    )

-- The run of the loop keeps what IsWindow says, and the length of the array.
unfoldable pub Keeps : ℤ → ℕ → ℕ → ℤ × List ℤ → Type 0
Keeps w b n q = IsWindow w b q.0 q.1 × (length q.1 ≡ n)

pub leave_Keeps :
    (w : ℤ) (b n : ℕ) (q : ℤ × List ℤ) → Keeps w (suc b) n q → Keeps w b (suc n) (q.0, pos 0 ∷ q.1)
unfolding Keeps
leave_Keeps w b n q (i, l) = (leave_lem w b q.0 q.1 i, ap suc l)
