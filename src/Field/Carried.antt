-- ===== src/Field/Carried.antt =====
-- What the carries of Field.Carry do to the number of the limbs.
use bitmonero.Base.{ℕ, zero, suc, ◌≡◌, refl, ap, ◌∙◌, List, [], ◌∷◌, length, Bool, true, false}
use bitmonero.Base.Int.{ℤ, pos, ◌+ℤ◌, ◌-ℤ◌, ◌*ℤ◌, ◌>>ℤ◌, ◌<<ℤ◌, int_laws, eq_of_parts}
use bitmonero.Field.Linear.{limbs_value, fe_value}
use bitmonero.Field.Carry.{
  Carry, limb, top, other, half, carry_limb, carry_top, carry_step, carry_run,
}
use bitmonero.Field.Congruence.{Cong, Cong-trans, Cong-of_eq, Cong-refl}
use bitmonero.Field.Ten.{ten}

pub carry_limb-length : (even : Bool) (k : ℕ) (h : List ℤ) → length (carry_limb even k h) ≡ length h
unfolding carry_limb
carry_limb-length even zero [] = refl
carry_limb-length even zero (x ∷ []) = refl
carry_limb-length even zero (x ∷ y ∷ r) = refl
carry_limb-length even (suc k) [] = refl
carry_limb-length even (suc k) (x ∷ r) = ap suc (carry_limb-length (other even) k r)

carry_limb_value :
    (even : Bool) (k : ℕ) (h : List ℤ) → limbs_value even (carry_limb even k h) ≡ limbs_value even h
unfolding carry_limb limbs_value
carry_limb_value even zero [] = refl
carry_limb_value even zero (x ∷ []) = refl
carry_limb_value true zero (x ∷ y ∷ r) =
    even_carry x y ((x +ℤ pos (half true)) >>ℤ 26) (limbs_value true r)
  where
    even_carry :
        (x y c v : ℤ)
        → (x -ℤ (c <<ℤ 26)) +ℤ ((y +ℤ c) +ℤ v *ℤ pos 33554432) *ℤ pos 67108864
          ≡ x +ℤ (y +ℤ v *ℤ pos 33554432) *ℤ pos 67108864
    even_carry x y c v = eq_of_parts _ _ (omega int_laws)
carry_limb_value false zero (x ∷ y ∷ r) =
    odd_carry x y ((x +ℤ pos (half false)) >>ℤ 25) (limbs_value false r)
  where
    odd_carry :
        (x y c v : ℤ)
        → (x -ℤ (c <<ℤ 25)) +ℤ ((y +ℤ c) +ℤ v *ℤ pos 67108864) *ℤ pos 33554432
          ≡ x +ℤ (y +ℤ v *ℤ pos 67108864) *ℤ pos 33554432
    odd_carry x y c v = eq_of_parts _ _ (omega int_laws)
carry_limb_value even (suc k) [] = refl
carry_limb_value true (suc k) (x ∷ r) = rw (carry_limb_value false k r)
carry_limb_value false (suc k) (x ∷ r) = rw (carry_limb_value true k r)

carry_top_value : (h : List ℤ) → length h ≡ 10 → Cong (fe_value (carry_top h)) (fe_value h)
unfolding carry_top limbs_value
carry_top_value h n =
    ten (λ h. Cong (fe_value (carry_top h)) (fe_value h)) h n
      (λ h0 h1 h2 h3 h4 h5 h6 h7 h8 h9.
        let c = (h9 +ℤ pos (half false)) >>ℤ 25 in
        record { quotient = pos 0 -ℤ c; split = wrap c h0 h1 h2 h3 h4 h5 h6 h7 h8 h9 })
  where
    wrap :
        (c h0 h1 h2 h3 h4 h5 h6 h7 h8 h9 : ℤ)
        → fe_value
            ((h0 +ℤ c *ℤ pos 19) ∷ h1 ∷ h2 ∷ h3 ∷ h4 ∷ h5 ∷ h6 ∷ h7 ∷ h8 ∷ (h9 -ℤ (c <<ℤ 25)) ∷ [])
          ≡ fe_value (h0 ∷ h1 ∷ h2 ∷ h3 ∷ h4 ∷ h5 ∷ h6 ∷ h7 ∷ h8 ∷ h9 ∷ [])
            +ℤ (pos 0 -ℤ c)
              *ℤ pos 57896044618658097711785492504343953926634992332820282019728792003956564819949
    wrap c h0 h1 h2 h3 h4 h5 h6 h7 h8 h9 = eq_of_parts _ _ (omega int_laws)

carry_top-length : (h : List ℤ) → length h ≡ 10 → length (carry_top h) ≡ 10
unfolding carry_top
carry_top-length h n =
    ten (λ h. length (carry_top h) ≡ 10) h n (λ h0 h1 h2 h3 h4 h5 h6 h7 h8 h9. refl)

pub carry_step-length : (c : Carry) (h : List ℤ) → length h ≡ 10 → length (carry_step c h) ≡ 10
unfolding carry_step
carry_step-length (limb k) h n = carry_limb-length true k h ∙ n
carry_step-length top h n = carry_top-length h n

pub carry_run-length : (cs : List Carry) (h : List ℤ) → length h ≡ 10 → length (carry_run cs h) ≡ 10
unfolding carry_run
carry_run-length [] h n = n
carry_run-length (c ∷ cs) h n = carry_run-length cs (carry_step c h) (carry_step-length c h n)

-- Carries keep the number modulo the prime.
pub carry_run_value :
    (cs : List Carry) (h : List ℤ) → length h ≡ 10 → Cong (fe_value (carry_run cs h)) (fe_value h)
unfolding carry_run carry_step
carry_run_value [] h n = Cong-refl (fe_value h)
carry_run_value (limb k ∷ cs) h n =
    Cong-trans (carry_run_value cs (carry_limb true k h) (carry_limb-length true k h ∙ n))
      (Cong-of_eq (carry_limb_value true k h))
carry_run_value (top ∷ cs) h n =
    Cong-trans (carry_run_value cs (carry_top h) (carry_top-length h n)) (carry_top_value h n)
