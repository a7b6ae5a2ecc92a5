-- ===== src/Field/Trim.antt =====
-- The quotient and the carries of `fe_tobytes`, on numbers.
use bitmonero.Base.{◌/◌, ◌<◌, ◌≡◌, refl, ap, arith, Bool, true, false, List, [], ◌∷◌, length}
use bitmonero.Base.Int.{
  ℤ, pos, negsuc, pos_part, neg_part, ◌+ℤ◌, ◌-ℤ◌, ◌*ℤ◌, ◌>>ℤ◌, ◌<<ℤ◌, int_laws, eq_of_parts,
}
use bitmonero.Field.Linear.{limbs_value, one_sided}
use bitmonero.Field.Carry.{width, other}
use bitmonero.Field.Tobytes.{quotient, trim}

shift_26 :
    (x : ℤ)
    → (neg_part (x -ℤ ((x >>ℤ 26) <<ℤ 26)) ≡ 0) × (pos_part (x -ℤ ((x >>ℤ 26) <<ℤ 26)) < 67108864)
unfolding ◌>>ℤ◌
shift_26 (pos n) = let d = pos n -ℤ (pos (n / 67108864) <<ℤ 26) in omega (int_laws, one_sided d)
shift_26 (negsuc n) =
    let d = negsuc n -ℤ (negsuc (n / 67108864) <<ℤ 26) in omega (int_laws, one_sided d)

pub shift_25 :
    (x : ℤ)
    → (neg_part (x -ℤ ((x >>ℤ 25) <<ℤ 25)) ≡ 0) × (pos_part (x -ℤ ((x >>ℤ 25) <<ℤ 25)) < 33554432)
unfolding ◌>>ℤ◌
shift_25 (pos n) = let d = pos n -ℤ (pos (n / 33554432) <<ℤ 25) in omega (int_laws, one_sided d)
shift_25 (negsuc n) =
    let d = negsuc n -ℤ (negsuc (n / 33554432) <<ℤ 25) in omega (int_laws, one_sided d)

-- The limbs are in range.
abbrev pub Trimmed : Bool → List ℤ → Type 0
Trimmed even [] = Unit {0}
Trimmed true (x ∷ h) = ((neg_part x ≡ 0) × (pos_part x < 67108864)) × Trimmed false h
Trimmed false (x ∷ h) = ((neg_part x ≡ 0) × (pos_part x < 33554432)) × Trimmed true h

pub trim-Trimmed : (even : Bool) (c : ℤ) (h : List ℤ) → Trimmed even (trim even c h)
unfolding trim
trim-Trimmed even c [] = tt
trim-Trimmed true c (x ∷ h) = (shift_26 (x +ℤ c), trim-Trimmed false _ h)
trim-Trimmed false c (x ∷ h) = (shift_25 (x +ℤ c), trim-Trimmed true _ h)

pub trim-length : (even : Bool) (c : ℤ) (h : List ℤ) → length (trim even c h) ≡ length h
unfolding trim
trim-length even c [] = refl
trim-length even c (x ∷ h) = omega (arith, trim-length (other even) ((x +ℤ c) >>ℤ width even) h)

-- `v` at the place above the limbs.
unfoldable pub above : Bool → List ℤ → ℤ → ℤ
above even [] v = v
above true (x ∷ h) v = above false h v *ℤ pos 67108864
above false (x ∷ h) v = above true h v *ℤ pos 33554432

pub trim_value :
    (even : Bool) (c : ℤ) (h : List ℤ)
    → limbs_value even h +ℤ c ≡ limbs_value even (trim even c h) +ℤ above even h (quotient even c h)
unfolding trim limbs_value above quotient
trim_value even c [] = eq_of_parts _ _ (omega int_laws)
trim_value true c (x ∷ h) =
    let c' = (x +ℤ c) >>ℤ 26 in even_turn x c c' _ _ _ (trim_value false c' h)
  where
    even_turn :
        (x c c' v w a : ℤ)
        → v +ℤ c' ≡ w +ℤ a
        → (x +ℤ v *ℤ pos 67108864) +ℤ c
          ≡ ((x +ℤ c) -ℤ (c' <<ℤ 26)) +ℤ w *ℤ pos 67108864 +ℤ a *ℤ pos 67108864
    even_turn x c c' v w a e = eq_of_parts _ _ (omega (int_laws, ap pos_part e, ap neg_part e))
trim_value false c (x ∷ h) =
    let c' = (x +ℤ c) >>ℤ 25 in odd_turn x c c' _ _ _ (trim_value true c' h)
  where
    odd_turn :
        (x c c' v w a : ℤ)
        → v +ℤ c' ≡ w +ℤ a
        → (x +ℤ v *ℤ pos 33554432) +ℤ c
          ≡ ((x +ℤ c) -ℤ (c' <<ℤ 25)) +ℤ w *ℤ pos 33554432 +ℤ a *ℤ pos 33554432
    odd_turn x c c' v w a e = eq_of_parts _ _ (omega (int_laws, ap pos_part e, ap neg_part e))
