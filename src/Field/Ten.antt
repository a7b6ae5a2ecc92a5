-- ===== src/Field/Ten.antt =====
-- Lists of ten limbs.
use bitmonero.Base.{◌≡◌, arith, List, [], ◌∷◌, length}

-- A statement about lists of ten limbs.
pub ten {κ} :
    {A : Type 0} (P : List A → Type κ) (h : List A)
    → length h ≡ 10
    → ((h0 h1 h2 h3 h4 h5 h6 h7 h8 h9 : A)
        → P (h0 ∷ h1 ∷ h2 ∷ h3 ∷ h4 ∷ h5 ∷ h6 ∷ h7 ∷ h8 ∷ h9 ∷ []))
    → P h
ten P [] e k = absurd (omega arith)
ten P (h0 ∷ []) e k = absurd (omega arith)
ten P (h0 ∷ h1 ∷ []) e k = absurd (omega arith)
ten P (h0 ∷ h1 ∷ h2 ∷ []) e k = absurd (omega arith)
ten P (h0 ∷ h1 ∷ h2 ∷ h3 ∷ []) e k = absurd (omega arith)
ten P (h0 ∷ h1 ∷ h2 ∷ h3 ∷ h4 ∷ []) e k = absurd (omega arith)
ten P (h0 ∷ h1 ∷ h2 ∷ h3 ∷ h4 ∷ h5 ∷ []) e k = absurd (omega arith)
ten P (h0 ∷ h1 ∷ h2 ∷ h3 ∷ h4 ∷ h5 ∷ h6 ∷ []) e k = absurd (omega arith)
ten P (h0 ∷ h1 ∷ h2 ∷ h3 ∷ h4 ∷ h5 ∷ h6 ∷ h7 ∷ []) e k = absurd (omega arith)
ten P (h0 ∷ h1 ∷ h2 ∷ h3 ∷ h4 ∷ h5 ∷ h6 ∷ h7 ∷ h8 ∷ []) e k = absurd (omega arith)
ten P (h0 ∷ h1 ∷ h2 ∷ h3 ∷ h4 ∷ h5 ∷ h6 ∷ h7 ∷ h8 ∷ h9 ∷ []) e k = k h0 h1 h2 h3 h4 h5 h6 h7 h8 h9
ten P (h0 ∷ h1 ∷ h2 ∷ h3 ∷ h4 ∷ h5 ∷ h6 ∷ h7 ∷ h8 ∷ h9 ∷ x ∷ r) e k = absurd (omega arith)
