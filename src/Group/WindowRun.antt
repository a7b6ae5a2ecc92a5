-- ===== src/Group/WindowRun.antt =====
-- Results about the loop over `b` in `slide`, and its whole run.
use bitmonero.Base.{
  ℕ, zero, suc, ◌*◌, ◌^◌, ◌≤◌, ◌≡◌, inl, inr, refl, sym, subst, arith, List, [], ◌∷◌, length,
}
use bitmonero.Base.Int.{ℤ, pos, pos_part, ◌+ℤ◌, ◌-ℤ◌, ◌*ℤ◌, ◌<<ℤ◌}
use bitmonero.Group.Slide.{set_next, absorb, borrow, break, action, window}
use bitmonero.Group.Window.{
  IsWindow, Keeps, action_cases, skip_lem, absorb_lem, borrow_lem, leave_Keeps, bound_next,
}

window-skip :
    (n b : ℕ) (x : ℤ) (r : List ℤ)
    → window (suc n) b x (pos 0 ∷ r) ≡ ((window n (suc b) x r).0, pos 0 ∷ (window n (suc b) x r).1)
unfolding window action
window-skip n b x r = refl

window-absorb :
    (n b : ℕ) (x : ℤ) (r : List ℤ)
    → action x (pos 1) (pos 1 <<ℤ b) ≡ absorb
    → window (suc n) b x (pos 1 ∷ r) ≡ (
      (window n (suc b) (x +ℤ (pos 1 <<ℤ b)) r).0,
      pos 0 ∷ (window n (suc b) (x +ℤ (pos 1 <<ℤ b)) r).1,
    )
unfolding window
window-absorb n b x r a = rw (window, a) refl

window-borrow :
    (n b : ℕ) (x : ℤ) (r : List ℤ)
    → action x (pos 1) (pos 1 <<ℤ b) ≡ borrow
    → window (suc n) b x (pos 1 ∷ r) ≡ (
      (window n (suc b) (x -ℤ (pos 1 <<ℤ b)) (set_next r)).0,
      pos 0 ∷ (window n (suc b) (x -ℤ (pos 1 <<ℤ b)) (set_next r)).1,
    )
unfolding window
window-borrow n b x r a = rw (window, a) refl

window-break :
    (n b : ℕ) (x : ℤ) (r : List ℤ)
    → action x (pos 1) (pos 1 <<ℤ b) ≡ break
    → window (suc n) b x (pos 1 ∷ r) ≡ (x, pos 1 ∷ r)
unfolding window
window-break n b x r a = rw (window, a) refl

window-zero : (b : ℕ) (x : ℤ) (r : List ℤ) → window 0 b x r ≡ (x, r)
unfolding window
window-zero b x r = refl

window_end : (n b : ℕ) (x : ℤ) → window (suc n) b x [] ≡ (x, [])
unfolding window
window_end n b x = refl

pub window_lem :
    (n b : ℕ) (x w : ℤ) (r : List ℤ)
    → pos_part (w *ℤ pos 2) ≤ 2 ^ b * 2 ^ length r
    → 1 ≤ b
    → IsWindow w b x r
    → Keeps w b (length r) (window n b x r)
unfolding Keeps
window_lem zero b x w r h k i = rw (window-zero b x r) (i, refl)
window_lem (suc n) b x w [] h k i = rw (window_end n b x) (i, refl)
window_lem (suc n) b x w (d ∷ r) h k i =
    let h' = rw (bound_next b (length r)) at h in
    elim i.bits.0 [
      | inl z ↦
          let i' = skip_lem w b x r (subst (λ d. IsWindow w b x (d ∷ r)) z i) in
          let rest = window_lem n (suc b) x w r h' (omega arith) i' in
          subst (λ d. Keeps w b (suc (length r)) (window (suc n) b x (d ∷ r))) (sym z)
            (rw (window-skip n b x r) (leave_Keeps w b (length r) (window n (suc b) x r) rest))
      | inr z ↦
          let i' = subst (λ d. IsWindow w b x (d ∷ r)) z i in
          let e = pos 1 <<ℤ b in
          subst (λ d. Keeps w b (suc (length r)) (window (suc n) b x (d ∷ r))) (sym z)
            (elim (action_cases x e) [
              | inl (a, g) ↦
                  let rest =
                    window_lem n (suc b) (x +ℤ e) w r h' (omega arith)
                      (absorb_lem w b x r k g i') in
                  rw (window-absorb n b x r a)
                    (leave_Keeps w b (length r) (window n (suc b) (x +ℤ e) r) rest)
              | inr (inl (a, g, j)) ↦
                  let (i2, l) = borrow_lem w b x r k h g j i' in
                  let h2 = rw (sym l) at h' in
                  let rest = window_lem n (suc b) (x -ℤ e) w (set_next r) h2 (omega arith) i2 in
                  rw (window-borrow n b x r a) (
                    leave_Keeps w b (length r) (window n (suc b) (x -ℤ e) (set_next r))
                      (rw l at rest))
              | inr (inr a) ↦ rw (window-break n b x r a) (i', refl)
            ])
    ]
