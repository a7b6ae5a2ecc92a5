-- ===== src/Group/DoubleScalarmult.antt =====
-- src/crypto/crypto-ops.c: `ge_double_scalarmult_precomp_vartime` and
-- `ge_double_scalarmult_base_vartime`. The answer is `none` where a table is read out of its bounds.
use bitmonero.Base.{
  ℕ, zero, suc, ◌/◌, ◌||◌, Option, some, ◌>>=◌, List, [], ◌∷◌, get_elem?, if◌then◌else◌,
}
use bitmonero.Base.Int.{ℤ, pos, negsuc, holds}
use bitmonero.Group.{
  GeP2, GeP3, GeP1P1, GeCached, GePrecomp, ge_add, ge_sub, ge_madd, ge_msub, ge_p2_0, ge_p2_dbl,
  ge_p1p1_to_p2, ge_p1p1_to_p3,
}
use bitmonero.Group.Tables.{ge_dsm_precomp}
use bitmonero.Group.Slide.{slide}

-- `if (aslide[i] > 0) … else if (aslide[i] < 0) …`
unfoldable pub add_cached : List GeCached → ℤ → GeP1P1 → Option GeP1P1
add_cached table (pos zero) t = some t
add_cached table (pos (suc n)) t = do
  c ← get_elem? table (suc n / 2)
  some (ge_add (ge_p1p1_to_p3 t) c)
add_cached table (negsuc n) t = do
  c ← get_elem? table (suc n / 2)
  some (ge_sub (ge_p1p1_to_p3 t) c)

-- The same with the table `ge_Bi`.
unfoldable pub add_precomp : List GePrecomp → ℤ → GeP1P1 → Option GeP1P1
add_precomp table (pos zero) t = some t
add_precomp table (pos (suc n)) t = do
  c ← get_elem? table (suc n / 2)
  some (ge_madd (ge_p1p1_to_p3 t) c)
add_precomp table (negsuc n) t = do
  c ← get_elem? table (suc n / 2)
  some (ge_msub (ge_p1p1_to_p3 t) c)

unfoldable pub keep_digits : ℤ → ℤ → List (ℤ × ℤ) → List (ℤ × ℤ)
keep_digits d e [] = if holds d || holds e then (d, e) ∷ [] else []
keep_digits d e (p ∷ r) = (d, e) ∷ p ∷ r

-- The loop that finds the highest `i` with a digit that is not 0: the digits up to it.
unfoldable pub digits_up_to : List ℤ → List ℤ → List (ℤ × ℤ)
unfolding keep_digits
digits_up_to [] b = []
digits_up_to (d ∷ a) [] = []
digits_up_to (d ∷ a) (e ∷ b) = keep_digits d e (digits_up_to a b)

-- A turn of the second loop, where `add_b` adds the digit of `b`.
unfoldable pub double_turn :
    List GeCached → (ℤ → GeP1P1 → Option GeP1P1) → ℤ → ℤ → GeP2 → Option GeP2
double_turn ai add_b d e r = do
  t ← add_cached ai d (ge_p2_dbl r)
  t' ← add_b e t
  some (ge_p1p1_to_p2 t')

-- The second loop, from the highest digit down to the first.
unfoldable pub double_loop :
    List GeCached → (ℤ → GeP1P1 → Option GeP1P1) → List (ℤ × ℤ) → Option GeP2
double_loop ai add_b [] = some ge_p2_0
double_loop ai add_b ((d, e) ∷ l) = do r ← double_loop ai add_b l; double_turn ai add_b d e r

unfoldable pub ge_double_scalarmult_precomp_vartime :
    List ℕ → GeP3 → List ℕ → List GeCached → Option GeP2
ge_double_scalarmult_precomp_vartime a p b bi =
    double_loop (ge_dsm_precomp p) (add_cached bi) (digits_up_to (slide a) (slide b))

-- `bi` is the table `ge_Bi`.
unfoldable pub ge_double_scalarmult_base_vartime :
    List GePrecomp → List ℕ → GeP3 → List ℕ → Option GeP2
ge_double_scalarmult_base_vartime bi a p b =
    double_loop (ge_dsm_precomp p) (add_precomp bi) (digits_up_to (slide a) (slide b))
