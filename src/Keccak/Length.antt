-- ===== src/Keccak/Length.antt =====
-- The number of words of the state.
use bitmonero.Base.{get_or, bit_xor, ℕ, ◌≡◌, refl, ◌∙◌, List, [], ◌∷◌, length, length-set, take}
use bitmonero.Keccak.{
  keccakf_rndc, keccakf_rotc, keccakf_piln, words_from, theta, rho_pi, chi, one_round, all_rounds,
  keccakf,
}

chi-length : (st : List ℕ) → length (chi st) ≡ 25
unfolding chi words_from
chi-length st = refl

one_round-length : (c : ℕ) (st : List ℕ) → length (one_round c st) ≡ 25
unfolding one_round
one_round-length c st =
    let th = theta st in
    let ch = chi (rho_pi (get_or th 1 0) keccakf_piln keccakf_rotc th) in
    length-set ch 0 (bit_xor (get_or ch 0 0) c)
    ∙ chi-length (rho_pi (get_or th 1 0) keccakf_piln keccakf_rotc th)

all_rounds-length : (r st : List ℕ) → length st ≡ 25 → length (all_rounds r st) ≡ 25
unfolding all_rounds
all_rounds-length [] st h = h
all_rounds-length (c ∷ r) st h = all_rounds-length r (one_round c st) (one_round-length c st)

pub keccakf-length : (st : List ℕ) (rounds : ℕ) → length st ≡ 25 → length (keccakf st rounds) ≡ 25
unfolding keccakf
keccakf-length st rounds h = all_rounds-length (take rounds keccakf_rndc) st h
