-- ===== src/Keccak.antt =====
-- src/crypto/keccak.c: the permutation `keccakf`, on a list of 25 words of 64 bits.
pub mod Length
pub mod Sponge
pub mod Absorbed
mod Tests
use bitmonero.Base.{ℕ, zero, suc, ◌+◌, ◌-◌, ◌*◌, ◌/◌, ◌%◌, ◌^◌, bit_or, bit_xor, bit_and}
use bitmonero.Base.{List, [], ◌∷◌, get_or, set, take}

abbrev keccakf_rndc : List ℕ
keccakf_rndc =
    1 ∷ 32898 ∷ 9223372036854808714 ∷ 9223372039002292224 ∷ 32907 ∷ 2147483649 ∷ 9223372039002292353
    ∷ 9223372036854808585 ∷ 138 ∷ 136 ∷ 2147516425 ∷ 2147483658 ∷ 2147516555 ∷ 9223372036854775947
    ∷ 9223372036854808713 ∷ 9223372036854808579 ∷ 9223372036854808578 ∷ 9223372036854775936 ∷ 32778
    ∷ 9223372039002259466 ∷ 9223372039002292353 ∷ 9223372036854808704 ∷ 2147483649
    ∷ 9223372039002292232 ∷ []

abbrev keccakf_rotc : List ℕ
keccakf_rotc =
    1 ∷ 3 ∷ 6 ∷ 10 ∷ 15 ∷ 21 ∷ 28 ∷ 36 ∷ 45 ∷ 55 ∷ 2 ∷ 14 ∷ 27 ∷ 41 ∷ 56 ∷ 8 ∷ 25 ∷ 43 ∷ 62 ∷ 18
    ∷ 39 ∷ 61 ∷ 20 ∷ 44 ∷ []

abbrev keccakf_piln : List ℕ
keccakf_piln =
    10 ∷ 7 ∷ 11 ∷ 17 ∷ 18 ∷ 3 ∷ 5 ∷ 16 ∷ 8 ∷ 21 ∷ 24 ∷ 4 ∷ 15 ∷ 23 ∷ 19 ∷ 13 ∷ 12 ∷ 2 ∷ 20 ∷ 14 ∷ 22
    ∷ 9 ∷ 6 ∷ 1 ∷ []

-- ROTL64.
unfoldable pub rotl64 : ℕ → ℕ → ℕ
rotl64 x y = bit_or (x * 2 ^ y % 2 ^ 64) (x / 2 ^ (64 - y))

-- f(i), f(i + 1), …, `n` words.
unfoldable pub words_from : ℕ → ℕ → (ℕ → ℕ) → List ℕ
words_from i zero f = []
words_from i (suc n) f = f i ∷ words_from (suc i) n f

-- bc[i] in Theta.
unfoldable pub column : List ℕ → ℕ → ℕ
column st i =
    bit_xor
      (bit_xor (bit_xor (bit_xor (get_or st i 0) (get_or st (i + 5) 0)) (get_or st (i + 10) 0))
        (get_or st (i + 15) 0))
      (get_or st (i + 20) 0)

unfoldable pub theta : List ℕ → List ℕ
unfolding words_from column rotl64
theta st = words_from 0 25 (λ p.
    bit_xor (get_or st p 0)
      (bit_xor (column st ((p % 5 + 4) % 5)) (rotl64 (column st ((p % 5 + 1) % 5)) 1)))

-- The loop of Rho Pi, `t` as the turn before left it.
unfoldable pub rho_pi : ℕ → List ℕ → List ℕ → List ℕ → List ℕ
unfolding rotl64
rho_pi t [] rot st = st
rho_pi t (j ∷ pil) [] st = st
rho_pi t (j ∷ pil) (r ∷ rot) st = rho_pi (get_or st j 0) pil rot (set st j (rotl64 t r))

-- ~x is 2 ^ 64 - 1 - x.
unfoldable pub chi : List ℕ → List ℕ
unfolding words_from
chi st = words_from 0 25 (λ p. bit_xor (get_or st p 0) (
    bit_and (2 ^ 64 - 1 - get_or st (p / 5 * 5 + (p % 5 + 1) % 5) 0)
      (get_or st (p / 5 * 5 + (p % 5 + 2) % 5) 0)))

unfoldable pub one_round : ℕ → List ℕ → List ℕ
unfolding theta rho_pi chi
one_round c st =
    let th = theta st in
    let ch = chi (rho_pi (get_or th 1 0) keccakf_piln keccakf_rotc th) in
    set ch 0 (bit_xor (get_or ch 0 0) c)

unfoldable pub all_rounds : List ℕ → List ℕ → List ℕ
unfolding one_round
all_rounds [] st = st
all_rounds (c ∷ r) st = all_rounds r (one_round c st)

unfoldable pub keccakf : List ℕ → ℕ → List ℕ
unfolding all_rounds
keccakf st rounds = all_rounds (take rounds keccakf_rndc) st
