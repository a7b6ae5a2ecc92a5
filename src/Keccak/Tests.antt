-- ===== src/Keccak/Tests.antt =====
-- `keccakf` on the state of zeros, and `cn_fast_hash` on short messages.
use bitmonero.Base.{◌≡◌, refl, arith, get_or, replicate, some, [], ◌∷◌, ◌++◌, take}
use bitmonero.Keccak.{keccakf}
use bitmonero.Keccak.Sponge.{
  cn_fast_hash, hash_process, keccak, absorb, absorb_block, last_block, xor_into, words_in, rate,
}
use bitmonero.Keccak.Absorbed.{sponge, padding, cn_fast_hash-sponge}
use bitmonero.Field.{of_word}
use bitmonero.Random.{state_bytes}

first_word : get_or (keccakf (replicate 25 0) 24) 0 0 ≡ 17376452488221285863
unfolding keccakf
first_word = refl

-- Two lines of tests/hash/tests-fast.txt.
hash_of_nothing :
    cn_fast_hash []
    ≡ some (
        197 ∷ 210 ∷ 70 ∷ 1 ∷ 134 ∷ 247 ∷ 35 ∷ 60 ∷ 146 ∷ 126 ∷ 125 ∷ 178 ∷ 220 ∷ 199 ∷ 3 ∷ 192 ∷ 229
        ∷ 0 ∷ 182 ∷ 83 ∷ 202 ∷ 130 ∷ 39 ∷ 59 ∷ 123 ∷ 250 ∷ 216 ∷ 4 ∷ 93 ∷ 133 ∷ 164 ∷ 112 ∷ [])
unfolding cn_fast_hash hash_process of_word keccak absorb absorb_block last_block xor_into words_in
    rate keccakf state_bytes
hash_of_nothing = refl

hash_of_one :
    cn_fast_hash (204 ∷ [])
    ≡ some (
        238 ∷ 173 ∷ 109 ∷ 191 ∷ 199 ∷ 52 ∷ 10 ∷ 86 ∷ 202 ∷ 237 ∷ 192 ∷ 68 ∷ 105 ∷ 106 ∷ 22 ∷ 136
        ∷ 112 ∷ 84 ∷ 154 ∷ 106 ∷ 127 ∷ 111 ∷ 86 ∷ 150 ∷ 30 ∷ 132 ∷ 165 ∷ 75 ∷ 217 ∷ 151 ∷ 11 ∷ 138
        ∷ [])
unfolding cn_fast_hash hash_process of_word keccak absorb absorb_block last_block xor_into words_in
    rate keccakf state_bytes
hash_of_one = refl

cn_fast_hash-sponge_example :
    cn_fast_hash (204 ∷ [])
    ≡ some (take 32 (state_bytes (sponge 1 136 ((204 ∷ []) ++ padding 135) (replicate 25 0))))
cn_fast_hash-sponge_example = cn_fast_hash-sponge (204 ∷ []) (omega arith)
