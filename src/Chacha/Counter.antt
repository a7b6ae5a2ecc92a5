-- ===== src/Chacha/Counter.antt =====
-- The key stream by block numbers.
use bitmonero.Base.{ℕ, zero, suc, ◌+◌, ◌/◌, ◌%◌, ◌^◌, ◌≡◌, refl, arith}
use bitmonero.Base.{List, [], ◌++◌, set, ◌==◌, Bool-cases, inl, inr}
use bitmonero.Chacha.{plus, first_words, block_words, next_block}
use bitmonero.Chacha.Words.{words_bytes}
use bitmonero.Chacha.Stream.{blocks}

-- The words of block number `i`: the number is in words 12 and 13, of 64 bits in all.
unfoldable pub words_at : List ℕ → List ℕ → ℕ → List ℕ
unfolding first_words
words_at key iv i = set (set (first_words key iv) 12 (i % 2 ^ 32)) 13 (i / 2 ^ 32 % 2 ^ 32)

-- The bytes of `n` blocks, from number `i` on.
unfoldable pub key_stream : List ℕ → List ℕ → ℕ → ℕ → List ℕ
unfolding words_bytes block_words words_at
key_stream key iv zero i = []
key_stream key iv (suc n) i =
    words_bytes (block_words (words_at key iv i)) ++ key_stream key iv n (suc i)

words_at-next_block :
    (key iv : List ℕ) (i : ℕ) → next_block (words_at key iv i) ≡ words_at key iv (suc i)
unfolding words_at next_block first_words plus
words_at-next_block key iv i = elim (Bool-cases ((i % 2 ^ 32 + 1) % 2 ^ 32 == 0)) [
  | inl h ↦
      let z : (i % 2 ^ 32 + 1) % 2 ^ 32 ≡ 0 = ground arith in
      let low : (i % 2 ^ 32 + 1) % 2 ^ 32 ≡ suc i % 2 ^ 32 = omega arith in
      let high : (i / 2 ^ 32 % 2 ^ 32 + 1) % 2 ^ 32 ≡ suc i / 2 ^ 32 % 2 ^ 32 = omega arith in
      rw (h, low, high)
  | inr h ↦
      let z : suc zero ≡ 1 = refl in
      let low : (i % 2 ^ 32 + 1) % 2 ^ 32 ≡ suc i % 2 ^ 32 = omega arith in
      let high : i / 2 ^ 32 % 2 ^ 32 ≡ suc i / 2 ^ 32 % 2 ^ 32 = ground arith in rw (h, low, high)
]

pub blocks-key_stream :
    (key iv : List ℕ) (n i : ℕ) → blocks n (words_at key iv i) ≡ key_stream key iv n i
unfolding blocks key_stream
blocks-key_stream key iv zero i = refl
blocks-key_stream key iv (suc n) i =
    rw (words_at-next_block key iv i, blocks-key_stream key iv n (suc i))
