-- ===== src/Keccak/Sponge.antt =====
-- src/crypto/keccak.c: the hash `keccak`, and src/crypto/hash.c: `hash_process` and `cn_fast_hash`. A
-- string of bytes read as words of 64 bits has the lowest byte of each word first.
use bitmonero.Base.{
  ℕ, zero, suc, ◌+◌, ◌-◌, ◌*◌, ◌/◌, ◌%◌, ◌^◌, bit_or, bit_xor, Option, none, some, List, [], ◌∷◌,
  ◌++◌, length, take, drop, set, get_or, replicate, leb, ◌==◌, if◌then◌else◌, ◌>>=◌,
}
use bitmonero.Base.Int.{ℤ, pos, negsuc}
use bitmonero.Base.Bytes.{le_value}
use bitmonero.Field.{of_word}
use bitmonero.Keccak.{keccakf}
use bitmonero.Random.{state_bytes}

-- `rsiz`, where sizeof(state_t) is 200 and HASH_DATA_AREA is 136.
unfoldable pub rate : ℕ → ℕ
rate mdlen = if mdlen == 200 then 136 else 200 - 2 * mdlen

-- The first n words of a string.
unfoldable pub words_in : ℕ → List ℕ → List ℕ
words_in zero b = []
words_in (suc n) b = le_value (take 8 b) ∷ words_in n (drop 8 b)

-- `for (i = 0; i < rsizw; i++) st[i] ^= …[i];` on the words of a block.
unfoldable pub xor_into : List ℕ → List ℕ → List ℕ
xor_into [] ws = []
xor_into (s ∷ st) [] = s ∷ st
xor_into (s ∷ st) (w ∷ ws) = bit_xor s w ∷ xor_into st ws

unfoldable pub absorb_block : ℕ → List ℕ → List ℕ → List ℕ
absorb_block rsiz b st = keccakf (xor_into st (words_in (rsiz / 8) b)) 24

-- The first loop, on fuel: the rest of `in`, and `st`. `inlen` is the length of `b`.
unfoldable pub absorb : ℕ → ℕ → List ℕ → List ℕ → Option (List ℕ × List ℕ)
absorb zero rsiz b st = none
absorb (suc fuel) rsiz b st =
    let rest = absorb fuel rsiz (drop rsiz b) (absorb_block rsiz b st) in
    if leb rsiz (length b) then rest else some (b, st)

-- The first `rsiz` bytes of `temp`.
unfoldable pub last_block : ℕ → List ℕ → List ℕ
last_block rsiz b =
    let temp = b ++ (1 ∷ replicate (rsiz - (length b + 1)) 0) in
    set temp (rsiz - 1) (bit_or (get_or temp (rsiz - 1) 0) 128)

-- The bytes in `md`, of the first `inlen` bytes of `b`, where inlen is an int and `b` holds as many;
-- `none` when the fuel is spent. For an inlen below 0 the loop makes no turn, and memcpy is called
-- with a count beyond all memory: the answer is `none` too.
unfoldable pub keccak : List ℕ → ℤ → ℕ → Option (List ℕ)
keccak b (negsuc n) mdlen = none
keccak b (pos inlen) mdlen = do
  (rest, st) ← absorb (inlen + 1) (rate mdlen) (take inlen b) (replicate 25 0)
  some (take mdlen (state_bytes (absorb_block (rate mdlen) (last_block (rate mdlen) rest) st)))

-- keccak1600, and hash_process: the 200 bytes of the state. The size_t `count` becomes the int that
-- has its low 32 bits.
unfoldable pub hash_process : List ℕ → Option (List ℕ)
unfolding of_word
hash_process b = keccak b (of_word (length b % 2 ^ 32)) 200

-- HASH_SIZE is 32.
unfoldable pub cn_fast_hash : List ℕ → Option (List ℕ)
cn_fast_hash b = do state ← hash_process b; some (take 32 state)
