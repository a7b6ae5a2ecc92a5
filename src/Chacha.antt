-- ===== src/Chacha.antt =====
-- src/crypto/chacha8.c: the stream cipher ChaCha with eight rounds. The words of a block are a
-- list of sixteen numbers below 2 ^ 32, and the byte strings are lists.
pub mod Words
pub mod Stream
pub mod Counter
pub mod Laws
mod Tests
use bitmonero.Base.{ℕ, zero, suc, ◌+◌, ◌-◌, ◌*◌, ◌/◌, ◌%◌, ◌^◌, bit_or, bit_xor}
use bitmonero.Base.{
  List, [], ◌∷◌, ◌++◌, get_or, set, take, drop, length, ltb, leb, ◌==◌, if◌then◌else◌,
}

-- `rol32` of src/common/int-util.h.
unfoldable pub rol32 : ℕ → ℕ → ℕ
rol32 x r = bit_or (x * 2 ^ (r % 32) % 2 ^ 32) (x / 2 ^ ((32 - r % 32) % 32))

-- The word in the first four bytes of `s`, lowest byte first, and the four bytes of a word.
unfoldable pub u8to32_little : List ℕ → ℕ
u8to32_little s =
    get_or s 0 0 + (256 * get_or s 1 0 + (65536 * get_or s 2 0 + 16777216 * get_or s 3 0))

unfoldable pub u32to8_little : ℕ → List ℕ
u32to8_little v = (v % 256) ∷ (v / 256 % 256) ∷ (v / 65536 % 256) ∷ (v / 16777216 % 256) ∷ []

unfoldable pub plus : ℕ → ℕ → ℕ
plus v w = (v + w) % 2 ^ 32

-- One line of QUARTERROUND: x[i] = PLUS(x[i],x[j]); x[k] = ROTATE(XOR(x[k],x[i]),r);
unfoldable pub mix : ℕ → ℕ → ℕ → ℕ → List ℕ → List ℕ
unfolding plus rol32
mix i j k r x =
    let y = set x i (plus (get_or x i 0) (get_or x j 0)) in
    set y k (rol32 (bit_xor (get_or y k 0) (get_or y i 0)) r)

unfoldable pub quarterround : ℕ → ℕ → ℕ → ℕ → List ℕ → List ℕ
unfolding mix
quarterround a b c d x = mix c d b 7 (mix a b d 8 (mix c d b 12 (mix a b d 16 x)))

-- The body of `for (i = 8;i > 0;i -= 2)`.
unfoldable pub double_round : List ℕ → List ℕ
unfolding quarterround
double_round x =
    let columns =
      quarterround 3 7 11 15
        (quarterround 2 6 10 14 (quarterround 1 5 9 13 (quarterround 0 4 8 12 x))) in
    quarterround 3 4 9 14
      (quarterround 2 7 8 13 (quarterround 1 6 11 12 (quarterround 0 5 10 15 columns)))

unfoldable pub rounds : ℕ → List ℕ → List ℕ
unfolding double_round
rounds zero x = x
rounds (suc n) x = rounds n (double_round x)

unfoldable pub add_words : List ℕ → List ℕ → List ℕ
unfolding plus
add_words [] j = []
add_words (x ∷ r) [] = []
add_words (x ∷ r) (y ∷ j) = plus x y ∷ add_words r j

-- x0 … x15 before the data are mixed in.
unfoldable pub block_words : List ℕ → List ℕ
unfolding rounds add_words
block_words j = add_words (rounds 4 j) j

-- `x = XOR(x, U8TO32_LITTLE(data + 4 * i)); U32TO8_LITTLE(cipher + 4 * i, x)` for each word.
unfoldable pub write_words : List ℕ → List ℕ → List ℕ
unfolding u32to8_little u8to32_little
write_words [] d = []
write_words (x ∷ r) d = u32to8_little (bit_xor x (u8to32_little d)) ++ write_words r (drop 4 d)

-- j12 = PLUSONE(j12); if (!j12) j13 = PLUSONE(j13);
unfoldable pub next_block : List ℕ → List ℕ
unfolding plus
next_block j =
    let j' = set j 12 (plus (get_or j 12 0) 1) in
    if get_or j' 12 0 == 0 then set j' 13 (plus (get_or j' 13 0) 1) else j'

-- j0 … j15: "expand 32-byte k", the key, the counter and the iv.
unfoldable pub first_words : List ℕ → List ℕ → List ℕ
unfolding u8to32_little
first_words key iv =
    let sigma : List ℕ =
      101 ∷ 120 ∷ 112 ∷ 97 ∷ 110 ∷ 100 ∷ 32 ∷ 51 ∷ 50 ∷ 45 ∷ 98 ∷ 121 ∷ 116 ∷ 101 ∷ 32 ∷ 107 ∷ [] in
    u8to32_little sigma
    ∷ u8to32_little (drop 4 sigma)
    ∷ u8to32_little (drop 8 sigma)
    ∷ u8to32_little (drop 12 sigma)
    ∷ u8to32_little key
    ∷ u8to32_little (drop 4 key)
    ∷ u8to32_little (drop 8 key)
    ∷ u8to32_little (drop 12 key)
    ∷ u8to32_little (drop 16 key)
    ∷ u8to32_little (drop 20 key)
    ∷ u8to32_little (drop 24 key)
    ∷ u8to32_little (drop 28 key)
    ∷ 0
    ∷ 0
    ∷ u8to32_little iv
    ∷ u8to32_little (drop 4 iv)
    ∷ []

-- The endless loop, on fuel: a short last block goes through `tmp`, whose bytes behind the data
-- are whatever stood there.
unfoldable pub chacha_loop : List ℕ → ℕ → List ℕ → List ℕ → List ℕ
unfolding block_words write_words next_block
chacha_loop tmp zero j d = []
chacha_loop tmp (suc fuel) j d =
    let rest = chacha_loop tmp fuel (next_block j) (drop 64 d) in
    let n = length d in
    if ltb n 64
    then take n (write_words (block_words j) (d ++ drop n tmp))
    else write_words (block_words j) (take 64 d) ++ (if leb n 64 then [] else rest)

unfoldable pub chacha8 : List ℕ → List ℕ → List ℕ → List ℕ → List ℕ
unfolding chacha_loop first_words
chacha8 tmp d key iv =
    if length d == 0 then [] else chacha_loop tmp (length d) (first_words key iv) d
