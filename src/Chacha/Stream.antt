-- ===== src/Chacha/Stream.antt =====
-- The loop of `chacha8` and the bytes of its blocks.
use bitmonero.Base.{
  ℕ, zero, suc, ◌*◌, ◌<◌, ◌≤◌, ◌≡◌, refl, sym, arith, ap, ◌∙◌, Bool-cases, ltb→lt, leb→le, inl, inr,
}
use bitmonero.Base.{
  List, [], ◌∷◌, ◌++◌, get_or, set, take, drop, length, ltb, leb, ◌==◌, if◌then◌else◌,
}
use bitmonero.Base.{length-set, length-take, length-drop, length-append}
use bitmonero.Base.Bytes.{IsBytes, drop-IsBytes, take-IsBytes}
use bitmonero.Chacha.{
  plus, chacha_loop, first_words, block_words, next_block, write_words, mix, quarterround,
  double_round, rounds, add_words,
}
use bitmonero.Chacha.Words.{
  zip_xor, words_bytes, write_words-zip_xor, words_bytes-length, words_bytes-IsBytes,
}
use bitmonero.Chacha.Words.{zip_xor-nil, take-zip_xor, zip_xor-append}

-- The bytes of `n` blocks, the counter of the first one in `j`.
unfoldable pub blocks : ℕ → List ℕ → List ℕ
unfolding words_bytes block_words next_block
blocks zero j = []
blocks (suc n) j = words_bytes (block_words j) ++ blocks n (next_block j)

mix-length : (i j k r : ℕ) (x : List ℕ) → length (mix i j k r x) ≡ length x
unfolding mix
mix-length i j k r x = length-set (set x i _) k _ ∙ length-set x i _

quarterround-length : (a b c d : ℕ) (x : List ℕ) → length (quarterround a b c d x) ≡ length x
unfolding quarterround
quarterround-length a b c d x =
    mix-length c d b 7 _ ∙ mix-length a b d 8 _ ∙ mix-length c d b 12 _ ∙ mix-length a b d 16 x

double_round-length : (x : List ℕ) → length (double_round x) ≡ length x
unfolding double_round
double_round-length x =
    quarterround-length 3 4 9 14 _
    ∙ quarterround-length 2 7 8 13 _
    ∙ quarterround-length 1 6 11 12 _
    ∙ quarterround-length 0 5 10 15 _
    ∙ quarterround-length 3 7 11 15 _
    ∙ quarterround-length 2 6 10 14 _
    ∙ quarterround-length 1 5 9 13 _
    ∙ quarterround-length 0 4 8 12 x

rounds-length : (n : ℕ) (x : List ℕ) → length (rounds n x) ≡ length x
unfolding rounds
rounds-length zero x = refl
rounds-length (suc n) x = rounds-length n (double_round x) ∙ double_round-length x

add_words-length : (x j : List ℕ) → length x ≡ length j → length (add_words x j) ≡ length j
unfolding add_words
add_words-length [] j h = h
add_words-length (x ∷ r) [] h = refl
add_words-length (x ∷ r) (y ∷ j) h = ap suc (add_words-length r j (omega arith))

block_words-length : (j : List ℕ) → length (block_words j) ≡ length j
unfolding block_words
block_words-length j = add_words-length (rounds 4 j) j (rounds-length 4 j)

next_block-length : (j : List ℕ) → length (next_block j) ≡ length j
unfolding next_block
next_block-length j = elim (Bool-cases (get_or (set j 12 (plus (get_or j 12 0) 1)) 12 0 == 0)) [
  | inl h ↦ rw h (length-set (set j 12 _) 13 _ ∙ length-set j 12 _)
  | inr h ↦ rw h (length-set j 12 _)
]

pub blocks-length : (n : ℕ) (j : List ℕ) → length j ≡ 16 → length (blocks n j) ≡ 64 * n
unfolding blocks
blocks-length zero j h = refl
blocks-length (suc n) j h = omega (
  arith,
  length-append (words_bytes (block_words j)) (blocks n (next_block j)),
  words_bytes-length (block_words j),
  block_words-length j,
  blocks-length n (next_block j) (next_block-length j ∙ h),
)

append-IsBytes : (s t : List ℕ) → IsBytes s → IsBytes t → IsBytes (s ++ t)
append-IsBytes [] t h k = k
append-IsBytes (x ∷ s) t h k = (h.0, append-IsBytes s t h.1 k)

pub blocks-IsBytes : (n : ℕ) (j : List ℕ) → IsBytes (blocks n j)
unfolding blocks
blocks-IsBytes zero j = tt
blocks-IsBytes (suc n) j =
    append-IsBytes (words_bytes (block_words j)) (blocks n (next_block j))
      (words_bytes-IsBytes (block_words j)) (blocks-IsBytes n (next_block j))

short_block :
    (tmp j d r : List ℕ)
    → IsBytes tmp
    → length tmp ≡ 64
    → length j ≡ 16
    → IsBytes d
    → length d < 64
    → take (length d) (write_words (block_words j) (d ++ drop (length d) tmp))
      ≡ zip_xor (words_bytes (block_words j) ++ r) d
short_block tmp j d r ht lt lj hd n =
    let n' = length d in
    let lb : length (block_words j) ≡ 16 = block_words-length j ∙ lj in
    rw
      (write_words-zip_xor (block_words j) (d ++ drop n' tmp)
        (append-IsBytes d (drop n' tmp) hd (drop-IsBytes n' tmp ht))
        (omega (arith, length-append d (drop n' tmp), length-drop n' tmp)))
      (take-zip_xor (words_bytes (block_words j)) r d (drop n' tmp)
        (omega (arith, words_bytes-length (block_words j))))

full_block :
    (j d r : List ℕ)
    → length j ≡ 16
    → IsBytes d
    → 64 ≤ length d
    → write_words (block_words j) (take 64 d) ++ zip_xor r (drop 64 d)
      ≡ zip_xor (words_bytes (block_words j) ++ r) d
full_block j d r lj hd n =
    let w = words_bytes (block_words j) in
    let lb : length (block_words j) ≡ 16 = block_words-length j ∙ lj in
    let lw : length w ≡ 64 = words_bytes-length (block_words j) ∙ ap (λ (t : ℕ). 4 * t) lb in
    let s = zip_xor-append w r d (omega arith) in
    rw
      (write_words-zip_xor (block_words j) (take 64 d) (take-IsBytes 64 d hd)
        (omega (arith, length-take 64 d)))
      (sym (rw lw at s))

behind :
    (r d : List ℕ) {rest : List ℕ}
    → rest ≡ zip_xor r (drop 64 d)
    → (if leb (length d) 64 then [] else rest) ≡ zip_xor r (drop 64 d)
behind r d h = elim (Bool-cases (leb (length d) 64)) [
  | inl n ↦
      rw n
        (sym (zip_xor-nil r (drop 64 d) (omega (arith, length-drop 64 d, leb→le (length d) 64 n))))
  | inr n ↦ rw n h
]

pub first_words-length : (key iv : List ℕ) → length (first_words key iv) ≡ 16
unfolding first_words
first_words-length key iv = refl

-- The loop, on data of at most `64 * fuel` bytes.
pub loop_blocks :
    (tmp : List ℕ) (fuel : ℕ) (j d : List ℕ)
    → IsBytes tmp
    → length tmp ≡ 64
    → length j ≡ 16
    → IsBytes d
    → length d ≤ 64 * fuel
    → chacha_loop tmp fuel j d ≡ zip_xor (blocks fuel j) d
unfolding chacha_loop blocks
loop_blocks tmp zero j d ht lt lj hd n = sym (zip_xor-nil [] d (omega arith))
loop_blocks tmp (suc fuel) j d ht lt lj hd n =
    let rest =
      loop_blocks tmp fuel (next_block j) (drop 64 d) ht lt (next_block-length j ∙ lj)
        (drop-IsBytes 64 d hd) (omega (arith, length-drop 64 d)) in
    elim (Bool-cases (ltb (length d) 64)) [
      | inl h ↦
          rw h
            (short_block tmp j d (blocks fuel (next_block j)) ht lt lj hd (ltb→lt (length d) 64 h))
      | inr h ↦
          rw (h, behind (blocks fuel (next_block j)) d rest)
            (full_block j d (blocks fuel (next_block j)) lj hd (ground arith))
    ]
