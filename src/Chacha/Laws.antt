-- ===== src/Chacha/Laws.antt =====
-- Results about `chacha8`.
use bitmonero.Base.{ℕ, ◌*◌, ◌≤◌, ◌≡◌, refl, sym, arith}
use bitmonero.Base.{List, length, Bool-cases, inl, inr, ◌==◌}
use bitmonero.Base.Bytes.{IsBytes}
use bitmonero.Chacha.{chacha8, first_words}
use bitmonero.Chacha.Words.{zip_xor, zip_xor-nil, zip_xor-length, zip_xor-IsBytes, zip_xor_cancel}
use bitmonero.Chacha.Stream.{blocks, loop_blocks, blocks-length, blocks-IsBytes, first_words-length}
use bitmonero.Chacha.Counter.{words_at, key_stream, blocks-key_stream}

first_words_at : (key iv : List ℕ) → words_at key iv 0 ≡ first_words key iv
unfolding words_at first_words
first_words_at key iv = refl

first_words-blocks :
    (key iv : List ℕ) (n : ℕ) → blocks n (first_words key iv) ≡ key_stream key iv n 0
first_words-blocks key iv n = rw (← first_words_at key iv) (blocks-key_stream key iv n 0)

key_stream-length : (key iv : List ℕ) (n : ℕ) → length (key_stream key iv n 0) ≡ 64 * n
key_stream-length key iv n =
    rw (← first_words-blocks key iv n)
      (blocks-length n (first_words key iv) (first_words-length key iv))

key_stream-IsBytes : (key iv : List ℕ) (n : ℕ) → IsBytes (key_stream key iv n 0)
key_stream-IsBytes key iv n =
    rw (← first_words-blocks key iv n) (blocks-IsBytes n (first_words key iv))

-- For a buffer of 64 bytes and any byte string, the cipher text is the data, each byte xored with
-- the byte of the key stream at its place, whose block number i has the number i as its counter.
pub chacha8-key_stream :
    (tmp d key iv : List ℕ)
    → IsBytes tmp
    → length tmp ≡ 64
    → IsBytes d
    → chacha8 tmp d key iv ≡ zip_xor (key_stream key iv (length d) 0) d
unfolding chacha8
chacha8-key_stream tmp d key iv ht lt hd = elim (Bool-cases (length d == 0)) [
  | inl h ↦ rw h (sym (zip_xor-nil (key_stream key iv (length d) 0) d (ground arith)))
  | inr h ↦
      rw (h, ← first_words-blocks key iv (length d))
        (loop_blocks tmp (length d) (first_words key iv) d ht lt (first_words-length key iv) hd
          (omega arith))
]

-- For buffers of 64 bytes and any byte string, the same key and iv turn the cipher text back into
-- the data, whatever bytes stand in the two buffers.
pub chacha8_twice :
    (tmp tmp' d key iv : List ℕ)
    → IsBytes tmp
    → length tmp ≡ 64
    → IsBytes tmp'
    → length tmp' ≡ 64
    → IsBytes d
    → chacha8 tmp' (chacha8 tmp d key iv) key iv ≡ d
chacha8_twice tmp tmp' d key iv ht lt ht' lt' hd =
    let k = key_stream key iv (length d) 0 in
    let enough : length d ≤ length k = omega (arith, key_stream-length key iv (length d)) in
    let bytes = zip_xor-IsBytes k d (key_stream-IsBytes key iv (length d)) hd in
    rw
      (
        chacha8-key_stream tmp d key iv ht lt hd,
        chacha8-key_stream tmp' (zip_xor k d) key iv ht' lt' bytes,
        zip_xor-length k d enough,
      )
      (zip_xor_cancel k d enough)
