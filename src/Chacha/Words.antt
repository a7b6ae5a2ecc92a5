-- ===== src/Chacha/Words.antt =====
-- The bytes of words, and the xor of byte strings that `write_words` amounts to.
use bitmonero.Base.{ℕ, zero, suc, ◌+◌, ◌*◌, ◌/◌, ◌%◌, ◌^◌, ◌≤◌, ◌≡◌, refl, sym, arith, ap, ap₂, ◌∙◌}
use bitmonero.Base.{List, [], ◌∷◌, ◌++◌, take, drop, length, bit_xor}
use bitmonero.Base.Bits.{xor_fields, xor_cancel_left, xor_halves, bit_xor-lt}
use bitmonero.Base.Bytes.{IsBytes}
use bitmonero.Chacha.{u8to32_little, u32to8_little, write_words}
use native.Mathlib.Nat.{pow-succ', div-div-eq-div-mul}

-- Byte by byte, as long as both last.
unfoldable pub zip_xor : List ℕ → List ℕ → List ℕ
zip_xor [] s = []
zip_xor (x ∷ r) [] = []
zip_xor (x ∷ r) (y ∷ s) = bit_xor x y ∷ zip_xor r s

unfoldable pub words_bytes : List ℕ → List ℕ
unfolding u32to8_little
words_bytes [] = []
words_bytes (x ∷ r) = u32to8_little x ++ words_bytes r

bit_xor-shift : (k x w : ℕ) → bit_xor x w / 2 ^ k ≡ bit_xor (x / 2 ^ k) (w / 2 ^ k)
bit_xor-shift zero x w =
    let e : x / 2 ^ 0 ≡ x = omega arith in
    let f : w / 2 ^ 0 ≡ w = omega arith in rw (e, f) (omega arith)
bit_xor-shift (suc k) x w =
    rw
      (
        pow-succ' 2 k,
        ← div-div-eq-div-mul (bit_xor x w) 2 (2 ^ k),
        ← div-div-eq-div-mul x 2 (2 ^ k),
        ← div-div-eq-div-mul w 2 (2 ^ k),
        (xor_halves x w).0,
      )
      (bit_xor-shift k (x / 2) (w / 2))

bit_xor-byte : (x w : ℕ) → bit_xor x w % 256 ≡ bit_xor (x % 256) (w % 256)
bit_xor-byte x w =
    let e : x % 256 + x / 256 * 2 ^ 8 ≡ x = omega arith in
    let f : w % 256 + w / 256 * 2 ^ 8 ≡ w = omega arith in
    let s = xor_fields 8 (x % 256) (x / 256) (w % 256) (w / 256) (omega arith) (omega arith) in
    omega (arith, rw (e, f) at s, bit_xor-lt 8 (x % 256) (w % 256) (omega arith) (omega arith))

-- The byte above `k` bits of a word.
byte_xor : (k x w : ℕ) → bit_xor x w / 2 ^ k % 256 ≡ bit_xor (x / 2 ^ k % 256) (w / 2 ^ k % 256)
byte_xor k x w = rw (bit_xor-shift k x w) (bit_xor-byte (x / 2 ^ k) (w / 2 ^ k))

byte_xor_at :
    (k x w b : ℕ) → w / 2 ^ k % 256 ≡ b → bit_xor x w / 2 ^ k % 256 ≡ bit_xor (x / 2 ^ k % 256) b
byte_xor_at k x w b h = byte_xor k x w ∙ ap (bit_xor (x / 2 ^ k % 256)) h

u32to8_little-bit_xor :
    (x a b c d : ℕ) (r : List ℕ)
    → IsBytes (a ∷ b ∷ c ∷ d ∷ r)
    → u32to8_little (bit_xor x (u8to32_little (a ∷ b ∷ c ∷ d ∷ r)))
      ≡ zip_xor (u32to8_little x) (a ∷ b ∷ c ∷ d ∷ [])
unfolding u32to8_little u8to32_little zip_xor
u32to8_little-bit_xor x a b c d r (ha, (hb, (hc, (hd, h)))) =
    let w = a + (256 * b + (65536 * c + 16777216 * d)) in
    let e0 : bit_xor x w % 256 ≡ bit_xor (x % 256) a =
      bit_xor-byte x w ∙ ap (bit_xor (x % 256)) (omega arith) in
    let e1 = byte_xor_at 8 x w b (omega arith) in
    let e2 = byte_xor_at 16 x w c (omega arith) in
    let e3 = byte_xor_at 24 x w d (omega arith) in rw (e0, e1, e2, e3)

-- With four bytes of data for each word, `write_words` is the xor with the words' bytes.
pub write_words-zip_xor :
    (xs d : List ℕ)
    → IsBytes d
    → 4 * length xs ≤ length d
    → write_words xs d ≡ zip_xor (words_bytes xs) d
unfolding write_words zip_xor words_bytes u32to8_little
write_words-zip_xor [] d h n = refl
write_words-zip_xor (x ∷ r) [] h n = absurd (omega arith)
write_words-zip_xor (x ∷ r) (a ∷ []) h n = absurd (omega arith)
write_words-zip_xor (x ∷ r) (a ∷ b ∷ []) h n = absurd (omega arith)
write_words-zip_xor (x ∷ r) (a ∷ b ∷ c ∷ []) h n = absurd (omega arith)
write_words-zip_xor (x ∷ r) (a ∷ b ∷ c ∷ d ∷ s) h n =
    ap₂ (λ (u v : List ℕ). u ++ v) (u32to8_little-bit_xor x a b c d s h)
      (write_words-zip_xor r s h.1.1.1.1 (omega arith))

pub words_bytes-length : (xs : List ℕ) → length (words_bytes xs) ≡ 4 * length xs
unfolding words_bytes u32to8_little
words_bytes-length [] = omega arith
words_bytes-length (x ∷ r) = omega (arith, words_bytes-length r)

pub words_bytes-IsBytes : (xs : List ℕ) → IsBytes (words_bytes xs)
unfolding words_bytes u32to8_little
words_bytes-IsBytes [] = tt
words_bytes-IsBytes (x ∷ r) =
    (omega arith, (omega arith, (omega arith, (omega arith, words_bytes-IsBytes r))))

pub zip_xor-nil : (r s : List ℕ) → length s ≡ 0 → zip_xor r s ≡ []
unfolding zip_xor
zip_xor-nil [] s h = refl
zip_xor-nil (x ∷ r) [] h = refl
zip_xor-nil (x ∷ r) (y ∷ s) h = absurd (omega arith)

-- Data behind the end of `d`, and keystream behind that of `a`, play no part.
pub take-zip_xor :
    (a r d t : List ℕ)
    → length d ≤ length a
    → take (length d) (zip_xor a (d ++ t)) ≡ zip_xor (a ++ r) d
unfolding zip_xor
take-zip_xor [] r [] t h = sym (zip_xor-nil r [] refl)
take-zip_xor [] r (y ∷ d) t h = absurd (omega arith)
take-zip_xor (x ∷ a) r [] t h = refl
take-zip_xor (x ∷ a) r (y ∷ d) t h = ap (λ u. bit_xor x y ∷ u) (take-zip_xor a r d t (omega arith))

pub zip_xor-append :
    (a r d : List ℕ)
    → length a ≤ length d
    → zip_xor (a ++ r) d ≡ zip_xor a (take (length a) d) ++ zip_xor r (drop (length a) d)
unfolding zip_xor
zip_xor-append [] r d h = refl
zip_xor-append (x ∷ a) r [] h = absurd (omega arith)
zip_xor-append (x ∷ a) r (y ∷ d) h = ap (λ u. bit_xor x y ∷ u) (zip_xor-append a r d (omega arith))

pub zip_xor-length : (a d : List ℕ) → length d ≤ length a → length (zip_xor a d) ≡ length d
unfolding zip_xor
zip_xor-length [] [] h = refl
zip_xor-length [] (y ∷ d) h = absurd (omega arith)
zip_xor-length (x ∷ a) [] h = refl
zip_xor-length (x ∷ a) (y ∷ d) h = ap suc (zip_xor-length a d (omega arith))

pub zip_xor-IsBytes : (a d : List ℕ) → IsBytes a → IsBytes d → IsBytes (zip_xor a d)
unfolding zip_xor
zip_xor-IsBytes [] d h k = tt
zip_xor-IsBytes (x ∷ a) [] h k = tt
zip_xor-IsBytes (x ∷ a) (y ∷ d) h k = (bit_xor-lt 8 x y h.0 k.0, zip_xor-IsBytes a d h.1 k.1)

pub zip_xor_cancel : (a d : List ℕ) → length d ≤ length a → zip_xor a (zip_xor a d) ≡ d
unfolding zip_xor
zip_xor_cancel [] [] h = refl
zip_xor_cancel [] (y ∷ d) h = absurd (omega arith)
zip_xor_cancel (x ∷ a) [] h = refl
zip_xor_cancel (x ∷ a) (y ∷ d) h =
    ap₂ (λ u v. u ∷ v) (xor_cancel_left x y) (zip_xor_cancel a d (omega arith))
