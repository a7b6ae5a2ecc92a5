-- ===== src/Keccak/Absorbed.antt =====
-- Results about `keccak` and `cn_fast_hash`: the blocks of the padded message.
use bitmonero.Base.{
  ℕ, zero, suc, ◌+◌, ◌-◌, ◌*◌, ◌/◌, ◌%◌, ◌≤◌, ◌<◌, ◌≡◌, refl, sym, ap, ◌∙◌, arith, bit_or, Option,
  none, some, List, [], ◌∷◌, ◌++◌, length, take, drop, set, get_or, replicate, leb, le→leb, ◌>>=◌,
  false, length-drop, take_all, ◌^◌,
}
use bitmonero.Base.Int.{pos}
use bitmonero.Base.Bytes.{le_value}
use bitmonero.Field.{of_word}
use bitmonero.Keccak.{keccakf}
use bitmonero.Random.{state_bytes}
use bitmonero.Keccak.Sponge.{
  rate, words_in, xor_into, absorb_block, absorb, last_block, keccak, hash_process, cn_fast_hash,
}

-- The padding of n bytes: a 1 at the start, a 128 at the end.
unfoldable pub padding : ℕ → List ℕ
padding zero = []
padding (suc zero) = 129 ∷ []
padding (suc (suc n)) = 1 ∷ (replicate n 0 ++ (128 ∷ []))

-- The state after k blocks of a message.
unfoldable pub sponge : ℕ → ℕ → List ℕ → List ℕ → List ℕ
sponge zero r b st = st
sponge (suc k) r b st = sponge k r (drop r b) (absorb_block r b st)

end_of_zeros :
    (n : ℕ)
    → set (replicate (suc n) 0) n (bit_or (get_or (replicate (suc n) 0) n 0) 128)
      ≡ replicate n 0 ++ (128 ∷ [])
end_of_zeros zero = refl
end_of_zeros (suc n) = ap (λ l. 0 ∷ l) (end_of_zeros n)

take-append : (n : ℕ) (a b : List ℕ) → n ≤ length a → take n (a ++ b) ≡ take n a
take-append zero a b h = refl
take-append (suc n) [] b h = absurd (omega arith)
take-append (suc n) (x ∷ a) b h = ap (λ l. x ∷ l) (take-append n a b (omega arith))

drop-append : (n : ℕ) (a b : List ℕ) → n ≤ length a → drop n (a ++ b) ≡ drop n a ++ b
drop-append zero a b h = refl
drop-append (suc n) [] b h = absurd (omega arith)
drop-append (suc n) (x ∷ a) b h = drop-append n a b (omega arith)

words_in-append : (n : ℕ) (a b : List ℕ) → n * 8 ≤ length a → words_in n (a ++ b) ≡ words_in n a
unfolding words_in
words_in-append zero a b h = refl
words_in-append (suc n) a b h =
    rw (take-append 8 a b (omega arith), drop-append 8 a b (omega arith))
      (ap (λ l. le_value (take 8 a) ∷ l)
        (words_in-append n (drop 8 a) b (omega (arith, length-drop 8 a))))

absorb_block-append :
    (r : ℕ) (a b st : List ℕ) → r ≤ length a → absorb_block r (a ++ b) st ≡ absorb_block r a st
unfolding absorb_block
absorb_block-append r a b st h =
    ap (λ w. keccakf (xor_into st w) 24) (words_in-append (r / 8) a b (omega arith))

zeros_left : (m n : ℕ) → m + suc n - (m + 1) ≡ n
zeros_left m n = omega arith

one_padded :
    (n : ℕ)
    → set (1 ∷ replicate n 0) n (bit_or (get_or (1 ∷ replicate n 0) n 0) 128) ≡ padding (suc n)
unfolding padding
one_padded zero = refl
one_padded (suc n) = ap (λ l. 1 ∷ l) (end_of_zeros n)

same_place : (i j : ℕ) → j ≡ 0 + i → j ≡ i
same_place i j e = omega arith

set_behind :
    (b l : List ℕ) (i j : ℕ)
    → j ≡ length b + i
    → set (b ++ l) j (bit_or (get_or (b ++ l) j 0) 128) ≡ b ++ set l i (bit_or (get_or l i 0) 128)
set_behind [] l i j e = ap (λ m. set l m (bit_or (get_or l m 0) 128)) (same_place i j e)
set_behind (x ∷ b) l i zero e = absurd (omega arith)
set_behind (x ∷ b) l i (suc j) e = ap (λ r. x ∷ r) (set_behind b l i j (omega arith))

-- The last block is the rest of the message with its padding.
last_block-padding : (b : List ℕ) (n : ℕ) → last_block (length b + suc n) b ≡ b ++ padding (suc n)
unfolding last_block
last_block-padding b n = rw (zeros_left (length b) n) (
    set_behind b (1 ∷ replicate n 0) n (length b + suc n - 1) (omega arith)
    ∙ ap (λ l. b ++ l) (one_padded n))

suc_times : (k r : ℕ) → suc k * r ≡ r + k * r
suc_times k r = grind arith

too_short : (r l : ℕ) → l < r → leb r l ≡ false
too_short r l h = ground arith

enough : (r l k n : ℕ) → l + suc n ≡ suc (suc k) * r → suc n ≤ r → r ≤ l
enough r l k n e h = omega (arith, suc_times (suc k) r, suc_times k r)

less : (r l k n d : ℕ) → l + suc n ≡ suc (suc k) * r → d ≡ l - r → r ≤ l → d + suc n ≡ suc k * r
less r l k n d e f h = omega (arith, suc_times (suc k) r)

module _ (r : ℕ) (positive : 0 < r) where
  -- What the last block makes of the loop's answer.
  abbrev finish : Option (List ℕ × List ℕ) → Option (List ℕ)
  finish none = none
  finish (some (rest, st)) = some (absorb_block r (last_block r rest) st)

  absorbed :
      (fuel k n : ℕ) (b st : List ℕ)
      → length b < fuel
      → length b + suc n ≡ suc k * r
      → suc n ≤ r
      → finish (absorb fuel r b st) ≡ some (sponge (suc k) r (b ++ padding (suc n)) st)
  unfolding absorb sponge
  absorbed zero k n b st h e l = absurd (omega arith)
  absorbed (suc fuel) zero n b st h e l = rw (too_short r (length b) (omega (arith, e))) (
      ap (λ t. some (absorb_block r t st))
        (ap (λ m. last_block m b) (omega (arith, e)) ∙ last_block-padding b n))
  absorbed (suc fuel) (suc k) n b st h e l =
      let more : r ≤ length b = enough r (length b) k n e l in
      rw (le→leb r (length b) more) (
        absorbed fuel k n (drop r b) (absorb_block r b st) (omega (arith, length-drop r b, more))
          (less r (length b) k n (length (drop r b)) e (length-drop r b) more) l
        ∙ ap some (
            ap (sponge (suc k) r (drop r b ++ padding (suc n)))
              (sym (absorb_block-append r b (padding (suc n)) st more))
            ∙ ap (λ d. sponge (suc k) r d (absorb_block r (b ++ padding (suc n)) st))
                (sym (drop-append r b (padding (suc n)) more))))

written :
    (r : ℕ) (o : Option (List ℕ × List ℕ)) (positive : 0 < r) (mdlen : ℕ)
    → (o >>= λ (rest, st). some (take mdlen (state_bytes (absorb_block r (last_block r rest) st))))
      ≡ (finish r positive o >>= λ st. some (take mdlen (state_bytes st)))
written r none positive mdlen = refl
written r (some p) positive mdlen = refl

-- For an mdlen for which temp has room for a block, and a message that ends n + 1 bytes before the
-- end of its block k, keccak gives the first mdlen bytes of the state after the k + 1 blocks of the
-- padded message.
pub keccak-sponge :
    (b : List ℕ) (mdlen k n : ℕ)
    → 0 < rate mdlen
    → rate mdlen ≤ 144
    → length b + suc n ≡ suc k * rate mdlen
    → suc n ≤ rate mdlen
    → keccak b (pos (length b)) mdlen
      ≡ some (
          take mdlen
            (state_bytes (sponge (suc k) (rate mdlen) (b ++ padding (suc n)) (replicate 25 0))))
unfolding keccak
keccak-sponge b mdlen k n p room e l = rw (take_all (length b) b (omega arith)) (
    written (rate mdlen) (absorb (length b + 1) (rate mdlen) b (replicate 25 0)) p mdlen
    ∙ ap (λ o. o >>= λ st. some (take mdlen (state_bytes st)))
        (absorbed (rate mdlen) p (length b + 1) k n b (replicate 25 0) (omega arith) e l))

take-take : (m n : ℕ) (l : List ℕ) → m ≤ n → take m (take n l) ≡ take m l
take-take zero n l h = refl
take-take (suc m) zero l h = absurd (omega arith)
take-take (suc m) (suc n) [] h = refl
take-take (suc m) (suc n) (x ∷ l) h = ap (λ r. x ∷ r) (take-take m n l (omega arith))

of_word-small : (n : ℕ) → n < 2 ^ 31 → of_word (n % 2 ^ 32) ≡ pos n
unfolding of_word
of_word-small n h = ground arith

-- For every message of fewer than 2 ^ 31 bytes, whose length is an int, cn_fast_hash gives the first
-- 32 bytes of the state after the blocks of 136 bytes of the padded message.
pub cn_fast_hash-sponge :
    (b : List ℕ)
    → length b < 2 ^ 31
    → cn_fast_hash b
      ≡ some (
          take 32 (
            state_bytes (
              sponge
                (suc (length b / 136))
                136
                (b ++ padding (suc (135 - length b % 136)))
                (replicate 25 0))))
unfolding cn_fast_hash hash_process rate
cn_fast_hash-sponge b h =
    rw
      (
        of_word-small (length b) h,
        keccak-sponge b 200 (length b / 136) (135 - length b % 136) (omega arith) (omega arith)
            (omega arith) (omega arith),
      )
      (ap some (take-take 32 200 _ (omega arith)))
