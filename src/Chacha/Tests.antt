-- ===== src/Chacha/Tests.antt =====
-- `chacha8` on concrete data.
use bitmonero.Base.Bytes.{IsBytes}
use bitmonero.Base.{ℕ, zero, suc, ◌<◌, ◌≡◌, refl, arith, List, [], ◌∷◌, replicate}
use bitmonero.Chacha.{chacha8}
use bitmonero.Chacha.Laws.{chacha8-key_stream, chacha8_twice}
use bitmonero.Chacha.Counter.{key_stream}
use bitmonero.Chacha.Words.{zip_xor}

abbrev key0 : List ℕ
key0 = replicate 32 0

abbrev iv0 : List ℕ
iv0 = replicate 8 0

abbrev message : List ℕ
message = 104 ∷ 101 ∷ 108 ∷ 108 ∷ 111 ∷ []

replicate-IsBytes : (n b : ℕ) → b < 256 → IsBytes (replicate n b)
replicate-IsBytes zero b h = tt
replicate-IsBytes (suc n) b h = (h, replicate-IsBytes n b h)

message_bytes : IsBytes message
message_bytes = (omega arith, (omega arith, (omega arith, (omega arith, (omega arith, tt)))))

-- The first bytes of the key stream of the zero key and iv.
first_bytes :
    chacha8 (replicate 64 0) (replicate 8 0) key0 iv0 ≡ 62 ∷ 0 ∷ 239 ∷ 47 ∷ 137 ∷ 95 ∷ 64 ∷ 214 ∷ []
unfolding chacha8
first_bytes = refl

chacha8-key_stream_example :
    chacha8 (replicate 64 7) message key0 iv0 ≡ zip_xor (key_stream key0 iv0 5 0) message
chacha8-key_stream_example =
    chacha8-key_stream (replicate 64 7) message key0 iv0 (replicate-IsBytes 64 7 (omega arith)) refl
      message_bytes

chacha8_twice_example :
    chacha8 (replicate 64 9) (chacha8 (replicate 64 7) message key0 iv0) key0 iv0 ≡ message
chacha8_twice_example =
    chacha8_twice (replicate 64 7) (replicate 64 9) message key0 iv0
      (replicate-IsBytes 64 7 (omega arith)) refl (replicate-IsBytes 64 9 (omega arith)) refl
      message_bytes
