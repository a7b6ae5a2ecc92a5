-- ===== src/Random.antt =====
-- src/crypto/random.c: the generator over `hash_permutation` of src/crypto/hash.c. The global
-- variables are a record, and the answer is `none` where an assertion fails.
pub mod Laws
pub mod Lifetime
mod Tests
use bitmonero.Base.{ℕ, zero, suc, ◌+◌, ◌-◌, ◌*◌, ◌/◌, ◌%◌, ◌^◌, ◌≡◌, Option, none, some}
use bitmonero.Base.{List, [], ◌∷◌, ◌++◌, take, drop, replicate, leb, ◌==◌, if◌then◌else◌}
use bitmonero.Keccak.{keccakf}

unfoldable pub hash_permutation : List ℕ → List ℕ
unfolding keccakf
hash_permutation st = keccakf st 24

-- `state`, as the 25 words of the union, and `curstate`.
pub record Generator : Type 0 where
  pub words : List ℕ
  pub curstate : ℕ

-- The bytes of the union, lowest byte of each word first.
unfoldable pub word_bytes : ℕ → ℕ → List ℕ
word_bytes zero w = []
word_bytes (suc n) w = (w % 256) ∷ word_bytes n (w / 256)

unfoldable pub state_bytes : List ℕ → List ℕ
unfolding word_bytes
state_bytes [] = []
state_bytes (w ∷ r) = word_bytes 8 w ++ state_bytes r

unfoldable pub before : List ℕ → Option (List ℕ × List ℕ) → Option (List ℕ × List ℕ)
before b none = none
before b (some (out, st)) = some (b ++ out, st)

-- curstate = 1 on the way out.
unfoldable pub release : Option (List ℕ × List ℕ) → Option (List ℕ × Generator)
release none = none
release (some (out, st)) = some (out, record { words = st; curstate = 1 })

-- The endless loop, on fuel, with HASH_DATA_AREA = 136: the bytes written and the state.
unfoldable pub fill : ℕ → ℕ → List ℕ → Option (List ℕ × List ℕ)
unfolding hash_permutation state_bytes before
fill zero n st = none
fill (suc fuel) n st =
    let st' = hash_permutation st in
    let rest = fill fuel (n - 136) st' in
    if leb n 136
    then some (take n (state_bytes st'), st')
    else before (take 136 (state_bytes st')) rest

unfoldable pub generate_random_bytes : ℕ → Generator → Option (List ℕ × Generator)
unfolding fill release
generate_random_bytes n g =
    if g.curstate == 1
    then if n == 0
      then some ([], record { words = g.words; curstate = 1 })
      else release (fill n n g.words)
    else none

-- The words that `generate_system_random_bytes(32, &state)` writes are `seed`.
unfoldable pub init_random : List ℕ → Generator → Option Generator
init_random seed g =
    if g.curstate == 0
    then some (record { words = take 4 seed ++ drop 4 g.words; curstate = 1 })
    else none

unfoldable pub deinit_random : Generator → Option Generator
deinit_random g =
    if g.curstate == 1 then some (record { words = replicate 25 0; curstate = 0 }) else none
