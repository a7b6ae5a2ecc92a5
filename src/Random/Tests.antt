-- ===== src/Random/Tests.antt =====
-- The generator on concrete states.
use bitmonero.Base.{ℕ, ◌≡◌, refl, some, List, [], ◌∷◌, ◌++◌, ◌⊎◌, take, drop, length, replicate}
use bitmonero.Random.{Generator, generate_random_bytes, init_random}
use bitmonero.Random.Lifetime.{
  fresh, Reached, at_start, by_call, started, IsReady, IsIdle, reached-IsReady,
}
use bitmonero.Random.Laws.{generate_random_bytes_ends}

abbrev seeded : Generator
seeded = record { words = replicate 25 7; curstate = 1 }

generate_random_bytes_ends_example :
    (p : List ℕ × Generator) × (generate_random_bytes 200 seeded ≡ some p)
    × (length p.0 ≡ 200)
    × (length p.1.words ≡ 25)
    × (p.1.curstate ≡ 1)
generate_random_bytes_ends_example = generate_random_bytes_ends 200 seeded refl refl

-- A start with four words.
started_once : (g : Generator) × Reached g
unfolding init_random
started_once = (
  record { words = take 4 (1 ∷ 2 ∷ 3 ∷ 4 ∷ []) ++ drop 4 (replicate 25 0); curstate = 1 },
  by_call fresh _ at_start (started (1 ∷ 2 ∷ 3 ∷ 4 ∷ []) fresh _ refl refl),
)

reached-IsReady_example : IsReady started_once.0 ⊎ IsIdle started_once.0
reached-IsReady_example = reached-IsReady started_once.0 started_once.1
