-- ===== src/Random/Laws.antt =====
-- Results about `generate_random_bytes`.
use bitmonero.Base.{ℕ, zero, suc, ◌-◌, ◌*◌, ◌≤◌, ◌<◌, ◌≡◌, refl, arith, Option, some}
use bitmonero.Base.{
  List, [], ◌∷◌, ◌++◌, length, length-append, length-take, take, leb, leb→le, ◌==◌, Bool-cases,
  false, inl, inr,
}
use bitmonero.Keccak.Length.{keccakf-length}
use bitmonero.Random.{
  Generator, generate_random_bytes, fill, hash_permutation, state_bytes, word_bytes,
}

hash_permutation-length : (st : List ℕ) → length st ≡ 25 → length (hash_permutation st) ≡ 25
unfolding hash_permutation
hash_permutation-length st h = keccakf-length st 24 h

state_bytes-length : (st : List ℕ) → length (state_bytes st) ≡ 8 * length st
unfolding state_bytes word_bytes
state_bytes-length [] = refl
state_bytes-length (w ∷ r) = omega (arith, state_bytes-length r)

-- `n` bytes and a state of 25 words come back.
abbrev Fills : ℕ → Option (List ℕ × List ℕ) → Type 0
Fills n r = (p : List ℕ × List ℕ) × (r ≡ some p) × (length p.0 ≡ n) × (length p.1 ≡ 25)

fill_lem :
    (fuel n : ℕ) (st : List ℕ) → length st ≡ 25 → 0 < n → n ≤ 136 * fuel → Fills n (fill fuel n st)
unfolding fill
fill_lem zero n st h p q = absurd (omega arith)
fill_lem (suc fuel) n st h p q =
    let st' = hash_permutation st in
    let l = hash_permutation-length st h in
    elim (Bool-cases (leb n 136)) [
      | inl b ↦ (
        (take n (state_bytes st'), st'),
        rw b refl,
        omega (arith, length-take n (state_bytes st'), state_bytes-length st', leb→le n 136 b),
        l,
      )
      | inr b ↦
          let (more, e, k, w) = fill_lem fuel (n - 136) st' l (behind n b) (omega arith) in
          (
            (take 136 (state_bytes st') ++ more.0, more.1),
            rw (b, e) refl,
            omega (
              arith,
              length-append (take 136 (state_bytes st')) more.0,
              length-take 136 (state_bytes st'),
              state_bytes-length st',
              behind n b,
            ),
            w,
          )
    ]
  where
    behind : (n : ℕ) → leb n 136 ≡ false → 0 < n - 136
    behind n b = ground arith

positive : (n : ℕ) → (n == 0) ≡ false → 0 < n
positive n b = ground arith

-- From a state of 25 words that is not in use, every request for n bytes ends, passes the
-- assertions, gives n bytes, and leaves such a state behind.
pub generate_random_bytes_ends :
    (n : ℕ) (g : Generator)
    → length g.words ≡ 25
    → g.curstate ≡ 1
    → (p : List ℕ × Generator) × (generate_random_bytes n g ≡ some p)
      × (length p.0 ≡ n)
      × (length p.1.words ≡ 25)
      × (p.1.curstate ≡ 1)
unfolding generate_random_bytes
generate_random_bytes_ends n g h c = elim (Bool-cases (n == 0)) [
  | inl b ↦ (([], record { words = g.words; curstate = 1 }), rw (c, b) refl, ground arith, h, refl)
  | inr b ↦
      let (p, e, k, w) = fill_lem n n g.words h (positive n b) (omega arith) in
      ((p.0, record { words = p.1; curstate = 1 }), rw (c, b, e) refl, k, w, refl)
]
