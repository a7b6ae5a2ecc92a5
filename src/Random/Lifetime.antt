-- ===== src/Random/Lifetime.antt =====
-- The generator from the start of the process on: any sequence of the calls of `init_random`,
-- `generate_random_bytes` and `deinit_random` that pass their assertions.
use bitmonero.Base.{ℕ, subst, ◌≡◌, refl, ap, arith, Option, none, some}
use bitmonero.Base.{
  List, ◌++◌, length, length-append, length-take, length-drop, take, drop, replicate, inl, inr, ◌⊎◌,
  length-replicate,
}
use bitmonero.Random.{Generator, generate_random_bytes, init_random, deinit_random}
use bitmonero.Random.Laws.{generate_random_bytes_ends}

-- Static storage starts as zeros.
abbrev pub fresh : Generator
fresh = record { words = replicate 25 0; curstate = 0 }

pub data Call : Generator → Generator → Type 0 where
  started :
      (seed : List ℕ) (g g' : Generator)
      → length seed ≡ 4
      → init_random seed g ≡ some g'
      → Call g g'
  asked :
      (n : ℕ) (out : List ℕ) (g g' : Generator)
      → generate_random_bytes n g ≡ some (out, g')
      → Call g g'
  stopped : (g g' : Generator) → deinit_random g ≡ some g' → Call g g'

pub data Reached : Generator → Type 0 where
  at_start : Reached fresh
  by_call : (g g' : Generator) → Reached g → Call g g' → Reached g'

-- Only a start is answered.
pub record IsIdle (g : Generator) : Type 0 where
  pub starts : (seed : List ℕ) → (g' : Generator) × (init_random seed g ≡ some g')
  pub refuses : (n : ℕ) → generate_random_bytes n g ≡ none
  pub stays : deinit_random g ≡ none

-- Requests of every size and a stop are answered.
pub record IsReady (g : Generator) : Type 0 where
  pub answers :
      (n : ℕ) → (p : List ℕ × Generator) × (generate_random_bytes n g ≡ some p) × (length p.0 ≡ n)
  pub stops : (g' : Generator) × (deinit_random g ≡ some g')
  pub no_restart : (seed : List ℕ) → init_random seed g ≡ none

record Sound (g : Generator) : Type 0 where
  words_count : length g.words ≡ 25
  mode : (g.curstate ≡ 0) ⊎ (g.curstate ≡ 1)

idle : (g : Generator) → g.curstate ≡ 0 → IsIdle g
unfolding generate_random_bytes init_random deinit_random
idle g c = record {
  starts = λ seed. (record { words = take 4 seed ++ drop 4 g.words; curstate = 1 }, rw c refl);
  refuses = λ n. rw c refl;
  stays = rw c refl;
}

ready : (g : Generator) → length g.words ≡ 25 → g.curstate ≡ 1 → IsReady g
unfolding init_random deinit_random
ready g h c = record {
  answers = λ n. let (p, e, k, w, m) = generate_random_bytes_ends n g h c in (p, e, k);
  stops = (record { words = replicate 25 0; curstate = 0 }, rw c refl);
  no_restart = λ seed. rw c refl;
}

not_both : {A : Type 0} {o : Option A} {x : A} → o ≡ none → o ≡ some x → ⊥
not_both e f = cc

same_some : {A : Type 0} {o : Option A} {x y : A} → o ≡ some x → o ≡ some y → x ≡ y
same_some e f = cc

started-Sound :
    (seed : List ℕ) (g g' : Generator)
    → length seed ≡ 4
    → Sound g
    → init_random seed g ≡ some g'
    → Sound g'
unfolding init_random
started-Sound seed g g' l s e = elim s.mode [
  | inl c ↦
      let made : Generator = record { words = take 4 seed ++ drop 4 g.words; curstate = 1 } in
      let same : made ≡ g' = same_some (rw c refl) e in
      subst Sound same (record {
        words_count = omega (
          arith,
          length-append (take 4 seed) (drop 4 g.words),
          length-take 4 seed,
          length-drop 4 g.words,
          l,
          s.words_count,
        );
        mode = inr refl;
      })
  | inr c ↦ absurd (not_both ((ready g s.words_count c).no_restart seed) e)
]

asked-Sound :
    (n : ℕ) (out : List ℕ) (g g' : Generator)
    → Sound g
    → generate_random_bytes n g ≡ some (out, g')
    → Sound g'
asked-Sound n out g g' s e = elim s.mode [
  | inl c ↦ absurd (not_both ((idle g c).refuses n) e)
  | inr c ↦
      let (p, e', k, w, m) = generate_random_bytes_ends n g s.words_count c in
      let same : p ≡ (out, g') = same_some e' e in
      subst Sound (ap (λ q. q.1) same) (record { words_count = w; mode = inr m })
]

stopped-Sound : (g g' : Generator) → Sound g → deinit_random g ≡ some g' → Sound g'
unfolding deinit_random
stopped-Sound g g' s e = elim s.mode [
  | inl c ↦ absurd (not_both ((idle g c).stays) e)
  | inr c ↦
      let made : Generator = record { words = replicate 25 0; curstate = 0 } in
      let same : made ≡ g' = same_some (rw c refl) e in
      subst Sound same (record { words_count = length-replicate {A = ℕ} 25 0; mode = inl refl })
]

Call-Sound : {g g' : Generator} → Sound g → Call g g' → Sound g'
Call-Sound s (started seed g g' l e) = started-Sound seed g g' l s e
Call-Sound s (asked n out g g' e) = asked-Sound n out g g' s e
Call-Sound s (stopped g g' e) = stopped-Sound g g' s e

reached-Sound : {g : Generator} → Reached g → Sound g
reached-Sound at_start = record { words_count = length-replicate {A = ℕ} 25 0; mode = inl refl }
reached-Sound (by_call g g' r c) = Call-Sound (reached-Sound r) c

-- After any calls that pass their assertions, the generator either is ready, so that a request for
-- any number of bytes is answered with as many, or is idle, so that it fails the assertion of
-- every request and of a stop, and can be started.
pub reached-IsReady : (g : Generator) → Reached g → IsReady g ⊎ IsIdle g
reached-IsReady g r =
    let s = reached-Sound r in
    elim s.mode [ inl c ↦ inr (idle g c) | inr c ↦ inl (ready g s.words_count c) ]
