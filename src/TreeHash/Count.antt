-- ===== src/TreeHash/Count.antt =====
-- The largest power of two below the number of hashes.
use bitmonero.Base.{ℕ, zero, suc, ◌+◌, ◌-◌, ◌*◌, ◌/◌, ◌%◌, ◌^◌, ◌≤◌, ◌<◌, ◌≡◌, refl, arith, bit_and}
use bitmonero.Base.{some, Bool, true, false, inl, ◌⊎◌, leb, leb→le}
use bitmonero.Base.Bits.{bit_and_low}
use bitmonero.TreeHash.{count_halvings, tree_hash_cnt, ispowerof2_size_t}
use native.Mathlib.Nat.{pow-suc, one-le-pow, pow-le-pow_right}

-- The halvings of a number count its binary digits.
pub count_halvings_lem :
    (fuel tmp jj : ℕ)
    → tmp < fuel
    → (n : ℕ) × (count_halvings fuel tmp jj ≡ some (jj + n))
      × (tmp < 2 ^ n)
      × (((tmp ≡ 0) × (n ≡ 0)) ⊎ (2 ^ n ≤ 2 * tmp))
unfolding count_halvings
count_halvings_lem zero tmp jj h = absurd (omega arith)
count_halvings_lem (suc fuel) zero jj h = (0, ground arith, omega arith, inl (refl, refl))
count_halvings_lem (suc fuel) (suc t) jj h =
    let (n, e, up, low) = count_halvings_lem fuel (suc t / 2) (jj + 1) (omega arith) in
    (suc n, ground arith, omega (arith, pow-suc 2 n), ground (arith, pow-suc 2 n))

power_and_ones : (k : ℕ) → bit_and (2 ^ k) (2 ^ k - 1) ≡ 0
power_and_ones zero = refl
power_and_ones (suc k) =
    let e : 2 ^ suc k / 2 ≡ 2 ^ k = omega (arith, pow-suc 2 k) in
    let f : (2 ^ suc k - 1) / 2 ≡ 2 ^ k - 1 =
      omega (arith, pow-suc 2 k, one-le-pow k 2 (omega arith)) in
    let g : 2 ^ suc k % 2 ≡ 0 = omega (arith, pow-suc 2 k) in
    rw (bit_and_low (2 ^ suc k) (2 ^ suc k - 1), e, f, g, power_and_ones k) (omega arith)

power-ispowerof2 : (k : ℕ) → ispowerof2_size_t (2 ^ k) ≡ true
unfolding ispowerof2_size_t
power-ispowerof2 k = ground (arith, power_and_ones k, one-le-pow k 2)

not_above : (k : ℕ) → 2 ^ k < 2 ^ 31 → k < 31
not_above k h = split (leb 31 k) refl
  where
    split : (b : Bool) → leb 31 k ≡ b → k < 31
    split true e = absurd (omega (arith, h, pow-le-pow_right {n = 2} (omega arith) (leb→le 31 k e)))
    split false e = ground arith

-- For three hashes and more, up to 2 ^ 31, `tree_hash_cnt` passes its assertions and gives the
-- largest power of two below the count.
pub tree_hash_cnt_lem :
    (count : ℕ)
    → 3 ≤ count
    → count ≤ 2 ^ 31
    → (k : ℕ) × (tree_hash_cnt count ≡ some (2 ^ k)) × (2 ^ k < count) × (count ≤ 2 * 2 ^ k)
unfolding tree_hash_cnt
tree_hash_cnt_lem count h top = split (count_halvings_lem (count + 1) (count - 1) 1 (omega arith))
  where
    split :
        (n : ℕ) × (count_halvings (count + 1) (count - 1) 1 ≡ some (1 + n))
          × (count - 1 < 2 ^ n)
          × (((count - 1 ≡ 0) × (n ≡ 0)) ⊎ (2 ^ n ≤ 2 * (count - 1)))
        → (k : ℕ) × (tree_hash_cnt count ≡ some (2 ^ k)) × (2 ^ k < count) × (count ≤ 2 * 2 ^ k)
    split (zero, e, up, low) = absurd (omega arith)
    split (suc k, e, up, low) =
        let f : 1 + suc k - 2 ≡ k = omega arith in
        let s : k < 31 = not_above k (ground (arith, pow-suc 2 k)) in
        (
          k,
          ground (arith, e, f, s, power-ispowerof2 k, pow-suc 2 k),
          ground (arith, pow-suc 2 k),
          omega (arith, pow-suc 2 k),
        )
