-- ===== src/TreeHash.antt =====
-- src/crypto/tree-hash.c: the Merkle root of the transactions of a block. The hash function is a
-- parameter here: `cn_fast_hash` of src/crypto/hash.c on the 64 bytes of two hashes.
pub mod Count
pub mod Tree
pub mod Laws
mod Tests
use bitmonero.Base.{ℕ, zero, suc, ◌+◌, ◌-◌, ◌*◌, ◌/◌, ◌^◌, ◌≤◌, ◌<◌, arith}
use bitmonero.Base.{
  List, [], ◌∷◌, ◌++◌, length, take, drop, ltb, leb, ◌==◌, Bool, true, false, ◌&&◌,
}
use bitmonero.Base.{Option, none, some, if◌then◌else◌, bit_and}

-- x && !(x & (x - 1))
unfoldable pub ispowerof2_size_t : ℕ → Bool
ispowerof2_size_t x = if x == 0 then false else bit_and x (x - 1) == 0

-- `for (jj = 1; tmp != 0; ++jj) tmp /= 2;` on fuel: the last `jj`.
unfoldable pub count_halvings : ℕ → ℕ → ℕ → Option ℕ
count_halvings zero tmp jj = none
count_halvings (suc fuel) tmp jj =
    let rest = count_halvings fuel (tmp / 2) (jj + 1) in if tmp == 0 then some jj else rest

-- `none` is a failed assertion, or a shift `1 << (jj-2)` whose value is not an int: the shift is done
-- in int, of 32 bits.
unfoldable pub tree_hash_cnt : ℕ → Option ℕ
unfolding count_halvings ispowerof2_size_t
tree_hash_cnt count = elim (count_halvings (count + 1) (count - 1) 1) [
  | none ↦ none
  | some jj ↦
      let cnt = 2 ^ (jj - 2) in
      if ltb count 3
      then none
      else if leb 31 (jj - 2)
      then none
      else if leb 1 cnt && (leb (count / 2) cnt && (leb cnt count && ispowerof2_size_t cnt))
      then some cnt
      else none
]

module _ {ℓ} {H : Type ℓ} (hash_two : H → H → H) where
  -- A pass `for (i = 0, j = 0; j < cnt; i += 2, ++j) hash(ints[i], ints[i + 1]) -> ints[j]`. The
  -- slot written is never read later in the pass, so a pass makes a new list.
  unfoldable pub hash_pairs : List H → List H
  hash_pairs [] = []
  hash_pairs (x ∷ []) = []
  hash_pairs (x ∷ y ∷ r) = hash_two x y ∷ hash_pairs r

  -- `while (cnt > 2) { cnt >>= 1; pass }` and the last hash, of ints[0] and ints[1], on fuel.
  unfoldable pub reduce_loop : ℕ → ℕ → List H → Option H
  unfolding hash_pairs
  reduce_loop fuel cnt [] = none
  reduce_loop fuel cnt (x ∷ []) = none
  reduce_loop zero cnt (x ∷ y ∷ r) = none
  reduce_loop (suc fuel) cnt (x ∷ y ∷ r) =
      let rest = reduce_loop fuel (cnt / 2) (take (cnt / 2) (hash_pairs (x ∷ y ∷ r))) in
      if ltb 2 cnt then rest else some (hash_two x y)

  -- The first pass leaves the first `2 * cnt - count` hashes as they are and hashes the others in
  -- pairs; `assert(i == count)` holds if the pairs come out even.
  unfoldable pub first_pass : ℕ → ℕ → List H → List H
  unfolding hash_pairs
  first_pass cnt count hashes =
      take (2 * cnt - count) hashes ++ hash_pairs (drop (2 * cnt - count) (take count hashes))

  -- `hashes` holds the `count` hashes; `none` is a failed assertion, where size_t has 64 bits.
  unfoldable pub tree_hash : List H → Option H
  unfolding tree_hash_cnt reduce_loop first_pass
  tree_hash [] = none
  tree_hash (x ∷ []) = some x
  tree_hash (x ∷ y ∷ []) = some (hash_two x y)
  tree_hash (x ∷ y ∷ z ∷ r) =
      let count = length (x ∷ y ∷ z ∷ r) in
      elim (tree_hash_cnt count) [
        | none ↦ none
        | some cnt ↦
            if ltb cnt ((2 ^ 64 - 1) / 2)
            then reduce_loop cnt cnt (first_pass cnt count (x ∷ y ∷ z ∷ r))
            else none
      ]
