-- ===== src/TreeHash/Tests.antt =====
-- Runs of `tree_hash` with a toy hash, and the theorems at concrete inputs.
use bitmonero.Base.{ℕ, ◌+◌, ◌*◌, ◌≡◌, refl, arith, List, [], ◌∷◌, some}
use bitmonero.TreeHash.{tree_hash}
use bitmonero.TreeHash.Laws.{IsRootOf, tree_hash-IsRootOf}

abbrev mix : ℕ → ℕ → ℕ
mix a b = 10 * a + b

abbrev five : List ℕ
five = 1 ∷ 2 ∷ 3 ∷ 4 ∷ 5 ∷ []

-- The last two of five hashes are a pair: ((1, 2), (3, (4, 5))).
tree_hash-five : tree_hash mix five ≡ some 195
unfolding tree_hash
tree_hash-five = refl

tree_hash-IsRootOf_example : IsRootOf mix five (tree_hash mix five)
tree_hash-IsRootOf_example = tree_hash-IsRootOf mix five (omega arith) (omega arith)
