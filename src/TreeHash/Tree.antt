-- ===== src/TreeHash/Tree.antt =====
-- What `tree_hash` is to compute: the root of a balanced binary tree over the hashes.
use bitmonero.Base.{ℕ, zero, suc, List, [], ◌∷◌, ◌++◌}

pub data Tree (H : Type 0) : Type 0 where
  leaf : H → Tree H
  node : Tree H → Tree H → Tree H

module _ {H : Type 0} where
  abbrev pub leaves : Tree H → List H
  leaves (leaf x) = x ∷ []
  leaves (node l r) = leaves l ++ leaves r

  abbrev pub root : (H → H → H) → Tree H → H
  root f (leaf x) = x
  root f (node l r) = f (root f l) (root f r)

  -- Every leaf is `k` or `k + 1` steps below the root.
  abbrev pub IsBalanced : ℕ → Tree H → Type 0
  IsBalanced zero (leaf x) = Unit {0}
  IsBalanced zero (node (leaf x) (leaf y)) = Unit {0}
  IsBalanced zero (node (leaf x) (node l r)) = ⊥
  IsBalanced zero (node (node l r) t) = ⊥
  IsBalanced (suc k) (leaf x) = ⊥
  IsBalanced (suc k) (node l r) = IsBalanced k l × IsBalanced k r

  abbrev pub all_leaves : List (Tree H) → List H
  all_leaves [] = []
  all_leaves (t ∷ ts) = leaves t ++ all_leaves ts
