-- ===== src/TreeHash/Laws.antt =====
-- Results about `tree_hash`.
use bitmonero.Base.{ℕ, zero, suc, ◌-◌, ◌*◌, ◌/◌, ◌^◌, ◌≤◌, ◌<◌, ◌≡◌, refl, sym, arith, ap, ◌∙◌}
use bitmonero.Base.{List, [], ◌∷◌, ◌++◌, map, length, take, drop, All, Option, some}
use bitmonero.Base.{take_all, length-append, length-map, length-take, length-drop, take-append-drop}
use bitmonero.Base.{ltb, lt→ltb, true}
use bitmonero.Base.{append_assoc, append-nil}
use bitmonero.TreeHash.{hash_pairs, reduce_loop, first_pass, tree_hash, tree_hash_cnt}
use bitmonero.TreeHash.Count.{tree_hash_cnt_lem}
use bitmonero.TreeHash.Tree.{Tree, leaf, node, leaves, root, IsBalanced, all_leaves}
use native.Mathlib.Nat.{pow-suc, one-le-pow}

lt_power : (n : ℕ) → n < 2 ^ n
lt_power zero = omega arith
lt_power (suc n) = omega (arith, pow-suc 2 n, lt_power n)

module _ {H : Type 0} (f : H → H → H) where
  -- The trees of one pass.
  abbrev join_pairs : List (Tree H) → List (Tree H)
  join_pairs [] = []
  join_pairs (s ∷ []) = []
  join_pairs (s ∷ t ∷ r) = node s t ∷ join_pairs r

  hash_pairs-join_pairs :
      (ts : List (Tree H)) → hash_pairs f (map (root f) ts) ≡ map (root f) (join_pairs ts)
  unfolding hash_pairs
  hash_pairs-join_pairs [] = refl
  hash_pairs-join_pairs (s ∷ []) = refl
  hash_pairs-join_pairs (s ∷ t ∷ r) = ap (◌∷◌ (f (root f s) (root f t))) (hash_pairs-join_pairs r)

  length-join_pairs : (n : ℕ) (ts : List (Tree H)) → length ts ≡ 2 * n → length (join_pairs ts) ≡ n
  length-join_pairs n [] h = omega arith
  length-join_pairs n (s ∷ []) h = absurd (omega arith)
  length-join_pairs zero (s ∷ t ∷ r) h = absurd (omega arith)
  length-join_pairs (suc n) (s ∷ t ∷ r) h = ap suc (length-join_pairs n r (omega arith))

  leaves-join_pairs :
      (n : ℕ) (ts : List (Tree H)) → length ts ≡ 2 * n → all_leaves (join_pairs ts) ≡ all_leaves ts
  leaves-join_pairs n [] h = refl
  leaves-join_pairs n (s ∷ []) h = absurd (omega arith)
  leaves-join_pairs zero (s ∷ t ∷ r) h = absurd (omega arith)
  leaves-join_pairs (suc n) (s ∷ t ∷ r) h =
      ap (◌++◌ (leaves s ++ leaves t)) (leaves-join_pairs n r (omega arith))
      ∙ append_assoc (leaves s) (leaves t) (all_leaves r)

  IsBalanced-join_pairs :
      (k : ℕ) (ts : List (Tree H))
      → All (IsBalanced k) ts
      → All (IsBalanced (suc k)) (join_pairs ts)
  IsBalanced-join_pairs k [] h = tt
  IsBalanced-join_pairs k (s ∷ []) h = tt
  IsBalanced-join_pairs k (s ∷ t ∷ r) h = ((h.0, h.1.0), IsBalanced-join_pairs k r h.1.1)

  -- The tree of the answer, of `hashes`.
  abbrev pub IsRootOf : List H → Option H → Type 0
  IsRootOf hashes answer =
      (k : ℕ) × (t : Tree H) × (answer ≡ some (root f t)) × (leaves t ≡ hashes) × IsBalanced k t

  loop_step :
      (fuel c : ℕ) (x y : H) (r : List H)
      → 2 ≤ c
      → reduce_loop f (suc fuel) (2 * c) (x ∷ y ∷ r)
        ≡ reduce_loop f fuel c (take c (hash_pairs f (x ∷ y ∷ r)))
  unfolding reduce_loop
  loop_step fuel c x y r h =
      let e : 2 * c / 2 ≡ c = omega arith in
      let g : ltb 2 (2 * c) ≡ true = lt→ltb 2 (2 * c) (omega arith) in rw (g, e)

  power_step :
      (fuel n : ℕ) (x y : H) (r : List H)
      → reduce_loop f (suc fuel) (2 * 2 ^ suc n) (x ∷ y ∷ r)
        ≡ reduce_loop f fuel (2 * 2 ^ n) (take (2 * 2 ^ n) (hash_pairs f (x ∷ y ∷ r)))
  power_step fuel n x y r =
      let e : 2 ^ suc n ≡ 2 * 2 ^ n = omega (arith, pow-suc 2 n) in
      rw e (loop_step fuel (2 * 2 ^ n) x y r (omega (arith, one-le-pow n 2 (omega arith))))

  loop-IsRootOf :
      (n fuel j : ℕ) (ts : List (Tree H))
      → n < fuel
      → length ts ≡ 2 * 2 ^ n
      → All (IsBalanced j) ts
      → IsRootOf (all_leaves ts) (reduce_loop f fuel (2 * 2 ^ n) (map (root f) ts))
  loop-IsRootOf n zero j ts p l b = absurd (omega arith)
  loop-IsRootOf n (suc fuel) j [] p l b = absurd (omega (arith, one-le-pow n 2 (omega arith)))
  loop-IsRootOf n (suc fuel) j (s ∷ []) p l b = absurd (omega (arith, one-le-pow n 2 (omega arith)))
  loop-IsRootOf zero (suc fuel) j (s ∷ t ∷ []) p l b = (
    suc j,
    node s t,
    unfold reduce_loop in refl,
    ap (◌++◌ (leaves s)) (sym (append-nil (leaves t))),
    (b.0, b.1.0),
  )
  loop-IsRootOf zero (suc fuel) j (s ∷ t ∷ u ∷ r) p l b = absurd (omega arith)
  loop-IsRootOf (suc n) (suc fuel) j (s ∷ t ∷ r) p l b =
      let ts : List (Tree H) = s ∷ t ∷ r in
      let h : length ts ≡ 2 * (2 * 2 ^ n) = omega (arith, l, pow-suc 2 n) in
      let (k, u, e, q, w) =
        loop-IsRootOf n fuel (suc j) (join_pairs ts) (omega arith)
          (length-join_pairs (2 * 2 ^ n) ts h) (IsBalanced-join_pairs j ts b) in
      (
        k,
        u,
        power_step fuel n (root f s) (root f t) (map (root f) r)
            ∙ ap (reduce_loop f fuel (2 * 2 ^ n)) (
                ap (take (2 * 2 ^ n)) (hash_pairs-join_pairs ts)
                ∙ take_all (2 * 2 ^ n) (map (root f) (join_pairs ts)) (
                    omega (
                      arith,
                      length-map (join_pairs ts) (root f),
                      length-join_pairs (2 * 2 ^ n) ts h,
                    )))
            ∙ e,
        q ∙ leaves-join_pairs (2 * 2 ^ n) ts h,
        w,
      )

  root-leaves : (xs : List H) → map (root f) (map leaf xs) ≡ xs
  root-leaves [] = refl
  root-leaves (x ∷ xs) = ap (◌∷◌ x) (root-leaves xs)

  all_leaves-leaves : (xs : List H) → all_leaves (map leaf xs) ≡ xs
  all_leaves-leaves [] = refl
  all_leaves-leaves (x ∷ xs) = ap (◌∷◌ x) (all_leaves-leaves xs)

  all_leaves-append :
      (ss ts : List (Tree H)) → all_leaves (ss ++ ts) ≡ all_leaves ss ++ all_leaves ts
  all_leaves-append [] ts = refl
  all_leaves-append (s ∷ ss) ts =
      ap (◌++◌ (leaves s)) (all_leaves-append ss ts)
      ∙ sym (append_assoc (leaves s) (all_leaves ss) (all_leaves ts))

  map-root-append :
      (ss ts : List (Tree H)) → map (root f) (ss ++ ts) ≡ map (root f) ss ++ map (root f) ts
  map-root-append [] ts = refl
  map-root-append (s ∷ ss) ts = ap (◌∷◌ (root f s)) (map-root-append ss ts)

  IsBalanced-append :
      (k : ℕ) (ss ts : List (Tree H))
      → All (IsBalanced k) ss
      → All (IsBalanced k) ts
      → All (IsBalanced k) (ss ++ ts)
  IsBalanced-append k [] ts a b = b
  IsBalanced-append k (s ∷ ss) ts a b = (a.0, IsBalanced-append k ss ts a.1 b)

  IsBalanced-leaves : (xs : List H) → All (IsBalanced 0) (map leaf xs)
  IsBalanced-leaves [] = tt
  IsBalanced-leaves (x ∷ xs) = (tt, IsBalanced-leaves xs)

  IsBalanced-pairs : (xs : List H) → All (IsBalanced 0) (join_pairs (map leaf xs))
  IsBalanced-pairs [] = tt
  IsBalanced-pairs (x ∷ []) = tt
  IsBalanced-pairs (x ∷ y ∷ xs) = (tt, IsBalanced-pairs xs)

  -- The trees of the first pass: `m` leaves, and pairs.
  abbrev first_trees : ℕ → List H → List (Tree H)
  first_trees m hashes = map leaf (take m hashes) ++ join_pairs (map leaf (drop m hashes))

  first_pass-first_trees :
      (cnt : ℕ) (hashes : List H)
      → first_pass f cnt (length hashes) hashes
        ≡ map (root f) (first_trees (2 * cnt - length hashes) hashes)
  unfolding first_pass
  first_pass-first_trees cnt hashes =
      let m = 2 * cnt - length hashes in
      rw (
        take_all (length hashes) hashes (omega arith),
        map-root-append (map leaf (take m hashes)) (join_pairs (map leaf (drop m hashes))),
        root-leaves (take m hashes),
        ← hash_pairs-join_pairs (map leaf (drop m hashes)),
        root-leaves (drop m hashes),
      )

  module _ (n : ℕ) (hashes : List H) (low : 2 * 2 ^ n < length hashes)
      (high : length hashes ≤ 2 * (2 * 2 ^ n)) where
    abbrev m : ℕ
    m = 2 * (2 * 2 ^ n) - length hashes

    abbrev trees : List (Tree H)
    trees = first_trees m hashes

    dropped : length {A = Tree H} (map leaf (drop m hashes)) ≡ 2 * (length hashes - 2 * 2 ^ n)
    dropped = omega (arith, length-map (drop m hashes) leaf, length-drop m hashes)

    length-trees : length trees ≡ 2 * 2 ^ n
    length-trees = omega (
      arith,
      length-append (map leaf (take m hashes)) (join_pairs (map leaf (drop m hashes))),
      length-map (take m hashes) leaf,
      length-take m hashes,
      length-join_pairs (length hashes - 2 * 2 ^ n) (map leaf (drop m hashes)) dropped,
    )

    leaves-trees : all_leaves trees ≡ hashes
    leaves-trees =
        rw
          (
            all_leaves-append (map leaf (take m hashes)) (join_pairs (map leaf (drop m hashes))),
            leaves-join_pairs (length hashes - 2 * 2 ^ n) (map leaf (drop m hashes)) dropped,
            all_leaves-leaves (take m hashes),
            all_leaves-leaves (drop m hashes),
          )
          (take-append-drop m hashes)

    reduced :
        (fuel : ℕ)
        → n < fuel
        → IsRootOf hashes
            (reduce_loop f fuel (2 * 2 ^ n) (first_pass f (2 * 2 ^ n) (length hashes) hashes))
    reduced fuel p =
        let (k, t, e, q, b) = loop-IsRootOf n fuel 0 trees p length-trees (
          IsBalanced-append 0 (map leaf (take m hashes)) (join_pairs (map leaf (drop m hashes)))
            (IsBalanced-leaves (take m hashes)) (IsBalanced-pairs (drop m hashes))) in
        (k, t, rw (first_pass-first_trees (2 * 2 ^ n) hashes) e, q ∙ leaves-trees, b)

  tree_hash_many :
      (x y z : H) (r : List H)
      → let hashes = x ∷ y ∷ z ∷ r in
        (k : ℕ) × (tree_hash_cnt (length hashes) ≡ some (2 ^ k))
          × (2 ^ k < length hashes)
          × (length hashes ≤ 2 * 2 ^ k)
        → length hashes ≤ 2 ^ 31
        → IsRootOf hashes (tree_hash f hashes)
  unfolding tree_hash
  tree_hash_many x y z r (zero, e, low, high) top = absurd (omega arith)
  tree_hash_many x y z r (suc n, e, low, high) top =
      let d : 2 ^ suc n ≡ 2 * 2 ^ n = omega (arith, pow-suc 2 n) in
      let small : ltb (2 * 2 ^ n) ((2 ^ 64 - 1) / 2) ≡ true =
        lt→ltb (2 * 2 ^ n) ((2 ^ 64 - 1) / 2) (omega (arith, d, low, top)) in
      rw (e, d, small, tree_hash)
        (reduced n (x ∷ y ∷ z ∷ r) (omega (arith, d)) (omega (arith, d)) (2 * 2 ^ n)
          (omega (arith, lt_power n)))

  -- Of one hash or more, up to 2 ^ 31, `tree_hash` gives the root of a tree that has the hashes as
  -- its leaves, in order, all of them at one depth or at the next: no assertion fails, and the shift
  -- of `tree_hash_cnt` stays in int.
  pub tree_hash-IsRootOf :
      (hashes : List H)
      → 1 ≤ length hashes
      → length hashes ≤ 2 ^ 31
      → IsRootOf hashes (tree_hash f hashes)
  tree_hash-IsRootOf [] h top = absurd (omega arith)
  tree_hash-IsRootOf (x ∷ []) h top = (0, leaf x, unfold tree_hash in refl, refl, tt)
  tree_hash-IsRootOf (x ∷ y ∷ []) h top =
      (0, node (leaf x) (leaf y), unfold tree_hash in refl, refl, tt)
  tree_hash-IsRootOf (x ∷ y ∷ z ∷ r) h top =
      tree_hash_many x y z r (tree_hash_cnt_lem (length (x ∷ y ∷ z ∷ r)) (omega arith) top) top
