-- ===== src/Group/Scalarmult.antt =====
-- src/crypto/crypto-ops.c: `ge_scalarmult`. The answer is `none` where an assertion of `fe_cmov` fails.
use bitmonero.Base.{ℕ, Option, some, List, [], ◌∷◌, ◌>>=◌}
use bitmonero.Base.Int.{ℤ}
use bitmonero.Group.{
  GeP2, GeP3, GeCached, ge_add, ge_p2_0, ge_p2_dbl, ge_p1p1_to_p2, ge_p1p1_to_p3, ge_p3_to_cached,
}
use bitmonero.Group.Tables.{entries_from}
use bitmonero.Group.Recode.{recode}
use bitmonero.Group.Select.{choose}

-- Ai: 1 * A, 2 * A, …, 8 * A.
unfoldable pub scalarmult_table : GeP3 → List GeCached
unfolding entries_from
scalarmult_table a = entries_from 7 a (ge_p3_to_cached a)

-- The four doublings of a turn, up to `u`.
unfoldable pub sixteen_times : GeP2 → GeP3
sixteen_times r =
    let r1 = ge_p1p1_to_p2 (ge_p2_dbl r) in
    let r2 = ge_p1p1_to_p2 (ge_p2_dbl r1) in
    let r3 = ge_p1p1_to_p2 (ge_p2_dbl r2) in ge_p1p1_to_p3 (ge_p2_dbl r3)

-- One turn of the loop, for the digit `b`.
unfoldable pub scalarmult_turn : List GeCached → ℤ → GeP2 → Option GeP2
scalarmult_turn table b r = do
  cur ← choose table b
  some (ge_p1p1_to_p2 (ge_add (sixteen_times r) cur))

-- The loop, from the last digit down to the first.
unfoldable pub scalarmult_loop : List GeCached → List ℤ → Option GeP2
scalarmult_loop table [] = some ge_p2_0
scalarmult_loop table (b ∷ e) = do r ← scalarmult_loop table e; scalarmult_turn table b r

unfoldable pub ge_scalarmult : List ℕ → GeP3 → Option GeP2
ge_scalarmult s a = scalarmult_loop (scalarmult_table a) (recode s)
