-- ===== src/Group/Select.antt =====
-- src/crypto/crypto-ops.c: the choice of a table's entry by a digit, in `ge_scalarmult`: `equal`,
-- `negative`, `ge_cached_0`, `ge_cached_cmov` and the turn that calls them. The answer is `none` where
-- an assertion of `fe_cmov` fails.
use bitmonero.Base.{
  ◌>>=◌, ℕ, suc, ◌+◌, ◌-◌, ◌/◌, ◌%◌, ◌^◌, bit_and, bit_xor, Option, some, List, [], ◌∷◌,
}
use bitmonero.Base.Int.{ℤ, pos, negsuc, pos_part, neg_part, ◌-ℤ◌, ◌<<ℤ◌}
use bitmonero.Field.{fe_0, fe_1, fe_cmov, fe_copy, fe_neg, to_word, of_word}
use bitmonero.Group.{GeCached}

-- `unsigned char ub = b; … y = x; y -= 1; y >>= 31;`
unfoldable pub equal : ℕ → ℕ → ℕ
equal b c = let x = bit_xor (b % 256) (c % 256) in let y = (x + (2 ^ 32 - 1)) % 2 ^ 32 in y / 2 ^ 31

-- `unsigned long long x = b; x >>= 63;`
unfoldable pub negative : ℤ → ℕ
negative (pos n) = (n % 2 ^ 64) / 2 ^ 63
negative (negsuc n) = (2 ^ 64 - suc n) / 2 ^ 63

-- `unsigned char babs = b - (((-bnegative) & b) << 1);`, with words of 32 bits for the operands of &.
unfoldable pub absolute : ℤ → ℕ → ℕ
unfolding to_word of_word
absolute b bnegative =
    let masked = of_word (bit_and ((2 ^ 32 - bnegative) % 2 ^ 32) (to_word b)) in
    let d = b -ℤ (masked <<ℤ 1) in (pos_part d + (256 - neg_part d % 256)) % 256

abbrev pub ge_cached_0 : GeCached
ge_cached_0 = record { yplusx = fe_1; yminusx = fe_1; z = fe_1; t2d = fe_0 }

unfoldable pub ge_cached_cmov : GeCached → GeCached → ℕ → Option GeCached
ge_cached_cmov t u b = do
  yplusx ← fe_cmov t.yplusx u.yplusx b
  yminusx ← fe_cmov t.yminusx u.yminusx b
  z ← fe_cmov t.z u.z b
  t2d ← fe_cmov t.t2d u.t2d b
  some (record { yplusx = yplusx; yminusx = yminusx; z = z; t2d = t2d })

-- `ge_cached_cmov(&cur, &Ai[j - 1], equal(babs, j));` for the entries from the one for `j` on, and the
-- same calls of `ge_precomp_cmov`.
unfoldable pub pick : {E : Type 0} → (E → E → ℕ → Option E) → ℕ → ℕ → E → List E → Option E
pick cmov j babs cur [] = some cur
pick cmov j babs cur (u ∷ us) = do cur' ← cmov cur u (equal babs j); pick cmov (suc j) babs cur' us

unfoldable pub minus_cached : GeCached → GeCached
minus_cached cur = record {
  yplusx = fe_copy cur.yminusx;
  yminusx = fe_copy cur.yplusx;
  z = fe_copy cur.z;
  t2d = fe_neg cur.t2d;
}

-- `cur` at the call of `ge_add`, for the digit `b`.
unfoldable pub choose : List GeCached → ℤ → Option GeCached
choose table b = do
  cur ← pick ge_cached_cmov 1 (absolute b (negative b)) ge_cached_0 table
  ge_cached_cmov cur (minus_cached cur) (negative b)
