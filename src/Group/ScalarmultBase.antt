-- ===== src/Group/ScalarmultBase.antt =====
-- src/crypto/crypto-ops.c: `ge_scalarmult_base`, with `ge_precomp_0`, `ge_precomp_cmov` and `select`.
-- The table `ge_base` is an argument. The answer is `none` where an assertion of `fe_cmov` fails, or
-- where the table is read out of its bounds.
use bitmonero.Base.{ℕ, ◌+◌, ◌*◌, ◌/◌, ◌^◌, bit_and, ◌>>=◌, Option, none, some, List, [], ◌∷◌}
use bitmonero.Base.Int.{ℤ, pos, ◌-ℤ◌}
use bitmonero.Field.{fe_0, fe_1, fe_cmov, fe_copy, fe_neg}
use bitmonero.Group.{
  GeP3, GePrecomp, ge_madd, ge_p2_dbl, ge_p3_0, ge_p3_dbl, ge_p1p1_to_p2, ge_p1p1_to_p3,
}
use bitmonero.Group.Select.{negative, absolute, pick}

abbrev pub ge_precomp_0 : GePrecomp
ge_precomp_0 = record { yplusx = fe_1; yminusx = fe_1; xy2d = fe_0 }

unfoldable pub ge_precomp_cmov : GePrecomp → GePrecomp → ℕ → Option GePrecomp
ge_precomp_cmov t u b = do
  yplusx ← fe_cmov t.yplusx u.yplusx b
  yminusx ← fe_cmov t.yminusx u.yminusx b
  xy2d ← fe_cmov t.xy2d u.xy2d b
  some (record { yplusx = yplusx; yminusx = yminusx; xy2d = xy2d })

unfoldable pub minus_precomp : GePrecomp → GePrecomp
minus_precomp t = record {
  yplusx = fe_copy t.yminusx;
  yminusx = fe_copy t.yplusx;
  xy2d = fe_neg t.xy2d;
}

-- `row` is ge_base[pos].
unfoldable pub select : List GePrecomp → ℤ → Option GePrecomp
select row b = do
  t ← pick ge_precomp_cmov 1 (absolute b (negative b)) ge_precomp_0 row
  ge_precomp_cmov t (minus_precomp t) (negative b)

-- e[2 * i] and e[2 * i + 1], of 4 bits each.
unfoldable pub nibbles : List ℕ → List ℕ
nibbles [] = []
nibbles (a ∷ r) = bit_and 15 (a / 2 ^ 0) ∷ bit_and 15 (a / 2 ^ 4) ∷ nibbles r

-- The loop with the carries, and `e[63] += carry;`.
unfoldable pub carry_digits : ℕ → List ℕ → List ℤ
carry_digits carry [] = []
carry_digits carry (e ∷ []) = pos (e + carry) ∷ []
carry_digits carry (e ∷ f ∷ r) =
    let e' = e + carry in
    let carry' = (e' + 8) / 2 ^ 4 in (pos e' -ℤ pos (carry' * 2 ^ 4)) ∷ carry_digits carry' (f ∷ r)

-- e[0], e[2], …
abbrev pub evens : List ℤ → List ℤ
evens [] = []
evens (d ∷ []) = d ∷ []
evens (d ∷ e ∷ r) = d ∷ evens r

-- e[1], e[3], …
abbrev pub odds : List ℤ → List ℤ
odds [] = []
odds (d ∷ []) = []
odds (d ∷ e ∷ r) = e ∷ odds r

-- The two loops that add, over the digits with odd and with even numbers.
unfoldable pub add_rows : List (List GePrecomp) → List ℤ → GeP3 → Option GeP3
add_rows rows [] h = some h
add_rows [] (d ∷ e) h = none
add_rows (row ∷ rows) (d ∷ e) h = do t ← select row d; add_rows rows e (ge_p1p1_to_p3 (ge_madd h t))

-- The four doublings between the loops.
unfoldable pub four_doublings : GeP3 → GeP3
four_doublings h =
    let s = ge_p1p1_to_p2 (ge_p3_dbl h) in
    let s' = ge_p1p1_to_p2 (ge_p2_dbl s) in
    let s'' = ge_p1p1_to_p2 (ge_p2_dbl s') in ge_p1p1_to_p3 (ge_p2_dbl s'')

unfoldable pub ge_scalarmult_base : List (List GePrecomp) → List ℕ → Option GeP3
ge_scalarmult_base rows a = do
  let e = carry_digits 0 (nibbles a)
  h ← add_rows rows (odds e) ge_p3_0
  add_rows rows (evens e) (four_doublings h)
