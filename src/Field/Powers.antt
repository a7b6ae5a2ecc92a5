-- ===== src/Field/Powers.antt =====
-- src/crypto/crypto-ops.c: `fe_invert` and `fe_divpowm1`, powers by chains of squares and products.
-- A variable that is written again is bound again.
use bitmonero.Base.{ℕ, zero, suc, List}
use bitmonero.Base.Int.{ℤ}
use bitmonero.Field.Mul.{fe_mul, fe_sq}

-- `for (i = 0; i < n; ++i) fe_sq(t, t);`
unfoldable pub fe_squares : ℕ → List ℤ → List ℤ
fe_squares zero t = t
fe_squares (suc n) t = fe_squares n (fe_sq t)

unfoldable pub fe_invert : List ℤ → List ℤ
fe_invert z =
    let t0 = fe_sq z in
    let t1 = fe_sq t0 in
    let t1' = fe_sq t1 in
    let t1'' = fe_mul z t1' in
    let t0' = fe_mul t0 t1'' in
    let t2 = fe_sq t0' in
    let a5 = fe_mul t1'' t2 in
    let t2' = fe_squares 4 (fe_sq a5) in
    let a10 = fe_mul t2' a5 in
    let a20 = fe_mul (fe_squares 9 (fe_sq a10)) a10 in
    let a40 = fe_mul (fe_squares 19 (fe_sq a20)) a20 in
    let a50 = fe_mul (fe_squares 9 (fe_sq a40)) a10 in
    let a100 = fe_mul (fe_squares 49 (fe_sq a50)) a50 in
    let a200 = fe_mul (fe_squares 99 (fe_sq a100)) a100 in
    let a250 = fe_mul (fe_squares 49 (fe_sq a200)) a50 in fe_mul (fe_squares 4 (fe_sq a250)) t0'

-- The part of `fe_divpowm1` from fe_pow22523.c.
unfoldable pub fe_pow22523 : List ℤ → List ℤ
fe_pow22523 uv7 =
    let t0 = fe_sq uv7 in
    let t1 = fe_sq t0 in
    let t1' = fe_sq t1 in
    let t1'' = fe_mul uv7 t1' in
    let t0' = fe_mul t0 t1'' in
    let t0'' = fe_sq t0' in
    let a5 = fe_mul t1'' t0'' in
    let a10 = fe_mul (fe_squares 4 (fe_sq a5)) a5 in
    let a20 = fe_mul (fe_squares 9 (fe_sq a10)) a10 in
    let a40 = fe_mul (fe_squares 19 (fe_sq a20)) a20 in
    let a50 = fe_mul (fe_squares 10 a40) a10 in
    let a100 = fe_mul (fe_squares 49 (fe_sq a50)) a50 in
    let a200 = fe_mul (fe_squares 99 (fe_sq a100)) a100 in
    let a250 = fe_mul (fe_squares 50 a200) a50 in
    let t = fe_sq a250 in let t' = fe_sq t in fe_mul t' uv7

unfoldable pub fe_divpowm1 : List ℤ → List ℤ → List ℤ
unfolding fe_pow22523
fe_divpowm1 u v =
    let v3 = fe_sq v in
    let v3' = fe_mul v3 v in
    let uv7 = fe_sq v3' in
    let uv7' = fe_mul uv7 v in
    let uv7'' = fe_mul uv7' u in
    let t0 = fe_pow22523 uv7'' in let t0' = fe_mul t0 v3' in fe_mul t0' u
