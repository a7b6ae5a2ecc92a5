-- ===== src/Group/Codec.antt =====
-- src/crypto/crypto-ops.c: `ge_tobytes`, `ge_p3_tobytes` and `ge_frombytes_vartime`, between points and
-- strings of 32 bytes. The answer -1 is `none`.
use bitmonero.Base.{
  ℕ, ◌*◌, ◌/◌, ◌^◌, bit_xor, Option, none, some, ◌>>=◌, List, [], ◌∷◌, get_or, set, ◌==◌,
  if◌then◌else◌,
}
use bitmonero.Base.Int.{pos, negsuc, holds}
use bitmonero.Field.{fe_1, fe_add, fe_sub, fe_neg}
use bitmonero.Field.Mul.{fe_mul, fe_sq}
use bitmonero.Field.Powers.{fe_invert, fe_divpowm1}
use bitmonero.Field.Tobytes.{fe_tobytes, fe_isnegative, fe_isnonzero}
use bitmonero.Field.Frombytes.{masked_limbs, is_too_large, carried_limbs}
use bitmonero.Group.{Fe, GeP2, GeP3}

-- The common body of `ge_tobytes` and `ge_p3_tobytes`, for X, Y and Z.
unfoldable pub encode : Fe → Fe → Fe → List ℕ
encode x y z =
    let recip = fe_invert z in
    let x' = fe_mul x recip in
    let y' = fe_mul y recip in
    let s = fe_tobytes y' in set s 31 (bit_xor (get_or s 31 0) (fe_isnegative x' * 2 ^ 7))

unfoldable pub ge_tobytes : GeP2 → List ℕ
ge_tobytes h = encode h.x h.y h.z

unfoldable pub ge_p3_tobytes : GeP3 → List ℕ
ge_p3_tobytes h = encode h.x h.y h.z

abbrev pub fe_d : Fe
fe_d =
    negsuc 10913609
    ∷ pos 13857413
    ∷ negsuc 15372610
    ∷ pos 6949391
    ∷ pos 114729
    ∷ negsuc 8787815
    ∷ negsuc 6275907
    ∷ negsuc 3247718
    ∷ negsuc 18696447
    ∷ negsuc 12055115
    ∷ []

abbrev pub fe_sqrtm1 : Fe
fe_sqrtm1 =
    negsuc 32595791
    ∷ negsuc 7943724
    ∷ pos 9377950
    ∷ pos 3500415
    ∷ pos 12389472
    ∷ negsuc 272472
    ∷ negsuc 25146208
    ∷ negsuc 2005653
    ∷ pos 326686
    ∷ pos 11406482
    ∷ []

-- X up to its sign: a root of u / v, from the candidate `x`.
unfoldable pub root_of : Fe → Fe → Fe → Option Fe
root_of u v x =
    let vxx = fe_mul (fe_sq x) v in
    if holds (fe_isnonzero (fe_sub vxx u))
    then if holds (fe_isnonzero (fe_add vxx u)) then none else some (fe_mul x fe_sqrtm1)
    else some x

-- X with the sign of the string.
unfoldable pub with_sign : ℕ → Fe → Option Fe
with_sign sign x =
    if fe_isnegative x == sign
    then some x
    else if holds (fe_isnonzero x)
    then some (fe_neg x)
    else none

unfoldable pub ge_frombytes_vartime : List ℕ → Option GeP3
ge_frombytes_vartime s =
    let h = masked_limbs s in
    let y = carried_limbs h in
    let u = fe_sq y in
    let v = fe_mul u fe_d in
    let u' = fe_sub u fe_1 in
    let v' = fe_add v fe_1 in
    if is_too_large h then none else do
      x ← root_of u' v' (fe_divpowm1 u' v')
      x' ← with_sign (get_or s 31 0 / 2 ^ 7) x
      some (record { x = x'; y = y; z = fe_1; t = fe_mul x' y })
