-- ===== src/Group/Fromfe.antt =====
-- src/crypto/crypto-ops.c: `ge_fromfe_frombytes_vartime`, from a field element to a point. The answer is
-- `none` where an assertion fails. The block under `!defined(NDEBUG)` at its end, which only tests the
-- result, is not part of it.
use bitmonero.Base.{ℕ, Option, none, some, ◌>>=◌, List, [], ◌∷◌, if◌then◌else◌}
use bitmonero.Base.Int.{pos, negsuc, holds}
use bitmonero.Field.{fe_1, fe_add, fe_sub, fe_copy}
use bitmonero.Field.Mul.{fe_mul, fe_sq, fe_sq2}
use bitmonero.Field.Powers.{fe_divpowm1}
use bitmonero.Field.Tobytes.{fe_isnonzero}
use bitmonero.Field.Frombytes.{unmasked_limbs, carried_limbs}
use bitmonero.Group.{Fe, GeP2}
use bitmonero.Group.Codec.{fe_sqrtm1, with_sign}

abbrev pub fe_ma : Fe
fe_ma = negsuc 486661 ∷ pos 0 ∷ pos 0 ∷ pos 0 ∷ pos 0 ∷ pos 0 ∷ pos 0 ∷ pos 0 ∷ pos 0 ∷ pos 0 ∷ []

abbrev pub fe_ma2 : Fe
fe_ma2 =
    negsuc 12721187
    ∷ negsuc 3528
    ∷ pos 0
    ∷ pos 0
    ∷ pos 0
    ∷ pos 0
    ∷ pos 0
    ∷ pos 0
    ∷ pos 0
    ∷ pos 0
    ∷ []

abbrev pub fe_fffb1 : Fe
fe_fffb1 =
    negsuc 31702526
    ∷ negsuc 2466482
    ∷ negsuc 26106794
    ∷ negsuc 12203691
    ∷ negsuc 12169196
    ∷ negsuc 321051
    ∷ pos 14850977
    ∷ negsuc 10296298
    ∷ negsuc 16929437
    ∷ negsuc 407567
    ∷ []

abbrev pub fe_fffb2 : Fe
fe_fffb2 =
    pos 8166131
    ∷ negsuc 6741799
    ∷ negsuc 17040803
    ∷ pos 3154616
    ∷ pos 21461005
    ∷ pos 1466302
    ∷ negsuc 30876703
    ∷ negsuc 6368708
    ∷ pos 10503587
    ∷ negsuc 13363079
    ∷ []

abbrev pub fe_fffb3 : Fe
fe_fffb3 =
    negsuc 13620102
    ∷ pos 14639558
    ∷ pos 4532995
    ∷ pos 7679154
    ∷ pos 16815101
    ∷ negsuc 15883538
    ∷ negsuc 22863839
    ∷ negsuc 14813420
    ∷ pos 13716513
    ∷ negsuc 6477755
    ∷ []

abbrev pub fe_fffb4 : Fe
fe_fffb4 =
    negsuc 21786233
    ∷ negsuc 12173073
    ∷ pos 21573800
    ∷ pos 4524538
    ∷ negsuc 4645903
    ∷ pos 16204591
    ∷ pos 8012863
    ∷ negsuc 8444711
    ∷ pos 3212926
    ∷ pos 6885324
    ∷ []

-- X, z and the sign.
pub record Parts : Type 0 where
  pub x : Fe
  pub z : Fe
  pub sign : ℕ

-- From the branches of the first test to `goto setsign`.
unfoldable pub positive_parts : Fe → Fe → Fe → Parts
positive_parts u v x = record { x = fe_mul x u; z = fe_mul (fe_copy fe_ma) v; sign = 0 }

-- From `negative` to `setsign`.
unfoldable pub negative_parts : Fe → Fe → Fe → Option Parts
negative_parts w r x =
    let x' = fe_mul x fe_sqrtm1 in
    if holds (fe_isnonzero (fe_sub w x'))
    then if holds (fe_isnonzero (fe_add w x'))
      then none
      else some (record { x = fe_mul r fe_fffb3; z = fe_copy fe_ma; sign = 1 })
    else some (record { x = fe_mul r fe_fffb4; z = fe_copy fe_ma; sign = 1 })

-- From the first test to `setsign`, for X, which is `r`, and x.
unfoldable pub parts : Fe → Fe → Fe → Fe → Fe → Option Parts
parts u v w r x =
    if holds (fe_isnonzero (fe_sub w x))
    then if holds (fe_isnonzero (fe_add w x))
      then negative_parts w r x
      else some (positive_parts u v (fe_mul r fe_fffb1))
    else some (positive_parts u v (fe_mul r fe_fffb2))

unfoldable pub from_parts : Fe → Parts → Option GeP2
from_parts w p = do
  x ← with_sign p.sign p.x
  let z = fe_add p.z w
  some (record { x = fe_mul x z; y = fe_sub p.z w; z = z })

unfoldable pub ge_fromfe_frombytes_vartime : List ℕ → Option GeP2
ge_fromfe_frombytes_vartime s = do
  let u = carried_limbs (unmasked_limbs s)
  let v = fe_sq2 u
  let w = fe_add v fe_1
  let x = fe_add (fe_sq w) (fe_mul fe_ma2 v)
  let r = fe_divpowm1 w x
  p ← parts u v w r (fe_mul (fe_sq r) x)
  from_parts w p
