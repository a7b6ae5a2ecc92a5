-- ===== src/Scalar/Tests.antt =====
-- Runs of the scalar functions, and their theorems at concrete inputs.
use bitmonero.Base.{ℕ, ◌+◌, ◌*◌, ◌%◌, ◌<◌, ◌≤◌, ◌≡◌, refl, arith, ◌⊎◌, List, ◌∷◌, ◌++◌}
use bitmonero.Base.{replicate, length}
use bitmonero.Base.Int.{pos, negsuc, ◌*ℤ◌}
use bitmonero.Base.Bytes.{IsBytes, le_value}
use bitmonero.Scalar.Value.{order}
use bitmonero.Scalar.Codec.{limbs}
use bitmonero.Scalar.Limbs.{final_ops}
use bitmonero.Scalar.RunBounds.{RunFits}
use bitmonero.Scalar.Functions.{sc_reduce, sc_reduce32, sc_add, sc_sub, sc_mulsub, sc_0}
use bitmonero.Scalar.Functions.{mulsub_ops, mulsub_limbs}
use bitmonero.Scalar.Correct.{
  IsScalar, sc_reduce-IsScalar, sc_reduce32-IsScalar, sc_add-IsScalar, sc_sub-inverse,
}
use bitmonero.Scalar.Mulsub.{sc_mulsub-inverse}
use bitmonero.Scalar.Check.{sc_check, sc_check_decides}
use bitmonero.Scalar.NoOverflow.{sc_mulsub-RunFits}

abbrev two : List ℕ
two = 2 ∷ replicate 31 0

abbrev ones : List ℕ
ones = replicate 32 255

abbrev wide : List ℕ
wide = replicate 64 255

-- 0 - 2 is the order less 2.
sub_wraps :
    le_value (sc_sub sc_0 two)
    ≡ 7237005577332262213973186563042994240857116359379907606001950938285454250987
unfolding sc_sub sc_0
sub_wraps = refl

mulsub_run :
    le_value (sc_mulsub ones ones two)
    ≡ 5609290076161550768688791537998580356233205602134577539884686349294062487373
unfolding sc_mulsub
mulsub_run = refl

check_run : (sc_check two ≡ pos 0) × (sc_check ones ≡ negsuc 0)
unfolding sc_check ◌*ℤ◌
check_run = (refl, refl)

sc_reduce-IsScalar_example : IsScalar (le_value wide) (sc_reduce wide)
sc_reduce-IsScalar_example = sc_reduce-IsScalar wide (omega arith) refl

sc_reduce32-IsScalar_example : IsScalar (le_value ones) (sc_reduce32 ones)
sc_reduce32-IsScalar_example = sc_reduce32-IsScalar ones (omega arith) refl

sc_add-IsScalar_example : IsScalar (le_value ones + le_value two) (sc_add ones two)
sc_add-IsScalar_example = sc_add-IsScalar ones two (omega arith) (omega arith) refl refl

sc_sub-inverse_example :
    (le_value (sc_sub two ones) < order)
    × ((le_value (sc_sub two ones) + le_value ones) % order ≡ le_value two % order)
    × IsBytes (sc_sub two ones)
    × (length (sc_sub two ones) ≡ 32)
sc_sub-inverse_example = sc_sub-inverse two ones (omega arith) (omega arith) refl refl

sc_mulsub-inverse_example :
    (le_value (sc_mulsub ones ones two) < order)
    × ((le_value (sc_mulsub ones ones two) + le_value ones * le_value ones) % order
        ≡ le_value two % order)
    × IsBytes (sc_mulsub ones ones two)
    × (length (sc_mulsub ones ones two) ≡ 32)
sc_mulsub-inverse_example =
    sc_mulsub-inverse ones ones two (omega arith) (omega arith) (omega arith) refl refl refl

sc_check_decides_example :
    ((le_value ones < order) × (sc_check ones ≡ pos 0))
    ⊎ ((order ≤ le_value ones) × (sc_check ones ≡ negsuc 0))
sc_check_decides_example = sc_check_decides ones (omega arith) refl

sc_mulsub-RunFits_example :
    RunFits (mulsub_ops ++ final_ops) (mulsub_limbs (limbs ones) (limbs ones) (limbs two))
sc_mulsub-RunFits_example =
    sc_mulsub-RunFits ones ones two (omega arith) (omega arith) (omega arith) refl refl refl
