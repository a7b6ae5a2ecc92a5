-- ===== src/Group.antt =====
-- src/crypto/crypto-ops.c: the functions `ge_…`, on points of the curve in the coordinates of
-- src/crypto/crypto-ops.h. A function that writes through a pointer returns the new value, and a
-- coordinate that is written twice is bound twice.
pub mod Curve
pub mod Convert
pub mod Add
pub mod Variants
pub mod Double
pub mod Multiples
pub mod Tables
pub mod Recode
pub mod Select
pub mod Choice
pub mod Scalarmult
pub mod ScalarTimes
pub mod Slide
pub mod Window
pub mod WindowRun
pub mod Slid
pub mod DoubleScalarmult
pub mod AddDigit
pub mod Sums
pub mod DoubleTimes
pub mod ScalarmultBase
pub mod Nibbles
pub mod Rows
pub mod BaseTimes
pub mod Codec
pub mod Roots
pub mod Encode
pub mod Decode
pub mod Fromfe
pub mod OnImage
pub mod FromfeCurve
mod OrderFour
mod MultipleTests
mod DoubleTests
mod BaseTests
mod CodecTests
mod FromfeTests
mod Tests
use bitmonero.Base.{List, [], ◌∷◌}
use bitmonero.Base.Int.{ℤ, pos, negsuc}
use bitmonero.Field.{fe_0, fe_1, fe_add, fe_sub, fe_copy}
use bitmonero.Field.Mul.{fe_mul, fe_sq, fe_sq2}

abbrev pub Fe : Type 0
Fe = List ℤ

pub record GeP2 : Type 0 where
  pub x : Fe
  pub y : Fe
  pub z : Fe

pub record GeP3 : Type 0 where
  pub x : Fe
  pub y : Fe
  pub z : Fe
  pub t : Fe

pub record GeP1P1 : Type 0 where
  pub x : Fe
  pub y : Fe
  pub z : Fe
  pub t : Fe

pub record GePrecomp : Type 0 where
  pub yplusx : Fe
  pub yminusx : Fe
  pub xy2d : Fe

pub record GeCached : Type 0 where
  pub yplusx : Fe
  pub yminusx : Fe
  pub z : Fe
  pub t2d : Fe

-- 2 * d, of src/crypto/crypto-ops-data.c.
abbrev pub fe_d2 : Fe
fe_d2 =
    negsuc 21827238
    ∷ negsuc 5839605
    ∷ negsuc 30745220
    ∷ pos 13898782
    ∷ pos 229458
    ∷ pos 15978800
    ∷ negsuc 12551816
    ∷ negsuc 6495437
    ∷ pos 29715968
    ∷ pos 9444199
    ∷ []

unfoldable pub ge_add : GeP3 → GeCached → GeP1P1
ge_add p q =
    let x = fe_add p.y p.x in
    let y = fe_sub p.y p.x in
    let z = fe_mul x q.yplusx in
    let y' = fe_mul y q.yminusx in
    let t = fe_mul q.t2d p.t in
    let x' = fe_mul p.z q.z in
    let t0 = fe_add x' x' in
    record { x = fe_sub z y'; y = fe_add z y'; z = fe_add t0 t; t = fe_sub t0 t }

unfoldable pub ge_sub : GeP3 → GeCached → GeP1P1
ge_sub p q =
    let x = fe_add p.y p.x in
    let y = fe_sub p.y p.x in
    let z = fe_mul x q.yminusx in
    let y' = fe_mul y q.yplusx in
    let t = fe_mul q.t2d p.t in
    let x' = fe_mul p.z q.z in
    let t0 = fe_add x' x' in
    record { x = fe_sub z y'; y = fe_add z y'; z = fe_sub t0 t; t = fe_add t0 t }

unfoldable pub ge_madd : GeP3 → GePrecomp → GeP1P1
ge_madd p q =
    let x = fe_add p.y p.x in
    let y = fe_sub p.y p.x in
    let z = fe_mul x q.yplusx in
    let y' = fe_mul y q.yminusx in
    let t = fe_mul q.xy2d p.t in
    let t0 = fe_add p.z p.z in
    record { x = fe_sub z y'; y = fe_add z y'; z = fe_add t0 t; t = fe_sub t0 t }

unfoldable pub ge_msub : GeP3 → GePrecomp → GeP1P1
ge_msub p q =
    let x = fe_add p.y p.x in
    let y = fe_sub p.y p.x in
    let z = fe_mul x q.yminusx in
    let y' = fe_mul y q.yplusx in
    let t = fe_mul q.xy2d p.t in
    let t0 = fe_add p.z p.z in
    record { x = fe_sub z y'; y = fe_add z y'; z = fe_sub t0 t; t = fe_add t0 t }

unfoldable pub ge_p1p1_to_p2 : GeP1P1 → GeP2
ge_p1p1_to_p2 p = record { x = fe_mul p.x p.t; y = fe_mul p.y p.z; z = fe_mul p.z p.t }

unfoldable pub ge_p1p1_to_p3 : GeP1P1 → GeP3
ge_p1p1_to_p3 p = record {
  x = fe_mul p.x p.t;
  y = fe_mul p.y p.z;
  z = fe_mul p.z p.t;
  t = fe_mul p.x p.y;
}

abbrev pub ge_p2_0 : GeP2
ge_p2_0 = record { x = fe_0; y = fe_1; z = fe_1 }

unfoldable pub ge_p2_dbl : GeP2 → GeP1P1
ge_p2_dbl p =
    let x = fe_sq p.x in
    let z = fe_sq p.y in
    let t = fe_sq2 p.z in
    let y = fe_add p.x p.y in
    let t0 = fe_sq y in
    let y' = fe_add z x in
    let z' = fe_sub z x in record { x = fe_sub t0 y'; y = y'; z = z'; t = fe_sub t z' }

abbrev pub ge_p3_0 : GeP3
ge_p3_0 = record { x = fe_0; y = fe_1; z = fe_1; t = fe_0 }

unfoldable pub ge_p3_to_p2 : GeP3 → GeP2
unfolding fe_copy
ge_p3_to_p2 p = record { x = fe_copy p.x; y = fe_copy p.y; z = fe_copy p.z }

unfoldable pub ge_p3_dbl : GeP3 → GeP1P1
unfolding ge_p3_to_p2 ge_p2_dbl
ge_p3_dbl p = ge_p2_dbl (ge_p3_to_p2 p)

unfoldable pub ge_p3_to_cached : GeP3 → GeCached
unfolding fe_copy
ge_p3_to_cached p = record {
  yplusx = fe_add p.y p.x;
  yminusx = fe_sub p.y p.x;
  z = fe_copy p.z;
  t2d = fe_mul p.t fe_d2;
}

-- 8 * t.
unfoldable pub ge_mul8 : GeP2 → GeP1P1
unfolding ge_p2_dbl ge_p1p1_to_p2
ge_mul8 t = ge_p2_dbl (ge_p1p1_to_p2 (ge_p2_dbl (ge_p1p1_to_p2 (ge_p2_dbl t))))
