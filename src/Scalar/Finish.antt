-- ===== src/Scalar/Finish.antt =====
-- The last blocks of the scalar functions, on the number of the limbs.
use bitmonero.Base.{ℕ, zero, suc, ◌+◌, ◌*◌, ◌-◌, ◌^◌, ◌≤◌, ◌<◌, ◌≡◌, refl, arith, ◌∙◌}
use bitmonero.Base.{List, [], ◌∷◌, ◌++◌, length, replicate}
use bitmonero.Base.Int.{ℤ, pos, negsuc, pos_part, neg_part}
use bitmonero.Base.Range.{Range, Within}
use bitmonero.Base.Bytes.{IsBytes, le_value}
use bitmonero.Scalar.Limbs.{carry_floor, fold, step, run, floors}
use bitmonero.Scalar.Value.{order, order_tail, up, down, SameValue, fold_value, length-step}
use bitmonero.Scalar.Value.{carry-SameValue}
use bitmonero.Scalar.Bounds.{AllWithin}
use bitmonero.Scalar.RunBounds.{nought}
use bitmonero.Scalar.Codec.{pack}
use bitmonero.Scalar.Pack.{pack_bytes, bytes_value, bytes-IsBytes, AreLimbs}

abbrev pub digit : Range
digit = record { lo = pos 0; hi = pos (2 ^ 21 - 1) }

-- After the first chain of carries: twelve digits, and -1 or 0 above them.
abbrev pub settled : ℕ → List Range
settled n = replicate 12 digit ++ (record { lo = negsuc 0; hi = pos 0 } ∷ replicate n nought)

-- After the second chain.
abbrev pub ended : ℕ → List Range
ended n =
    replicate 11 digit
    ++ (record { lo = negsuc (2 ^ 22); hi = pos (2 ^ 22) } ∷ nought ∷ replicate n nought)

digit_parts : (x : ℤ) → Within x digit → (neg_part x ≡ 0) × (pos_part x < 2097152)
digit_parts (pos n) h = omega arith
digit_parts (negsuc n) h = absurd (omega arith)

nought_parts : (x : ℤ) → Within x nought → (neg_part x ≡ 0) × (pos_part x ≡ 0)
nought_parts (pos n) h = omega arith
nought_parts (negsuc n) h = absurd (omega arith)

sign_parts :
    (x : ℤ) → Within x (record { lo = negsuc 0; hi = pos 0 }) → (neg_part x ≤ 1) × (pos_part x ≡ 0)
sign_parts (pos n) h = omega arith
sign_parts (negsuc n) h = omega arith

-- The highest limb has the sign of the whole.
top_parts :
    (x : ℤ) (low v : ℕ)
    → low < 2 ^ 231
    → v < order
    → low + 2 ^ 231 * pos_part x ≡ 2 ^ 231 * neg_part x + v
    → (neg_part x ≡ 0) × (pos_part x < 33554432)
top_parts (pos n) low v a b e = omega arith
top_parts (negsuc n) low v a b e = absurd (omega arith)

pub noughts : (n : ℕ) (s : List ℤ) → AllWithin s (replicate n nought) → (up s ≡ 0) × (down s ≡ 0)
noughts zero [] w = (refl, refl)
noughts zero (x ∷ s) w = absurd w
noughts (suc n) [] w = absurd w
noughts (suc n) (x ∷ s) (h, w) =
    let (p, q) = noughts n s w in
    (omega (arith, p, nought_parts x h), omega (arith, q, nought_parts x h))

-- The fold of s12 after the first chain leaves a number in [0, order).
pub fold_settled :
    (n : ℕ) (s : List ℤ)
    → AllWithin s (settled n)
    → (v : ℕ) × (v < order) × (up (step (fold 0) s) ≡ down (step (fold 0) s) + v)
fold_settled n [] w = absurd w
fold_settled n (s0 ∷ []) w = absurd w.1
fold_settled n (s0 ∷ s1 ∷ []) w = absurd w.1.1
fold_settled n (s0 ∷ s1 ∷ s2 ∷ []) w = absurd w.1.1.1
fold_settled n (s0 ∷ s1 ∷ s2 ∷ s3 ∷ []) w = absurd w.1.1.1.1
fold_settled n (s0 ∷ s1 ∷ s2 ∷ s3 ∷ s4 ∷ []) w = absurd w.1.1.1.1.1
fold_settled n (s0 ∷ s1 ∷ s2 ∷ s3 ∷ s4 ∷ s5 ∷ []) w = absurd w.1.1.1.1.1.1
fold_settled n (s0 ∷ s1 ∷ s2 ∷ s3 ∷ s4 ∷ s5 ∷ s6 ∷ []) w = absurd w.1.1.1.1.1.1.1
fold_settled n (s0 ∷ s1 ∷ s2 ∷ s3 ∷ s4 ∷ s5 ∷ s6 ∷ s7 ∷ []) w = absurd w.1.1.1.1.1.1.1.1
fold_settled n (s0 ∷ s1 ∷ s2 ∷ s3 ∷ s4 ∷ s5 ∷ s6 ∷ s7 ∷ s8 ∷ []) w = absurd w.1.1.1.1.1.1.1.1.1
fold_settled n (s0 ∷ s1 ∷ s2 ∷ s3 ∷ s4 ∷ s5 ∷ s6 ∷ s7 ∷ s8 ∷ s9 ∷ []) w =
    absurd w.1.1.1.1.1.1.1.1.1.1
fold_settled n (s0 ∷ s1 ∷ s2 ∷ s3 ∷ s4 ∷ s5 ∷ s6 ∷ s7 ∷ s8 ∷ s9 ∷ s10 ∷ []) w =
    absurd w.1.1.1.1.1.1.1.1.1.1.1
fold_settled n (s0 ∷ s1 ∷ s2 ∷ s3 ∷ s4 ∷ s5 ∷ s6 ∷ s7 ∷ s8 ∷ s9 ∷ s10 ∷ s11 ∷ []) w =
    absurd w.1.1.1.1.1.1.1.1.1.1.1.1
fold_settled n (s0 ∷ s1 ∷ s2 ∷ s3 ∷ s4 ∷ s5 ∷ s6 ∷ s7 ∷ s8 ∷ s9 ∷ s10 ∷ s11 ∷ s12 ∷ r) w =
    let (p, q) = noughts n r w.1.1.1.1.1.1.1.1.1.1.1.1.1 in
    let s : List ℤ = s0 ∷ s1 ∷ s2 ∷ s3 ∷ s4 ∷ s5 ∷ s6 ∷ s7 ∷ s8 ∷ s9 ∷ s10 ∷ s11 ∷ s12 ∷ r in
    let v =
      pos_part s0
      + 2097152
        * (pos_part s1
            + 2097152
              * (pos_part s2
                  + 2097152
                    * (pos_part s3
                        + 2097152
                          * (pos_part s4
                              + 2097152
                                * (pos_part s5
                                    + 2097152
                                      * (pos_part s6
                                          + 2097152
                                            * (pos_part s7
                                                + 2097152
                                                  * (pos_part s8
                                                      + 2097152
                                                        * (pos_part s9
                                                            + 2097152
                                                            * (pos_part s10
                                                            + 2097152 * (pos_part s11)))))))))))
      + order_tail * neg_part s12 in
    let f = fold_value 0 s (omega arith) in
    (
      v,
      omega (
        arith,
        digit_parts s0 w.0,
        digit_parts s1 w.1.0,
        digit_parts s2 w.1.1.0,
        digit_parts s3 w.1.1.1.0,
        digit_parts s4 w.1.1.1.1.0,
        digit_parts s5 w.1.1.1.1.1.0,
        digit_parts s6 w.1.1.1.1.1.1.0,
        digit_parts s7 w.1.1.1.1.1.1.1.0,
        digit_parts s8 w.1.1.1.1.1.1.1.1.0,
        digit_parts s9 w.1.1.1.1.1.1.1.1.1.0,
        digit_parts s10 w.1.1.1.1.1.1.1.1.1.1.0,
        digit_parts s11 w.1.1.1.1.1.1.1.1.1.1.1.0,
        sign_parts s12 w.1.1.1.1.1.1.1.1.1.1.1.1.0,
      ),
      omega (
        arith,
        f,
        p,
        q,
        digit_parts s0 w.0,
        digit_parts s1 w.1.0,
        digit_parts s2 w.1.1.0,
        digit_parts s3 w.1.1.1.0,
        digit_parts s4 w.1.1.1.1.0,
        digit_parts s5 w.1.1.1.1.1.0,
        digit_parts s6 w.1.1.1.1.1.1.0,
        digit_parts s7 w.1.1.1.1.1.1.1.0,
        digit_parts s8 w.1.1.1.1.1.1.1.1.0,
        digit_parts s9 w.1.1.1.1.1.1.1.1.1.0,
        digit_parts s10 w.1.1.1.1.1.1.1.1.1.1.0,
        digit_parts s11 w.1.1.1.1.1.1.1.1.1.1.1.0,
        sign_parts s12 w.1.1.1.1.1.1.1.1.1.1.1.1.0,
      ),
    )

floor_value : (k : ℕ) (s : List ℤ) → suc k < length s → SameValue (step (carry_floor k) s) s
unfolding step
floor_value k s h = carry-SameValue (pos 0) k s h

pub floors-SameValue : (k n : ℕ) (s : List ℤ) → k + n < length s → SameValue (run (floors k n) s) s
unfolding run
floors-SameValue k zero s h = refl
floors-SameValue k (suc n) s h = omega (
  arith,
  floors-SameValue (suc k) n (step (carry_floor k) s)
      (omega (arith, length-step (carry_floor k) s)),
  floor_value k s (omega arith),
)

from_digit : (x : ℤ) → neg_part x ≡ 0 → x ≡ pos (pos_part x)
from_digit (pos n) h = refl
from_digit (negsuc n) h = absurd (omega arith)

-- Such limbs are written as the 32 bytes of their number.
pub pack-ended :
    (n v : ℕ) (u : List ℤ)
    → AllWithin u (ended n)
    → v < order
    → up u ≡ down u + v
    → (le_value (pack u) ≡ v) × IsBytes (pack u) × (length (pack u) ≡ 32)
pack-ended n v [] w b e = absurd w
pack-ended n v (u0 ∷ []) w b e = absurd w.1
pack-ended n v (u0 ∷ u1 ∷ []) w b e = absurd w.1.1
pack-ended n v (u0 ∷ u1 ∷ u2 ∷ []) w b e = absurd w.1.1.1
pack-ended n v (u0 ∷ u1 ∷ u2 ∷ u3 ∷ []) w b e = absurd w.1.1.1.1
pack-ended n v (u0 ∷ u1 ∷ u2 ∷ u3 ∷ u4 ∷ []) w b e = absurd w.1.1.1.1.1
pack-ended n v (u0 ∷ u1 ∷ u2 ∷ u3 ∷ u4 ∷ u5 ∷ []) w b e = absurd w.1.1.1.1.1.1
pack-ended n v (u0 ∷ u1 ∷ u2 ∷ u3 ∷ u4 ∷ u5 ∷ u6 ∷ []) w b e = absurd w.1.1.1.1.1.1.1
pack-ended n v (u0 ∷ u1 ∷ u2 ∷ u3 ∷ u4 ∷ u5 ∷ u6 ∷ u7 ∷ []) w b e = absurd w.1.1.1.1.1.1.1.1
pack-ended n v (u0 ∷ u1 ∷ u2 ∷ u3 ∷ u4 ∷ u5 ∷ u6 ∷ u7 ∷ u8 ∷ []) w b e = absurd w.1.1.1.1.1.1.1.1.1
pack-ended n v (u0 ∷ u1 ∷ u2 ∷ u3 ∷ u4 ∷ u5 ∷ u6 ∷ u7 ∷ u8 ∷ u9 ∷ []) w b e =
    absurd w.1.1.1.1.1.1.1.1.1.1
pack-ended n v (u0 ∷ u1 ∷ u2 ∷ u3 ∷ u4 ∷ u5 ∷ u6 ∷ u7 ∷ u8 ∷ u9 ∷ u10 ∷ []) w b e =
    absurd w.1.1.1.1.1.1.1.1.1.1.1
pack-ended n v (u0 ∷ u1 ∷ u2 ∷ u3 ∷ u4 ∷ u5 ∷ u6 ∷ u7 ∷ u8 ∷ u9 ∷ u10 ∷ u11 ∷ []) w b e =
    absurd w.1.1.1.1.1.1.1.1.1.1.1.1
pack-ended n v (u0 ∷ u1 ∷ u2 ∷ u3 ∷ u4 ∷ u5 ∷ u6 ∷ u7 ∷ u8 ∷ u9 ∷ u10 ∷ u11 ∷ u12 ∷ r) w b e =
    let (p, q) = noughts n r w.1.1.1.1.1.1.1.1.1.1.1.1.1 in
    let d0 = digit_parts u0 w.0 in
    let d1 = digit_parts u1 w.1.0 in
    let d2 = digit_parts u2 w.1.1.0 in
    let d3 = digit_parts u3 w.1.1.1.0 in
    let d4 = digit_parts u4 w.1.1.1.1.0 in
    let d5 = digit_parts u5 w.1.1.1.1.1.0 in
    let d6 = digit_parts u6 w.1.1.1.1.1.1.0 in
    let d7 = digit_parts u7 w.1.1.1.1.1.1.1.0 in
    let d8 = digit_parts u8 w.1.1.1.1.1.1.1.1.0 in
    let d9 = digit_parts u9 w.1.1.1.1.1.1.1.1.1.0 in
    let d10 = digit_parts u10 w.1.1.1.1.1.1.1.1.1.1.0 in
    let z = nought_parts u12 w.1.1.1.1.1.1.1.1.1.1.1.1.0 in
    let low =
      pos_part u0
      + 2097152
        * (pos_part u1
            + 2097152
              * (pos_part u2
                  + 2097152
                    * (pos_part u3
                        + 2097152
                          * (pos_part u4
                              + 2097152
                                * (pos_part u5
                                    + 2097152
                                      * (pos_part u6
                                          + 2097152
                                            * (pos_part u7
                                                + 2097152
                                                  * (pos_part u8
                                                      + 2097152
                                                        * (pos_part u9
                                                            + 2097152 * (pos_part u10)))))))))) in
    let d11 = top_parts u11 low v (omega arith) b (omega (arith, p, q)) in
    let l : AreLimbs (pos_part u0) (pos_part u1) (pos_part u2) (pos_part u3) (pos_part u4)
        (pos_part u5) (pos_part u6) (pos_part u7) (pos_part u8) (pos_part u9) (pos_part u10)
        (pos_part u11) =
      (d0.1, d1.1, d2.1, d3.1, d4.1, d5.1, d6.1, d7.1, d8.1, d9.1, d10.1, d11.1) in
    rw
      (
        from_digit u0 d0.0,
        from_digit u1 d1.0,
        from_digit u2 d2.0,
        from_digit u3 d3.0,
        from_digit u4 d4.0,
        from_digit u5 d5.0,
        from_digit u6 d6.0,
        from_digit u7 d7.0,
        from_digit u8 d8.0,
        from_digit u9 d9.0,
        from_digit u10 d10.0,
        from_digit u11 d11.0,
        pack_bytes (pos_part u0) (pos_part u1) (pos_part u2) (pos_part u3) (pos_part u4)
            (pos_part u5) (pos_part u6) (pos_part u7) (pos_part u8) (pos_part u9) (pos_part u10)
            (pos_part u11) l (u12 ∷ r),
      )
      (
        bytes_value (pos_part u0) (pos_part u1) (pos_part u2) (pos_part u3) (pos_part u4)
              (pos_part u5) (pos_part u6) (pos_part u7) (pos_part u8) (pos_part u9) (pos_part u10)
              (pos_part u11) l
            ∙ omega (arith, p, q),
        bytes-IsBytes (pos_part u0) (pos_part u1) (pos_part u2) (pos_part u3) (pos_part u4)
            (pos_part u5) (pos_part u6) (pos_part u7) (pos_part u8) (pos_part u9) (pos_part u10)
            (pos_part u11) l,
        refl,
      )
