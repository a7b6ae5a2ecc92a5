-- ===== src/Scalar/Correct.antt =====
-- Results about `sc_reduce`, `sc_reduce32`, `sc_add` and `sc_sub`.
use bitmonero.Base.{ℕ, ◌+◌, ◌%◌, ◌^◌, ◌<◌, ◌≡◌, refl, arith, ap, ◌∙◌}
use bitmonero.Base.{List, [], ◌∷◌, ◌++◌, length, length-append, map}
use bitmonero.Base.Int.{ℤ, pos, ◌+ℤ◌, ◌-ℤ◌, ◌*ℤ◌, ◌>>ℤ◌}
use bitmonero.Base.Range
use bitmonero.Base.Range.{Range}
use bitmonero.Base.Bytes.{IsBytes, le_value, le_value-lt}
use bitmonero.Scalar.Value.{order, up, down}
use bitmonero.Scalar.Bounds.{AllWithin}
use bitmonero.Scalar.RunBounds.{nought, run_ranges}
use bitmonero.Scalar.Codec.{limbs, wide_limbs}
use bitmonero.Scalar.Functions.{finish, sc_reduce, sc_reduce32, sc_add, sc_sub, zip_with}
use bitmonero.Scalar.Functions.{settle_ops, reduce_ops}
use bitmonero.Scalar.Digits.{digits, up-digits, down-digits, limbs-digits, wide_limbs-digits}
use bitmonero.Scalar.Inputs.{digit_ranges, digits-AllWithin, length-digits, snoc-AllWithin}
use bitmonero.Scalar.Inputs.{
  snoc_value, zip_ranges, zip-AllWithin, length-zip, zip_add_value, zip_sub_value,
}
use bitmonero.Scalar.Reduced.{all_inside, IsReduced, Settles, finish-IsReduced}

-- The result is a number below the order in 32 bytes that is `v` modulo the order.
pub record IsScalar (v : ℕ) (out : List ℕ) : Type 0 where
  pub value : le_value out ≡ v % order
  pub bytes : IsBytes out
  pub size : length out ≡ 32

IsScalar-of :
    (v : ℕ) (s : List ℤ) (out : List ℕ) → up s ≡ down s + v → IsReduced s out → IsScalar v out
IsScalar-of v s out e r = record {
  value = omega (arith, r.balance, r.below);
  bytes = r.bytes;
  size = r.size;
}

pub bytes32 : (s : List ℕ) → IsBytes s → length s ≡ 32 → le_value s < 2 ^ 256
bytes32 s h l = rw l at (le_value-lt s h)

abbrev pub wide_ranges : List Range
wide_ranges = digit_ranges 23 (2 ^ 29)

abbrev pub short_ranges : List Range
short_ranges = digit_ranges 11 (2 ^ 25)

abbrev pub reduce32_ranges : List Range
reduce32_ranges = short_ranges ++ (nought ∷ [])

reduce_Settles : Settles reduce_ops wide_ranges 11
unfolding run_ranges all_inside ◌+ℤ◌ ◌-ℤ◌ ◌*ℤ◌ ◌>>ℤ◌
reduce_Settles = record {
  fits = omega arith;
  first = omega arith;
  last = omega arith;
  settles = refl;
  ends = refl;
}

reduce32_Settles : Settles settle_ops reduce32_ranges 0
unfolding run_ranges all_inside ◌+ℤ◌ ◌-ℤ◌ ◌*ℤ◌ ◌>>ℤ◌
reduce32_Settles = record {
  fits = omega arith;
  first = omega arith;
  last = omega arith;
  settles = refl;
  ends = refl;
}

unfoldable pub add_ranges : List Range
add_ranges = zip_ranges Range.add short_ranges short_ranges ++ (nought ∷ [])

unfoldable pub sub_ranges : List Range
sub_ranges = zip_ranges Range.sub short_ranges short_ranges ++ (nought ∷ [])

add_Settles : Settles settle_ops add_ranges 0
unfolding run_ranges all_inside add_ranges zip_ranges ◌+ℤ◌ ◌-ℤ◌ ◌*ℤ◌ ◌>>ℤ◌
add_Settles = record {
  fits = omega arith;
  first = omega arith;
  last = omega arith;
  settles = refl;
  ends = refl;
}

sub_Settles : Settles settle_ops sub_ranges 0
unfolding run_ranges all_inside sub_ranges zip_ranges Range.sub ◌+ℤ◌ ◌-ℤ◌ ◌*ℤ◌ ◌>>ℤ◌
sub_Settles = record {
  fits = omega arith;
  first = omega arith;
  last = omega arith;
  settles = refl;
  ends = refl;
}

-- The functions with their parts shut.
sc_reduce_parts : (s : List ℕ) → sc_reduce s ≡ finish reduce_ops (map pos (wide_limbs s))
unfolding sc_reduce
sc_reduce_parts s = refl

sc_reduce32_parts :
    (s : List ℕ) → sc_reduce32 s ≡ finish settle_ops (map pos (limbs s) ++ (pos 0 ∷ []))
unfolding sc_reduce32
sc_reduce32_parts s = refl

sc_add_parts :
    (a b : List ℕ)
    → sc_add a b ≡ finish settle_ops (zip_with ◌+ℤ◌ (limbs a) (limbs b) ++ (pos 0 ∷ []))
unfolding sc_add
sc_add_parts a b = refl

sc_sub_parts :
    (a b : List ℕ)
    → sc_sub a b ≡ finish settle_ops (zip_with ◌-ℤ◌ (limbs a) (limbs b) ++ (pos 0 ∷ []))
unfolding sc_sub
sc_sub_parts a b = refl

module _ (s : List ℕ) (h : IsBytes s) where
  sc_reduce_lem : length s ≡ 64 → IsReduced (map pos (digits 23 (le_value s))) (sc_reduce s)
  sc_reduce_lem l =
      let fits : le_value s < 2 ^ 512 = rw l at (le_value-lt s h) in
      rw (sc_reduce_parts, wide_limbs-digits s h l)
        (finish-IsReduced reduce_ops (map pos (digits 23 (le_value s))) wide_ranges 11
          reduce_Settles (length-digits 23 (le_value s))
          (digits-AllWithin 23 (2 ^ 29) (le_value s) (omega arith)))

  pub short_limbs : length s ≡ 32 → AllWithin (map pos (digits 11 (le_value s))) short_ranges
  short_limbs l = digits-AllWithin 11 (2 ^ 25) (le_value s) (omega (arith, bytes32 s h l))

  sc_reduce32_lem :
      length s ≡ 32 → IsReduced (map pos (digits 11 (le_value s)) ++ (pos 0 ∷ [])) (sc_reduce32 s)
  sc_reduce32_lem l =
      let v = map pos (digits 11 (le_value s)) in
      rw (sc_reduce32_parts, limbs-digits s h l)
        (finish-IsReduced settle_ops (v ++ (pos 0 ∷ [])) reduce32_ranges 0 reduce32_Settles
          (length-append v (pos 0 ∷ []) ∙ ap (λ (n : ℕ). n + 1) (length-digits 11 (le_value s)))
          (snoc-AllWithin v short_ranges (short_limbs l)))

  -- `sc_reduce` turns 64 bytes into the 32 bytes of their number modulo the order.
  pub sc_reduce-IsScalar : length s ≡ 64 → IsScalar (le_value s) (sc_reduce s)
  sc_reduce-IsScalar l =
      IsScalar-of (le_value s) (map pos (digits 23 (le_value s))) (sc_reduce s)
        (omega (arith, up-digits 23 (le_value s), down-digits 23 (le_value s))) (sc_reduce_lem l)

  -- `sc_reduce32` turns 32 bytes into the 32 bytes of their number modulo the order.
  pub sc_reduce32-IsScalar : length s ≡ 32 → IsScalar (le_value s) (sc_reduce32 s)
  sc_reduce32-IsScalar l =
      let v = map pos (digits 11 (le_value s)) in
      let (p, q) = snoc_value v in
      IsScalar-of (le_value s) (v ++ (pos 0 ∷ [])) (sc_reduce32 s)
        (omega (arith, p, q, up-digits 11 (le_value s), down-digits 11 (le_value s)))
        (sc_reduce32_lem l)

module _ (a b : List ℕ) (ha : IsBytes a) (hb : IsBytes b) (la : length a ≡ 32)
    (lb : length b ≡ 32) where
  abbrev sum_limbs : List ℤ
  sum_limbs = zip_with ◌+ℤ◌ (digits 11 (le_value a)) (digits 11 (le_value b))

  abbrev difference_limbs : List ℤ
  difference_limbs = zip_with ◌-ℤ◌ (digits 11 (le_value a)) (digits 11 (le_value b))

  sc_add_lem : IsReduced (sum_limbs ++ (pos 0 ∷ [])) (sc_add a b)
  unfolding add_ranges
  sc_add_lem =
      rw (sc_add_parts, limbs-digits a ha la, limbs-digits b hb lb)
        (finish-IsReduced settle_ops (sum_limbs ++ (pos 0 ∷ [])) add_ranges 0 add_Settles
          (length-append sum_limbs (pos 0 ∷ [])
            ∙ ap (λ (n : ℕ). n + 1) (length-zip ◌+ℤ◌ 11 (le_value a) (le_value b)))
          (snoc-AllWithin sum_limbs (zip_ranges Range.add short_ranges short_ranges) (
            zip-AllWithin ◌+ℤ◌ Range.add Range.add-Within (digits 11 (le_value a))
              (digits 11 (le_value b)) short_ranges short_ranges (short_limbs a ha la)
              (short_limbs b hb lb))))

  sc_sub_lem : IsReduced (difference_limbs ++ (pos 0 ∷ [])) (sc_sub a b)
  unfolding sub_ranges
  sc_sub_lem =
      rw (sc_sub_parts, limbs-digits a ha la, limbs-digits b hb lb)
        (finish-IsReduced settle_ops (difference_limbs ++ (pos 0 ∷ [])) sub_ranges 0 sub_Settles
          (length-append difference_limbs (pos 0 ∷ [])
            ∙ ap (λ (n : ℕ). n + 1) (length-zip ◌-ℤ◌ 11 (le_value a) (le_value b)))
          (snoc-AllWithin difference_limbs (zip_ranges Range.sub short_ranges short_ranges) (
            zip-AllWithin ◌-ℤ◌ Range.sub Range.sub-Within (digits 11 (le_value a))
              (digits 11 (le_value b)) short_ranges short_ranges (short_limbs a ha la)
              (short_limbs b hb lb))))

  -- `sc_add` adds two numbers of 32 bytes modulo the order.
  pub sc_add-IsScalar : IsScalar (le_value a + le_value b) (sc_add a b)
  sc_add-IsScalar =
      let (p, q) = snoc_value sum_limbs in
      IsScalar-of (le_value a + le_value b) (sum_limbs ++ (pos 0 ∷ [])) (sc_add a b)
        (omega (arith, p, q, zip_add_value 11 (le_value a) (le_value b))) sc_add_lem

  -- The result of `sc_sub` is reduced, and adding the second operand gives the first one back,
  -- modulo the order.
  pub sc_sub-inverse :
      (le_value (sc_sub a b) < order)
      × ((le_value (sc_sub a b) + le_value b) % order ≡ le_value a % order)
      × IsBytes (sc_sub a b)
      × (length (sc_sub a b) ≡ 32)
  sc_sub-inverse =
      let (p, q) = snoc_value difference_limbs in
      let r = sc_sub_lem in
      (
        r.below,
        omega (arith, r.balance, p, q, zip_sub_value 11 (le_value a) (le_value b)),
        r.bytes,
        r.size,
      )
