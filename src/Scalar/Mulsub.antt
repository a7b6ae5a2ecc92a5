-- ===== src/Scalar/Mulsub.antt =====
-- Results about `sc_mulsub`.
use bitmonero.Base.{ℕ, zero, suc, ◌+◌, ◌*◌, ◌/◌, ◌%◌, ◌^◌, ◌<◌, ◌≡◌, refl, arith, ap₂, ◌∙◌}
use bitmonero.Base.{List, [], ◌∷◌, ◌++◌, length, replicate}
use bitmonero.Base.Int.{ℤ, pos, ◌+ℤ◌, ◌-ℤ◌, ◌*ℤ◌, ◌>>ℤ◌}
use bitmonero.Base.Range.{Range}
use bitmonero.Base.Bytes.{IsBytes, le_value, le_value-lt}
use bitmonero.Scalar.Value.{order, up, down}
use bitmonero.Scalar.Bounds.{AllWithin}
use bitmonero.Scalar.RunBounds.{nought, run_ranges}
use bitmonero.Scalar.Codec.{limbs}
use bitmonero.Scalar.Functions.{finish, zip_with, mulsub_ops, mulsub_limbs, sc_mulsub}
use bitmonero.Scalar.Digits.{digits, limbs-digits}
use bitmonero.Scalar.Inputs.{snoc_value, snoc-AllWithin}
use bitmonero.Scalar.Product.{
  value, product, value-product, value-differences, AtMost, product-AtMost,
}
use bitmonero.Scalar.Product.{spans, differences-AllWithin}
use bitmonero.Scalar.Columns.{mulsub_digits}
use bitmonero.Scalar.Reduced.{all_inside, IsReduced, Settles, finish-IsReduced}

-- The largest limbs of 32 bytes.
abbrev pub largest : List ℕ
largest = replicate 11 2097151 ++ (33554431 ∷ [])

abbrev pub product_ranges : List Range
product_ranges = spans (largest ++ replicate 11 0) (product largest largest) ++ (nought ∷ [])

mulsub_Settles : Settles mulsub_ops product_ranges 11
unfolding run_ranges all_inside ◌+ℤ◌ ◌-ℤ◌ ◌*ℤ◌ ◌>>ℤ◌
mulsub_Settles = record {
  fits = omega arith;
  first = omega arith;
  last = omega arith;
  settles = refl;
  ends = refl;
}

value-digits : (n v : ℕ) → value (digits n v) ≡ v
value-digits zero v = omega arith
value-digits (suc n) v = omega (arith, value-digits n (v / 2097152))

value-zeros : (s : List ℕ) (n : ℕ) → value (s ++ replicate n 0) ≡ value s
value-zeros [] zero = refl
value-zeros [] (suc n) = omega (arith, value-zeros [] n)
value-zeros (x ∷ s) n = omega (arith, value-zeros s n)

digits-AtMost : (v : ℕ) → v < 2 ^ 256 → AtMost (digits 11 v) largest
digits-AtMost v h = omega arith

padded-AtMost :
    (v : ℕ) → v < 2 ^ 256 → AtMost (digits 11 v ++ replicate 11 0) (largest ++ replicate 11 0)
padded-AtMost v h = omega arith

sc_mulsub_parts :
    (a b c : List ℕ)
    → sc_mulsub a b c ≡ finish mulsub_ops (mulsub_limbs (limbs a) (limbs b) (limbs c))
unfolding sc_mulsub
sc_mulsub_parts a b c = refl

module _ (x y z : ℕ) (hx : x < 2 ^ 256) (hy : y < 2 ^ 256) (hz : z < 2 ^ 256) where
  abbrev differences : List ℤ
  differences = zip_with ◌-ℤ◌ (digits 11 z ++ replicate 11 0) (product (digits 11 x) (digits 11 y))

  abbrev pub start : List ℤ
  start = differences ++ (pos 0 ∷ [])

  pub start-AllWithin : AllWithin start product_ranges
  start-AllWithin =
      snoc-AllWithin differences (spans (largest ++ replicate 11 0) (product largest largest)) (
        differences-AllWithin (digits 11 z ++ replicate 11 0) (largest ++ replicate 11 0)
          (product (digits 11 x) (digits 11 y)) (product largest largest) (padded-AtMost z hz)
          (product-AtMost (digits 11 x) largest (digits 11 y) largest (digits-AtMost x hx)
            (digits-AtMost y hy)))

  product_value : value (product (digits 11 x) (digits 11 y)) ≡ x * y
  product_value =
      value-product (digits 11 x) (digits 11 y) ∙ ap₂ ◌*◌ (value-digits 11 x) (value-digits 11 y)

  start_value : up start + x * y ≡ down start + z
  start_value =
      let (p, q) = snoc_value differences in
      omega (
        arith,
        p,
        q,
        product_value,
        value-differences (digits 11 z ++ replicate 11 0) (product (digits 11 x) (digits 11 y))
            refl,
        value-zeros (digits 11 z) 11,
        value-digits 11 z,
      )

  start-IsReduced : IsReduced start (finish mulsub_ops start)
  start-IsReduced =
      finish-IsReduced mulsub_ops start product_ranges 11 mulsub_Settles refl start-AllWithin

module _ (a b c : List ℕ) (ha : IsBytes a) (hb : IsBytes b) (hc : IsBytes c) (la : length a ≡ 32)
    (lb : length b ≡ 32) (lc : length c ≡ 32) where
  -- For three strings of 32 bytes, the result of `sc_mulsub` is 32 bytes of a number below the
  -- order, and adding a * b to it gives c back, modulo the order.
  pub sc_mulsub-inverse :
      (le_value (sc_mulsub a b c) < order)
      × ((le_value (sc_mulsub a b c) + le_value a * le_value b) % order ≡ le_value c % order)
      × IsBytes (sc_mulsub a b c)
      × (length (sc_mulsub a b c) ≡ 32)
  sc_mulsub-inverse =
      let x = le_value a in
      let y = le_value b in
      let z = le_value c in
      let hx : x < 2 ^ 256 = rw la at (le_value-lt a ha) in
      let hy : y < 2 ^ 256 = rw lb at (le_value-lt b hb) in
      let hz : z < 2 ^ 256 = rw lc at (le_value-lt c hc) in
      let r = start-IsReduced x y z hx hy hz in
      rw
        (
          sc_mulsub_parts,
          limbs-digits a ha la,
          limbs-digits b hb lb,
          limbs-digits c hc lc,
          mulsub_digits x y z,
        )
        (r.below, omega (arith, r.balance, start_value x y z hx hy hz), r.bytes, r.size)
