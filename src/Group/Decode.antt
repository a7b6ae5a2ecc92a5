-- ===== src/Group/Decode.antt =====
-- Results about `ge_frombytes_vartime`.
use mathlib.Core.Option.{some-injective}
use bitmonero.Base.{
  ℕ, zero, suc, ◌+◌, ◌-◌, ◌*◌, ◌/◌, ◌%◌, ◌^◌, ◌≤◌, ◌<◌, ◌≡◌, refl, sym, ◌∙◌, ap₂, subst, arith,
  Bool, true, false, Option, none, some, ◌>>=◌, List, [], ◌∷◌, length, get_or, if◌then◌else◌,
}
use bitmonero.Base.Int.{ℤ, pos, negsuc, ◌+ℤ◌, ◌-ℤ◌, ◌*ℤ◌, int_laws, eq_of_parts}
use bitmonero.Base.Bytes.{top_byte, low_bytes, IsBytes, le_value, le_value-lt}
use bitmonero.Base.Ring.{*ℤ_comm}
use bitmonero.Base.Polynomial.{var, num, plus, minus, times, value, solve, vanishes, expand}
use bitmonero.Field.{fe_1, fe_add, fe_sub}
use bitmonero.Field.Linear.{fe_value, limbs_value}
use bitmonero.Field.Mul.{fe_mul, fe_sq}
use bitmonero.Field.Operands.{tight, wide}
use bitmonero.Field.Fits.{no_larger}
use bitmonero.Field.Powers.{fe_divpowm1}
use bitmonero.Field.Exponents.{power, accepted, fe_divpowm1-power, times_one}
use bitmonero.Field.Congruence.{prime, Cong, Cong-trans, Cong-sym, Cong-of_eq, Cong-refl, Cong-+ℤ}
use bitmonero.Field.Element.{
  Stands, Stands-weaken, Stands-Cong, add-Stands, sub-Stands, mul-Stands, sq-Stands,
}
use bitmonero.Field.Frombytes.{masked_limbs, is_too_large, carried_limbs}
use bitmonero.Field.Loaded.{carried_limbs_lem, is_too_large_lem}
use bitmonero.Group.{Fe, GeP3}
use bitmonero.Group.Curve.{curve_d, OnCurve, IsP3, one-IsUnit}
use bitmonero.Group.Codec.{fe_d, root_of, with_sign, ge_frombytes_vartime, ge_p3_tobytes}
use bitmonero.Group.Roots.{loose, root_of-IsRoot, with_sign-IsSigned}
use bitmonero.Group.Encode.{FermatAt, ge_p3_tobytes_value}

-- What the answer `h` for the bytes `s` stands for: a point of the curve whose remainders the bytes
-- hold, with Z = 1.
pub record IsDecoded (s : List ℕ) (h : GeP3) : Type 0 where
  pub x : ℕ
  pub y : ℕ
  pub x_lt : x < prime
  pub y_lt : y < prime
  pub on_curve : OnCurve (pos x) (pos y)
  pub point : IsP3 h (pos x) (pos y)
  pub z_one : point.s ≡ pos 1
  pub bytes : le_value s ≡ y + x % 2 * 2 ^ 255

pub one-Stands : Stands fe_1 tight (pos 1)
unfolding limbs_value ◌+ℤ◌ ◌*ℤ◌
one-Stands = record { bounded = omega arith; stands = record { quotient = pos 0; split = refl } }

fe_d_value : Cong (fe_value fe_d) curve_d
unfolding limbs_value ◌+ℤ◌ ◌*ℤ◌
fe_d_value = record { quotient = negsuc 0; split = refl }

fe_d-Stands : Stands fe_d wide curve_d
fe_d-Stands = record { bounded = omega arith; stands = fe_d_value }

abbrev y_limbs : List ℕ → Fe
y_limbs s = carried_limbs (masked_limbs s)

abbrev u_limbs : List ℕ → Fe
u_limbs s = fe_sub (fe_sq (y_limbs s)) fe_1

abbrev v_limbs : List ℕ → Fe
v_limbs s = fe_add (fe_mul (fe_sq (y_limbs s)) fe_d) fe_1

abbrev u_number : ℤ → ℤ
u_number y = y *ℤ y -ℤ pos 1

abbrev v_number : ℤ → ℤ
v_number y = (y *ℤ y) *ℤ curve_d +ℤ pos 1

module _ (s : List ℕ) (h : IsBytes s) where
  abbrev y_coordinate : ℤ
  y_coordinate = pos (le_value s % 2 ^ 255)

  y-Stands : Stands (y_limbs s) tight y_coordinate
  y-Stands = let (fits, small, c) = carried_limbs_lem s h in record { bounded = small; stands = c }

  square-Stands : Stands (fe_sq (y_limbs s)) tight (y_coordinate *ℤ y_coordinate)
  square-Stands = sq-Stands (accepted y-Stands)

  u-Stands : Stands (u_limbs s) loose (u_number y_coordinate)
  u-Stands = sub-Stands refl square-Stands one-Stands

  u-wide : Stands (u_limbs s) wide (u_number y_coordinate)
  unfolding no_larger
  u-wide = Stands-weaken refl u-Stands

  v-Stands : Stands (v_limbs s) wide (v_number y_coordinate)
  unfolding no_larger
  v-Stands =
      Stands-weaken refl
        (add-Stands refl (mul-Stands (accepted square-Stands) fe_d-Stands) one-Stands)

remaining :
    (c : Bool) (m : Option GeP3) (h : GeP3)
    → (if c then none else m) ≡ some h
    → (c ≡ false) × (m ≡ some h)
remaining false m h e = (refl, e)
remaining true m h e = absurd cc

pub chosen :
    {A B : Type 0} (m : Option A) (f : A → Option B) (b : B)
    → (m >>= f) ≡ some b
    → (a : A) × (m ≡ some a) × (f a ≡ some b)
chosen none f b e = absurd cc
chosen (some a) f b e = (a, refl, e)

curve_left : (x y : ℤ) → y *ℤ y -ℤ x *ℤ x ≡ (pos 1 -ℤ x *ℤ x) +ℤ u_number y
curve_left x y = eq_of_parts _ _ (omega int_laws)

curve_right :
    (x y d : ℤ)
    → (pos 1 -ℤ x *ℤ x) +ℤ (x *ℤ x) *ℤ ((y *ℤ y) *ℤ d +ℤ pos 1)
      ≡ pos 1 +ℤ d *ℤ ((x *ℤ x) *ℤ (y *ℤ y))
unfolding value vanishes expand
curve_right x y d =
    let xx = times (var 0) (var 0) in
    let yy = times (var 1) (var 1) in
    solve (x ∷ y ∷ d ∷ []) (plus (minus (num 1) xx) (times xx (plus (times yy (var 2)) (num 1))))
      (plus (num 1) (times (var 2) (times xx yy))) refl

-- x ^ 2 * (d * y ^ 2 + 1) = y ^ 2 - 1 is the equation of the curve.
root-OnCurve : (x y : ℤ) → Cong ((x *ℤ x) *ℤ v_number y) (u_number y) → OnCurve x y
root-OnCurve x y c = Cong-trans (Cong-of_eq (curve_left x y)) (
    Cong-trans (Cong-+ℤ (Cong-refl (pos 1 -ℤ x *ℤ x)) (Cong-sym c))
      (Cong-of_eq (curve_right x y curve_d)))

sign_byte : (s : List ℕ) → IsBytes s → length s ≡ 32 → get_or s 31 0 / 2 ^ 7 ≡ le_value s / 2 ^ 255
sign_byte s h l = omega (arith, top_byte 31 s, low_bytes 31 s h l)

below_prime : (n : ℕ) (c : Bool) → c ≡ false → (prime ≤ n → c ≡ true) → n < prime
below_prime n c e f = ground arith

sign_bound : (s : List ℕ) → IsBytes s → length s ≡ 32 → get_or s 31 0 / 2 ^ 7 ≤ 1
sign_bound s h l =
    let small : le_value s < 256 ^ 32 = rw l at (le_value-lt s h) in
    omega (arith, sign_byte s h l, small)

whole_value : (n x : ℕ) → x % 2 ≡ n / 2 ^ 255 → n ≡ n % 2 ^ 255 + x % 2 * 2 ^ 255
whole_value n x e = omega arith

abbrev finish : Fe → Fe → GeP3
finish y x = record { x = x; y = y; z = fe_1; t = fe_mul x y }

times_by_one : (x : ℤ) → x ≡ x *ℤ pos 1
times_by_one x = sym (times_one x) ∙ *ℤ_comm (pos 1) x

finish-IsP3 : (y r : Fe) (a b : ℤ) → Stands r tight a → Stands y tight b → IsP3 (finish y r) a b
finish-IsP3 y r a b h k = record {
  s = pos 1;
  s_unit = one-IsUnit;
  x_stands = Stands-Cong (Cong-of_eq (times_by_one a)) h;
  y_stands = Stands-Cong (Cong-of_eq (times_by_one b)) k;
  z_stands = one-Stands;
  t_stands =
      Stands-Cong (Cong-of_eq (times_by_one (a *ℤ b))) (mul-Stands (accepted h) (accepted k));
}

-- When ge_frombytes_vartime accepts 32 bytes, it gives a point (x, y) of the curve with Z = 1 and with
-- remainders x and y below p = 2 ^ 255 - 19, where y is the number of the first 255 bits, and the last
-- bit is the lowest bit of x.
pub ge_frombytes_vartime-IsDecoded :
    (s : List ℕ) (h : GeP3)
    → IsBytes s
    → length s ≡ 32
    → ge_frombytes_vartime s ≡ some h
    → IsDecoded s h
unfolding ge_frombytes_vartime finish-IsP3
ge_frombytes_vartime-IsDecoded s h b l e =
    let y = y_limbs s in
    let u = u_limbs s in
    let v = v_limbs s in
    let sign = get_or s 31 0 / 2 ^ 7 in
    let n = le_value s % 2 ^ 255 in
    let last : Fe → Option GeP3 = λ x. some (finish y x) in
    let signed : Fe → Option GeP3 = λ x. with_sign sign x >>= last in
    let candidate = fe_divpowm1 u v in
    let (small, e1) =
      remaining (is_too_large (masked_limbs s)) (root_of u v candidate >>= signed) h e in
    let (r, er, e2) = chosen (root_of u v candidate) signed h e1 in
    let (r', es, e3) = chosen (with_sign sign r) last h e2 in
    let uu = u_number (pos n) in
    let vv = v_number (pos n) in
    let c = fe_divpowm1-power u v uu vv (u-wide s b) (v-Stands s b) in
    let root = root_of-IsRoot u v candidate r uu vv _ (u-Stands s b) (v-Stands s b) c er in
    let w = with_sign-IsSigned sign r r' uu vv (sign_bound s b l) root es in
    subst (IsDecoded s) (some-injective (finish y r') h e3) (record {
      x = w.x;
      y = n;
      x_lt = w.x_lt;
      y_lt = below_prime n (is_too_large (masked_limbs s)) small (is_too_large_lem s b).1;
      on_curve = root-OnCurve (pos w.x) (pos n) w.x_law;
      point = finish-IsP3 y r' (pos w.x) (pos n) w.x_stands (y-Stands s b);
      z_one = refl;
      bytes = whole_value (le_value s) w.x (w.x_sign ∙ sign_byte s b l);
    })

-- ge_frombytes_vartime rejects the bytes whose first 255 bits are a number from p = 2 ^ 255 - 19 on.
pub ge_frombytes_vartime-none :
    (s : List ℕ) → IsBytes s → prime ≤ le_value s % 2 ^ 255 → ge_frombytes_vartime s ≡ none
unfolding ge_frombytes_vartime
ge_frombytes_vartime-none s b h = rw ((is_too_large_lem s b).1 h) refl

power_one : (n : ℕ) → power (pos 1) n ≡ pos 1
unfolding power
power_one zero = refl
power_one (suc n) = times_one (power (pos 1) n) ∙ power_one n

pub one-FermatAt : FermatAt (pos 1)
one-FermatAt = Cong-of_eq (power_one (prime - 1))

bytes_eq :
    (s r : List ℕ) → IsBytes s → IsBytes r → length s ≡ length r → le_value s ≡ le_value r → s ≡ r
bytes_eq [] [] h k l e = refl
bytes_eq [] (c ∷ r) h k l e = absurd (omega arith)
bytes_eq (b ∷ s) [] h k l e = absurd (omega arith)
bytes_eq (b ∷ s) (c ∷ r) h k l e =
    let same : b ≡ c = omega arith in
    ap₂ ◌∷◌ same (bytes_eq s r h.1 k.1 (omega arith) (omega arith))

-- For 32 bytes that ge_frombytes_vartime accepts, ge_p3_tobytes of its point gives the same bytes.
pub ge_p3_tobytes-ge_frombytes_vartime :
    (s : List ℕ) (h : GeP3)
    → IsBytes s
    → length s ≡ 32
    → ge_frombytes_vartime s ≡ some h
    → ge_p3_tobytes h ≡ s
ge_p3_tobytes-ge_frombytes_vartime s h b l e =
    let d = ge_frombytes_vartime-IsDecoded s h b l e in
    let fermat = subst FermatAt (sym d.z_one) one-FermatAt in
    let (b', l', v) =
      ge_p3_tobytes_value h (pos d.x) (pos d.y) d.x d.y d.point fermat d.x_lt d.y_lt (Cong-refl _)
        (Cong-refl _) in
    bytes_eq (ge_p3_tobytes h) s b' b (l' ∙ sym l) (v ∙ sym d.bytes)
