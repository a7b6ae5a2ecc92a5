-- ===== src/Field.antt =====
-- src/crypto/crypto-ops.c: the functions `fe_…` that work limb by limb. A field element is the list
-- of its ten limbs, of 26 and 25 bits in turn, which the source keeps in int32_t.
pub mod Linear
pub mod Cmov
pub mod Carry
pub mod Mul
pub mod Congruence
pub mod Rows
pub mod Sizes
pub mod Sums
pub mod Fits
pub mod Laws
pub mod Operands
pub mod SquareOperands
pub mod Ten
pub mod CarrySizes
pub mod Product
pub mod Square
pub mod Carried
pub mod Element
pub mod Powers
pub mod Exponents
pub mod Tobytes
pub mod Trim
pub mod FieldPack
pub mod Canonical
pub mod Frombytes
pub mod Loaded
pub mod Unmasked
mod Tests
use bitmonero.Base.{ℕ, ◌+◌, ◌-◌, ◌*◌, ◌/◌, ◌%◌, ◌^◌, bit_and, bit_or, bit_xor, Option, none, some}
use bitmonero.Base.{List, [], ◌∷◌, ltb, ◌==◌, if◌then◌else◌}
use bitmonero.Base.Int.{ℤ, pos, negsuc, ◌+ℤ◌, ◌-ℤ◌}

abbrev pub fe_0 : List ℤ
fe_0 = pos 0 ∷ pos 0 ∷ pos 0 ∷ pos 0 ∷ pos 0 ∷ pos 0 ∷ pos 0 ∷ pos 0 ∷ pos 0 ∷ pos 0 ∷ []

abbrev pub fe_1 : List ℤ
fe_1 = pos 1 ∷ pos 0 ∷ pos 0 ∷ pos 0 ∷ pos 0 ∷ pos 0 ∷ pos 0 ∷ pos 0 ∷ pos 0 ∷ pos 0 ∷ []

unfoldable pub fe_add : List ℤ → List ℤ → List ℤ
fe_add [] g = []
fe_add (x ∷ f) [] = []
fe_add (x ∷ f) (y ∷ g) = (x +ℤ y) ∷ fe_add f g

unfoldable pub fe_sub : List ℤ → List ℤ → List ℤ
fe_sub [] g = []
fe_sub (x ∷ f) [] = []
fe_sub (x ∷ f) (y ∷ g) = (x -ℤ y) ∷ fe_sub f g

unfoldable pub fe_neg : List ℤ → List ℤ
fe_neg [] = []
fe_neg (x ∷ f) = (pos 0 -ℤ x) ∷ fe_neg f

unfoldable pub fe_copy : List ℤ → List ℤ
fe_copy [] = []
fe_copy (x ∷ f) = x ∷ fe_copy f

-- The bits of an int32_t, in two's complement, and the int32_t that has these bits.
unfoldable pub to_word : ℤ → ℕ
to_word (pos n) = n % 2 ^ 32
to_word (negsuc n) = 2 ^ 32 - 1 - n % 2 ^ 32

unfoldable pub of_word : ℕ → ℤ
of_word n = if ltb n (2 ^ 31) then pos n else negsuc (2 ^ 32 - 1 - n)

-- The assertion on `b`, over unsigned numbers of 32 bits, where ~b is 2 ^ 32 - 1 - b.
unfoldable pub b_mask : ℕ → ℕ
b_mask b =
    let b1 = (b + (2 ^ 32 - 1)) % 2 ^ 32 in
    let b2 = (b + (2 ^ 32 - 2)) % 2 ^ 32 in
    bit_or (bit_and b1 (2 ^ 32 - 1 - b)) (bit_and b2 (2 ^ 32 - 1 - b1))

-- One limb of the result, with `b` as it is after `b = -b`.
unfoldable pub cmov_limb : ℕ → ℤ → ℤ → ℤ
unfolding to_word of_word
cmov_limb b x y = of_word (bit_xor (to_word x) (bit_and b (bit_xor (to_word x) (to_word y))))

unfoldable pub cmov_limbs : ℕ → List ℤ → List ℤ → List ℤ
unfolding cmov_limb
cmov_limbs b [] g = []
cmov_limbs b (x ∷ f) [] = []
cmov_limbs b (x ∷ f) (y ∷ g) = cmov_limb b x y ∷ cmov_limbs b f g

-- `none` when the assertion fails.
unfoldable pub fe_cmov : List ℤ → List ℤ → ℕ → Option (List ℤ)
unfolding b_mask cmov_limbs
fe_cmov f g b =
    if b_mask b == (2 ^ 32 - 1) then some (cmov_limbs ((2 ^ 32 - b) % 2 ^ 32) f g) else none
