-- ===== src/Lib.antt =====
-- The cryptographic core of the daemon and the wallet, src/crypto in the repository.
--
-- Parts and files:
-- - Base: numbers, lists, signed integers over the native numbers, ranges of integers, bits of
--   words, byte strings as numbers, and identities of polynomials over the integers (Ring,
--   Polynomial).
-- - Scalar: src/crypto/crypto-ops.c, `load_3`, `load_4` and the functions `sc_…`, arithmetic modulo
--   the order of the Ed25519 group. Codec has the statements that cut bytes into limbs of 21 bits
--   and write limbs as bytes. Limbs has the statements on limbs: a carry, with or without rounding,
--   and a fold of a limb above 2 ^ 252; each function of the source is a list of these (Functions),
--   in the source's order. Value, Bounds, FoldBounds, Overflow and RunBounds say what a statement
--   does to the number, to ranges of limbs and to int64_t; Finish and Reduced are the last blocks,
--   which all functions share; Correct, Mulsub, NoOverflow, Check and Nonzero hold the results for
--   each function. The signed variables of the source are integers without bound: NoOverflow is
--   about whether their values are in int64_t.
-- - Field: src/crypto/crypto-ops.c, the functions `fe_…`, on limbs of 26 and 25 bits in turn.
--   Linear is the values and bounds of the functions that work limb by limb, Cmov the choice by
--   bits. Mul has `fe_mul`, `fe_sq` and `fe_sq2`: columns of products, whose factors are listed in
--   the source's order, and the twelve carries, which Carry has as a list of statements. Rows,
--   Product, Square and Carried are about their numbers, Sizes, Sums, CarrySizes, Operands and
--   SquareOperands about the sizes of what they compute; Laws and Fits have the results. Element
--   puts value and size together, Powers has `fe_invert` and `fe_divpowm1`, and Exponents their
--   results. Tobytes has `fe_tobytes`, `fe_isnegative` and `fe_isnonzero`; Trim and FieldPack are
--   about its carries and its bytes, Canonical about what it gives. Frombytes is the part of
--   `ge_frombytes_vartime` that reads limbs from bytes, Loaded its results; Unmasked is the same for
--   `ge_fromfe_frombytes_vartime`. Here too the signed variables are integers without bound, and
--   Fits is about whether their values are in int32_t and int64_t.
-- - Group: src/crypto/crypto-ops.c, the functions `ge_…` that add, double and convert points. Curve
--   has the addition law of the curve, as equations modulo 2 ^ 255 - 19, and what it means for
--   coordinates to stand for a point. Add, Variants, Double and Convert have the results. Multiples
--   is the interface to the group law: a point's multiples, between which the addition law holds;
--   OrderFour fills it for a point of order 4. Tables has the tables of multiples, Recode the
--   digits of a scalar, Select the choice of a table's entry without branches, Scalarmult the loop
--   of `ge_scalarmult`; ScalarTimes and Choice have the results. Slide has the digits of the double
--   multiplications: its list is the array from an index on, and its outer loop runs on fuel 256, the
--   length of the array. Window, WindowRun and Slid are about its loops. DoubleScalarmult has the
--   double multiplications, AddDigit the addition of a digit; Sums is the interface to the sums of
--   multiples of two points, DoubleTimes the results. `ge_Bi` is an argument of
--   `ge_double_scalarmult_base_vartime`. Codec has `ge_tobytes`, `ge_p3_tobytes` and
--   `ge_frombytes_vartime`; Encode, Roots and Decode have their results. ScalarmultBase has
--   `ge_scalarmult_base`, whose table `ge_base` is an argument; Nibbles is about its digits, Rows
--   about its choice of an entry, BaseTimes has the results. Fromfe has
--   `ge_fromfe_frombytes_vartime` up to the block that only tests its answer; OnImage has the
--   equations of its branches, FromfeCurve the results.
-- - IntUtil: src/common/int-util.h, the product `mul128` of words of 64 bits and the long division
--   `div128_32`; Product and Division have the results.
-- - TreeHash: src/crypto/tree-hash.c, the Merkle root over the hashes of a block's transactions.
--   The hash of two hashes is a parameter. Count is the power of two below the count, Tree the
--   specification, Laws the refinement. A failed assertion, or a shift that leaves int, is
--   `none`. The loop of the count runs on fuel count + 1, and the loop of the passes on fuel cnt,
--   the power of two; both are above the number of turns each loop takes, since a turn halves its
--   count.
-- - Chacha: src/crypto/chacha8.c. A block's words are a list of sixteen, and the endless loop runs
--   on fuel of the data's length, at least one turn for each block of 64 bytes. Words is the xor of
--   bytes, Stream the loop, Counter the specification by block numbers, Laws the results. The bytes
--   of `tmp` behind a short last block are an argument, since the source leaves them as they are.
-- - Keccak and Random: src/crypto/keccak.c with the functions of src/crypto/hash.c, and the
--   generator of src/crypto/random.c over `keccakf`. Sponge has `keccak` and `cn_fast_hash`,
--   whose loop runs on fuel one above the message's length, more than its blocks; Absorbed has
--   the results. `hash_process` makes an int of the message's length, the int with its low 32
--   bits; for one below 0 the model's answer is `none`. The state is a list of 25 words, whose
--   bytes are those of a little-endian machine. The generator's loop runs on fuel n, which is
--   above the number of blocks of 136 bytes. Lifetime has the states that its calls reach.
--
-- Not modelled: the C++ components, the hash functions that are copies of reference
-- implementations, the AES of src/crypto/oaes_lib.c and aesb.c, the hardware branches of
-- src/crypto/slow-hash.c, its portable branch, the byte swaps of src/common/int-util.h, the
-- numbers in the tables `ge_base` and `ge_Bi`, and the messaging code of src/ipc, which is
-- generated or only calls libraries. A pointer `s + n` into a byte string is the string without
-- its first n bytes. An int has 32 bits, a size_t 64.
pub mod Base
pub mod Chacha
pub mod Field
pub mod Group
pub mod IntUtil
pub mod Keccak
pub mod Random
pub mod Scalar
pub mod TreeHash
