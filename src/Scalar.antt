-- ===== src/Scalar.antt =====
-- src/crypto/crypto-ops.c, the functions `sc_…`: arithmetic modulo the group order.
pub mod Codec
pub mod Functions
mod Tests
pub mod Load
pub mod Check
pub mod Nonzero
pub mod NoOverflow
pub mod Columns
pub mod Product
pub mod Mulsub
pub mod Correct
pub mod Inputs
pub mod Reduced
pub mod Finish
pub mod Pack
pub mod Digits
pub mod Limbs
pub mod Value
pub mod Bounds
pub mod FoldBounds
pub mod Overflow
pub mod RunBounds
