-- ===== src/Bits.antt =====
-- `^`, `&` and `>>` at every width, from the recursion on binary digits that they stand for.
mod Step
mod Xor
mod Fields
pub use Step.{bit_xor_step, bit_and_step, bit_or_step, or_zero, bit_or-lt, bit_or-disjoint}
pub use Xor.*
pub use Fields.*
