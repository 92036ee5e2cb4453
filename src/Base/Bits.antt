-- ===== src/Base/Bits.antt =====
-- The binary digits of a number, and what `&`, `|` and `^` do to each of them.
mod Step
pub mod Laws
pub mod Shift
pub use Step.{bit, bit-suc, bit_and_step, bit_or_step}
pub use Laws.*
