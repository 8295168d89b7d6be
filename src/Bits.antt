-- ===== src/Bits.antt =====
-- The binary digits of a number, and what the bit operations of C do to each of them.
mod Step
pub mod Digit
pub mod Shift
