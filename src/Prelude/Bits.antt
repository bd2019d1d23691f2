-- ===== src/Prelude/Bits.antt =====
-- Bit operations as arithmetic, and numbers as lists of bits, the least significant first.
mod Digits
mod Lists
pub use Digits.{bit_or_fields, bit_and_mask, two-pow-add, field_bound, mod-two-pow-suc}
pub use Lists.*
