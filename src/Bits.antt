-- ===== src/Bits.antt =====
-- The laws of `&`, `|` and `~` on 64-bit words, bit by bit.
mod Digits
mod Laws
mod Shift
unfoldable pub use Digits.{bit}
pub use Digits.{bit-zero, bit-suc, bit-lt, bit-bit_and, bit-bit_or}
pub use Laws.*
pub use Shift.*
