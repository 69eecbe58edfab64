-- ===== src/RiscvBits.antt =====
-- src/common/riscv-bits.h: bit fields, constants, compressed instructions, and the laws of fields.
mod Bitfields
mod Constants
mod Rvc
mod Fields
pub mod Layouts
mod Examples
unfoldable pub use Bitfields.*
pub use Constants.*
unfoldable pub use Rvc.*
pub use Fields.*
