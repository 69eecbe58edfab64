-- ===== src/Examples.antt =====
-- Machines to try the theorems on, and the theorems at them.
pub mod Machines
pub mod Priv
pub mod Traps
pub mod Pages
pub mod Search
pub mod Paged
pub mod Posix
mod Transfers
mod UserMode
