-- ===== src/Kernel.antt =====
-- What the surroundings of the signal handler supply: the answers of Linux, the `time` register, the
-- bytes that a block read brings in. The model takes them as they come.
use urvirt.Common.{ℕ}

pub record Kernel : Type 0 where
  -- The address at which `mmap` without MAP_FIXED puts the shared page, and the RAM.
  pub conf_address : ℕ
  pub ram_address : ℕ
  -- The result of mapping a page of RAM at an address, as the word that the call returns.
  pub mmap_result : (addr flags offset : ℕ) → ℕ
  -- The result of reading one byte of standard input, as a 64-bit word, and the byte.
  pub read_result : ℕ
  pub read_byte : ℕ
  -- The `time` register.
  pub time : ℕ
  -- Memory, and the RAM behind it, after a read of a block of the device into a buffer.
  pub pread_memory : (buf offset : ℕ) → (ℕ → ℕ) → ℕ → ℕ
  pub pread_ram : (buf offset : ℕ) → (ℕ → ℕ) → ℕ → ℕ
