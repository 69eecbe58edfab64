-- ===== src/Memory.antt =====
-- src/common/common.h: where the emulated RAM lies, and reads of its mapping.
use urvirt.Common.{ℕ, ◌+◌, ◌*◌, ◌^◌, ◌%◌, ◌&&◌, ◌==◌, leb, if◌then◌else◌, u64}
use urvirt.Outcome.{Result, ok, stop, fault}

abbrev pub config_fd : ℕ
config_fd = 64

abbrev pub ram_fd : ℕ
ram_fd = 65

abbrev pub kernel_fd : ℕ
kernel_fd = 66

abbrev pub block_fd : ℕ
block_fd = 67

abbrev pub ram_start : ℕ
ram_start = 0x80000000

abbrev pub ram_size : ℕ
ram_size = 16 * 2 ^ 20

abbrev pub sigstack_size : ℕ
sigstack_size = 4096

abbrev pub kernel_start : ℕ
kernel_start = 0x80200000

abbrev pub conf_size : ℕ
conf_size = 4096

-- `*(uint64_t *)(ram + offset)`, where `ram` is a mapping of all of `RAM_FD`. A read that does not
-- lie within the mapping, or is not aligned, is a fault.
unfoldable pub load64 : (ℕ → ℕ) → ℕ → Result ℕ
load64 ram offset =
    if leb (offset + 8) ram_size && offset % 8 == 0 then ok (ram offset) else stop fault

-- `*(uint16_t *) pc` and `*(uint32_t *) pc`, least significant byte first.
abbrev pub byte : (ℕ → ℕ) → ℕ → ℕ
byte memory a = memory (u64 a) % 256

abbrev pub load16 : (ℕ → ℕ) → ℕ → ℕ
load16 memory a = byte memory a + byte memory (a + 1) * 2 ^ 8

abbrev pub load32 : (ℕ → ℕ) → ℕ → ℕ
load32 memory a = load16 memory a + load16 memory (a + 2) * 2 ^ 16
