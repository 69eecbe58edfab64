-- ===== src/RiscvBits/Bitfields.antt =====
-- src/common/riscv-bits.h: the fields of instructions, control registers, page-table entries and
-- virtual addresses. `ins_bitfield` and `bitfield` are macros: each use of one is an instance of
-- `ins_field`, or of `mask_field`, `get_field` and `set_field`, at its start and width.
use urvirt.Common.{ℕ, ◌-◌, ◌>>>◌, ◌<<<◌, ◌&&&◌, ◌|||◌, not64}

-- `ins_bitfield(name, start, width)`: a field of a 32-bit instruction.
unfoldable pub ins_field : ℕ → ℕ → ℕ → ℕ
ins_field start width instr = (instr >>> start) &&& ((1 <<< width) - 1)

abbrev pub ins_opcode : ℕ → ℕ
ins_opcode = ins_field 0 7

abbrev pub ins_rd : ℕ → ℕ
ins_rd = ins_field 7 5

abbrev pub ins_funct3 : ℕ → ℕ
ins_funct3 = ins_field 12 3

abbrev pub ins_rs1 : ℕ → ℕ
ins_rs1 = ins_field 15 5

abbrev pub ins_rs2 : ℕ → ℕ
ins_rs2 = ins_field 20 5

abbrev pub ins_funct7 : ℕ → ℕ
ins_funct7 = ins_field 25 7

abbrev pub ins_csr : ℕ → ℕ
ins_csr = ins_field 20 12

-- `bitfield(name, start, width)`: `MASK_name`, `get_name` and `set_name` on a `uintptr_t`.
unfoldable pub mask_field : ℕ → ℕ → ℕ
mask_field start width = ((1 <<< width) - 1) <<< start

unfoldable pub get_field : ℕ → ℕ → ℕ → ℕ
get_field start width data' = (data' >>> start) &&& ((1 <<< width) - 1)

unfoldable pub set_field : ℕ → ℕ → ℕ → ℕ → ℕ
unfolding mask_field
set_field start width data' field = (data' &&& not64 (mask_field start width)) ||| (field <<< start)

abbrev pub set_sstatus_sd : ℕ → ℕ → ℕ
set_sstatus_sd = set_field 63 1

abbrev pub mask_sstatus_mxr : ℕ
mask_sstatus_mxr = mask_field 19 1

abbrev pub mask_sstatus_sum : ℕ
mask_sstatus_sum = mask_field 18 1

abbrev pub set_sstatus_xs : ℕ → ℕ → ℕ
set_sstatus_xs = set_field 15 2

abbrev pub set_sstatus_fs : ℕ → ℕ → ℕ
set_sstatus_fs = set_field 13 2

abbrev pub mask_sstatus_spp : ℕ
mask_sstatus_spp = mask_field 8 1

abbrev pub get_sstatus_spp : ℕ → ℕ
get_sstatus_spp = get_field 8 1

abbrev pub set_sstatus_spp : ℕ → ℕ → ℕ
set_sstatus_spp = set_field 8 1

abbrev pub mask_sstatus_spie : ℕ
mask_sstatus_spie = mask_field 5 1

abbrev pub get_sstatus_spie : ℕ → ℕ
get_sstatus_spie = get_field 5 1

abbrev pub set_sstatus_spie : ℕ → ℕ → ℕ
set_sstatus_spie = set_field 5 1

abbrev pub mask_sstatus_sie : ℕ
mask_sstatus_sie = mask_field 1 1

abbrev pub get_sstatus_sie : ℕ → ℕ
get_sstatus_sie = get_field 1 1

abbrev pub set_sstatus_sie : ℕ → ℕ → ℕ
set_sstatus_sie = set_field 1 1

abbrev pub mask_six_sti : ℕ
mask_six_sti = mask_field 5 1

abbrev pub get_six_sti : ℕ → ℕ
get_six_sti = get_field 5 1

abbrev pub set_six_sti : ℕ → ℕ → ℕ
set_six_sti = set_field 5 1

abbrev pub get_satp_ppn : ℕ → ℕ
get_satp_ppn = get_field 0 44

abbrev pub set_satp_asid : ℕ → ℕ → ℕ
set_satp_asid = set_field 44 16

abbrev pub get_satp_mode : ℕ → ℕ
get_satp_mode = get_field 60 4

abbrev pub get_pte_flags : ℕ → ℕ
get_pte_flags = get_field 0 8

abbrev pub get_pte_ppn : ℕ → ℕ
get_pte_ppn = get_field 10 44

abbrev pub get_va_ppn0 : ℕ → ℕ
get_va_ppn0 = get_field 30 9

abbrev pub get_va_ppn1 : ℕ → ℕ
get_va_ppn1 = get_field 21 9

abbrev pub get_va_ppn2 : ℕ → ℕ
get_va_ppn2 = get_field 12 9

abbrev pub get_va_off : ℕ → ℕ
get_va_off = get_field 0 12
