-- ===== src/RiscvBits/Constants.antt =====
-- src/common/riscv-bits.h: the constants.
use urvirt.Common.{ℕ, ◌^◌, ◌|||◌}
use urvirt.RiscvBits.Bitfields.{
  mask_sstatus_mxr, mask_sstatus_sum, mask_sstatus_spp, mask_sstatus_spie, mask_sstatus_sie,
  mask_six_sti,
}

-- Instruction encodings.
abbrev pub opcode_system : ℕ
opcode_system = 0b1110011

abbrev pub opcode_load : ℕ
opcode_load = 0b0000011

abbrev pub opcode_store : ℕ
opcode_store = 0b0100011

abbrev pub opcode_amo : ℕ
opcode_amo = 0b0101111

abbrev pub funct7_wfi : ℕ
funct7_wfi = 0b001000

abbrev pub rs2_wfi : ℕ
rs2_wfi = 0b00101

abbrev pub funct7_sret : ℕ
funct7_sret = 0b0001000

abbrev pub rs2_sret : ℕ
rs2_sret = 0b00010

abbrev pub funct7_sfence_vma : ℕ
funct7_sfence_vma = 0b0001001

abbrev pub funct3_not_csr : ℕ
funct3_not_csr = 0b000

abbrev pub csr_use_uimm : ℕ
csr_use_uimm = 0b100

abbrev pub csr_op_mask : ℕ
csr_op_mask = 0b011

abbrev pub csr_op_rw : ℕ
csr_op_rw = 0b001

abbrev pub csr_op_rs : ℕ
csr_op_rs = 0b010

abbrev pub csr_op_rc : ℕ
csr_op_rc = 0b011

-- CSR numbers.
abbrev pub csr_sstatus : ℕ
csr_sstatus = 0x100

abbrev pub csr_sie : ℕ
csr_sie = 0x104

abbrev pub csr_stvec : ℕ
csr_stvec = 0x105

abbrev pub csr_sscratch : ℕ
csr_sscratch = 0x140

abbrev pub csr_sepc : ℕ
csr_sepc = 0x141

abbrev pub csr_scause : ℕ
csr_scause = 0x142

abbrev pub csr_stval : ℕ
csr_stval = 0x143

abbrev pub csr_sip : ℕ
csr_sip = 0x144

abbrev pub csr_satp : ℕ
csr_satp = 0x180

-- Privilege modes.
abbrev pub priv_u : ℕ
priv_u = 0x00

abbrev pub priv_s : ℕ
priv_s = 0x10

abbrev priv_m : ℕ
priv_m = 0x11

-- `stvec`, `scause`, `sstatus`, `satp` and page-table entries.
abbrev pub stvec_mode_mask : ℕ
stvec_mode_mask = 0b11

abbrev pub stvec_direct : ℕ
stvec_direct = 0b00

abbrev pub stvec_vectored : ℕ
stvec_vectored = 0b01

abbrev pub scause_is_int : ℕ
scause_is_int = 2 ^ 63

abbrev pub scause_illegal : ℕ
scause_illegal = 2

abbrev pub scause_uecall : ℕ
scause_uecall = 8

abbrev pub scause_instr_pf : ℕ
scause_instr_pf = 12

abbrev pub scause_load_pf : ℕ
scause_load_pf = 13

abbrev pub scause_store_pf : ℕ
scause_store_pf = 15

abbrev pub scause_timer : ℕ
scause_timer = scause_is_int ||| 5

abbrev sstatus_xs_off : ℕ
sstatus_xs_off = 0

abbrev sstatus_xs_initial : ℕ
sstatus_xs_initial = 1

abbrev sstatus_xs_clean : ℕ
sstatus_xs_clean = 2

abbrev pub sstatus_xs_dirty : ℕ
sstatus_xs_dirty = 3

abbrev pub sstatus_spp_s : ℕ
sstatus_spp_s = 1

abbrev pub sstatus_spp_u : ℕ
sstatus_spp_u = 0

abbrev pub sstatus_writable_mask : ℕ
sstatus_writable_mask =
    mask_sstatus_mxr ||| mask_sstatus_sum ||| mask_sstatus_spp ||| mask_sstatus_spie
    ||| mask_sstatus_sie

abbrev pub six_writable_mask : ℕ
six_writable_mask = mask_six_sti

abbrev pub satp_mode_bare : ℕ
satp_mode_bare = 0

abbrev pub satp_mode_sv39 : ℕ
satp_mode_sv39 = 8

abbrev pub pte_v : ℕ
pte_v = 1

abbrev pub pte_r : ℕ
pte_r = 2

abbrev pub pte_w : ℕ
pte_w = 4

abbrev pub pte_x : ℕ
pte_x = 8

abbrev pte_u : ℕ
pte_u = 16

abbrev pte_g : ℕ
pte_g = 32

abbrev pte_a : ℕ
pte_a = 64

abbrev pte_d : ℕ
pte_d = 128
