-- ===== src/PrivInstr.antt =====
-- src/urvirt-stub/riscv-priv.c, handle_priv_instr: emulation of the privileged instructions.
pub mod Spec
pub mod Decode
pub mod Accept
pub mod Invariant
pub mod Contained
use urvirt.Common.{
  ℕ, ◌+◌, Bool, true, false, not, ◌&&◌, ◌==◌, if◌then◌else◌, ◌&&&◌, ◌|||◌, not64, truthy,
}
use urvirt.Outcome.{Result, ok, stop, ebreak, ◌>>=◌}
use urvirt.Machine.{Machine, set_reg, advance}
use urvirt.RiscvBits.{
  ins_opcode, ins_rd, ins_funct3, ins_rs1, ins_rs2, ins_funct7, ins_csr, opcode_system, funct7_wfi,
  rs2_wfi, funct7_sret, rs2_sret, funct7_sfence_vma, funct3_not_csr, csr_use_uimm, csr_op_mask,
  csr_op_rw, csr_op_rs, csr_op_rc,
}
use urvirt.Csr.{read_csr, write_csr}
use urvirt.Trap.{sret}

-- `if (ins_rd(instr) != 0) regs[ins_rd(instr)] = value;`
abbrev pub write_rd : Machine → ℕ → ℕ → Machine
write_rd m rd value = if not (rd == 0) then set_reg m rd value else m

-- `write_csr(priv, csr, value);`
pub store_csr : Machine → ℕ → ℕ → Result Machine
store_csr m csr value = do priv ← write_csr m.priv csr value; ok (record m { priv = priv })

-- The `CSR_OP_RW` branch: the old value is read only if it is wanted.
pub csr_swap : Machine → ℕ → ℕ → ℕ → Result Machine
unfolding store_csr
csr_swap m csr rd value = do
  m' ← if not (rd == 0) then (do orig ← read_csr m.priv csr; ok (set_reg m rd orig)) else ok m
  store_csr m' csr value

-- The `CSR_OP_RS` and `CSR_OP_RC` branches, with the value to write as a function of the old one.
pub csr_modify : Machine → ℕ → ℕ → Bool → (ℕ → ℕ) → Result Machine
unfolding store_csr
csr_modify m csr rd will_write change = do
  orig ← read_csr m.priv csr
  m' ← if will_write then store_csr m csr (change orig) else ok m
  ok (write_rd m' rd orig)

-- The `CSR instruction` branch.
pub csr_instr : Machine → ℕ → Result Machine
unfolding csr_swap csr_modify
csr_instr m instr =
    let csr = ins_csr instr in
    let rd = ins_rd instr in
    let rs1 = ins_rs1 instr in
    let op = ins_funct3 instr &&& csr_op_mask in
    let use_uimm = truthy (ins_funct3 instr &&& csr_use_uimm) in
    let write_value = if use_uimm then rs1 else if rs1 == 0 then 0 else m.regs rs1 in
    let will_write = if use_uimm then truthy write_value else not (rs1 == 0) in
    do
      m' ←
          if op == csr_op_rw
          then csr_swap m csr rd write_value
          else if op == csr_op_rs
          then csr_modify m csr rd will_write (λ orig. orig ||| write_value)
          else if op == csr_op_rc
          then csr_modify m csr rd will_write (λ orig. orig &&& not64 write_value)
          else stop (ebreak "Invalid csr operation")
      ok (advance m' 4)

unfoldable pub handle_priv_instr : Machine → ℕ → Result Machine
handle_priv_instr m instr =
    if ins_opcode instr == opcode_system
    then (if ins_funct3 instr == funct3_not_csr
        then (if ins_funct7 instr == funct7_sfence_vma && ins_rd instr == 0
            then ok (advance (record m { priv = record m.priv { should_clear_vm = true } }) 4)
            else if ins_funct7 instr == funct7_wfi
                && ins_rs2 instr == rs2_wfi
                && ins_rs1 instr == 0
                && ins_rd instr == 0
            then ok (advance m 4)
            else if ins_funct7 instr == funct7_sret
                && ins_rs2 instr == rs2_sret
                && ins_rs1 instr == 0
                && ins_rd instr == 0
            then ok (sret m)
            else stop (ebreak "Invalid instruction: non-CSR"))
        else csr_instr m instr)
    else stop (ebreak "Invalid instruction: not SYSTEM")
