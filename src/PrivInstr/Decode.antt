-- ===== src/PrivInstr/Decode.antt =====
-- handle_priv_instr of src/urvirt-stub/riscv-priv.c against the instruction set of PrivInstr/Spec.
use urvirt.Common.{ℕ, ◌+◌, ◌/◌, ◌%◌, ◌<◌, ◌≡◌, refl, ◌∙◌, Bool, true, arith}
use urvirt.Machine.{Machine}
use urvirt.RiscvBits.{ins_field, ins_field_lem}
use urvirt.PrivInstr.{handle_priv_instr, csr_instr}
use urvirt.PrivInstr.Spec.{
  CsrOp, swap, set, clear, Instr, sfence_vma, wfi, return_trap, csr, system, encode, funct3_of,
  IsEncodable, exec, exec_csr,
}

-- The fields of a SYSTEM instruction are found again.
pub record Fields (rd funct3 rs1 csr12 instr : ℕ) : Type 0 where
  pub opcode : ins_field 0 7 instr ≡ 0x73
  pub rd_field : ins_field 7 5 instr ≡ rd
  pub funct3_field : ins_field 12 3 instr ≡ funct3
  pub rs1_field : ins_field 15 5 instr ≡ rs1
  pub rs2_field : ins_field 20 5 instr ≡ csr12 % 32
  pub funct7_field : ins_field 25 7 instr ≡ csr12 / 32
  pub csr_field : ins_field 20 12 instr ≡ csr12

Fields-system :
    (rd funct3 rs1 csr12 : ℕ)
    → rd < 32
    → funct3 < 8
    → rs1 < 32
    → csr12 < 4096
    → Fields rd funct3 rs1 csr12 (system rd funct3 rs1 csr12)
Fields-system rd funct3 rs1 csr12 a b c d = record {
  opcode = ins_field_lem 0 7 i (omega arith) ∙ omega arith;
  rd_field = ins_field_lem 7 5 i (omega arith) ∙ omega arith;
  funct3_field = ins_field_lem 12 3 i (omega arith) ∙ omega arith;
  rs1_field = ins_field_lem 15 5 i (omega arith) ∙ omega arith;
  rs2_field = ins_field_lem 20 5 i (omega arith) ∙ omega arith;
  funct7_field = ins_field_lem 25 7 i (omega arith) ∙ omega arith;
  csr_field = ins_field_lem 20 12 i (omega arith) ∙ omega arith;
}
  where
    i : ℕ
    i = system rd funct3 rs1 csr12

csr_instr-exec :
    (m : Machine) (op : CsrOp) (imm : Bool) (number rd rs1 instr : ℕ)
    → Fields rd (funct3_of op imm) rs1 number instr
    → csr_instr m instr ≡ exec_csr m op imm number rd rs1
unfolding csr_instr
csr_instr-exec m swap true number rd rs1 instr f = ground arith
csr_instr-exec m swap _ number rd rs1 instr f = ground arith
csr_instr-exec m set true number rd rs1 instr f = ground arith
csr_instr-exec m set _ number rd rs1 instr f = ground arith
csr_instr-exec m clear true number rd rs1 instr f = ground arith
csr_instr-exec m clear _ number rd rs1 instr f = ground arith

csr-not_system :
    (m : Machine) (op : CsrOp) (imm : Bool) (number rd rs1 instr : ℕ)
    → Fields rd (funct3_of op imm) rs1 number instr
    → handle_priv_instr m instr ≡ csr_instr m instr
unfolding handle_priv_instr
csr-not_system m swap true number rd rs1 instr f = rw (f.opcode, f.funct3_field)
csr-not_system m swap _ number rd rs1 instr f = rw (f.opcode, f.funct3_field)
csr-not_system m set true number rd rs1 instr f = rw (f.opcode, f.funct3_field)
csr-not_system m set _ number rd rs1 instr f = rw (f.opcode, f.funct3_field)
csr-not_system m clear true number rd rs1 instr f = rw (f.opcode, f.funct3_field)
csr-not_system m clear _ number rd rs1 instr f = rw (f.opcode, f.funct3_field)

funct3_of-lt : (op : CsrOp) (imm : Bool) → funct3_of op imm < 8
funct3_of-lt swap true = omega arith
funct3_of-lt op imm = grind arith

-- On the encoding of every instruction, with its fields in range, the handler does what the
-- instruction means: the same machine, or the same stop.
pub handle_priv_instr-encode :
    (m : Machine) (i : Instr) → IsEncodable i → handle_priv_instr m (encode i) ≡ exec m i
handle_priv_instr-encode m (sfence_vma rs1 rs2) h =
    unfold handle_priv_instr in
    ground (
      arith,
      Fields-system 0 0 rs1 (0x120 + rs2) (omega arith) (omega arith) (omega arith) (omega arith),
    )
handle_priv_instr-encode m wfi h = unfold handle_priv_instr ins_field in refl
handle_priv_instr-encode m return_trap h = unfold handle_priv_instr ins_field in refl
handle_priv_instr-encode m (csr op imm number rd rs1) h =
    csr-not_system m op imm number rd rs1 _ fields ∙ csr_instr-exec m op imm number rd rs1 _ fields
  where
    fields : Fields rd (funct3_of op imm) rs1 number (system rd (funct3_of op imm) rs1 number)
    fields =
        Fields-system rd (funct3_of op imm) rs1 number (omega arith) (funct3_of-lt op imm)
          (omega arith) (omega arith)
