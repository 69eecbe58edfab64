-- ===== src/PrivInstr/Spec.antt =====
-- The privileged instructions as the architecture lists them, their encodings, and their meaning.
use urvirt.Common.{
  ℕ, ◌+◌, ◌*◌, ◌^◌, ◌<◌, Bool, true, false, not, ◌&&◌, ◌||◌, ◌==◌, if◌then◌else◌, ◌&&&◌, ◌|||◌,
  not64,
}
use urvirt.Outcome.{Result, ok, ◌>>=◌}
use urvirt.Machine.{Machine, set_reg, advance}
use urvirt.Csr.{read_csr, write_csr}
use urvirt.Trap.{sret}

pub data CsrOp : Type 0 where
  swap set clear : CsrOp

pub data Instr : Type 0 where
  sfence_vma : (rs1 rs2 : ℕ) → Instr
  wfi : Instr
  return_trap : Instr
  csr : (op : CsrOp) (imm : Bool) (number rd rs1 : ℕ) → Instr

abbrev pub funct3_of : CsrOp → Bool → ℕ
funct3_of swap false = 1
funct3_of set false = 2
funct3_of clear false = 3
funct3_of swap true = 5
funct3_of set true = 6
funct3_of clear true = 7

-- The fields of a 32-bit SYSTEM instruction put together.
abbrev pub system : ℕ → ℕ → ℕ → ℕ → ℕ
system rd funct3 rs1 csr12 = 0x73 + rd * 2 ^ 7 + funct3 * 2 ^ 12 + rs1 * 2 ^ 15 + csr12 * 2 ^ 20

abbrev pub encode : Instr → ℕ
encode (sfence_vma rs1 rs2) = system 0 0 rs1 (0x120 + rs2)
encode wfi = system 0 0 0 0x105
encode return_trap = system 0 0 0 0x102
encode (csr op imm number rd rs1) = system rd (funct3_of op imm) rs1 number

abbrev pub IsEncodable : Instr → Type 0
IsEncodable (sfence_vma rs1 rs2) = (rs1 < 32) × (rs2 < 32)
IsEncodable wfi = Unit
IsEncodable return_trap = Unit
IsEncodable (csr op imm number rd rs1) = (number < 4096) × (rd < 32) × (rs1 < 32)

-- Register x0 reads as 0.
abbrev pub x : Machine → ℕ → ℕ
x m i = if i == 0 then 0 else m.regs i

abbrev pub is_swap : CsrOp → Bool
is_swap swap = true
is_swap _ = false

abbrev pub combine : CsrOp → ℕ → ℕ → ℕ
combine swap old source = source
combine set old source = old ||| source
combine clear old source = old &&& not64 source

-- A swap reads only for a destination other than x0; the others write only for a source other than
-- x0, or than the immediate 0. Writing x0 has no effect.
abbrev pub exec_csr : Machine → CsrOp → Bool → ℕ → ℕ → ℕ → Result Machine
exec_csr m op imm number rd rs1 =
    let source = if imm then rs1 else x m rs1 in
    do
      old ← if is_swap op && rd == 0 then ok 0 else read_csr m.priv number
      priv ←
          if is_swap op || not (rs1 == 0)
          then write_csr m.priv number (combine op old source)
          else ok m.priv
      ok (
          advance
            (if rd == 0
              then record m { priv = priv }
              else set_reg (record m { priv = priv }) rd old)
            4)

abbrev pub exec : Machine → Instr → Result Machine
exec m (sfence_vma rs1 rs2) =
    ok (advance (record m { priv = record m.priv { should_clear_vm = true } }) 4)
exec m wfi = ok (advance m 4)
exec m return_trap = ok (sret m)
exec m (csr op imm number rd rs1) = exec_csr m op imm number rd rs1
