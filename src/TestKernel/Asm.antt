-- ===== src/TestKernel/Asm.antt =====
-- src/test-kernel/test-kernel.c: instructions of the guest, one after the other, as they run on the
-- handler. The privileged ones and `ecall` are signals, and so is each access to memory that is not
-- mapped.
use urvirt.Common.{ℕ, ◌+◌, ◌==◌, if◌then◌else◌, List, [], ◌∷◌, u64}
use urvirt.Outcome.{Result, ok, ◌>>=◌}
use urvirt.Kernel.{Kernel}
use urvirt.Machine.{Machine, set_reg, advance}
use urvirt.PrivInstr.Spec.{x}
use urvirt.Handler.{sigill, sigsegv, sigsys, handler_wrapper}
use urvirt.TestKernel.Doublewords.{load_double, store_double}

pub data CsrName : Type 0 where
  sstatus sepc : CsrName

-- The operands stand in the order of the assembler's text.
pub data Asm : Type 0 where
  addi : (rd rs imm : ℕ) → Asm
  li : (rd imm : ℕ) → Asm
  sd : (rs2 offset rs1 : ℕ) → Asm
  ld : (rd offset rs1 : ℕ) → Asm
  csrr : (rd : ℕ) → CsrName → Asm
  csrw : CsrName → (rs : ℕ) → Asm
  ecall sret : Asm

-- How many bytes the assembler gives to an instruction that is no signal; what a store of a
-- doubleword at an address does to the words of RAM, if RAM is what stands there; at which addresses
-- an instruction, and the read of a byte, fault before they are done; and what the system leaves in a7
-- in the context of the SIGSYS of an `ecall`, which need not be the number of the call.
pub record Hardware : Type 0 where
  pub size : Asm → ℕ
  pub ram_after : (a v : ℕ) → (ℕ → ℕ) → ℕ → ℕ
  pub faults : Asm → Machine → List ℕ
  pub read_faults : ℕ → Machine → List ℕ
  pub a7_after : Machine → ℕ

unfoldable pub fault_in : Kernel → List ℕ → Machine → Result Machine
fault_in k [] m = ok m
fault_in k (a ∷ addresses) m = do n ← handler_wrapper k m (sigsegv a); fault_in k addresses n

abbrev pub set_rd : Machine → (rd v : ℕ) → Machine
set_rd m rd v = if rd == 0 then m else set_reg m rd v

unfoldable pub execute : Kernel → Hardware → Asm → Machine → Result Machine
execute k w (addi rd rs imm) m =
    ok (advance (set_rd m rd (u64 (x m rs + imm))) (w.size (addi rd rs imm)))
execute k w (li rd imm) m = ok (advance (set_rd m rd imm) (w.size (li rd imm)))
execute k w (sd rs2 offset rs1) m =
    let a = u64 (x m rs1 + offset) in
    ok (
      advance
        (record m {
          memory = store_double m.memory a (x m rs2);
          ram = w.ram_after a (x m rs2) m.ram;
        })
        (w.size (sd rs2 offset rs1)))
execute k w (ld rd offset rs1) m = ok (
    advance (set_rd m rd (load_double m.memory (u64 (x m rs1 + offset))))
      (w.size (ld rd offset rs1)))
execute k w ecall m =
    handler_wrapper k (advance (set_reg m 17 (w.a7_after m)) 4) (sigsys (m.regs 17))
execute k w (csrr rd c) m = handler_wrapper k m sigill
execute k w (csrw c rs) m = handler_wrapper k m sigill
execute k w sret m = handler_wrapper k m sigill

unfoldable pub step : Kernel → Hardware → Asm → Machine → Result Machine
step k w i m = do n ← fault_in k (w.faults i m) m; execute k w i n

unfoldable pub run : Kernel → Hardware → List Asm → Machine → Result Machine
run k w [] m = ok m
run k w (i ∷ code) m = do n ← step k w i m; run k w code n
