-- ===== src/TestKernel.antt =====
-- src/test-kernel/test-kernel.c and sbi.h: a guest that goes to user mode, and its calls, as they run
-- on the handler.
pub mod Signals
pub mod Boot
pub mod Calls
pub mod Doublewords
pub mod Asm
pub mod Hart
pub mod Served
pub mod Faults
pub mod Refinement
pub mod Frame
pub mod Vector
pub mod User
pub mod Trapped
pub mod Called
pub mod Printing
mod Examples
use urvirt.Common.{ℕ, zero, suc, ◌+◌, ◌-◌, ◌&&◌, leb, ltb, if◌then◌else◌, ◌==◌}
use urvirt.Outcome.{Result, ok, ◌>>=◌}
use urvirt.Kernel.{Kernel}
use urvirt.RiscvBits.{mask_sstatus_spp}
use urvirt.Machine.{Machine, set_reg, update, advance}
use urvirt.Handler.{sigill, sigsys, handler_wrapper}

-- Where the compiler puts things: the address and the register of each `asm` statement of
-- kernel_main, and the addresses of the functions.
pub record Layout : Type 0 where
  pub csrc_sstatus_pc : ℕ
  pub csrc_sstatus_reg : ℕ
  pub csrw_stvec_pc : ℕ
  pub csrw_stvec_reg : ℕ
  pub csrw_sepc_pc : ℕ
  pub csrw_sepc_reg : ℕ
  pub sret_pc : ℕ
  pub stvec : ℕ
  pub umode : ℕ

-- The loop of clear_bss, with the rounds left: from `p` on.
unfoldable pub clear_bss : (rounds p : ℕ) → (ℕ → ℕ) → ℕ → ℕ
clear_bss zero p memory = memory
clear_bss (suc rounds) p memory = clear_bss rounds (suc p) (update memory p 0)

-- An `asm` statement: the operand is in its register and the instruction, at the pc, is privileged.
abbrev pub asm_operand : Kernel → Machine → (pc reg value : ℕ) → Result Machine
asm_operand k m pc reg value = handler_wrapper k (set_reg (set_reg m reg value) 0 pc) sigill

unfoldable pub kernel_main : Kernel → Layout → Machine → Result Machine
kernel_main k l m = do
  m1 ← asm_operand k m l.csrc_sstatus_pc l.csrc_sstatus_reg mask_sstatus_spp
  m2 ← asm_operand k m1 l.csrw_stvec_pc l.csrw_stvec_reg l.stvec
  m3 ← asm_operand k m2 l.csrw_sepc_pc l.csrw_sepc_reg l.umode
  handler_wrapper k (set_reg m3 0 l.sret_pc) sigill

-- sbi.h: the arguments go to a0, a1, a2 and a7, and the answer comes in a0. The signal of the `ecall`
-- comes with the pc after it.
unfoldable pub sbi_call : Kernel → Machine → (which arg0 arg1 arg2 : ℕ) → Result (ℕ × Machine)
sbi_call k m which arg0 arg1 arg2 =
    let ready = set_reg (set_reg (set_reg (set_reg m 10 arg0) 11 arg1) 12 arg2) 17 which in
    do m' ← handler_wrapper k (advance ready 4) (sigsys which); ok (m'.regs 10, m')

unfoldable pub sbi_console_putchar : Kernel → Machine → ℕ → Result Machine
unfolding sbi_call
sbi_console_putchar k m c = do (_, m') ← sbi_call k m 1 c 0 0; ok m'

-- What it returns is undefined, since it has no `return`.
unfoldable pub sbi_console_getchar : Kernel → Machine → Result Machine
unfolding sbi_call
sbi_console_getchar k m = do (_, m') ← sbi_call k m 2 0 0 0; ok m'

-- Up to the endless loop that follows the call.
unfoldable pub sbi_shutdown : Kernel → Machine → Result Machine
unfolding sbi_call
sbi_shutdown k m = do (_, m') ← sbi_call k m 8 0 0 0; ok m'
