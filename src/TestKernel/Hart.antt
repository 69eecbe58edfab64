-- ===== src/TestKernel/Hart.antt =====
-- The instructions as the architecture means them, with an SBI that has one call, the one that prints,
-- and does not support the others, and no stub.
use urvirt.Common.{ℕ, ◌+◌, ◌%◌, ◌-◌, ◌^◌, ◌<◌, ◌≡◌, false, ◌==◌, if◌then◌else◌, List, [], ◌∷◌, u64}
use urvirt.Memory.{load32}
use urvirt.RiscvBits.{sstatus_writable_mask, get_field}
use urvirt.Priv.{PrivState}
use urvirt.Csr.{merge_mask}
use urvirt.Trap.{sret_sstatus}
use urvirt.Machine.{Machine, Syscall, s_write, update}
use urvirt.PrivInstr.Spec.{csr, set, swap, return_trap, encode}
use urvirt.TestKernel.Doublewords.{load_double, store_double}
use urvirt.TestKernel.Asm.{
  CsrName, sstatus, sepc, Asm, addi, li, sd, ld, csrr, csrw, ecall, sret, Hardware,
}

-- What the guest sees. `ram` is what is behind its memory; `output` is what was printed, the newest byte first; `others` is the rest of
-- the privileged state, without what only the stub sees.
pub record Hart : Type 0 where
  pub regs : ℕ → ℕ
  pub memory : ℕ → ℕ
  pub ram : ℕ → ℕ
  pub mode : ℕ
  pub status : ℕ
  pub epc : ℕ
  pub output : List ℕ
  pub others : PrivState

abbrev pub written : List Syscall → List ℕ
written [] = []
written (s_write fd c ∷ calls) = if fd == 1 then c ∷ written calls else written calls
written (c ∷ calls) = written calls

abbrev pub others_of : PrivState → PrivState
others_of p = record p {
  priv_mode = 0;
  sstatus = 0;
  sepc = 0;
  should_clear_vm = false;
  counter_ill = 0;
  counter_segv = 0;
  counter_sret = 0;
  counter_uecall = 0;
  counter_secall = 0;
}

abbrev pub seen : Machine → Hart
seen m = record {
  regs = m.regs;
  memory = m.memory;
  ram = m.ram;
  mode = m.priv.priv_mode;
  status = m.priv.sstatus;
  epc = m.priv.sepc;
  output = written m.calls;
  others = others_of m.priv;
}

abbrev pub reg : Hart → ℕ → ℕ
reg h i = if i == 0 then 0 else h.regs i

-- A register other than x0 is written, and the pc goes past the instruction.
abbrev pub put : Hart → (rd v size : ℕ) → Hart
put h rd v size =
    let regs = if rd == 0 then h.regs else update h.regs rd v in
    record h { regs = update regs 0 (u64 (regs 0 + size)) }

abbrev pub get_csr : Hart → CsrName → ℕ
get_csr h sstatus = h.status
get_csr h sepc = h.epc

abbrev pub set_csr : Hart → CsrName → ℕ → Hart
set_csr h sstatus v = record h { status = merge_mask sstatus_writable_mask v h.status }
set_csr h sepc v = record h { epc = v }

abbrev pub effect : Hardware → Asm → Hart → Hart
effect w (addi rd rs imm) h = put h rd (u64 (reg h rs + imm)) (w.size (addi rd rs imm))
effect w (li rd imm) h = put h rd imm (w.size (li rd imm))
effect w (sd rs2 offset rs1) h =
    let a = u64 (reg h rs1 + offset) in
    put
      (record h {
        memory = store_double h.memory a (reg h rs2);
        ram = w.ram_after a (reg h rs2) h.ram;
      })
      0 0 (w.size (sd rs2 offset rs1))
effect w (ld rd offset rs1) h =
    put h rd (load_double h.memory (u64 (reg h rs1 + offset))) (w.size (ld rd offset rs1))
effect w (csrr rd c) h = put h rd (get_csr h c) 4
effect w (csrw c rs) h = put (set_csr h c (reg h rs)) 0 0 4
effect w ecall h =
    if h.regs 17 == 1
    then put (record h { output = h.regs 10 % 256 ∷ h.output }) 10 0 4
    else put h 10 (2 ^ 64 - 2) 4
effect w sret h = record h {
  regs = update h.regs 0 h.epc;
  mode = if get_field 8 1 h.status == 0 then 0 else 16;
  status = sret_sstatus h.status;
}

abbrev pub effects : Hardware → List Asm → Hart → Hart
effects w [] h = h
effects w (i ∷ code) h = effects w code (effect w i h)

abbrev pub number : CsrName → ℕ
number sstatus = 0x100
number sepc = 0x141

-- In S mode: a privileged instruction stands in memory at the pc, and a call is one that prints.
abbrev pub IsReady : Asm → Hart → Type 0
IsReady (csrr rd c) h =
    (h.mode ≡ 16)
    × (load32 h.memory (h.regs 0) ≡ encode (csr set false (number c) rd 0))
    × (rd < 32)
IsReady (csrw c rs) h =
    (h.mode ≡ 16)
    × (load32 h.memory (h.regs 0) ≡ encode (csr swap false (number c) 0 rs))
    × (rs < 32)
IsReady ecall h = (h.mode ≡ 16) × (h.regs 17 ≡ 1)
IsReady sret h = (h.mode ≡ 16) × (load32 h.memory (h.regs 0) ≡ encode return_trap)
IsReady _ h = Unit

-- Each instruction is so, where the ones before it lead.
abbrev pub AreReady : Hardware → List Asm → Hart → Type 0
AreReady w [] h = Unit
AreReady w (i ∷ code) h = IsReady i h × AreReady w code (effect w i h)

-- What holds of the first instruction, and what of the others.
infixr 20 ◌⊗◌
abbrev pub ◌⊗◌ {ℓ κ} : {A : Type ℓ} {B : Type κ} → A → B → A × B
a ⊗ b = (a, b)
