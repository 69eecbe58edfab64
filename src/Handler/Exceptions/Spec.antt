-- ===== src/Handler/Exceptions/Spec.antt =====
-- What raises an exception of the guest, and what its kernel then finds.
use urvirt.Common.{ℕ, ◌-◌, ◌*◌, ◌/◌, ◌^◌, ◌≤◌, ◌<◌, ◌≡◌, ◌⊎◌, false, ◌==◌, if◌then◌else◌, none}
use urvirt.Outcome.{ok}
use urvirt.RiscvBits.{priv_u, priv_s, get_satp_mode}
use urvirt.Machine.{Machine, update}
use urvirt.PageTable.{lookup_pa_in_ram}
use urvirt.PageTable.Spec.{Reaches, InRam, page_of}
use urvirt.PageFault.Mapping.{permits}
use urvirt.Bits.{bit}
use urvirt.Handler.{Signal, sigsys, sigill, sigsegv}
use urvirt.Handler.Cause.{Access, IsAccess, cause_of, misjudged}

-- The guest's kernel is entered at the base of its vector in S mode, with the cause, the value and
-- the address of the exception. In sstatus SIE is 0, SPIE is what SIE was, SPP tells whether the mode was
-- S, and the other bits are as they were. The other registers are `regs`, and the rest of the guest is
-- untouched.
pub record IsException (m : Machine) (regs : ℕ → ℕ) (n : Machine) (cause tval epc : ℕ)
    : Type 0 where
  pub mode : n.priv.priv_mode ≡ priv_s
  pub scause : n.priv.scause ≡ cause
  pub stval : n.priv.stval ≡ tval
  pub sepc : n.priv.sepc ≡ epc
  pub status :
      (i : ℕ)
      → i < 64
      → bit n.priv.sstatus i ≡ (
          if i == 1
          then 0
          else if i == 5
          then bit m.priv.sstatus 1
          else if i == 8
          then (if m.priv.priv_mode == priv_s then 1 else 0)
          else bit m.priv.sstatus i)
  pub pc : n.regs 0 ≡ m.priv.stvec / 4 * 4
  pub registers : (i : ℕ) → (i == 0) ≡ false → n.regs i ≡ regs i
  pub memory : n.memory ≡ m.memory
  pub ram : n.ram ≡ m.ram

-- The registers at the exception: the signal of an `ecall` brings the number that was in a7, whatever
-- the context has there.
abbrev pub regs_at : Machine → Signal → ℕ → ℕ
regs_at m (sigsys which) = update m.regs 17 which
regs_at m _ = m.regs

-- What raises an exception, as the architecture has it: in user mode an illegal instruction, an
-- `ecall`, whose signal comes with the pc after the instruction, and, with Sv39 on, an access to a page
-- of RAM that its entry does not permit; in any mode an access to an address that the page table does
-- not translate. The accesses are those that the handler does not take for others.
pub data Raises (m : Machine) : Signal → (cause tval epc : ℕ) → Type 0 where
  illegal : m.priv.priv_mode ≡ priv_u → Raises m sigill 2 0 (m.regs 0)
  user_call :
      (which : ℕ)
      → m.priv.priv_mode ≡ priv_u
      → 4 ≤ m.regs 0
      → Raises m (sigsys which) 8 0 (m.regs 0 - 4)
  page_fault :
      (a : ℕ) (i : Access)
      → lookup_pa_in_ram m.priv.satp m.ram a ≡ ok none
      → IsAccess m.memory (m.regs 0) a i
      → misjudged (a == m.regs 0) i ≡ false
      → Raises m (sigsegv a) (cause_of i) a (m.regs 0)
  denied :
      (a : ℕ) (i : Access) (pa pte : ℕ)
      → m.priv.priv_mode ≡ priv_u
      → a < 2 ^ 64
      → get_satp_mode m.priv.satp ≡ 8
      → (a < 2 ^ 39) ⊎ (2 ^ 64 - 2 ^ 39 ≤ a)
      → Reaches m.priv.satp m.ram a pa pte
      → InRam (page_of pte)
      → IsAccess m.memory (m.regs 0) a i
      → misjudged (a == m.regs 0) i ≡ false
      → permits (cause_of i) pte ≡ false
      → Raises m (sigsegv a) (cause_of i) a (m.regs 0)
