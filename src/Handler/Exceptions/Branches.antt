-- ===== src/Handler/Exceptions/Branches.antt =====
-- The branches of the handler that end in a trap.
use urvirt.Common.{
  if_false, ℕ, ◌+◌, ◌-◌, ◌^◌, ◌≤◌, ◌<◌, ◌≡◌, ◌⊎◌, refl, ap, ◌∙◌, false, ◌==◌, arith, List, none,
  u64, ◌∷◌, ap₂,
}
use urvirt.Outcome.{ok}
use urvirt.Kernel.{Kernel}
use urvirt.Bits.{bit}
use urvirt.RiscvBits.{priv_u, priv_s, get_satp_mode}
use urvirt.Priv.{PrivState}
use urvirt.Machine.{update, Machine, IsValid, Syscall, call, log, s_mmap, s_munmap}
use urvirt.PageTable.{lookup_pa_in_ram}
use urvirt.PageFault.{lookup_pa, handle_page_fault}
use urvirt.PageTable.Spec.{Reaches, InRam, page_of}
use urvirt.PageFault.Mapping.{permits, handle_page_fault-served}
use urvirt.Trap.{trap_sstatus, enter_trap}
use urvirt.Trap.Laws.{bit-trap_sstatus, trap_target_lem, trap_target-stvec}
use urvirt.Handler.{
  Signal, sigsys, sigill, sigsegv, handle_sigill, handle_sigsegv, fault_cause, dispatch,
  take_interrupt, clear_vm, handler,
}
use urvirt.Handler.Interrupts.{timer_due-trap, calling, handle_sigsys-calling}
use urvirt.Handler.Delivery.{clear_vm_lem}
use urvirt.Handler.Exceptions.Spec.{regs_at, IsException}

-- The cause of a fault depends on the registers and memory alone, and to find it only adds to the log.
pub fault_cause_calls :
    (m : Machine) (p : PrivState) (calls : List Syscall) (a : ℕ)
    → let t = record m { priv = p; calls = calls } in
      fault_cause t a ≡ ((fault_cause m a).0, record t { calls = (fault_cause t a).1.calls })
unfolding fault_cause
fault_cause_calls m p calls a = ground arith

pub fault_cause-lt : (m : Machine) (a : ℕ) → (fault_cause m a).0 < 2 ^ 63
unfolding fault_cause
fault_cause-lt m a = ground arith

-- The guest as it was, but for the pc, the counters and the log, with its registers.
pub record IsUnchanged (m : Machine) (regs : ℕ → ℕ) (t : Machine) (epc : ℕ) : Type 0 where
  pc : t.regs 0 ≡ epc
  mode : t.priv.priv_mode ≡ m.priv.priv_mode
  status : t.priv.sstatus ≡ m.priv.sstatus
  vector : t.priv.stvec ≡ m.priv.stvec
  registers : (i : ℕ) → (i == 0) ≡ false → t.regs i ≡ regs i
  memory : t.memory ≡ m.memory
  ram : t.ram ≡ m.ram

abbrev pub mapped : Machine → Machine
mapped m = call m (s_mmap 0 4096 3 1 64 0)

module _ (k : Kernel) (m : Machine) (valid : IsValid m) where
  abbrev left : (t : Machine) (cause tval : ℕ) → Machine
  left t cause tval = record (enter_trap t cause tval) {
    priv = record (enter_trap t cause tval).priv { should_clear_vm = false };
    calls = s_munmap k.conf_address 4096 ∷ (clear_vm (enter_trap t cause tval)).calls;
  }

  -- A branch that ends in a trap makes the handler end in it.
  handler-trap :
      (sig : Signal) (t : Machine) (cause tval : ℕ)
      → dispatch k (mapped m) sig ≡ ok (enter_trap t cause tval)
      → handler k m sig ≡ ok (left t cause tval)
  unfolding handler
  handler-trap sig t cause tval e = rw e (
      ap (λ t. ok (call (clear_vm t) (s_munmap k.conf_address 4096))) quiet
      ∙ ap (λ t. ok (call t (s_munmap k.conf_address 4096)))
          (clear_vm_lem (enter_trap t cause tval)))
    where
      quiet : take_interrupt (enter_trap t cause tval) ≡ enter_trap t cause tval
      quiet = unfold take_interrupt in rw (timer_due-trap t cause tval) refl

  left-IsException :
      (regs : ℕ → ℕ) (t : Machine) (cause tval epc : ℕ)
      → IsUnchanged m regs t epc
      → cause < 2 ^ 63
      → IsException m regs (left t cause tval) cause tval epc
  unfolding enter_trap
  left-IsException regs t cause tval epc same low = record {
    mode = refl;
    scause = refl;
    stval = refl;
    sepc = same.pc;
    status = λ i below.
        ap (λ s. bit s i) (ap₂ trap_sstatus same.mode same.status)
        ∙ bit-trap_sstatus m.priv.priv_mode m.priv.sstatus i below;
    pc =
        trap_target-stvec _ m.priv cause same.vector
        ∙ trap_target_lem m.priv cause valid.state (omega arith)
        ∙ ground arith;
    registers = λ i nonzero. ground (arith, same.registers i nonzero);
    memory = same.memory;
    ram = same.ram;
  }

  -- Such a branch delivers the exception.
  pub delivers :
      (sig : Signal) (t : Machine) (cause tval epc : ℕ)
      → dispatch k (mapped m) sig ≡ ok (enter_trap t cause tval)
      → IsUnchanged m (regs_at m sig) t epc
      → cause < 2 ^ 63
      → (n : Machine) × (handler k m sig ≡ ok n) × IsException m (regs_at m sig) n cause tval epc
  delivers sig t cause tval epc e same low = (
    left t cause tval,
    handler-trap sig t cause tval e,
    left-IsException (regs_at m sig) t cause tval epc same low,
  )

  abbrev pub page_faulting : (a : ℕ) → Machine
  page_faulting a =
      let counted = record (mapped m) {
        priv = record m.priv { counter_segv = u64 (m.priv.counter_segv + 1) };
      } in
      call
        (call (record counted { calls = (fault_cause counted a).1.calls })
          (s_mmap 0 0x1000000 7 1 65 0))
        (s_munmap k.ram_address 0x1000000)

  pub segv-trap :
      (a : ℕ)
      → lookup_pa_in_ram m.priv.satp m.ram a ≡ ok none
      → dispatch k (mapped m) (sigsegv a) ≡ ok (enter_trap (page_faulting a) (fault_cause m a).0 a)
  unfolding dispatch handle_sigsegv handle_page_fault lookup_pa
  segv-trap a e = ap (λ r. handle_page_fault k r.1 r.0 a) (fault_cause_calls m _ _ a) ∙ rw e refl

  pub segv-IsUnchanged : (a : ℕ) → IsUnchanged m m.regs (page_faulting a) (m.regs 0)
  segv-IsUnchanged a = record {
    pc = refl;
    mode = refl;
    status = refl;
    vector = refl;
    registers = λ i nonzero. refl;
    memory = refl;
    ram = refl;
  }

  pub denied-trap :
      (a pa pte : ℕ)
      → m.priv.priv_mode ≡ priv_u
      → a < 2 ^ 64
      → get_satp_mode m.priv.satp ≡ 8
      → (a < 2 ^ 39) ⊎ (2 ^ 64 - 2 ^ 39 ≤ a)
      → Reaches m.priv.satp m.ram a pa pte
      → InRam (page_of pte)
      → permits (fault_cause m a).0 pte ≡ false
      → dispatch k (mapped m) (sigsegv a)
        ≡ ok (
            enter_trap
              (call (page_faulting a) (log "page permission denied in u mode"))
              (fault_cause m a).0
              a)
  unfolding dispatch handle_sigsegv
  denied-trap a pa pte user word sv39 sign t range closed =
      ap (λ r. handle_page_fault k r.1 r.0 a) (fault_cause_calls m _ _ a)
      ∙ handle_page_fault-served k _ (fault_cause m a).0 a pte word {pa = pa} sv39 sign t range
      ∙ if_false (permits (fault_cause m a).0 pte) _ closed
      ∙ if_false (m.priv.priv_mode == priv_s) _ (ground (arith, user))

  pub denied-IsUnchanged :
      (a : ℕ)
      → IsUnchanged m m.regs
          (call (page_faulting a) (log "page permission denied in u mode"))
          (m.regs 0)
  denied-IsUnchanged a = record {
    pc = refl;
    mode = refl;
    status = refl;
    vector = refl;
    registers = λ i nonzero. refl;
    memory = refl;
    ram = refl;
  }

  abbrev pub refused : Machine
  refused = record (mapped m) {
    priv = record m.priv { counter_ill = u64 (m.priv.counter_ill + 1) };
  }

  pub ill-trap :
      m.priv.priv_mode ≡ priv_u → dispatch k (mapped m) sigill ≡ ok (enter_trap refused 2 0)
  unfolding dispatch handle_sigill
  ill-trap user = if_false (m.priv.priv_mode == priv_s) _ (ground (arith, user))

  pub ill-IsUnchanged : IsUnchanged m m.regs refused (m.regs 0)
  ill-IsUnchanged = record {
    pc = refl;
    mode = refl;
    status = refl;
    vector = refl;
    registers = λ i nonzero. refl;
    memory = refl;
    ram = refl;
  }

  module _ (which : ℕ) (user : m.priv.priv_mode ≡ priv_u) where
    abbrev pub caller : Machine
    caller = calling k (mapped m) which

    pub call-trap : dispatch k (mapped m) (sigsys which) ≡ ok (enter_trap caller 8 0)
    unfolding dispatch
    call-trap = handle_sigsys-calling k (mapped m) which user

    pub call-IsUnchanged :
        4 ≤ m.regs 0 → IsUnchanged m (update m.regs 17 which) caller (m.regs 0 - 4)
    call-IsUnchanged past = record {
      pc = omega (arith, valid.words 0);
      mode = refl;
      status = refl;
      vector = refl;
      registers = λ i nonzero. ground arith;
      memory = refl;
      ram = refl;
    }
