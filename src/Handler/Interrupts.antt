-- ===== src/Handler/Interrupts.antt =====
-- What the end of the signal handler settles: the pending timer interrupt and the stale mappings; and
-- how a system call of the guest's user mode becomes a trap.
use urvirt.Common.{
  ℕ, ◌+◌, ◌-◌, ◌*◌, ◌≤◌, ◌≡◌, refl, Bool, true, false, ◌==◌, if◌then◌else◌, Bool-cases, inl, inr,
  arith, sub64, ◌∙◌, ◌/◌, u64,
}
use urvirt.Outcome.{ok, Ensures, Ensures->>=, Ensures-ok, Ensures-of_ok}
use urvirt.Kernel.{Kernel}
use urvirt.RiscvBits.{get_field_one, priv_u, priv_s}
use urvirt.Machine.{Machine, IsValid, Syscall, call, set_reg, update}
use urvirt.Trap.{trap_target, trap_sstatus, enter_trap}
use urvirt.Trap.Laws.{bit-trap_sstatus, trap_target_lem, trap_target-stvec}
use urvirt.Handler.{
  Signal, dispatch, timer_due, take_interrupt, clear_vm, handler, handle_sigsys, print_counters,
}

-- No interrupt is due, and no mappings are stale.
abbrev pub IsSettled : Machine → Type 0
IsSettled m = (timer_due m ≡ false) × (m.priv.should_clear_vm ≡ false)

-- In S mode with SIE clear nothing is taken.
pub timer_due-trap :
    (m : Machine) (scause stval : ℕ) → timer_due (enter_trap m scause stval) ≡ false
unfolding timer_due enter_trap
timer_due-trap m scause stval = ground (
  arith,
  get_field_one 1 (trap_sstatus m.priv.priv_mode m.priv.sstatus),
  bit-trap_sstatus m.priv.priv_mode m.priv.sstatus 1,
)

timer_due-take_interrupt : (m : Machine) → timer_due (take_interrupt m) ≡ false
unfolding take_interrupt
timer_due-take_interrupt m = elim (Bool-cases (timer_due m)) [
  | inl e ↦ rw e (timer_due-trap _ _ 0)
  | inr e ↦ rw e e
]

call-IsSettled : (m : Machine) (c : Syscall) → IsSettled m → IsSettled (call m c)
unfolding timer_due
call-IsSettled m c h = h

if-IsSettled :
    (b : Bool) (m n : Machine)
    → IsSettled m
    → (b ≡ false → IsSettled n)
    → IsSettled (if b then m else n)
if-IsSettled true m n h k = h
if-IsSettled false m n h k = k refl

clear_vm-IsSettled : (m : Machine) → timer_due m ≡ false → IsSettled (clear_vm m)
unfolding clear_vm
clear_vm-IsSettled m h =
    if-IsSettled m.priv.should_clear_vm _ m (call-IsSettled _ _ (call-IsSettled _ _ cleared))
      (λ e. (h, e))
  where
    cleared : IsSettled (record m { priv = record m.priv { should_clear_vm = false } })
    cleared = ((unfold timer_due in (unfold timer_due in h)), refl)

-- When the handler returns, for whatever signal, no timer interrupt is due, and no request to clear
-- the mappings is left.
pub handler-IsSettled :
    (k : Kernel) (m : Machine) (sig : Signal) {n : Machine} → handler k m sig ≡ ok n → IsSettled n
handler-IsSettled k m sig e = Ensures-ok IsSettled (handler k m sig) returns e
  where
    returns : Ensures IsSettled (handler k m sig)
    returns =
        unfold handler in
        Ensures->>= (λ (n : Machine). Unit {0}) IsSettled (dispatch k _ sig) _
          (Ensures-of_ok (λ (n : Machine). Unit {0}) _ (λ _ _. tt))
          (λ n _. call-IsSettled _ _ (clear_vm-IsSettled _ (timer_due-take_interrupt n)))

-- A trap of the guest's user mode by `ecall`: the kernel is entered at its vector in S mode with the
-- cause 8, sepc is the address of the `ecall`, and a7 holds the number of the call.
pub record IsUserCall (m : Machine) (which : ℕ) (n : Machine) : Type 0 where
  pub mode : n.priv.priv_mode ≡ priv_s
  pub cause : n.priv.scause ≡ 8
  pub epc : n.priv.sepc ≡ m.regs 0 - 4
  pub pc : n.regs 0 ≡ m.priv.stvec / 4 * 4
  pub registers : (i : ℕ) → (i == 0) ≡ false → n.regs i ≡ update m.regs 17 which i
  pub memory : n.memory ≡ m.memory

-- Printing the counters only makes a call.
pub print_counters_calls :
    (m : Machine) → print_counters m ≡ record m { calls = (print_counters m).calls }
unfolding print_counters
print_counters_calls m = if_calls (m.regs 10 == 0xdeadbeefdeadbeef) _
  where
    if_calls :
        (b : Bool) (c : Syscall)
        → (if b then call m c else m) ≡ record m { calls = (if b then call m c else m).calls }
    if_calls true c = refl
    if_calls false c = refl

module _ (k : Kernel) (m : Machine) (which : ℕ) where
  -- The machine that enters the trap.
  abbrev pub calling : Machine
  calling =
      let m' = record m {
        regs = update m.regs 17 which;
        calls = (print_counters (set_reg m 17 which)).calls;
      } in
      set_reg
        (record m' { priv = record m.priv { counter_uecall = u64 (m.priv.counter_uecall + 1) } }) 0
        (sub64 (m.regs 0) 4)

  pub handle_sigsys-calling :
      m.priv.priv_mode ≡ priv_u → handle_sigsys k m which ≡ ok (enter_trap calling 8 0)
  unfolding handle_sigsys
  handle_sigsys-calling user = rw (print_counters_calls (set_reg m 17 which)) (rw user refl)

module _ (k : Kernel) (m : Machine) (which : ℕ) (h : IsValid m)
    (user : m.priv.priv_mode ≡ priv_u) where
  abbrev called : Machine
  called = enter_trap (calling k m which) 8 0

  -- In a valid machine in user mode whose pc is at least 4, an `ecall` always becomes a trap: S mode,
  -- cause 8, sepc at the `ecall`, the pc at the base of stvec; the other registers are kept, with the
  -- number of the call in a7, and so is memory.
  pub handle_sigsys-IsUserCall :
      4 ≤ m.regs 0 → (n : Machine) × (handle_sigsys k m which ≡ ok n) × IsUserCall m which n
  handle_sigsys-IsUserCall past = (called, handle_sigsys-calling k m which user, trapped)
    where
      trapped : IsUserCall m which called
      trapped =
          unfold enter_trap in
          record {
            mode = refl;
            cause = refl;
            epc = omega (arith, h.words 0);
            pc = base ∙ trap_target_lem m.priv 8 h.state (omega arith) ∙ ground arith;
            registers = λ i nonzero. ground arith;
            memory = refl;
          }
        where
          base : called.regs 0 ≡ trap_target m.priv 8
          base = unfold enter_trap in trap_target-stvec _ m.priv 8 refl
