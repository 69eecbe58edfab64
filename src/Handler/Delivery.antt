-- ===== src/Handler/Delivery.antt =====
-- What becomes of a timer signal: an interrupt of the guest, at once or when it is enabled.
use urvirt.Common.{
  ℕ, ◌+◌, ◌*◌, ◌/◌, ◌%◌, ◌^◌, ◌≡◌, refl, ap, ◌∙◌, ◌⊎◌, inl, inr, Bool, true, false, ◌&&◌, ◌||◌, ltb,
  ◌==◌, if◌then◌else◌, truthy, arith, Bool-cases, ◌∷◌, ◌|||◌,
}
use urvirt.Outcome.{ok}
use urvirt.Kernel.{Kernel}
use urvirt.Memory.{config_fd, conf_size}
use urvirt.RiscvBits.{
  priv_s, get_six_sti, set_six_sti, get_sstatus_sie, scause_timer, get_field-set_field_self,
}
use urvirt.PageFault.{prot_read, prot_write, map_shared}
use urvirt.Machine.{Machine, IsValid, call, log, s_mmap, s_munmap}
use urvirt.Trap.{enter_trap}
use urvirt.Trap.Laws.{trap_target_lem, trap_target-stvec}
use urvirt.Handler.{sigalrm, dispatch, handle_sigalrm, timer_due, take_interrupt, clear_vm, handler}

-- The guest has the timer interrupt enabled, and interrupts are enabled or its mode is below S.
abbrev pub is_enabled : Machine → Bool
is_enabled m =
    truthy (get_six_sti m.priv.sie)
    && (truthy (get_sstatus_sie m.priv.sstatus) || ltb m.priv.priv_mode priv_s)

-- The timer interrupt is taken: S mode at the vector for cause 5 of the interrupts, sepc where the
-- guest was, nothing else of it changed.
pub record IsTimerTrap (m n : Machine) : Type 0 where
  pub mode : n.priv.priv_mode ≡ priv_s
  pub cause : n.priv.scause ≡ 2 ^ 63 + 5
  pub epc : n.priv.sepc ≡ m.regs 0
  pub pc : n.regs 0 ≡ (
      if m.priv.stvec % 4 == 1 then (m.priv.stvec / 4 * 4 + 20) % 2 ^ 64 else m.priv.stvec / 4 * 4)
  pub registers : (i : ℕ) → (i == 0) ≡ false → n.regs i ≡ m.regs i
  pub memory : n.memory ≡ m.memory
  pub ram : n.ram ≡ m.ram

-- The guest goes on where it was.
pub record IsUndisturbed (m n : Machine) : Type 0 where
  pub mode : n.priv.priv_mode ≡ m.priv.priv_mode
  pub status : n.priv.sstatus ≡ m.priv.sstatus
  pub epc : n.priv.sepc ≡ m.priv.sepc
  pub registers : n.regs ≡ m.regs
  pub memory : n.memory ≡ m.memory
  pub ram : n.ram ≡ m.ram

pub clear_vm_lem :
    (m : Machine)
    → clear_vm m
      ≡ record m { priv = record m.priv { should_clear_vm = false }; calls = (clear_vm m).calls }
unfolding clear_vm
clear_vm_lem m = elim (Bool-cases m.priv.should_clear_vm) [ inl e ↦ rw e refl | inr e ↦ rw e refl ]

module _ (k : Kernel) (m : Machine) where
  -- The machine with the interrupt pending.
  abbrev pending : Machine
  pending =
      let mapped = call m (s_mmap 0 conf_size (prot_read ||| prot_write) map_shared config_fd 0) in
      call (record mapped { priv = record m.priv { sip = set_six_sti m.priv.sip 1 } })
        (log (if m.priv.priv_mode == priv_s then "timer in s mode" else "timer in u mode"))

  handler-left :
      handler k m (sigalrm true)
      ≡ ok (call (clear_vm (take_interrupt pending)) (s_munmap k.conf_address conf_size))
  unfolding handler dispatch handle_sigalrm
  handler-left = refl

  is_pending : get_six_sti pending.priv.sip ≡ 1
  is_pending = get_field-set_field_self 5 1 m.priv.sip 1 (omega arith) (omega arith) (omega arith)

  due-is_enabled : timer_due pending ≡ is_enabled m
  unfolding timer_due
  due-is_enabled = rw is_pending refl

  -- After the interrupt, or with none, the stale mappings are cleared and the page is unmapped.
  abbrev finished : Machine → Machine
  finished t = record t {
    priv = record t.priv { should_clear_vm = false };
    calls = s_munmap k.conf_address conf_size ∷ (clear_vm t).calls;
  }

  handler-finished :
      (t : Machine) → take_interrupt pending ≡ t → handler k m (sigalrm true) ≡ ok (finished t)
  handler-finished t e =
      handler-left
      ∙ ap (λ t. ok (call (clear_vm t) (s_munmap k.conf_address conf_size))) e
      ∙ ap (λ t. ok (call t (s_munmap k.conf_address conf_size))) (clear_vm_lem t)

  abbrev taken : Machine
  taken = enter_trap (call pending (log "timer interrupt taken")) scause_timer 0

  taken-IsTimerTrap : IsValid m → IsTimerTrap m (finished taken)
  unfolding enter_trap
  taken-IsTimerTrap h = record {
    mode = refl;
    cause = refl;
    epc = refl;
    pc =
        trap_target-stvec _ m.priv (2 ^ 63 + 5) refl
        ∙ trap_target_lem m.priv (2 ^ 63 + 5) h.state (omega arith)
        ∙ ground arith;
    registers = λ i nonzero. ground arith;
    memory = refl;
    ram = refl;
  }

  -- In a valid machine the handler of a timer signal returns with the interrupt pending. If the guest
  -- has it enabled, it is taken, from wherever the guest was; if not, the guest goes on undisturbed.
  pub handler-delivers :
      IsValid m
      → (n : Machine) × (handler k m (sigalrm true) ≡ ok n)
        × (get_six_sti n.priv.sip ≡ 1)
        × (((is_enabled m ≡ true) × IsTimerTrap m n) ⊎ ((is_enabled m ≡ false) × IsUndisturbed m n))
  handler-delivers h = elim (Bool-cases (is_enabled m)) [
    | inl e ↦ (
      finished taken,
      handler-finished taken (unfold take_interrupt in rw (due-is_enabled, e) refl),
      (unfold enter_trap in is_pending),
      inl (e, taken-IsTimerTrap h),
    )
    | inr e ↦ (
      finished pending,
      handler-finished pending (unfold take_interrupt in rw (due-is_enabled, e) refl),
      is_pending,
      inr (
        e,
        record {
          mode = refl;
          status = refl;
          epc = refl;
          registers = refl;
          memory = refl;
          ram = refl;
        },
      ),
    )
  ]
