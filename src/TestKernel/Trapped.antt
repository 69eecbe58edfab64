-- ===== src/TestKernel/Trapped.antt =====
-- The call of a user program, which is a trap into its kernel.
use urvirt.Common.{
  Bool-cases, inl, inr, ==→eq, ℕ, ◌%◌, ◌^◌, ◌<◌, ◌≡◌, refl, ap₂, ◌∙◌, ◌==◌, arith, List,
}
use mathlib.Core.Path.{subst, fun_ext}
use urvirt.Outcome.{ok}
use urvirt.Kernel.{Kernel}
use urvirt.Bits.{bit_and_mask, clear_low2}
use urvirt.Priv.{PrivState}
use urvirt.Machine.{Machine, call, set_reg, update, advance, s_mmap}
use urvirt.Trap.{trap_target, trap_sstatus, enter_trap}
use urvirt.Trap.Laws.{trap_target-stvec}
use urvirt.Handler.{handler, handler_wrapper, dispatch}
use urvirt.Handler.Interrupts.{calling, handle_sigsys-calling}
use urvirt.Handler.Instructions.{finished}
use urvirt.TestKernel.Asm.{ecall, Hardware, execute}
use urvirt.TestKernel.Hart.{Hart, written, seen}
use urvirt.TestKernel.Served.{written-print_counters, seen-finished}

-- The trap that a call in user mode is.
abbrev pub trapped : Hart → Hart
trapped h = record h {
  regs = update h.regs 0 h.others.stvec;
  mode = 16;
  status = trap_sstatus 0 h.status;
  epc = h.regs 0;
  others = record h.others { scause = 8; stval = 0 };
}

-- A vector that is a multiple of 4 is where the trap goes.
trap_target_direct :
    (p : PrivState) → p.stvec % 4 ≡ 0 → p.stvec < 2 ^ 64 → trap_target p 8 ≡ p.stvec
unfolding trap_target
trap_target_direct p aligned word =
    ground (arith, aligned, bit_and_mask 2 p.stvec, clear_low2 p.stvec word)

module _ (k : Kernel) (w : Hardware) (m : Machine) (quiet : m.priv.sip ≡ 0)
    (user : m.priv.priv_mode ≡ 0) (aligned : m.priv.stvec % 4 ≡ 0) (vector : m.priv.stvec < 2 ^ 64)
    (pc : m.regs 0 < 2 ^ 64) where
  abbrev entering : Machine
  entering = call (advance (set_reg m 17 (w.a7_after m)) 4) (s_mmap 0 4096 3 1 64 0)

  abbrev entered : Machine
  entered = enter_trap (calling k entering (m.regs 17)) 8 0

  -- What is seen of the trap, from the parts that the handler computes.
  abbrev built : (regs : ℕ → ℕ) (mode epc : ℕ) (output : List ℕ) → Hart
  built regs mode epc output = record (trapped (seen m)) {
    regs = regs;
    status = trap_sstatus mode m.priv.sstatus;
    epc = epc;
    output = output;
  }

  view : seen entered ≡ trapped (seen m)
  view =
      as_built
      ∙ ap₂ (λ regs mode. built regs mode entered.priv.sepc (written entered.calls))
          (fun_ext same_regs) user
      ∙ ap₂ (built (trapped (seen m)).regs 0) back same_output
    where
      as_built :
          seen entered
          ≡ built entered.regs m.priv.priv_mode entered.priv.sepc (written entered.calls)
      as_built = unfold enter_trap in refl

      same_output : written entered.calls ≡ written m.calls
      same_output = unfold enter_trap in written-print_counters (set_reg entering 17 (m.regs 17))

      back : entered.priv.sepc ≡ m.regs 0
      back = unfold enter_trap in omega (arith, pc)

      target : entered.regs 0 ≡ m.priv.stvec
      target =
          unfold enter_trap in
          trap_target-stvec _ m.priv 8 refl ∙ trap_target_direct m.priv aligned vector

      same_regs : (i : ℕ) → entered.regs i ≡ (trapped (seen m)).regs i
      same_regs i = elim (Bool-cases (0 == i)) [
        | inl e ↦ subst (λ i. entered.regs i ≡ (trapped (seen m)).regs i) (==→eq 0 i e) target
        | inr n0 ↦ elim (Bool-cases (17 == i)) [
          | inl e ↦
              subst (λ i. entered.regs i ≡ (trapped (seen m)).regs i) (==→eq 17 i e)
                (unfold enter_trap in refl)
          | inr n17 ↦ unfold enter_trap in rw (n0, n17) refl
        ]
      ]

  pub ecall-trapped : (t : Machine) × (execute k w ecall m ≡ ok t) × (seen t ≡ trapped (seen m))
  unfolding execute handler_wrapper handler dispatch
  ecall-trapped = (
    finished k entered,
    rw (handle_sigsys-calling k entering (m.regs 17) user) refl,
    seen-finished k entered (unfold enter_trap in quiet) ∙ view,
  )
