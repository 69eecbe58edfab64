-- ===== src/Handler/Contained/Branches.antt =====
-- The branches of the handler and the guest's address space.
use urvirt.Common.{
  ℕ, ◌+◌, ◌^◌, ◌<◌, ◌≡◌, refl, ap, ◌∙◌, Bool, true, false, not, ◌&&◌, ◌==◌, if◌then◌else◌, u64,
  ◌&&&◌, ==→eq,
}
use urvirt.Memory.{byte, load16, load32}
use urvirt.Outcome.{Ensures, Ensures-if, Ensures->>=}
use urvirt.Kernel.{Kernel}
use urvirt.Priv.WellFormed.{IsSatp}
use urvirt.RiscvBits.{rvc_looks_like_load, rvc_looks_like_store}
use urvirt.Machine.{Machine, log, set_reg}
use urvirt.PrivInstr.Contained.{handle_priv_instr-IsContained}
use urvirt.Sbi.{handle_legacy_sbi_call}
use urvirt.Sbi.Contained.{handle_legacy_sbi_call-IsContained}
use urvirt.PageFault.Contained.{handle_page_fault-IsContained}
use urvirt.Handler.{
  Signal, sigsys, sigill, sigalrm, sigsegv, print_counters, handle_sigsys, handle_sigill,
  handle_sigalrm, fault_cause, handle_sigsegv, dispatch, timer_due, take_interrupt,
}
use urvirt.Handler.Invariant.{IsWord}
use urvirt.Contained.{
  IsContained, other, call-IsContained, guest-IsContained, enter_trap-IsContained, if-IsContained,
}

module _ (k : Kernel) (m : Machine) where
  abbrev pub Contained : Machine → Type 0
  Contained = IsContained k m

  -- The counters are not looked at.
  counted-IsContained :
      (n : Machine) (ill segv uecall secall : ℕ)
      → Contained n
      → Contained (record n {
        priv = record n.priv {
          counter_ill = ill;
          counter_segv = segv;
          counter_uecall = uecall;
          counter_secall = secall;
        };
      })
  counted-IsContained n ill segv uecall secall h = record {
    log = h.log;
    state = record { stub = h.state.stub; space = h.state.space };
  }

  print_counters-IsContained : (n : Machine) → Contained n → Contained (print_counters n)
  unfolding print_counters
  print_counters-IsContained n h =
      if-IsContained k m (n.regs 10 == 0xdeadbeefdeadbeef) _ _
        (call-IsContained k m n _ (other _ refl) h) h

  handle_sigsys-IsContained :
      (n : Machine) (which : ℕ) → Contained n → Ensures Contained (handle_sigsys k n which)
  unfolding handle_sigsys
  handle_sigsys-IsContained n which h =
      Ensures-if Contained (n'.priv.priv_mode == 16) _ _
        (λ _.
          Ensures->>= (λ (r : ℕ × Machine). Contained r.1) Contained
            (handle_legacy_sbi_call k _ which (n'.regs 10) (n'.regs 11) (n'.regs 12)) _
            (handle_legacy_sbi_call-IsContained k m _ which (n'.regs 10) (n'.regs 11) (n'.regs 12)
              (counted-IsContained n' _ _ _ _ h'))
            (λ r v. guest-IsContained k m r.1 _ _ _ v))
        (λ _.
          enter_trap-IsContained k m _ 8 0
            (guest-IsContained k m _ _ _ _ (counted-IsContained n' _ _ _ _ h')))
    where
      n' : Machine
      n' = print_counters (set_reg n 17 which)

      h' : Contained n'
      h' = print_counters-IsContained _ (guest-IsContained k m n _ _ _ h)

  handle_sigill-IsContained : (n : Machine) → Contained n → Ensures Contained (handle_sigill n)
  unfolding handle_sigill
  handle_sigill-IsContained n h =
      Ensures-if Contained (n.priv.priv_mode == 16) _ _
        (λ supervisor.
          Ensures-if Contained
            (byte n.memory (n.regs 0) &&& 3 == 3 && not (byte n.memory (n.regs 0) &&& 31 == 31)) _ _
            (λ _.
              handle_priv_instr-IsContained k m counted (load32 n.memory (n.regs 0))
                (==→eq n.priv.priv_mode 16 supervisor) h')
            (λ _. tt))
        (λ _. enter_trap-IsContained k m counted 2 0 h')
    where
      counted : Machine
      counted = record n { priv = record n.priv { counter_ill = u64 (n.priv.counter_ill + 1) } }

      h' : Contained counted
      h' = counted-IsContained n _ _ _ _ h

  handle_sigalrm-IsContained : (n : Machine) → Contained n → Ensures Contained (handle_sigalrm n)
  unfolding handle_sigalrm
  handle_sigalrm-IsContained n h =
      call-IsContained k m _ _ (other _ refl)
        (record { log = h.log; state = record { stub = h.state.stub; space = h.state.space } })

  -- To find the cause of a fault leaves the guest's page table as it was.
  abbrev Judged : Machine → ℕ × Machine → Type 0
  Judged n r = Contained r.1 × (r.1.priv ≡ n.priv) × (r.1.ram ≡ n.ram)

  if-Judged :
      (n : Machine) (b : Bool) (r s : ℕ × Machine)
      → Judged n r
      → Judged n s
      → Judged n (if b then r else s)
  if-Judged n true r s h g = h
  if-Judged n false r s h g = g

  fault_cause-Judged : (n : Machine) (si_addr : ℕ) → Contained n → Judged n (fault_cause n si_addr)
  unfolding fault_cause
  fault_cause-Judged n si_addr h = if-Judged n (si_addr == n.regs 0) _ _ silent (
      if-Judged n (not (byte n.memory (n.regs 0) &&& 3 == 3)) _ _
        (if-Judged n (rvc_looks_like_load instr) _ _ silent (
          if-Judged n (rvc_looks_like_store instr) _ _ silent
            (call-IsContained k m n _ (other _ refl) h, refl, refl)))
        (if-Judged n (opcode == 3) _ _ silent (
          if-Judged n (opcode == 35) _ _ silent (
            if-Judged n (opcode == 47) _ _ silent
              (call-IsContained k m n _ (other _ refl) h, refl, refl)))))
    where
      silent : Contained n × (n.priv ≡ n.priv) × (n.ram ≡ n.ram)
      silent = (h, refl, refl)

      instr : ℕ
      instr = load16 n.memory (n.regs 0)

      opcode : ℕ
      opcode = byte n.memory (n.regs 0) &&& 127

  handle_sigsegv-IsContained :
      (n : Machine) (si_addr : ℕ)
      → IsSatp m.priv.satp
      → si_addr < 2 ^ 64
      → n.priv.satp ≡ m.priv.satp
      → n.ram ≡ m.ram
      → Contained n
      → Ensures Contained (handle_sigsegv k n si_addr)
  unfolding handle_sigsegv
  handle_sigsegv-IsContained n si_addr satp word same_root same_ram h =
      handle_page_fault-IsContained k m _ _ si_addr satp word
        (ap (λ q. q.satp) judged.1 ∙ same_root) (judged.2 ∙ same_ram) judged.0
    where
      counted : Machine
      counted = record n { priv = record n.priv { counter_segv = u64 (n.priv.counter_segv + 1) } }

      judged : Judged counted (fault_cause counted si_addr)
      judged = fault_cause-Judged counted si_addr (counted-IsContained n _ _ _ _ h)

  pub dispatch-IsContained :
      (n : Machine) (sig : Signal)
      → IsSatp m.priv.satp
      → IsWord sig
      → n.priv.satp ≡ m.priv.satp
      → n.ram ≡ m.ram
      → Contained n
      → Ensures Contained (dispatch k n sig)
  unfolding dispatch
  dispatch-IsContained n (sigsys which) satp word root ram h = handle_sigsys-IsContained n which h
  dispatch-IsContained n sigill satp word root ram h = handle_sigill-IsContained n h
  dispatch-IsContained n (sigalrm true) satp word root ram h = handle_sigalrm-IsContained n h
  dispatch-IsContained n (sigalrm false) satp word root ram h = tt
  dispatch-IsContained n (sigsegv si_addr) satp word root ram h =
      handle_sigsegv-IsContained n si_addr satp word root ram h

  pub take_interrupt-IsContained : (n : Machine) → Contained n → Contained (take_interrupt n)
  unfolding take_interrupt
  take_interrupt-IsContained n h =
      if-IsContained k m (timer_due n) _ _
        (enter_trap-IsContained k m _ (2 ^ 63 + 5) 0
          (call-IsContained k m n (log _) (other _ refl) h))
        h
