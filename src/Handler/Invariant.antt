-- ===== src/Handler/Invariant.antt =====
-- The branches of the signal handler and the validity of the machine.
use urvirt.Common.{
  ℕ, ◌+◌, ◌^◌, ◌<◌, ◌≡◌, Bool, true, false, not, ◌&&◌, ◌==◌, if◌then◌else◌, arith, u64, ◌&&&◌,
}
use urvirt.Memory.{byte, load16, load32}
use urvirt.Outcome.{ok, Ensures, Ensures-if, Ensures->>=, Ensures-ok, Ensures-of_ok}
use urvirt.Kernel.{Kernel}
use urvirt.Machine.{Machine, IsValid, set_reg, call-IsValid, set_reg-IsValid, if-IsValid}
use urvirt.RiscvBits.{rvc_looks_like_load, rvc_looks_like_store}
use urvirt.Trap.Invariant.{enter_trap-IsValid}
use urvirt.PrivInstr.{handle_priv_instr}
use urvirt.PrivInstr.Invariant.{handle_priv_instr-IsValid}
use urvirt.Sbi.{handle_legacy_sbi_call}
use urvirt.Sbi.Laws.{IsReply, handle_legacy_sbi_call-IsReply, sip-IsValid, timer_bit-IsTimerOnly}
use urvirt.PageFault.Invariant.{handle_page_fault-IsValid}
use urvirt.Handler.{
  Signal, sigsys, sigill, sigalrm, sigsegv, print_counters, handle_sigsys, handle_sigill,
  handle_sigalrm, fault_cause, handle_sigsegv, dispatch, timer_due, take_interrupt, clear_vm,
  handler,
}

-- What `siginfo_t` carries is a word.
abbrev pub IsWord : Signal → Type 0
IsWord (sigsys which) = which < 2 ^ 64
IsWord sigill = Unit
IsWord (sigalrm is_timer) = Unit
IsWord (sigsegv si_addr) = si_addr < 2 ^ 64

-- The counters are not part of what is valid.
counted-IsValid :
    (m : Machine) (ill segv uecall secall : ℕ)
    → IsValid m
    → IsValid (record m {
      priv = record m.priv {
        counter_ill = ill;
        counter_segv = segv;
        counter_uecall = uecall;
        counter_secall = secall;
      };
    })
counted-IsValid m ill segv uecall secall h = record { state = assumption h.state; words = h.words }

print_counters-IsValid : (m : Machine) → IsValid m → IsValid (print_counters m)
unfolding print_counters
print_counters-IsValid m h = if-IsValid (m.regs 10 == 0xdeadbeefdeadbeef) _ _ (call-IsValid m _ h) h

handle_sigsys-IsValid :
    (k : Kernel) (m : Machine) (which : ℕ)
    → IsValid m
    → which < 2 ^ 64
    → Ensures IsValid (handle_sigsys k m which)
unfolding handle_sigsys
handle_sigsys-IsValid k m which h word =
    Ensures-if IsValid (m'.priv.priv_mode == 16) _ _
      (λ _.
        Ensures->>= IsReply IsValid
          (handle_legacy_sbi_call k _ which (m'.regs 10) (m'.regs 11) (m'.regs 12)) _
          (handle_legacy_sbi_call-IsReply k _ which (m'.regs 10) (m'.regs 11) (m'.regs 12)
            (counted-IsValid m' _ _ _ _ h'))
          (λ r v. set_reg-IsValid r.1 10 r.0 v.1 v.0))
      (λ _.
        enter_trap-IsValid _ 8 0
          (set_reg-IsValid _ 0 _ (counted-IsValid m' _ _ _ _ h') (omega arith)) (omega arith)
          (omega arith))
  where
    m' : Machine
    m' = print_counters (set_reg m 17 which)

    h' : IsValid m'
    h' = print_counters-IsValid _ (set_reg-IsValid m 17 which h word)

handle_sigill-IsValid : (m : Machine) → IsValid m → Ensures IsValid (handle_sigill m)
unfolding handle_sigill
handle_sigill-IsValid m h =
    Ensures-if IsValid (m.priv.priv_mode == 16) _ _
      (λ _.
        Ensures-if IsValid
          (byte m.memory (m.regs 0) &&& 3 == 3 && not (byte m.memory (m.regs 0) &&& 31 == 31)) _ _
          (λ _.
            Ensures-of_ok IsValid (handle_priv_instr counted (load32 m.memory (m.regs 0)))
              (λ n e. handle_priv_instr-IsValid counted (load32 m.memory (m.regs 0)) h' e))
          (λ _. tt))
      (λ _. enter_trap-IsValid counted 2 0 h' (omega arith) (omega arith))
  where
    counted : Machine
    counted = record m { priv = record m.priv { counter_ill = u64 (m.priv.counter_ill + 1) } }

    h' : IsValid counted
    h' = counted-IsValid m _ _ _ _ h

-- A fault's cause is a word, and the machine it was found on is valid.
abbrev IsCaused : ℕ × Machine → Type 0
IsCaused r = (r.0 < 2 ^ 64) × IsValid r.1

if-IsCaused :
    (b : Bool) (r s : ℕ × Machine) → IsCaused r → IsCaused s → IsCaused (if b then r else s)
if-IsCaused true r s h g = h
if-IsCaused false r s h g = g

fault_cause-IsValid : (m : Machine) (si_addr : ℕ) → IsValid m → IsCaused (fault_cause m si_addr)
unfolding fault_cause
fault_cause-IsValid m si_addr h =
    if-IsCaused (si_addr == m.regs 0) _ _ (omega arith, h)
      (if-IsCaused (not (byte m.memory (m.regs 0) &&& 3 == 3)) _ _
        (if-IsCaused (rvc_looks_like_load instr) _ _ (omega arith, h)
          (if-IsCaused (rvc_looks_like_store instr) _ _ (omega arith, h)
            (omega arith, call-IsValid m _ h)))
        (if-IsCaused (opcode == 3) _ _ (omega arith, h)
          (if-IsCaused (opcode == 35) _ _ (omega arith, h)
            (if-IsCaused (opcode == 47) _ _ (omega arith, h) (omega arith, call-IsValid m _ h)))))
  where
    instr : ℕ
    instr = load16 m.memory (m.regs 0)

    opcode : ℕ
    opcode = byte m.memory (m.regs 0) &&& 127

handle_sigalrm-IsValid : (m : Machine) → IsValid m → Ensures IsValid (handle_sigalrm m)
unfolding handle_sigalrm
handle_sigalrm-IsValid m h =
    call-IsValid _ _ (sip-IsValid m _ h (timer_bit-IsTimerOnly m.priv.sip true h.state.pending))

handle_sigsegv-IsValid :
    (k : Kernel) (m : Machine) (si_addr : ℕ)
    → IsValid m
    → si_addr < 2 ^ 64
    → Ensures IsValid (handle_sigsegv k m si_addr)
unfolding handle_sigsegv
handle_sigsegv-IsValid k m si_addr h word =
    handle_page_fault-IsValid k _ _ si_addr caused.1 caused.0 word
  where
    counted : Machine
    counted = record m { priv = record m.priv { counter_segv = u64 (m.priv.counter_segv + 1) } }

    caused : IsCaused (fault_cause counted si_addr)
    caused = fault_cause-IsValid counted si_addr (counted-IsValid m _ _ _ _ h)

take_interrupt-IsValid : (m : Machine) → IsValid m → IsValid (take_interrupt m)
unfolding take_interrupt
take_interrupt-IsValid m h =
    if-IsValid (timer_due m) _ _
      (enter_trap-IsValid _ (2 ^ 63 + 5) 0 (call-IsValid m _ h) (omega arith) (omega arith)) h

clear_vm-IsValid : (m : Machine) → IsValid m → IsValid (clear_vm m)
unfolding clear_vm
clear_vm-IsValid m h =
    if-IsValid m.priv.should_clear_vm _ _ (call-IsValid _ _ (call-IsValid _ _ cleared)) h
  where
    cleared : IsValid (record m { priv = record m.priv { should_clear_vm = false } })
    cleared = record { state = assumption h.state; words = h.words }

dispatch-IsValid :
    (k : Kernel) (m : Machine) (sig : Signal)
    → IsValid m
    → IsWord sig
    → Ensures IsValid (dispatch k m sig)
unfolding dispatch
dispatch-IsValid k m (sigsys which) h word = handle_sigsys-IsValid k m which h word
dispatch-IsValid k m sigill h word = handle_sigill-IsValid m h
dispatch-IsValid k m (sigalrm true) h word = handle_sigalrm-IsValid m h
dispatch-IsValid k m (sigalrm false) h word = tt
dispatch-IsValid k m (sigsegv si_addr) h word = handle_sigsegv-IsValid k m si_addr h word

-- From a valid machine, whatever signal comes, with whatever memory and page table the guest has, a
-- handler that returns leaves a valid machine; what comes with the signal is a word.
pub handler-IsValid :
    (k : Kernel) (m : Machine) (sig : Signal) {n : Machine}
    → IsValid m
    → IsWord sig
    → handler k m sig ≡ ok n
    → IsValid n
handler-IsValid k m sig h word e = Ensures-ok IsValid (handler k m sig) returns e
  where
    returns : Ensures IsValid (handler k m sig)
    returns =
        unfold handler in
        Ensures->>= IsValid IsValid (dispatch k _ sig) _
          (dispatch-IsValid k _ sig (call-IsValid m _ h) word)
          (λ n v. call-IsValid _ _ (clear_vm-IsValid _ (take_interrupt-IsValid n v)))
