-- ===== src/Handler.antt =====
-- src/urvirt-stub/urvirt-stub.c, handler and handler_wrapper: the signal handler, which is all that runs of the stub once
-- the guest has started.
pub mod Invariant
pub mod Interrupts
pub mod Cause
pub mod Delivery
pub mod Exceptions
pub mod Runs
pub mod Coherence
pub mod Instructions
pub mod Examples
pub mod Contained
use urvirt.Common.{
  ℕ, ◌+◌, ◌-◌, ◌*◌, ◌^◌, ◌<◌, Bool, true, false, not, ◌&&◌, ◌||◌, ltb, leb, ◌==◌, if◌then◌else◌,
  List, [], ◌∷◌, u64, sub64, ◌&&&◌, ◌|||◌, truthy,
}
use urvirt.Outcome.{Result, ok, stop, ebreak, ◌>>=◌}
use urvirt.Kernel.{Kernel}
use urvirt.Memory.{config_fd, conf_size, byte, load16, load32}
use urvirt.Machine.{Machine, set_reg, call, log, print, s_mmap, s_munmap, s_rt_sigreturn}
use urvirt.RiscvBits.{
  priv_s, scause_uecall, scause_illegal, scause_instr_pf, scause_load_pf, scause_store_pf,
  scause_timer, opcode_load, opcode_store, opcode_amo, get_six_sti, set_six_sti, get_sstatus_sie,
  rvc_looks_like_load, rvc_looks_like_store,
}
use urvirt.Trap.{enter_trap}
use urvirt.PrivInstr.{handle_priv_instr}
use urvirt.Sbi.{handle_legacy_sbi_call}
use urvirt.PageFault.{handle_page_fault, prot_read, prot_write, map_shared}

-- The signals that have a handler, with what is read of `siginfo_t`: `si_syscall`, whether `si_code`
-- is `SI_TIMER`, `si_addr`.
pub data Signal : Type 0 where
  sigsys : (si_syscall : ℕ) → Signal
  sigill : Signal
  sigalrm : (is_timer : Bool) → Signal
  sigsegv : (si_addr : ℕ) → Signal

-- The `magic ecall` prints the counters.
unfoldable pub print_counters : Machine → Machine
print_counters m =
    if m.regs 10 == 0xdeadbeefdeadbeef
    then call m (
        print "counters" (
          m.priv.counter_ill ∷ m.priv.counter_segv ∷ m.priv.counter_sret ∷ m.priv.counter_uecall
          ∷ m.priv.counter_secall ∷ []))
    else m

unfoldable pub handle_sigsys : Kernel → Machine → ℕ → Result Machine
handle_sigsys k m which =
    let m' = print_counters (set_reg m 17 which) in
    if m'.priv.priv_mode == priv_s
    then (let counted = record m' {
      priv = record m'.priv { counter_secall = u64 (m'.priv.counter_secall + 1) };
    } in
        do
          (ret, m'') ← handle_legacy_sbi_call k counted which (m'.regs 10) (m'.regs 11) (m'.regs 12)
          ok (set_reg m'' 10 ret))
    else let counted = record m' {
      priv = record m'.priv { counter_uecall = u64 (m'.priv.counter_uecall + 1) };
    } in
      ok (enter_trap (set_reg counted 0 (sub64 (m'.regs 0) 4)) scause_uecall 0)

unfoldable pub handle_sigill : Machine → Result Machine
handle_sigill m =
    let counted = record m {
      priv = record m.priv { counter_ill = u64 (m.priv.counter_ill + 1) };
    } in
    if m.priv.priv_mode == priv_s
    then (let pc = m.regs 0 in
        let first = byte m.memory pc in
        if first &&& 0b11 == 0b11 && not (first &&& 0b11111 == 0b11111)
        then handle_priv_instr counted (load32 m.memory pc)
        else stop (ebreak "Can't handle in SIGILL"))
    else ok (enter_trap counted scause_illegal 0)

pub handle_sigalrm : Machine → Result Machine
handle_sigalrm m =
    let pending = record m { priv = record m.priv { sip = set_six_sti m.priv.sip 1 } } in
    ok (
      call pending
        (log (if m.priv.priv_mode == priv_s then "timer in s mode" else "timer in u mode")))

-- The cause of a fault at `si_addr`, from the instruction at the pc, and what is logged.
unfoldable pub fault_cause : Machine → ℕ → ℕ × Machine
fault_cause m si_addr =
    let pc = m.regs 0 in
    if si_addr == pc
    then (scause_instr_pf, m)
    else if not (byte m.memory pc &&& 0b11 == 0b11)
    then (let instr = load16 m.memory pc in
        if rvc_looks_like_load instr
        then (scause_load_pf, m)
        else if rvc_looks_like_store instr
        then (scause_store_pf, m)
        else (
          scause_instr_pf,
          call m (log "weird 16-bit instruction page fault, assuming instr page fault"),
        ))
    else let opcode = byte m.memory pc &&& 0b1111111 in
      if opcode == opcode_load
      then (scause_load_pf, m)
      else if opcode == opcode_store
      then (scause_store_pf, m)
      else if opcode == opcode_amo
      then (scause_store_pf, m)
      else (
        scause_instr_pf,
        call m (log "weird 32-bit instruction page fault, assuming instr page fault"),
      )

unfoldable pub handle_sigsegv : Kernel → Machine → ℕ → Result Machine
handle_sigsegv k m si_addr =
    let counted = record m {
      priv = record m.priv { counter_segv = u64 (m.priv.counter_segv + 1) };
    } in
    let (scause, m') = fault_cause counted si_addr in handle_page_fault k m' scause si_addr

unfoldable pub dispatch : Kernel → Machine → Signal → Result Machine
dispatch k m (sigsys which) = handle_sigsys k m which
dispatch k m sigill = handle_sigill m
dispatch k m (sigalrm true) = handle_sigalrm m
dispatch k m (sigalrm false) = stop (ebreak "Don't know how to handle")
dispatch k m (sigsegv si_addr) = handle_sigsegv k m si_addr

-- An interrupt is taken if the timer is pending and enabled, and interrupts are enabled or the mode
-- is below S.
unfoldable pub timer_due : Machine → Bool
timer_due m =
    truthy (get_six_sti m.priv.sip)
    && truthy (get_six_sti m.priv.sie)
    && (truthy (get_sstatus_sie m.priv.sstatus) || ltb m.priv.priv_mode priv_s)

unfoldable pub take_interrupt : Machine → Machine
take_interrupt m =
    if timer_due m then enter_trap (call m (log "timer interrupt taken")) scause_timer 0 else m

-- Unmaps all of the address space below 2 ^ 38 but the stub.
unfoldable pub clear_vm : Machine → Machine
clear_vm m =
    if m.priv.should_clear_vm
    then (let safe_begin = m.priv.stub_start in
        let safe_end = u64 (m.priv.stub_start + m.priv.stub_size) in
        let cleared = record m { priv = record m.priv { should_clear_vm = false } } in
        call (call cleared (s_munmap 0 safe_begin)) (s_munmap safe_end (sub64 (2 ^ 38) safe_end)))
    else m

-- The shared page with the privileged state is mapped on entry and unmapped at the end.
unfoldable pub handler : Kernel → Machine → Signal → Result Machine
handler k m sig =
    let mapped = call m (s_mmap 0 conf_size (prot_read ||| prot_write) map_shared config_fd 0) in
    do
      m' ← dispatch k mapped sig
      ok (call (clear_vm (take_interrupt m')) (s_munmap k.conf_address conf_size))

-- handler_wrapper: the handler, and then rt_sigreturn(2), which resumes the interrupted context.
unfoldable pub handler_wrapper : Kernel → Machine → Signal → Result Machine
handler_wrapper k m sig = do m' ← handler k m sig; ok (call m' s_rt_sigreturn)
