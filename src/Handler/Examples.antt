-- ===== src/Handler/Examples.antt =====
-- The theorems on the signal handler, at a guest in user mode.
use urvirt.Common.{
  ◌/◌, ◌%◌, ◌*◌, ◌^◌, [], ◌+◌, ◌||◌, ◌&&◌, not, leb, ltb, ◌∷◌, ◌≡◌, refl, ap, true, false, ◌⊎◌,
  arith,
}
use urvirt.Outcome.{Result, ok, stop, ◌>>=◌}
use urvirt.Machine.{Machine, IsValid, Syscall, call, s_rt_sigreturn}
use urvirt.Handler.{
  sigill, timer_due, sigalrm, handler, handler_wrapper, handle_sigsys, dispatch, handle_sigalrm,
  clear_vm,
}
use urvirt.Handler.Coherence.{Runs, rest, step, IsFresh, Runs-IsFresh}
use urvirt.Handler.Contained.{IsLeft, handler-IsLeft}
use urvirt.Handler.Instructions.{IsFlushed, sfence_vma-IsFlushed}
use urvirt.Handler.Invariant.{handler-IsValid}
use urvirt.Handler.Interrupts.{IsSettled, handler-IsSettled, IsUserCall, handle_sigsys-IsUserCall}
use urvirt.RiscvBits.{get_six_sti, get_field}
use urvirt.Handler.Delivery.{is_enabled, IsTimerTrap, IsUndisturbed, handler-delivers}
use urvirt.Handler.Runs.{Reachable-IsValid, start, next, guest, signal, clear_vm-unmaps, unmaps}
use urvirt.Priv.{initialize_priv}
use urvirt.Examples.Machines.{loaded, booted, booted-IsValid, linux, user, user-IsValid}

-- The number of the call is 64.
handle_sigsys-IsUserCall_example :
    (n : Machine) × (handle_sigsys linux user 64 ≡ ok n) × IsUserCall user 64 n
handle_sigsys-IsUserCall_example =
    handle_sigsys-IsUserCall linux user 64 user-IsValid refl (omega arith)

-- What a returning handler leaves.
abbrev left_by : Result Machine → Machine
left_by (ok n) = n
left_by (stop s) = booted

-- The timer fires in user mode, so that the interrupt is taken and the address space is cleared.
abbrev interrupted : Machine
interrupted = left_by (handler linux user (sigalrm true))

interrupted_lem : handler linux user (sigalrm true) ≡ ok interrupted
unfolding handler dispatch handle_sigalrm
interrupted_lem = refl

handler-IsValid_example : IsValid interrupted
handler-IsValid_example = handler-IsValid linux user (sigalrm true) user-IsValid tt interrupted_lem

handler-IsSettled_example : IsSettled interrupted
handler-IsSettled_example = handler-IsSettled linux user (sigalrm true) interrupted_lem

handler-IsLeft_example : IsLeft linux user interrupted
handler-IsLeft_example = handler-IsLeft linux user (sigalrm true) user-IsValid tt interrupted_lem

resumed_lem : handler_wrapper linux user (sigalrm true) ≡ ok (call interrupted s_rt_sigreturn)
unfolding handler_wrapper
resumed_lem = ap (λ r. do m' ← r; ok (call m' s_rt_sigreturn)) interrupted_lem

abbrev one_signal : Runs user (call interrupted s_rt_sigreturn)
one_signal = step linux rest (signal (sigalrm true) tt resumed_lem)

Runs-IsFresh_example :
    IsFresh user one_signal
      (call interrupted s_rt_sigreturn).priv
      (s_rt_sigreturn ∷ interrupted.calls)
Runs-IsFresh_example = Runs-IsFresh user (call interrupted s_rt_sigreturn) user-IsValid one_signal

-- A guest that has run an instruction from the start.
abbrev computed : Machine
computed = record booted { regs = λ i. 7; memory = λ a. 1 }

Reachable-IsValid_example : IsValid computed × IsSettled computed
Reachable-IsValid_example = Reachable-IsValid computed (
    next linux
      (start loaded booted.regs booted.memory booted.ram [] (omega arith) refl booted-IsValid.words)
      (guest (λ i. 7) (λ a. 1) booted.ram (λ i. omega arith)))

-- A machine whose address space is to be cleared.
abbrev stale : Machine
stale = record booted { priv = record booted.priv { should_clear_vm = true } }

clear_vm-unmaps_example :
    (low : Syscall) × (high : Syscall) × ((clear_vm stale).calls ≡ high ∷ low ∷ stale.calls)
    × ((unmaps low 0x40001000 || unmaps high 0x40001000)
        ≡ not (
            leb stale.priv.stub_start 0x40001000
            && ltb 0x40001000 (stale.priv.stub_start + stale.priv.stub_size)))
unfolding initialize_priv
clear_vm-unmaps_example = clear_vm-unmaps stale 0x40001000 refl (omega arith) (omega arith)

-- The timer interrupt is enabled, and the mode is U.
handler-delivers_example :
    (n : Machine) × (handler linux user (sigalrm true) ≡ ok n)
    × (get_six_sti n.priv.sip ≡ 1)
    × (((is_enabled user ≡ true) × IsTimerTrap user n)
        ⊎ ((is_enabled user ≡ false) × IsUndisturbed user n))
handler-delivers_example = handler-delivers linux user user-IsValid

-- Sv39 with the root table at the start of RAM, which does not map 0x5000; the guest is in user mode.
abbrev translating : Machine
translating = record user { priv = record user.priv { satp = 8 * 2 ^ 60 + 0x80000 } }

-- `sfence.vma` at every address that is a multiple of 4.
abbrev flushing : Machine
flushing = record booted { memory = λ a. 0x12000073 / 2 ^ (8 * (a % 4)) % 256 }

flushing-IsSettled : IsSettled flushing
unfolding timer_due get_field initialize_priv
flushing-IsSettled = (refl, refl)

sfence_vma-IsFlushed_example :
    (n : Machine) × (handler_wrapper linux flushing sigill ≡ ok n) × IsFlushed linux flushing n
unfolding initialize_priv
sfence_vma-IsFlushed_example =
    sfence_vma-IsFlushed linux flushing 0 0 refl flushing-IsSettled (omega arith) refl
