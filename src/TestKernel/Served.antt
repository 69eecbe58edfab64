-- ===== src/TestKernel/Served.antt =====
-- What the guest does not see of the handler.
use urvirt.Common.{◌≡◌, refl, ap, ◌∙◌, ◌==◌, Bool-cases, inl, inr}
use urvirt.Kernel.{Kernel}
use urvirt.Machine.{Machine}
use urvirt.Handler.{print_counters, clear_vm}
use urvirt.Handler.Instructions.{finished}
use urvirt.TestKernel.Signals.{finished-quiet, take_interrupt-quiet}
use urvirt.TestKernel.Hart.{written, seen}

-- The end of a handler is not seen, if no interrupt is pending.
written-finished :
    (k : Kernel) (t : Machine) → t.priv.sip ≡ 0 → written (finished k t).calls ≡ written t.calls
unfolding clear_vm
written-finished k t quiet =
    ap (λ t. written (clear_vm t).calls) (take_interrupt-quiet t quiet)
    ∙ elim (Bool-cases t.priv.should_clear_vm) [ inl e ↦ rw e refl | inr e ↦ rw e refl ]

-- Nor are the counters.
pub written-print_counters : (n : Machine) → written (print_counters n).calls ≡ written n.calls
unfolding print_counters
written-print_counters n = elim (Bool-cases (n.regs 10 == 0xdeadbeefdeadbeef)) [
  | inl e ↦ rw e refl
  | inr e ↦ rw e refl
]

pub seen-finished : (k : Kernel) (t : Machine) → t.priv.sip ≡ 0 → seen (finished k t) ≡ seen t
seen-finished k t quiet =
    ap seen (finished-quiet k t quiet)
    ∙ ap (λ o. record (seen t) { output = o }) (written-finished k t quiet)
