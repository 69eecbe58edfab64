-- ===== src/Handler/Exceptions.antt =====
-- The exceptions of the guest, from the signal to the guest's vector.
pub mod Spec
pub mod Branches
use urvirt.Common.{ℕ, ◌≡◌, refl, ap, ◌∙◌, some}
use urvirt.Outcome.{ok, stop, ebreak, ◌>>=◌}
use urvirt.Kernel.{Kernel}
use urvirt.RiscvBits.{get_satp_mode}
use urvirt.Machine.{Machine, call, s_munmap}
use urvirt.PageTable.{lookup_pa_in_ram}
use urvirt.PageFault.{lookup_pa, handle_page_fault}
use urvirt.Handler.{sigsegv, handle_sigsegv, dispatch, take_interrupt, clear_vm, handler}
use urvirt.Handler.Exceptions.Branches.{fault_cause_calls, mapped}

-- With translation off, whatever page is missing, the handler stops: it maps pages by the guest's
-- page table alone.
pub handler-bare :
    (k : Kernel) (m : Machine) (a : ℕ)
    → get_satp_mode m.priv.satp ≡ 0
    → handler k m (sigsegv a) ≡ stop (ebreak "someone turned off translation")
unfolding handler
handler-bare k m a off =
    ap (λ r. do m' ← r; ok (call (clear_vm (take_interrupt m')) (s_munmap k.conf_address 4096)))
      stops
  where
    bare : lookup_pa_in_ram m.priv.satp m.ram a ≡ ok (some (a, 0))
    bare = unfold lookup_pa_in_ram in rw off refl

    stops : dispatch k (mapped m) (sigsegv a) ≡ stop (ebreak "someone turned off translation")
    stops =
        unfold dispatch handle_sigsegv handle_page_fault lookup_pa in
        ap (λ r. handle_page_fault k r.1 r.0 a) (fault_cause_calls (mapped m) _ _ a) ∙ rw bare refl
