-- ===== src/TestKernel/Refinement.antt =====
-- Code that runs on the handler does what the architecture means.
use urvirt.Common.{
  if_true, ◌==◌, ℕ, ◌+◌, ◌%◌, ◌≡◌, refl, sym, ap, ap₂, ◌∙◌, false, ◌==◌, arith, List, [], ◌∷◌, u64,
  Bool-cases, inl, inr,
}
use mathlib.Core.Path.{subst, fun_ext}
use urvirt.Outcome.{Result, ok, ◌>>=◌}
use urvirt.Kernel.{Kernel}
use urvirt.RiscvBits.{sstatus_writable_mask, get_field}
use urvirt.Priv.{PrivState}
use urvirt.Machine.{Machine, call, set_reg, advance, s_mmap, s_write}
use urvirt.Csr.{read_csr, write_csr, merge_mask}
use urvirt.Trap.{sret}
use urvirt.Sbi.{handle_legacy_sbi_call}
use urvirt.PrivInstr.Spec.{csr, set, swap, return_trap, x}
use urvirt.Handler.{sigill, print_counters, handle_sigsys, dispatch, handler, handler_wrapper}
use urvirt.Handler.Interrupts.{print_counters_calls}
use urvirt.Handler.Instructions.{entered, finished, handler_wrapper-exec}
use urvirt.TestKernel.Asm.{
  CsrName, sstatus, sepc, Asm, addi, li, sd, ld, csrr, csrw, ecall, Hardware, set_rd, execute, step,
  run,
}
use urvirt.TestKernel.Served.{seen-finished, written-print_counters}
use urvirt.TestKernel.Faults.{fault_in-served, Stored, IsHosted, effect-Stored}
use urvirt.TestKernel.Hart.{Hart, written, seen, put, effect, effects, IsReady, AreReady}

-- A register that is written, and the pc.
set_rd-put :
    (m : Machine) (rd v size : ℕ) → seen (advance (set_rd m rd v) size) ≡ put (seen m) rd v size
set_rd-put m rd v size = elim (Bool-cases (rd == 0)) [ inl e ↦ rw e refl | inr e ↦ rw e refl ]

module _ (k : Kernel) (w : Hardware) (m : Machine) (quiet : m.priv.sip ≡ 0) where
  -- What a step does and what is seen of it.
  abbrev Steps : Result Machine → Hart → Type 0
  Steps r h = (n : Machine) × (r ≡ ok n) × (seen n ≡ h)

  -- An instruction that the handler emulates.
  emulated :
      (r : Result Machine) (t : Machine) (h : Hart)
      → handler_wrapper k m sigill ≡ (do t ← r; ok (finished k t))
      → r ≡ ok t
      → seen t ≡ h
      → h.others.sip ≡ 0
      → Steps (handler_wrapper k m sigill) h
  emulated r t h e same view pending = (
    finished k t,
    e ∙ rw same refl,
    seen-finished k t (ap (λ (h : Hart). h.others.sip) view ∙ pending) ∙ view,
  )

  csrr-effect :
      (rd : ℕ) (c : CsrName)
      → IsReady (csrr rd c) (seen m)
      → Steps (handler_wrapper k m sigill) (effect w (csrr rd c) (seen m))
  csrr-effect rd sstatus (mode, at, fits) =
      emulated _ (advance (set_rd (entered m) rd m.priv.sstatus) 4) _
        (handler_wrapper-exec k m (csr set false 0x100 rd 0) mode at
          (omega arith, fits, omega arith))
        (unfold read_csr in refl) (set_rd-put (entered m) rd m.priv.sstatus 4) quiet
  csrr-effect rd sepc (mode, at, fits) =
      emulated _ (advance (set_rd (entered m) rd m.priv.sepc) 4) _
        (handler_wrapper-exec k m (csr set false 0x141 rd 0) mode at
          (omega arith, fits, omega arith))
        (unfold read_csr in refl) (set_rd-put (entered m) rd m.priv.sepc 4) quiet

  abbrev with_priv : PrivState → Machine
  with_priv p = advance (record (entered m) { priv = p }) 4

  csrw-effect :
      (c : CsrName) (rs : ℕ)
      → IsReady (csrw c rs) (seen m)
      → Steps (handler_wrapper k m sigill) (effect w (csrw c rs) (seen m))
  csrw-effect sstatus rs (mode, at, fits) =
      emulated _
        (with_priv (record (entered m).priv {
          sstatus = merge_mask sstatus_writable_mask (x m rs) m.priv.sstatus;
        }))
        _
        (handler_wrapper-exec k m (csr swap false 0x100 0 rs) mode at
          (omega arith, omega arith, fits))
        (unfold write_csr in refl) refl quiet
  csrw-effect sepc rs (mode, at, fits) =
      emulated _ (with_priv (record (entered m).priv { sepc = x m rs })) _
        (handler_wrapper-exec k m (csr swap false 0x141 0 rs) mode at
          (omega arith, omega arith, fits))
        (unfold write_csr in refl) refl quiet

  sret-effect :
      IsReady Asm.sret (seen m) → Steps (handler_wrapper k m sigill) (effect w Asm.sret (seen m))
  unfolding sret
  sret-effect (mode, at) =
      emulated _ (sret (entered m)) _ (handler_wrapper-exec k m return_trap mode at tt) refl
        (elim (Bool-cases (get_field 8 1 m.priv.sstatus == 0)) [
          | inl e ↦ rw e refl
          | inr e ↦ rw e refl
        ])
        quiet

  -- A call that prints.
  abbrev ready : Machine
  ready = call (advance (set_reg m 17 (w.a7_after m)) 4) (s_mmap 0 4096 3 1 64 0)

  abbrev counted : Machine
  counted =
      let n = set_reg ready 17 (m.regs 17) in
      record n {
        priv = record m.priv { counter_secall = u64 (m.priv.counter_secall + 1) };
        calls = (print_counters n).calls;
      }

  abbrev answered : Machine
  answered = set_reg (call counted (s_write 1 (m.regs 10 % 256))) 10 0

  handle_sigsys-answered :
      m.priv.priv_mode ≡ 16 → m.regs 17 ≡ 1 → handle_sigsys k ready (m.regs 17) ≡ ok answered
  unfolding handle_sigsys handle_legacy_sbi_call
  handle_sigsys-answered mode which =
      rw (print_counters_calls (set_reg ready 17 (m.regs 17)), mode, which) refl

  ecall-effect : IsReady ecall (seen m) → Steps (execute k w ecall m) (effect w ecall (seen m))
  unfolding execute handler_wrapper handler dispatch
  ecall-effect (mode, which) = (
    finished k answered,
    rw (handle_sigsys-answered mode which) refl,
    seen-finished k answered quiet
        ∙ ap₂ (λ regs output. record (seen m) { regs = regs; output = output }) (fun_ext same_regs)
            (ap (λ o. m.regs 10 % 256 ∷ o) (written-print_counters (set_reg ready 17 (m.regs 17))))
        ∙ sym (if_true (m.regs 17 == 1) _ (ground (arith, which))),
  )
    where
      printing : Hart
      printing = put (record (seen m) { output = m.regs 10 % 256 ∷ written m.calls }) 10 0 4

      same_regs : (i : ℕ) → answered.regs i ≡ printing.regs i
      same_regs i = ground (arith, kept i)
        where
          kept : (i : ℕ) → 17 ≡ i → m.regs 17 ≡ m.regs i
          kept i e = ap m.regs e

  execute-effect : (i : Asm) → IsReady i (seen m) → Steps (execute k w i m) (effect w i (seen m))
  unfolding execute
  execute-effect (addi rd rs imm) is_ready = (_, refl, set_rd-put m rd _ _)
  execute-effect (li rd imm) is_ready = (_, refl, set_rd-put m rd _ _)
  execute-effect (sd rs2 offset rs1) is_ready = (_, refl, refl)
  execute-effect (ld rd offset rs1) is_ready = (_, refl, set_rd-put m rd _ _)
  execute-effect (csrr rd c) is_ready = csrr-effect rd c is_ready
  execute-effect (csrw c rs) is_ready = csrw-effect c rs is_ready
  execute-effect ecall is_ready = ecall-effect is_ready
  execute-effect Asm.sret is_ready = sret-effect is_ready

-- No instruction makes an interrupt pending.
effect-others : (w : Hardware) (i : Asm) (h : Hart) → (effect w i h).others ≡ h.others
effect-others w (addi rd rs imm) h = refl
effect-others w (li rd imm) h = refl
effect-others w (sd rs2 offset rs1) h = refl
effect-others w (ld rd offset rs1) h = refl
effect-others w (csrr rd c) h = refl
effect-others w (csrw sstatus rs) h = refl
effect-others w (csrw sepc rs) h = refl
effect-others w ecall h = elim (Bool-cases (h.regs 17 == 1)) [
  | inl e ↦ rw e refl
  | inr e ↦ rw e refl
]
effect-others w Asm.sret h = refl

module _ (k : Kernel) (w : Hardware) (satp : ℕ) (before : ℕ → ℕ)
    (hosted : IsHosted k w satp before) where
  step-effect :
      (i : Asm) (m : Machine)
      → m.priv.sip ≡ 0
      → m.priv.satp ≡ satp
      → Stored w before m.ram
      → IsReady i (seen m)
      → (n : Machine) × (step k w i m ≡ ok n) × (seen n ≡ effect w i (seen m))
  unfolding step
  step-effect i m quiet root stored is_ready =
      let (t, served, same) =
        fault_in-served k satp (w.faults i m) m quiet root (hosted.steps i m root stored) in
      let (n, executed, view) =
        execute-effect k w t (ap (λ (h : Hart). h.others.sip) same ∙ quiet) i
          (subst (IsReady i) (sym same) is_ready) in
      (n, ap (λ r. do n ← r; execute k w i n) served ∙ executed, view ∙ ap (effect w i) same)

  pub run-hosted :
      (code : List Asm) (m : Machine)
      → m.priv.sip ≡ 0
      → m.priv.satp ≡ satp
      → Stored w before m.ram
      → AreReady w code (seen m)
      → (n : Machine) × (run k w code m ≡ ok n) × (seen n ≡ effects w code (seen m))
  unfolding run
  run-hosted [] m quiet root stored are_ready = (m, refl, refl)
  run-hosted (i ∷ code) m quiet root stored are_ready =
      let (t, stepped, view) = step-effect i m quiet root stored are_ready.0 in
      let others : (seen t).others ≡ (seen m).others =
        ap (λ (h : Hart). h.others) view ∙ effect-others w i (seen m) in
      let (n, rest, end) =
        run-hosted code t (ap (λ (p : PrivState). p.sip) others ∙ quiet)
          (ap (λ (p : PrivState). p.satp) others ∙ root)
          (subst (λ (h : Hart). Stored w before h.ram) (sym view)
            (effect-Stored w before i (seen m) stored))
          (subst (AreReady w code) (sym view) are_ready.1) in
      (n, ap (λ r. do n ← r; run k w code n) stepped ∙ rest, end ∙ ap (effects w code) view)
