-- ===== src/TestKernel/Faults.antt =====
-- Page faults that the page table serves, which the guest does not see.
use urvirt.Common.{
  ◌==◌, Bool-cases, inl, inr, ℕ, ◌+◌, ◌-◌, ◌*◌, ◌/◌, ◌^◌, ◌≤◌, ◌<◌, ◌≡◌, ◌⊎◌, refl, ap, ◌∙◌, sym,
  true, false, leb, arith, List, [], ◌∷◌, u64, bit_or,
}
use mathlib.Core.Path.{subst}
use urvirt.Outcome.{ok, ◌>>=◌}
use urvirt.Bits.{bit}
use urvirt.Kernel.{Kernel}
use urvirt.Memory.{ram_start, ram_fd}
use urvirt.RiscvBits.{get_satp_mode}
use urvirt.PageTable.Spec.{InRam, page_of, Reaches}
use urvirt.PageFault.{handle_page_fault, map_shared, map_fixed_noreplace}
use urvirt.PageFault.Mapping.{permits, looked, served, handle_page_fault-served}
use urvirt.Machine.{Machine, call, s_mmap}
use urvirt.Handler.{sigsegv, fault_cause, handle_sigsegv, dispatch, handler, handler_wrapper}
use urvirt.Handler.Exceptions.Branches.{fault_cause_calls}
use urvirt.Handler.Instructions.{finished}
use urvirt.TestKernel.Asm.{
  sstatus, sepc, Asm, addi, li, sd, ld, csrr, csrw, ecall, Hardware, fault_in,
}
use urvirt.TestKernel.Hart.{Hart, written, seen, effect, effects}
use urvirt.TestKernel.Served.{seen-finished}

-- Sv39 is on, and the page table translates the address into RAM, with an entry that permits all
-- accesses; and the system grants the mapping.
pub record IsServable (k : Kernel) (satp : ℕ) (ram : ℕ → ℕ) (a : ℕ) : Type 0 where
  pub pa : ℕ
  pub pte : ℕ
  pub mode : get_satp_mode satp ≡ 8
  pub sign : (a < 2 ^ 39) ⊎ (2 ^ 64 - 2 ^ 39 ≤ a)
  pub word : a < 2 ^ 64
  pub translated : Reaches satp ram a pa pte
  pub in_ram : InRam (page_of pte)
  pub readable : bit pte 1 ≡ 1
  pub writable : bit pte 2 ≡ 1
  pub executable : bit pte 3 ≡ 1
  pub granted : leb (2 ^ 63) (k.mmap_result (a / 4096 * 4096) 7 (page_of pte - ram_start)) ≡ false

abbrev pub AreServable : (k : Kernel) (satp : ℕ) (ram : ℕ → ℕ) → List ℕ → Type 0
AreServable k satp ram [] = Unit
AreServable k satp ram (a ∷ addresses) = IsServable k satp ram a × AreServable k satp ram addresses

served_all :
    (k : Kernel) (t : Machine) (scause a : ℕ) (servable : IsServable k t.priv.satp t.ram a)
    → served k t scause a servable.pte
      ≡ ok (
          call t (
            s_mmap
              (a / 4096 * 4096)
              4096
              7
              (bit_or map_shared map_fixed_noreplace)
              ram_fd
              (page_of servable.pte - ram_start)))
served_all k t scause a servable =
    rw (all, servable.readable, servable.writable, servable.executable, servable.granted) refl
  where
    all : permits scause servable.pte ≡ true
    all = ground (arith, servable.readable, servable.writable, servable.executable)

module _ (k : Kernel) (m : Machine) (a : ℕ) (quiet : m.priv.sip ≡ 0)
    (servable : IsServable k m.priv.satp m.ram a) where
  abbrev started : Machine
  started = record (call m (s_mmap 0 4096 3 1 64 0)) {
    priv = record m.priv { counter_segv = u64 (m.priv.counter_segv + 1) };
  }

  abbrev judged : Machine
  judged = record started { calls = (fault_cause started a).1.calls }

  abbrev mapped : Machine
  mapped = call (looked k judged) (
      s_mmap (a / 4096 * 4096) 4096 7 (bit_or map_shared map_fixed_noreplace) ram_fd
        (page_of servable.pte - ram_start))

  handle_sigsegv-mapped : handle_sigsegv k (call m (s_mmap 0 4096 3 1 64 0)) a ≡ ok mapped
  unfolding handle_sigsegv
  handle_sigsegv-mapped =
      ap (λ (found : ℕ × Machine). handle_page_fault k found.1 found.0 a)
        (fault_cause_calls started started.priv started.calls a)
      ∙ handle_page_fault-served k judged (fault_cause started a).0 a servable.pte servable.word
          servable.mode servable.sign servable.translated servable.in_ram
      ∙ served_all k (looked k judged) (fault_cause started a).0 a servable

  same_output : written (fault_cause started a).1.calls ≡ written m.calls
  unfolding fault_cause
  same_output = ground arith

  fault_served : (n : Machine) × (handler_wrapper k m (sigsegv a) ≡ ok n) × (seen n ≡ seen m)
  unfolding handler_wrapper handler dispatch
  fault_served = (
    finished k mapped,
    rw handle_sigsegv-mapped refl,
    seen-finished k mapped quiet ∙ ap (λ o. record (seen m) { output = o }) same_output,
  )

-- The guest does not see the page faults that are served.
pub fault_in-served :
    (k : Kernel) (satp : ℕ) (addresses : List ℕ) (m : Machine)
    → m.priv.sip ≡ 0
    → m.priv.satp ≡ satp
    → AreServable k satp m.ram addresses
    → (n : Machine) × (fault_in k addresses m ≡ ok n) × (seen n ≡ seen m)
unfolding fault_in
fault_in-served k satp [] m quiet root servable = (m, refl, refl)
fault_in-served k satp (a ∷ addresses) m quiet root servable =
    let (t, mapped, view) =
      fault_served k m a quiet (subst (λ satp. IsServable k satp m.ram a) (sym root) servable.0) in
    let (n, rest, end) =
      fault_in-served k satp addresses t (ap (λ (h : Hart). h.others.sip) view ∙ quiet)
        (ap (λ (h : Hart). h.others.satp) view ∙ root)
        (subst (λ (h : Hart). AreServable k satp h.ram addresses) (sym view) servable.1) in
    (n, ap (λ r. do n ← r; fault_in k addresses n) mapped ∙ rest, end ∙ view)

-- What RAM is after some stores.
pub data Stored (w : Hardware) (before : ℕ → ℕ) : (ℕ → ℕ) → Type 0 where
  none_yet : Stored w before before
  one_more : (a v : ℕ) (ram : ℕ → ℕ) → Stored w before ram → Stored w before (w.ram_after a v ram)

-- Only a store changes RAM.
pub effect-Stored :
    (w : Hardware) (before : ℕ → ℕ) (i : Asm) (h : Hart)
    → Stored w before h.ram
    → Stored w before (effect w i h).ram
effect-Stored w before (addi rd rs imm) h stored = stored
effect-Stored w before (li rd imm) h stored = stored
effect-Stored w before (sd rs2 offset rs1) h stored = one_more _ _ h.ram stored
effect-Stored w before (ld rd offset rs1) h stored = stored
effect-Stored w before (csrr rd c) h stored = stored
effect-Stored w before (csrw sstatus rs) h stored = stored
effect-Stored w before (csrw sepc rs) h stored = stored
effect-Stored w before ecall h stored = elim (Bool-cases (h.regs 17 == 1)) [
  | inl e ↦ rw e stored
  | inr e ↦ rw e stored
]
effect-Stored w before Asm.sret h stored = stored

pub effects-Stored :
    (w : Hardware) (before : ℕ → ℕ) (code : List Asm) (h : Hart)
    → Stored w before h.ram
    → Stored w before (effects w code h).ram
effects-Stored w before [] h stored = stored
effects-Stored w before (i ∷ code) h stored =
    effects-Stored w before code (effect w i h) (effect-Stored w before i h stored)

-- The page faults that may come, with this root of the page table and after any stores, are served.
pub record IsHosted (k : Kernel) (w : Hardware) (satp : ℕ) (before : ℕ → ℕ) : Type 0 where
  pub steps :
      (i : Asm) (n : Machine)
      → n.priv.satp ≡ satp
      → Stored w before n.ram
      → AreServable k satp n.ram (w.faults i n)
  pub reads :
      (p : ℕ) (n : Machine)
      → n.priv.satp ≡ satp
      → Stored w before n.ram
      → AreServable k satp n.ram (w.read_faults p n)
