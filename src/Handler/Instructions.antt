-- ===== src/Handler/Instructions.antt =====
-- A privileged instruction of the guest's kernel, from its signal on.
use urvirt.Common.{
  if_true, ◌^◌, sub64, ◌∷◌, false, ℕ, ◌+◌, ◌%◌, ◌<◌, ◌≡◌, refl, ap, ◌∙◌, true, false, not, ◌&&◌,
  ◌==◌, ◌&&&◌, arith, u64,
}
use urvirt.Outcome.{Result, ok, stop, ◌>>=◌}
use urvirt.Bits.{bit_and_mask}
use urvirt.Kernel.{Kernel}
use urvirt.Memory.{byte, load32}
use urvirt.RiscvBits.{priv_s}
use urvirt.Machine.{Machine, call, advance, s_mmap, s_munmap, s_rt_sigreturn}
use urvirt.PrivInstr.{handle_priv_instr}
use urvirt.PrivInstr.Spec.{Instr, sfence_vma, wfi, csr, return_trap, encode, IsEncodable, exec}
use urvirt.PrivInstr.Decode.{handle_priv_instr-encode}
use urvirt.Handler.{
  sigill, dispatch, handle_sigill, take_interrupt, clear_vm, timer_due, handler, handler_wrapper,
}
use urvirt.Handler.Interrupts.{IsSettled}
use urvirt.Contained.{stub_end}

-- Every encoding is that of a SYSTEM instruction.
encode-opcode : (i : Instr) → encode i % 128 ≡ 0x73
encode-opcode (sfence_vma rs1 rs2) = omega arith
encode-opcode wfi = refl
encode-opcode return_trap = refl
encode-opcode (csr op imm number rd rs1) = omega arith

first_byte : (memory : ℕ → ℕ) (pc : ℕ) → byte memory pc % 128 ≡ load32 memory pc % 128
first_byte memory pc = omega arith

-- The handler's machine before the instruction is emulated, and what it does after it.
abbrev pub entered : Machine → Machine
entered m =
    let mapped = call m (s_mmap 0 4096 3 1 64 0) in
    record mapped { priv = record m.priv { counter_ill = u64 (m.priv.counter_ill + 1) } }

abbrev pub finished : Kernel → Machine → Machine
finished k t =
    call (call (clear_vm (take_interrupt t)) (s_munmap k.conf_address 4096)) s_rt_sigreturn

pub handler_wrapper-exec :
    (k : Kernel) (m : Machine) (i : Instr)
    → m.priv.priv_mode ≡ priv_s
    → load32 m.memory (m.regs 0) ≡ encode i
    → IsEncodable i
    → handler_wrapper k m sigill ≡ (do t ← exec (entered m) i; ok (finished k t))
unfolding handler_wrapper handler dispatch handle_sigill
handler_wrapper-exec k m i mode at fits =
    ap
      (λ r. do
        m' ← do m'' ← r; ok (call (clear_vm (take_interrupt m'')) (s_munmap k.conf_address 4096))
        ok (call m' s_rt_sigreturn))
      emulated
    ∙ go (exec (entered m) i)
  where
    first : byte m.memory (m.regs 0) % 128 ≡ 0x73
    first = first_byte m.memory (m.regs 0) ∙ ap (λ t. t % 128) at ∙ encode-opcode i

    is_wide :
        (byte m.memory (m.regs 0) &&& 0b11 == 0b11
          && not (byte m.memory (m.regs 0) &&& 0b11111 == 0b11111))
        ≡ true
    is_wide = ground (
      arith,
      first,
      bit_and_mask 2 (byte m.memory (m.regs 0)),
      bit_and_mask 5 (byte m.memory (m.regs 0)),
    )

    emulated : handle_sigill (call m (s_mmap 0 4096 3 1 64 0)) ≡ exec (entered m) i
    emulated =
        if_true (m.priv.priv_mode == priv_s) _ (ground (arith, mode))
        ∙ if_true _ _ is_wide
        ∙ ap (handle_priv_instr (entered m)) at
        ∙ handle_priv_instr-encode (entered m) i fits

    go :
        (r : Result Machine)
        → (do
          m' ← do m'' ← r; ok (call (clear_vm (take_interrupt m'')) (s_munmap k.conf_address 4096))
          ok (call m' s_rt_sigreturn))
          ≡ (do t ← r; ok (finished k t))
    go (ok t) = refl
    go (stop s) = refl

-- All below and above the stub is unmapped, and after that nothing is mapped; the guest goes on after
-- the instruction, as it was.
pub record IsFlushed (k : Kernel) (m n : Machine) : Type 0 where
  pub calls :
      n.calls
      ≡ s_rt_sigreturn
        ∷ s_munmap k.conf_address 4096
        ∷ s_munmap (stub_end m) (sub64 (2 ^ 38) (stub_end m))
        ∷ s_munmap 0 m.priv.stub_start
        ∷ s_mmap 0 4096 3 1 64 0
        ∷ m.calls
  pub priv :
      n.priv ≡ record m.priv { counter_ill = u64 (m.priv.counter_ill + 1); should_clear_vm = false }
  pub pc : n.regs 0 ≡ u64 (m.regs 0 + 4)
  pub registers : (i : ℕ) → (i == 0) ≡ false → n.regs i ≡ m.regs i
  pub memory : n.memory ≡ m.memory
  pub ram : n.ram ≡ m.ram

-- In S mode, with no interrupt due, `sfence.vma` with any operands clears the guest's address space, so
-- that the next access to a page is looked up anew, and does nothing else but count the signal.
pub sfence_vma-IsFlushed :
    (k : Kernel) (m : Machine) (rs1 rs2 : ℕ)
    → m.priv.priv_mode ≡ priv_s
    → IsSettled m
    → (rs1 < 32) × (rs2 < 32)
    → load32 m.memory (m.regs 0) ≡ encode (sfence_vma rs1 rs2)
    → (n : Machine) × (handler_wrapper k m sigill ≡ ok n) × IsFlushed k m n
sfence_vma-IsFlushed k m rs1 rs2 supervisor settled fits at = (
  call (call (clear_vm asked) (s_munmap k.conf_address 4096)) s_rt_sigreturn,
  handler_wrapper-exec k m (sfence_vma rs1 rs2) supervisor at fits
      ∙ ap (λ t. ok (call (call (clear_vm t) (s_munmap k.conf_address 4096)) s_rt_sigreturn)) quiet,
  flushed,
)
  where
    asked : Machine
    asked =
        let e = entered m in
        advance (record e { priv = record e.priv { should_clear_vm = true } }) 4

    quiet : take_interrupt asked ≡ asked
    quiet = unfold take_interrupt timer_due in rw (settled.0) refl

    flushed :
        IsFlushed k m (call (call (clear_vm asked) (s_munmap k.conf_address 4096)) s_rt_sigreturn)
    flushed =
        unfold clear_vm in
        record {
          calls = refl;
          priv = refl;
          pc = refl;
          registers = λ i nonzero. ground (arith, nonzero);
          memory = refl;
          ram = refl;
        }
