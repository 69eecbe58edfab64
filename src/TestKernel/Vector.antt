-- ===== src/TestKernel/Vector.antt =====
-- src/test-kernel/test-kernel.c, stvec: what the test kernel does with a call of its user program.
use urvirt.Common.{
  ℕ, ◌+◌, ◌-◌, ◌%◌, ◌^◌, ◌≤◌, ◌<◌, ◌≡◌, refl, ap, ◌∙◌, inl, inr, Bool-cases, ==→eq, true, false,
  ◌==◌, if◌then◌else◌, arith, List, [], ◌∷◌, u64,
}
use mathlib.Core.Path.{subst}
use urvirt.Memory.{load32}
use urvirt.Bits.{bit_ext}
use urvirt.RiscvBits.{sstatus_writable_mask, get_field, mask_field}
use urvirt.Csr.{merge_mask}
use urvirt.Csr.Fields.{bit-merge_mask, merge_mask-lt}
use urvirt.Trap.{sret_sstatus}
use urvirt.PrivInstr.Spec.{csr, set, swap, return_trap, encode}
use urvirt.TestKernel.Doublewords.{distance, store_double, load_double}
use urvirt.TestKernel.Frame.{
  IsOutside, frame, load32_slot, slot0, slot1, slot2, slot3, slot4, load32-frame, frame_outside,
}
use urvirt.TestKernel.Asm.{sstatus, sepc, Asm, addi, li, sd, ld, csrr, csrw, ecall, sret, Hardware}
use urvirt.TestKernel.Hart.{Hart, effects, number, AreReady, ◌⊗◌}

abbrev sp : ℕ
sp = 2

abbrev t0 : ℕ
t0 = 5

abbrev a0 : ℕ
a0 = 10

abbrev a7 : ℕ
a7 = 17

abbrev pub stvec : List Asm
stvec =
    addi sp sp (2 ^ 64 - 512)
    ∷ sd t0 0 sp
    ∷ csrr t0 sstatus
    ∷ sd t0 8 sp
    ∷ csrr t0 sepc
    ∷ sd t0 16 sp
    ∷ sd a0 24 sp
    ∷ sd a7 32 sp
    ∷ addi a0 a0 3
    ∷ li a7 1
    ∷ ecall
    ∷ ld a0 24 sp
    ∷ ld a7 32 sp
    ∷ ld t0 16 sp
    ∷ addi t0 t0 4
    ∷ csrw sepc t0
    ∷ ld t0 8 sp
    ∷ csrw sstatus t0
    ∷ ld t0 0 sp
    ∷ addi sp sp 512
    ∷ sret
    ∷ []

-- The bytes of an instruction, which are 4 for those that are signals.
abbrev pub length_of : Hardware → Asm → ℕ
length_of w (csrr rd c) = 4
length_of w (csrw c rs) = 4
length_of w ecall = 4
length_of w sret = 4
length_of w i = w.size i

-- The encoding of a privileged instruction stands in memory at the address, away from the stack.
abbrev pub StandsAt : (memory : ℕ → ℕ) (base pc : ℕ) → Asm → Type 0
StandsAt memory base pc (csrr rd c) =
    (load32 memory pc ≡ encode (csr set false (number c) rd 0)) × IsOutside base pc
StandsAt memory base pc (csrw c rs) =
    (load32 memory pc ≡ encode (csr swap false (number c) 0 rs)) × IsOutside base pc
StandsAt memory base pc sret = (load32 memory pc ≡ encode return_trap) × IsOutside base pc
StandsAt memory base pc _ = Unit

-- So do all of the code's, one after the other.
abbrev pub IsLoaded : Hardware → (memory : ℕ → ℕ) (base pc : ℕ) → List Asm → Type 0
IsLoaded w memory base pc [] = Unit
IsLoaded w memory base pc (i ∷ code) =
    StandsAt memory base pc i × IsLoaded w memory base (u64 (pc + length_of w i)) code

-- Where stvec puts its frame.
abbrev pub base_of : Hart → ℕ
base_of h = u64 (h.regs 2 + (2 ^ 64 - 512))

-- In S mode, come from user mode, with words in the registers.
pub record IsEntered (w : Hardware) (h : Hart) : Type 0 where
  pub mode : h.mode ≡ 16
  pub from_user : get_field 8 1 h.status ≡ 0
  pub words : (i : ℕ) → h.regs i < 2 ^ 64
  pub status_word : h.status < 2 ^ 64
  pub epc_word : h.epc < 2 ^ 64
  pub code : IsLoaded w h.memory (base_of h) (h.regs 0) stvec

-- A byte was printed, three more than what a0 holds, and the user program goes on after its call, with
-- every register and all memory outside the frame as they were.
pub record IsServed (h n : Hart) : Type 0 where
  pub mode : n.mode ≡ 0
  pub pc : n.regs 0 ≡ u64 (h.epc + 4)
  pub registers : (i : ℕ) → (i == 0) ≡ false → n.regs i ≡ h.regs i
  pub output : n.output ≡ u64 (h.regs 10 + 3) % 256 ∷ h.output
  pub status : n.status ≡ sret_sstatus h.status
  pub others : n.others ≡ h.others
  pub memory : (j : ℕ) → j < 2 ^ 64 → 512 ≤ distance (base_of h) j → n.memory j ≡ h.memory j

-- What was read is written back.
merge_mask_self : (s : ℕ) → s < 2 ^ 64 → merge_mask sstatus_writable_mask s s ≡ s
merge_mask_self s word =
    bit_ext 64 _ s (merge_mask-lt sstatus_writable_mask s s mask_word word) word
      λ i below. ground (arith, bit-merge_mask sstatus_writable_mask s s i mask_word below)
  where
    mask_word : sstatus_writable_mask < 2 ^ 64
    mask_word = unfold mask_field in omega arith

module _ (w : Hardware) (h : Hart) (entered : IsEntered w h) where
  abbrev saved : ℕ → ℕ
  saved = frame (base_of h) h.memory (h.regs 5) h.status h.epc (h.regs 10) (h.regs 17)

  -- The instructions stand where they get to, since the frame is elsewhere.
  in_frame : {p v : ℕ} → (load32 h.memory p ≡ v) × IsOutside (base_of h) p → load32 saved p ≡ v
  in_frame {p} stands =
      load32-frame (base_of h) h.memory (h.regs 5) h.status h.epc (h.regs 10) (h.regs 17) p stands.1
      ∙ stands.0

  -- So it is after one store, and after two.
  abbrev once : ℕ → ℕ
  once = store_double h.memory (u64 (base_of h + 0)) (h.regs 5)

  after_one : {p v : ℕ} → (load32 h.memory p ≡ v) × IsOutside (base_of h) p → load32 once p ≡ v
  after_one {p} stands =
      load32_slot (base_of h) h.memory 0 (h.regs 5) p (omega arith) stands.1 ∙ stands.0

  after_two :
      {p v : ℕ}
      → (load32 h.memory p ≡ v) × IsOutside (base_of h) p
      → load32 (store_double once (u64 (base_of h + 8)) h.status) p ≡ v
  after_two {p} stands =
      load32_slot (base_of h) once 8 h.status p (omega arith) stands.1 ∙ after_one stands

  stvec-AreReady : AreReady w stvec h
  stvec-AreReady =
      tt
      ⊗ tt
      ⊗ (entered.mode, after_one entered.code.1.1.0, omega arith)
      ⊗ tt
      ⊗ (entered.mode, after_two entered.code.1.1.1.1.0, omega arith)
      ⊗ tt
      ⊗ tt
      ⊗ tt
      ⊗ tt
      ⊗ tt
      ⊗ (entered.mode, refl)
      ⊗ tt
      ⊗ tt
      ⊗ tt
      ⊗ tt
      ⊗ (entered.mode, in_frame entered.code.1.1.1.1.1.1.1.1.1.1.1.1.1.1.1.0, omega arith)
      ⊗ tt
      ⊗ (entered.mode, in_frame entered.code.1.1.1.1.1.1.1.1.1.1.1.1.1.1.1.1.1.0, omega arith)
      ⊗ tt
      ⊗ tt
      ⊗ (entered.mode, in_frame entered.code.1.1.1.1.1.1.1.1.1.1.1.1.1.1.1.1.1.1.1.1.0)
      ⊗ tt

  abbrev served : Hart
  served = effects w stvec h

  read_back :
      merge_mask sstatus_writable_mask (load_double saved (u64 (base_of h + 8))) h.status ≡ h.status
  read_back =
      ap (λ v. merge_mask sstatus_writable_mask v h.status)
        (slot1 (base_of h) h.memory (h.regs 5) h.status h.epc (h.regs 10) (h.regs 17)
          entered.status_word)
      ∙ merge_mask_self h.status entered.status_word

  -- The four registers that stvec uses are restored, and it uses no other.
  same_register : (i : ℕ) → (i == 0) ≡ false → served.regs i ≡ h.regs i
  same_register i nonzero = elim (Bool-cases (2 == i)) [
    | inl e ↦ at 2 e restored
    | inr n2 ↦ elim (Bool-cases (5 == i)) [
      | inl e ↦ at 5 e (
          slot0 (base_of h) h.memory (h.regs 5) h.status h.epc (h.regs 10) (h.regs 17)
            (entered.words 5))
      | inr n5 ↦ elim (Bool-cases (10 == i)) [
        | inl e ↦ at 10 e (
            slot3 (base_of h) h.memory (h.regs 5) h.status h.epc (h.regs 10) (h.regs 17)
              (entered.words 10))
        | inr n10 ↦ elim (Bool-cases (17 == i)) [
          | inl e ↦ at 17 e (
              slot4 (base_of h) h.memory (h.regs 5) h.status h.epc (h.regs 10) (h.regs 17)
                (entered.words 17))
          | inr n17 ↦
              let n0 : (0 == i) ≡ false = ground (arith, nonzero) in rw (n0, n2, n5, n10, n17) refl
        ]
      ]
    ]
  ]
    where
      restored : u64 (base_of h + 512) ≡ h.regs 2
      restored = omega (arith, entered.words 2)

      at : (j : ℕ) → (j == i) ≡ true → served.regs j ≡ h.regs j → served.regs i ≡ h.regs i
      at j e same = subst (λ i. served.regs i ≡ h.regs i) (==→eq j i e) same

  served-IsServed : IsServed h served
  served-IsServed = record {
    mode = ap (λ s. if get_field 8 1 s == 0 then 0 else 16) read_back ∙ rw entered.from_user refl;
    pc =
        ap (λ v. u64 (v + 4))
          (slot2 (base_of h) h.memory (h.regs 5) h.status h.epc (h.regs 10) (h.regs 17)
            entered.epc_word);
    registers = same_register;
    output = refl;
    status = ap sret_sstatus read_back;
    others = refl;
    memory = λ j word out.
        frame_outside (base_of h) h.memory (h.regs 5) h.status h.epc (h.regs 10) (h.regs 17) j word
          out;
  }

  -- In S mode, come from user mode with SPP clear, with words in the registers, sstatus and sepc, and
  -- with its privileged instructions in memory away from its frame, stvec runs into nothing that the
  -- handler does not do, and, as the architecture means it, prints one byte, three more than what a0
  -- holds, and returns to user mode after the `ecall`. Every register but the pc, and all memory
  -- outside the 512 bytes of the frame, are as they were, and sstatus is what `sret` makes of it.
  pub stvec-IsServed : AreReady w stvec h × IsServed h served
  stvec-IsServed = (stvec-AreReady, served-IsServed)
