-- ===== src/Handler/Cause.antt =====
-- The cause of a SIGSEGV, against the instructions that access memory.
use urvirt.Common.{
  ap, ◌&&◌, ==→eq, u64, Bool-cases, inl, inr, ℕ, ◌+◌, ◌*◌, ◌/◌, ◌%◌, ◌^◌, ◌<◌, ◌≡◌, ◌⊎◌, refl, ◌∙◌,
  Bool, true, false, ◌==◌, if◌then◌else◌, arith, ◌&&&◌, u16, ◌||◌, not,
}
use urvirt.Bits.{bit_and_mask}
use urvirt.Memory.{byte, load16, load32}
use urvirt.Machine.{Machine, call, log}
use urvirt.RiscvBits.{rvc_looks_like_load, rvc_looks_like_store}
use urvirt.Handler.{fault_cause}

-- What a guest can fault on: the fetch of an instruction, or of the upper half of one of 32 bits whose
-- lower half is `low`, on the page before; or an access by an instruction. Of an instruction of
-- 32 bits `rest` is the fields above the opcode, where an AMO has its operation in the topmost five
-- bits; of a compressed one, `fields` is what stands between the quadrant and funct3.
pub data Access : Type 0 where
  fetch : Access
  fetch_high : (low : ℕ) → Access
  load store load_fp store_fp : (rest : ℕ) → Access
  lr amo : (funct5 rest : ℕ) → Access
  c_load c_store : (quadrant fields funct3 : ℕ) → Access

-- The cause that the architecture has for it: 12 for a fetch, 13 for a load, 15 for a store or AMO.
abbrev pub cause_of : Access → ℕ
cause_of fetch = 12
cause_of (fetch_high low) = 12
cause_of (load rest) = 13
cause_of (load_fp rest) = 13
cause_of (lr funct5 rest) = 13
cause_of (c_load quadrant fields funct3) = 13
cause_of _ = 15

-- By the lower half alone, the handler takes the fetch of the upper half for a load or a store.
abbrev looks_like_load : ℕ → Bool
looks_like_load low = low % 128 == 0x03

abbrev looks_like_store : ℕ → Bool
looks_like_store low = low % 128 == 0x23 || low % 128 == 0x2f

-- The accesses that the handler takes for others, `own` being whether the address is the pc.
abbrev pub misjudged : (own : Bool) → Access → Bool
misjudged own fetch = false
misjudged own (fetch_high low) = not own && (looks_like_load low || looks_like_store low)
misjudged own (load_fp rest) = true
misjudged own (store_fp rest) = true
misjudged own (lr funct5 rest) = true
misjudged own _ = own

-- What they are taken for, and what is logged, if the address is not the pc: a load or store of a
-- floating-point register in 32 bits is taken for a fetch, a load-reserved for a store, and the fetch
-- of an upper half for what the lower half says.
abbrev elsewhere : Access → ℕ
elsewhere (fetch_high low) =
    if looks_like_load low then 13 else if looks_like_store low then 15 else 12
elsewhere (load_fp rest) = 12
elsewhere (store_fp rest) = 12
elsewhere (lr funct5 rest) = 15
elsewhere i = cause_of i

-- At the pc, everything is taken for a fetch.
abbrev pub taken_for : (own : Bool) → Access → ℕ
taken_for own i = if own then 12 else elsewhere i

abbrev weird : Access → Bool
weird (fetch_high low) = not (looks_like_load low || looks_like_store low)
weird (load_fp rest) = true
weird (store_fp rest) = true
weird _ = false

abbrev pub logged : (own : Bool) → Machine → Access → Machine
logged own m i =
    if own
    then m
    else if weird i
    then call m (log "weird 32-bit instruction page fault, assuming instr page fault")
    else m

-- The quadrant and funct3 are those of a compressed load, or of a store three further on.
abbrev IsCompressed : (memory : ℕ → ℕ) (pc quadrant fields funct3 first : ℕ) → Type 0
IsCompressed memory pc quadrant fields funct3 first =
    ((quadrant ≡ 0) ⊎ (quadrant ≡ 2))
    × (fields < 2 ^ 11)
    × ((funct3 ≡ first) ⊎ (funct3 ≡ first + 1) ⊎ (funct3 ≡ first + 2))
    × (load16 memory pc ≡ quadrant + fields * 2 ^ 2 + funct3 * 2 ^ 13)

-- The access at `si_addr` is made by the instruction at `pc`.
abbrev pub IsAccess : (memory : ℕ → ℕ) (pc si_addr : ℕ) → Access → Type 0
IsAccess memory pc si_addr fetch = si_addr ≡ pc
IsAccess memory pc si_addr (fetch_high low) =
    (si_addr ≡ u64 (pc + 2)) × (low % 4 ≡ 3) × (load16 memory pc ≡ low)
IsAccess memory pc si_addr (load rest) = load32 memory pc ≡ 0x03 + rest * 2 ^ 7
IsAccess memory pc si_addr (store rest) = load32 memory pc ≡ 0x23 + rest * 2 ^ 7
IsAccess memory pc si_addr (load_fp rest) = load32 memory pc ≡ 0x07 + rest * 2 ^ 7
IsAccess memory pc si_addr (store_fp rest) = load32 memory pc ≡ 0x27 + rest * 2 ^ 7
IsAccess memory pc si_addr (lr funct5 rest) =
    (funct5 ≡ 2) × (load32 memory pc ≡ 0x2f + rest * 2 ^ 7 + funct5 * 2 ^ 27)
IsAccess memory pc si_addr (amo funct5 rest) =
    ((funct5 == 2) ≡ false) × (load32 memory pc ≡ 0x2f + rest * 2 ^ 7 + funct5 * 2 ^ 27)
IsAccess memory pc si_addr (c_load quadrant fields funct3) =
    IsCompressed memory pc quadrant fields funct3 1
IsAccess memory pc si_addr (c_store quadrant fields funct3) =
    IsCompressed memory pc quadrant fields funct3 5

module _ (m : Machine) (si_addr : ℕ) (other : (si_addr == m.regs 0) ≡ false) where
  -- By the opcode, if the instruction is not compressed.
  wide_cause :
      (opcode : ℕ)
      → byte m.memory (m.regs 0) % 128 ≡ opcode
      → opcode % 4 ≡ 3
      → fault_cause m si_addr ≡ (
          if opcode == 0x03
          then (13, m)
          else if opcode == 0x23
          then (15, m)
          else if opcode == 0x2f
          then (15, m)
          else (12, call m (log "weird 32-bit instruction page fault, assuming instr page fault")))
  unfolding fault_cause
  wide_cause opcode e low = rw (other, is_wide, is_opcode) refl
    where
      is_wide : (byte m.memory (m.regs 0) &&& 3 == 3) ≡ true
      is_wide = ground (arith, bit_and_mask 2 (byte m.memory (m.regs 0)))

      is_opcode : byte m.memory (m.regs 0) &&& 127 ≡ opcode
      is_opcode = bit_and_mask 7 (byte m.memory (m.regs 0)) ∙ e

  -- By the quadrant and funct3, if it is.
  narrow_cause :
      (quadrant fields funct3 : ℕ)
      → ((quadrant ≡ 0) ⊎ (quadrant ≡ 2))
      → fields < 2 ^ 11
      → funct3 < 8
      → load16 m.memory (m.regs 0) ≡ quadrant + fields * 2 ^ 2 + funct3 * 2 ^ 13
      → fault_cause m si_addr ≡ (
          if funct3 == 1 || funct3 == 2 || funct3 == 3
          then (13, m)
          else if funct3 == 5 || funct3 == 6 || funct3 == 7
          then (15, m)
          else (12, call m (log "weird 16-bit instruction page fault, assuming instr page fault")))
  unfolding fault_cause rvc_looks_like_load rvc_looks_like_store
  narrow_cause quadrant fields funct3 q f t e =
      rw (other, is_narrow, op, top, is_quadrant, small) refl
    where
      is_narrow : (byte m.memory (m.regs 0) &&& 3 == 3) ≡ false
      is_narrow = ground (arith, bit_and_mask 2 (byte m.memory (m.regs 0)))

      op : load16 m.memory (m.regs 0) &&& 3 ≡ quadrant
      op = bit_and_mask 2 (load16 m.memory (m.regs 0)) ∙ omega arith

      top : load16 m.memory (m.regs 0) / 2 ^ 13 ≡ funct3
      top = omega arith

      is_quadrant : (u16 quadrant == 0 || u16 quadrant == 2) ≡ true
      is_quadrant = ground arith

      small : u16 funct3 ≡ funct3
      small = omega arith

  -- If the address is not the pc.
  fault_cause-elsewhere :
      (i : Access)
      → IsAccess m.memory (m.regs 0) si_addr i
      → fault_cause m si_addr ≡ (elsewhere i, logged false m i)
  fault_cause-elsewhere fetch at = absurd (ground (arith, at, other))
  fault_cause-elsewhere (fetch_high low) at =
      wide_cause (low % 128) (omega (arith, at.2)) (omega (arith, at.1)) ∙ ground arith
  fault_cause-elsewhere (load rest) at = wide_cause 0x03 (omega (arith, at)) refl
  fault_cause-elsewhere (store rest) at = wide_cause 0x23 (omega (arith, at)) refl
  fault_cause-elsewhere (load_fp rest) at = wide_cause 0x07 (omega (arith, at)) refl
  fault_cause-elsewhere (store_fp rest) at = wide_cause 0x27 (omega (arith, at)) refl
  fault_cause-elsewhere (lr funct5 rest) at = wide_cause 0x2f (omega (arith, at.1)) refl
  fault_cause-elsewhere (amo funct5 rest) at = wide_cause 0x2f (omega (arith, at.1)) refl
  fault_cause-elsewhere (c_load quadrant fields funct3) at =
      narrow_cause quadrant fields funct3 at.0 at.1 (ground (arith, at.2)) at.3
      ∙ ground (arith, at.2)
  fault_cause-elsewhere (c_store quadrant fields funct3) at =
      narrow_cause quadrant fields funct3 at.0 at.1 (ground (arith, at.2)) at.3
      ∙ ground (arith, at.2)

taken_for_judged :
    (own : Bool) (i : Access) → (taken_for own i == cause_of i) ≡ not (misjudged own i)
taken_for_judged true fetch = refl
taken_for_judged false fetch = refl
taken_for_judged true (fetch_high low) = refl
taken_for_judged false (fetch_high low) = ground arith
taken_for_judged true (load rest) = refl
taken_for_judged false (load rest) = refl
taken_for_judged true (store rest) = refl
taken_for_judged false (store rest) = refl
taken_for_judged true (load_fp rest) = refl
taken_for_judged false (load_fp rest) = refl
taken_for_judged true (store_fp rest) = refl
taken_for_judged false (store_fp rest) = refl
taken_for_judged true (lr funct5 rest) = refl
taken_for_judged false (lr funct5 rest) = refl
taken_for_judged true (amo funct5 rest) = refl
taken_for_judged false (amo funct5 rest) = refl
taken_for_judged true (c_load quadrant fields funct3) = refl
taken_for_judged false (c_load quadrant fields funct3) = refl
taken_for_judged true (c_store quadrant fields funct3) = refl
taken_for_judged false (c_store quadrant fields funct3) = refl

pub fault_cause-taken_for :
    (m : Machine) (si_addr : ℕ) (i : Access)
    → IsAccess m.memory (m.regs 0) si_addr i
    → let own = si_addr == m.regs 0 in
      (fault_cause m si_addr ≡ (taken_for own i, logged own m i))
      × ((taken_for own i == cause_of i) ≡ not (misjudged own i))
fault_cause-taken_for m si_addr i at = (
  elim (Bool-cases (si_addr == m.regs 0)) [
    | inl own ↦ unfold fault_cause in rw own refl
    | inr other ↦ rw other (fault_cause-elsewhere m si_addr other i at)
  ],
  taken_for_judged (si_addr == m.regs 0) i,
)

-- The cause of an access that is not misjudged.
pub fault_cause_judged :
    (m : Machine) (si_addr : ℕ) (i : Access)
    → IsAccess m.memory (m.regs 0) si_addr i
    → misjudged (si_addr == m.regs 0) i ≡ false
    → (fault_cause m si_addr).0 ≡ cause_of i
fault_cause_judged m si_addr i at judged =
    let (taken, same) = fault_cause-taken_for m si_addr i at in
    ap (λ (c : ℕ × Machine). c.0) taken ∙ ==→eq _ _ (same ∙ ap not judged)
