-- ===== src/PageFault/Store.antt =====
-- The stores of a doubleword that the block device is driven by: their encodings, and the register
-- whose value is taken for the data.
use urvirt.Common.{
  ℕ, ◌+◌, ◌*◌, ◌/◌, ◌%◌, ◌^◌, ◌<◌, ◌≡◌, refl, ap, ◌∙◌, true, false, ◌==◌, Option, none, some, arith,
  bit_or, all_below, all_below_lem, ==→eq, truthy,
}
use urvirt.Bits.{bit_and_mask}
use urvirt.Outcome.{ok}
use urvirt.Memory.{byte, load16, load32}
use urvirt.Machine.{Machine}
use urvirt.RiscvBits.{ins_field, ins_field_lem}
use urvirt.PageFault.{looks_wide, decode_sd, get_store_data}

-- `sd`, `c.sd` and `c.sdsp`; the offset is in pieces, as it is encoded. `rs1` and `rs2` of `c.sd` are
-- the 3-bit names of x8 to x15.
pub data Store : Type 0 where
  sd : (rs1 rs2 low high : ℕ) → Store
  c_sd : (rs1 rs2 low high : ℕ) → Store
  c_sdsp : (rs2 offset : ℕ) → Store

-- The fields fit.
abbrev pub IsEncodableStore : Store → Type 0
IsEncodableStore (sd rs1 rs2 low high) = (rs1 < 32) × (rs2 < 32) × (low < 32) × (high < 128)
IsEncodableStore (c_sd rs1 rs2 low high) = (rs1 < 8) × (rs2 < 8) × (low < 4) × (high < 8)
IsEncodableStore (c_sdsp rs2 offset) = (rs2 < 32) × (offset < 64)

-- The instruction at an address of memory.
abbrev pub IsAt : (ℕ → ℕ) → ℕ → Store → Type 0
IsAt memory pc (sd rs1 rs2 low high) =
    load32 memory pc ≡ 0x23 + low * 2 ^ 7 + 3 * 2 ^ 12 + rs1 * 2 ^ 15 + rs2 * 2 ^ 20 + high * 2 ^ 25
IsAt memory pc (c_sd rs1 rs2 low high) =
    load16 memory pc ≡ rs2 * 2 ^ 2 + low * 2 ^ 5 + rs1 * 2 ^ 7 + high * 2 ^ 10 + 7 * 2 ^ 13
IsAt memory pc (c_sdsp rs2 offset) =
    load16 memory pc ≡ 2 + rs2 * 2 ^ 2 + offset * 2 ^ 7 + 7 * 2 ^ 13

-- The register that holds the data, for the forms that are recognised.
abbrev pub source : Store → Option ℕ
source (sd rs1 rs2 low high) = some rs2
source (c_sd rs1 rs2 low high) = some (rs2 + 8)
source (c_sdsp rs2 offset) = none

looks_wide_odd : (m : Machine) (pc : ℕ) → looks_wide m pc ≡ truthy (byte m.memory pc % 2)
looks_wide_odd m pc = ap truthy (bit_and_mask 1 (byte m.memory pc))

or_eight : (i : ℕ) → i < 8 → bit_or i 8 ≡ i + 8
or_eight i p = ==→eq _ _ (all_below_lem 8 (λ i. bit_or i 8 == i + 8) i (unfold all_below in refl) p)

module _ (m : Machine) (pc : ℕ) where
  pub wide : load32 m.memory pc % 2 ≡ 1 → looks_wide m pc ≡ true
  wide e = looks_wide_odd m pc ∙ ground arith

  pub narrow : load16 m.memory pc % 2 ≡ 0 → looks_wide m pc ≡ false
  narrow e = looks_wide_odd m pc ∙ ground arith

  -- Where an encoding of `sd` or `c.sd` stands, with its fields in range, the decoder finds the data
  -- register; where a `c.sdsp` stands, it finds none.
  pub decode_sd-source :
      (s : Store) → IsEncodableStore s → IsAt m.memory pc s → decode_sd m pc ≡ ok (source s)
  unfolding decode_sd
  decode_sd-source (sd rs1 rs2 low high) fits at =
      rw (wide (omega arith), opcode, funct3, register) refl
    where
      word : ℕ
      word = load32 m.memory pc

      opcode : ins_field 0 7 word ≡ 0x23
      opcode = ins_field_lem 0 7 word (omega arith) ∙ omega arith

      funct3 : ins_field 12 3 word ≡ 3
      funct3 = ins_field_lem 12 3 word (omega arith) ∙ omega arith

      register : ins_field 20 5 word ≡ rs2
      register = ins_field_lem 20 5 word (omega arith) ∙ omega arith
  decode_sd-source (c_sd rs1 rs2 low high) fits at =
      rw
        (
          narrow (omega arith),
          bit_and_mask 2 (load16 m.memory pc),
          bit_and_mask 3 (load16 m.memory pc / 2 ^ 2),
          register,
          or_eight rs2 (omega arith),
        )
        (ground (arith, at))
    where
      register : load16 m.memory pc / 2 ^ 2 % 2 ^ 3 ≡ rs2
      register = omega arith
  decode_sd-source (c_sdsp rs2 offset) fits at =
      rw (narrow (omega arith), bit_and_mask 2 (load16 m.memory pc)) (ground (arith, at))

-- Where a `sd` or a `c.sd` stands at the pc, with its fields in range, the data is the entry of the
-- data register in the interrupted context; for x0 that entry is the pc.
pub get_store_data-source :
    (m : Machine) (s : Store) {rs2 : ℕ}
    → IsEncodableStore s
    → IsAt m.memory (m.regs 0) s
    → source s ≡ some rs2
    → get_store_data m ≡ ok (some (m.regs rs2))
unfolding get_store_data
get_store_data-source m s fits at e = rw (decode_sd-source m (m.regs 0) s fits at, e) refl
