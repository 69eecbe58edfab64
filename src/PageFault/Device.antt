-- ===== src/PageFault/Device.antt =====
-- The block device of urvirt-block.h, as a store to one of its registers drives it.
use urvirt.Common.{
  ℕ, ◌*◌, ◌≡◌, refl, ap, ◌==◌, if◌then◌else◌, Bool-cases, inl, inr, some, [], ◌∷◌, u64, arith,
}
use urvirt.Outcome.{Result, ok, stop, ebreak, ◌>>=◌}
use urvirt.Kernel.{Kernel}
use urvirt.Memory.{block_fd}
use urvirt.Machine.{Machine, advance, call, print, s_pread64, s_pwrite64}
use urvirt.PageFault.{emulate_mmio, get_store_data, block_command, looks_wide, skip_store}
use urvirt.PageFault.Store.{
  Store, sd, c_sd, c_sdsp, IsEncodableStore, IsAt, source, decode_sd-source, get_store_data-source,
  wide, narrow,
}

-- Where block `id` starts in the file.
abbrev pub block_offset : Machine → ℕ
block_offset m = u64 (512 * m.priv.urvb_block_id)

abbrev pub announced : Machine → ℕ → Machine
announced m v =
    call m (print "urvirt block command" (v ∷ m.priv.urvb_block_id ∷ m.priv.urvb_buf ∷ []))

-- The 512 bytes of the block are read into the buffer, or written from it, by one system call.
abbrev pub block_read : Kernel → Machine → ℕ → Machine
block_read k m v = record m {
  memory = k.pread_memory m.priv.urvb_buf (block_offset m) m.memory;
  ram = k.pread_ram m.priv.urvb_buf (block_offset m) m.ram;
  calls = s_pread64 block_fd m.priv.urvb_buf 512 (block_offset m) ∷ (announced m v).calls;
}

abbrev pub block_written : Machine → ℕ → Machine
block_written m v = call (announced m v) (s_pwrite64 block_fd m.priv.urvb_buf 512 (block_offset m))

-- A store of `v` to the device: at 0 a command, at 8 the number of a block, at 16 the address of a
-- buffer; there is nothing else.
abbrev pub device : Kernel → Machine → (pa v : ℕ) → Result Machine
device k m pa v =
    if pa == 0x10400000
    then (if v == 1
        then ok (block_read k m v)
        else if v == 2
        then ok (block_written m v)
        else stop (ebreak ""))
    else if pa == 0x10400008
    then ok (record m { priv = record m.priv { urvb_block_id = v } })
    else if pa == 0x10400010
    then ok (record m { priv = record m.priv { urvb_buf = v } })
    else stop (ebreak "Page fault cannot handle")

abbrev pub size_of : Store → ℕ
size_of (sd rs1 rs2 low high) = 4
size_of _ = 2

looks_wide-memory :
    (n m : Machine) (pc : ℕ)
    → n.memory (u64 pc) ≡ m.memory (u64 pc)
    → looks_wide n pc ≡ looks_wide m pc
looks_wide-memory n m pc e = rw e refl

skip_store-size :
    (m : Machine) (pc : ℕ) (s : Store)
    → IsEncodableStore s
    → IsAt m.memory pc s
    → (n : Machine) → n.memory (u64 pc) ≡ m.memory (u64 pc)
    → skip_store n pc ≡ advance n (size_of s)
skip_store-size m pc (sd rs1 rs2 low high) fits at n same =
    rw (looks_wide-memory n m pc same, wide m pc (omega arith)) refl
skip_store-size m pc (c_sd rs1 rs2 low high) fits at n same =
    rw (looks_wide-memory n m pc same, narrow m pc (omega arith)) refl
skip_store-size m pc (c_sdsp rs2 offset) fits at n same =
    rw (looks_wide-memory n m pc same, narrow m pc (omega arith)) refl

module _ (k : Kernel) (m : Machine) (s : Store) (fits : IsEncodableStore s)
    (at : IsAt m.memory (m.regs 0) s) where
  -- A read of the block leaves the instruction alone.
  abbrev pub IsKept : Type 0
  IsKept =
      k.pread_memory m.priv.urvb_buf (block_offset m) m.memory (u64 (m.regs 0))
      ≡ m.memory (u64 (m.regs 0))

  skip :
      (n : Machine)
      → n.memory (u64 (m.regs 0)) ≡ m.memory (u64 (m.regs 0))
      → ok (skip_store n (m.regs 0)) ≡ ok (advance n (size_of s))
  skip n same = ap ok (skip_store-size m (m.regs 0) s fits at n same)

  command :
      (v : ℕ)
      → IsKept
      → (do n ← block_command k m v; ok (skip_store n (m.regs 0)))
        ≡ (do n ← device k m 0x10400000 v; ok (advance n (size_of s)))
  unfolding block_command
  command v kept = elim (Bool-cases (v == 1)) [
    | inl e ↦ rw e (skip (block_read k m v) kept)
    | inr e ↦ elim (Bool-cases (v == 2)) [
      | inl f ↦ rw (e, f) (skip (block_written m v) refl)
      | inr f ↦ rw (e, f) refl
    ]
  ]

  -- What a store does to the device, where only a command may touch the instruction.
  pub emulate_mmio-store :
      (stval pa : ℕ) {rs2 : ℕ}
      → (pa ≡ 0x10400000 → IsKept)
      → source s ≡ some rs2
      → emulate_mmio k m 15 stval pa
        ≡ (do n ← device k m pa (m.regs rs2); ok (advance n (size_of s)))
  unfolding emulate_mmio
  emulate_mmio-store stval pa {rs2} kept e = elim (Bool-cases (pa == 0x10400000)) [
    | inl a ↦ rw (data_of, a) (command (m.regs rs2) (kept (ground (arith, a))))
    | inr a ↦ elim (Bool-cases (pa == 0x10400008)) [
      | inl b ↦
          rw (data_of, a, b)
            (skip (record m { priv = record m.priv { urvb_block_id = m.regs rs2 } }) refl)
      | inr b ↦ elim (Bool-cases (pa == 0x10400010)) [
        | inl c ↦
            rw (data_of, a, b, c)
              (skip (record m { priv = record m.priv { urvb_buf = m.regs rs2 } }) refl)
        | inr c ↦ rw (data_of, a, b, c, decode_sd-source m (m.regs 0) s fits at) refl
      ]
    ]
  ]
    where
      data_of : get_store_data m ≡ ok (some (m.regs rs2))
      data_of = get_store_data-source m s fits at e

  -- Where an encoding of `sd` or `c.sd` stands at the pc, with its fields in range, and a read of the
  -- block leaves the instruction alone, a store fault outside RAM does to the device what the register
  -- at the physical address asks for, with the data register's value, and moves the pc past the
  -- instruction; a wrong command or another address is a stop.
  pub emulate_mmio-device :
      IsKept
      → (stval pa : ℕ) {rs2 : ℕ} → source s ≡ some rs2
      → emulate_mmio k m 15 stval pa
        ≡ (do n ← device k m pa (m.regs rs2); ok (advance n (size_of s)))
  emulate_mmio-device kept stval pa e = emulate_mmio-store stval pa (λ _. kept) e
