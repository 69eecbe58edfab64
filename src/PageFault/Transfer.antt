-- ===== src/PageFault/Transfer.antt =====
-- A transfer with the block device: the three stores by which the guest's driver asks for it.
use urvirt.Common.{
  ℕ, ◌+◌, ◌*◌, ◌<◌, ◌≡◌, refl, ap, ◌∙◌, ◌⊎◌, inl, inr, false, ◌==◌, if◌then◌else◌, some, List, ◌∷◌,
  u64, arith, leb,
}
use urvirt.Outcome.{ok, ◌>>=◌}
use urvirt.Kernel.{Kernel}
use urvirt.Memory.{block_fd, ram_start}
use urvirt.Machine.{Machine, Syscall, advance, call, s_mmap, s_munmap, s_pread64, s_pwrite64}
use urvirt.PageTable.{lookup_pa_in_ram}
use urvirt.PageFault.{lookup_pa, handle_page_fault}
use urvirt.PageFault.Store.{Store, IsEncodableStore, IsAt, source}
use urvirt.PageFault.Device.{
  device, size_of, emulate_mmio-store, block_read, block_written, announced,
}

-- The page table is looked up, in a mapping of RAM.
abbrev looked_up : Kernel → Machine → Machine
looked_up k m = call (call m (s_mmap 0 0x1000000 7 1 65 0)) (s_munmap k.ram_address 0x1000000)

-- A store at `pc` from a register other than x0 to a register of the device, which the page table has
-- at `va`.
pub record IsDeviceStore (m : Machine) (pc : ℕ) (s : Store) (va pa pte rs2 : ℕ) : Type 0 where
  pub fits : IsEncodableStore s
  pub at : IsAt m.memory pc s
  pub data_in : source s ≡ some rs2
  pub nonzero : rs2 == 0 ≡ false
  pub translated : lookup_pa_in_ram m.priv.satp m.ram va ≡ ok (some (pa, pte))
  pub entry : pte == 0 ≡ false

fault-device :
    (k : Kernel) (m : Machine) (s : Store) (va pa pte rs2 : ℕ)
    → IsDeviceStore m (m.regs 0) s va pa pte rs2
    → pa < 0x80000000
    → (pa ≡ 0x10400000
        → k.pread_memory m.priv.urvb_buf
            (u64 (512 * m.priv.urvb_block_id))
            m.memory
            (u64 (m.regs 0))
          ≡ m.memory (u64 (m.regs 0)))
    → handle_page_fault k m 15 va
      ≡ (do n ← device k (looked_up k m) pa (m.regs rs2); ok (advance n (size_of s)))
unfolding handle_page_fault lookup_pa
fault-device k m s va pa pte rs2 h low kept =
    rw (h.translated, h.entry, outside)
      (emulate_mmio-store k (looked_up k m) s h.fits h.at va pa kept h.data_in)
  where
    outside : leb ram_start pa ≡ false
    outside = ground arith

-- The block with the number `id` went to the buffer or came from it, by one system call, and the
-- guest goes on at `pc`.
pub record IsTransferred (k : Kernel) (m n : Machine) (id buf command pc : ℕ) : Type 0 where
  pub priv : n.priv ≡ record m.priv { urvb_block_id = id; urvb_buf = buf }
  pub pc_after : n.regs 0 ≡ pc
  pub registers : (i : ℕ) → i == 0 ≡ false → n.regs i ≡ m.regs i
  pub memory :
      n.memory ≡ (if command == 1 then k.pread_memory buf (u64 (512 * id)) m.memory else m.memory)
  pub ram : n.ram ≡ (if command == 1 then k.pread_ram buf (u64 (512 * id)) m.ram else m.ram)
  pub before : List Syscall
  pub calls :
      n.calls
      ≡ (if command == 1
          then s_pread64 block_fd buf 512 (u64 (512 * id))
          else s_pwrite64 block_fd buf 512 (u64 (512 * id)))
        ∷ before

module _ (k : Kernel) (m : Machine) (s1 s2 s3 : Store) (va1 va2 va3 e1 e2 e3 r1 r2 r3 : ℕ) where
  abbrev pc2 : ℕ
  pc2 = u64 (m.regs 0 + size_of s1)

  abbrev pc3 : ℕ
  pc3 = u64 (pc2 + size_of s2)

  abbrev m1 : Machine
  m1 =
      let t = looked_up k m in
      advance (record t { priv = record t.priv { urvb_block_id = m.regs r1 } }) (size_of s1)

  abbrev m2 : Machine
  m2 =
      let t = looked_up k m1 in
      advance (record t { priv = record t.priv { urvb_buf = m.regs r2 } }) (size_of s2)

  module _ (h1 : IsDeviceStore m (m.regs 0) s1 va1 0x10400008 e1 r1)
      (h2 : IsDeviceStore m pc2 s2 va2 0x10400010 e2 r2)
      (h3 : IsDeviceStore m pc3 s3 va3 0x10400000 e3 r3) where
    first : handle_page_fault k m 15 va1 ≡ ok m1
    first = fault-device k m s1 va1 0x10400008 e1 r1 h1 (omega arith) (λ e. absurd (omega arith))

    second : handle_page_fault k m1 15 va2 ≡ ok m2
    second =
        fault-device k m1 s2 va2 0x10400010 e2 r2
          (record {
            fits = h2.fits;
            at = h2.at;
            data_in = h2.data_in;
            nonzero = h2.nonzero;
            translated = h2.translated;
            entry = h2.entry;
          })
          (omega arith) (λ e. absurd (omega arith))
        ∙ ap
            (λ v.
              let t = looked_up k m1 in
              ok (advance (record t { priv = record t.priv { urvb_buf = v } }) (size_of s2)))
            same
      where
        same : m1.regs r2 ≡ m.regs r2
        same = ground (arith, h2.nonzero)

    -- The data of the third store is what it was before the first.
    command_kept : m2.regs r3 ≡ m.regs r3
    command_kept = ground (arith, h3.nonzero)

    commanded :
        (v : ℕ)
        → (v ≡ 1) ⊎ (v ≡ 2)
        → (n : Machine) × ((do
          n ← device k (looked_up k m2) 0x10400000 v
          ok (advance n (size_of s3)))
            ≡ ok n)
          × IsTransferred k m n (m.regs r1) (m.regs r2) v (u64 (pc3 + size_of s3))
    commanded v (inl e) = (
      advance (block_read k (looked_up k m2) v) (size_of s3),
      rw e refl,
      record {
        priv = refl;
        pc_after = refl;
        registers = λ i nonzero. ground arith;
        memory = rw e refl;
        ram = rw e refl;
        before = (announced (looked_up k m2) v).calls;
        calls = rw e refl;
      },
    )
    commanded v (inr e) = (
      advance (block_written (looked_up k m2) v) (size_of s3),
      rw e refl,
      record {
        priv = refl;
        pc_after = refl;
        registers = λ i nonzero. ground arith;
        memory = rw e refl;
        ram = rw e refl;
        before = (announced (looked_up k m2) v).calls;
        calls = rw e refl;
      },
    )

    module _
        (kept : k.pread_memory (m.regs r2) (u64 (512 * m.regs r1)) m.memory (u64 pc3)
          ≡ m.memory (u64 pc3)) where
      third :
          handle_page_fault k m2 15 va3
          ≡ (do n ← device k (looked_up k m2) 0x10400000 (m.regs r3); ok (advance n (size_of s3)))
      third =
          fault-device k m2 s3 va3 0x10400000 e3 r3
            (record {
              fits = h3.fits;
              at = h3.at;
              data_in = h3.data_in;
              nonzero = h3.nonzero;
              translated = h3.translated;
              entry = h3.entry;
            })
            (omega arith) (λ _. kept)
          ∙ ap (λ v. do n ← device k (looked_up k m2) 0x10400000 v; ok (advance n (size_of s3)))
              command_kept

      -- Three stores in a row, each of a register other than x0 and at an address that the page table
      -- has at a register of the device: the number of a block, the address of a buffer, and a command
      -- to read or to write. When the read leaves the third instruction alone, the three faults are
      -- all served: one system call moves that block's 512 bytes between the file and that buffer, and
      -- the guest goes on after the third store, with its registers as they were.
      pub faults-IsTransferred :
          (m.regs r3 ≡ 1) ⊎ (m.regs r3 ≡ 2)
          → (n : Machine) × ((do
            m' ← handle_page_fault k m 15 va1
            m'' ← handle_page_fault k m' 15 va2
            handle_page_fault k m'' 15 va3)
              ≡ ok n)
            × IsTransferred k m n (m.regs r1) (m.regs r2) (m.regs r3) (u64 (pc3 + size_of s3))
      faults-IsTransferred is_command =
          let done = commanded (m.regs r3) is_command in
          (done.0, rw (first, second) (third ∙ done.1), done.2)
