-- ===== src/PageFault.antt =====
-- src/urvirt-stub/riscv-priv.c: page faults, which map a page of RAM, go to the block device of
-- urvirt-block.h, or become a trap of the guest.
pub mod Invariant
pub mod Mapping
pub mod Store
pub mod Device
pub mod Transfer
pub mod Contained
use urvirt.Common.{
  ℕ, ◌+◌, ◌-◌, ◌*◌, ◌^◌, Bool, true, false, not, ◌&&◌, ◌||◌, ltb, leb, ◌==◌, if◌then◌else◌, Option,
  none, some, List, [], ◌∷◌, u64, u16, sub64, not64, ◌>>>◌, ◌<<<◌, ◌&&&◌, ◌|||◌, truthy,
}
use urvirt.Outcome.{Result, ok, stop, ebreak, no_return, ◌>>=◌}
use urvirt.Kernel.{Kernel}
use urvirt.Memory.{ram_start, ram_size, ram_fd, block_fd, byte, load16, load32}
use urvirt.Machine.{Machine, advance, call, log, print, s_mmap, s_munmap, s_pread64, s_pwrite64}
use urvirt.RiscvBits.{
  ins_opcode, ins_funct3, ins_rs2, opcode_store, get_pte_ppn, pte_r, pte_w, pte_x, scause_instr_pf,
  scause_load_pf, scause_store_pf, priv_s,
}
use urvirt.PageTable.{lookup_pa_in_ram, flag}
use urvirt.Trap.{enter_trap}

-- Flags of mmap(2).
abbrev pub prot_read : ℕ
prot_read = 1

abbrev pub prot_write : ℕ
prot_write = 2

abbrev pub prot_exec : ℕ
prot_exec = 4

abbrev pub map_shared : ℕ
map_shared = 1

abbrev pub map_fixed_noreplace : ℕ
map_fixed_noreplace = 0x100000

-- The registers and commands of the block device.
abbrev pub urvirt_block : ℕ
urvirt_block = 0x10400000

abbrev pub urvirt_block_command : ℕ
urvirt_block_command = 0

abbrev pub urvirt_block_block_id : ℕ
urvirt_block_block_id = 8

abbrev pub urvirt_block_buf : ℕ
urvirt_block_buf = 16

abbrev pub urvirt_block_cmd_read : ℕ
urvirt_block_cmd_read = 1

abbrev pub urvirt_block_cmd_write : ℕ
urvirt_block_cmd_write = 2

abbrev pub urvirt_block_size : ℕ
urvirt_block_size = 512

unfoldable pub lookup_pa : Kernel → Machine → ℕ → Result (Option (ℕ × ℕ) × Machine)
lookup_pa k m va =
    let mapped =
      call m (s_mmap 0 ram_size (prot_read ||| prot_write ||| prot_exec) map_shared ram_fd 0) in
    do
      res ← lookup_pa_in_ram m.priv.satp m.ram va
      ok (res, call mapped (s_munmap k.ram_address ram_size))

-- `(*pc) & 0b11 == 0b11`, which C reads as `(*pc) & (0b11 == 0b11)`.
abbrev pub looks_wide : Machine → ℕ → Bool
looks_wide m pc = truthy (byte m.memory pc &&& (if 0b11 == 0b11 then 1 else 0))

-- The number of the register that a store of a doubleword reads; `none` is -1.
unfoldable pub decode_sd : Machine → ℕ → Result (Option ℕ)
decode_sd m pc =
    if looks_wide m pc
    then (let instr = load32 m.memory pc in
        if ins_opcode instr == opcode_store
        then (if ins_funct3 instr == 0b011 then ok (some (ins_rs2 instr)) else ok none)
        else stop no_return)
    else let instr = load16 m.memory pc in
      let op = u16 (instr &&& 0b11) in
      let funct3 = u16 (instr >>> 13) in
      if op == 0b00 && funct3 == 0b111
      then ok (some (((instr >>> 2) &&& 0b111) ||| 8))
      else if op == 0b10 && funct3 == 0b011
      then ok (some ((instr >>> 2) &&& 0b11111))
      else ok none

unfoldable pub get_store_data : Machine → Result (Option ℕ)
get_store_data m = do
  rs2 ← decode_sd m (m.regs 0)
  ok (elim rs2 [ none ↦ none | some i ↦ some (m.regs i) ])

-- Past the emulated instruction.
abbrev pub skip_store : Machine → ℕ → Machine
skip_store m pc = if looks_wide m pc then advance m 4 else advance m 2

-- The branch for a page of RAM: denied by the entry's flags, or mapped with them.
unfoldable pub map_page : Kernel → Machine → (scause stval pte : ℕ) → Result Machine
map_page k m scause stval pte =
    let ppn = get_pte_ppn pte in
    if scause == scause_instr_pf && not (flag pte pte_x)
      || scause == scause_load_pf && not (flag pte pte_r)
      || scause == scause_store_pf && not (flag pte pte_w)
    then (if m.priv.priv_mode == priv_s
        then stop (ebreak "page permission denied in s mode")
        else ok (enter_trap (call m (log "page permission denied in u mode")) scause stval))
    else let read = if flag pte pte_r then prot_read else 0 in
      let write = if flag pte pte_w then read ||| prot_write else read in
      let flags = if flag pte pte_x then write ||| prot_exec else write in
      let addr = stval &&& not64 (2 ^ 12 - 1) in
      let offset = sub64 (ppn <<< 12) ram_start in
      if leb (2 ^ 63) (k.mmap_result addr flags offset)
      then stop (ebreak "Trying to mmap failed")
      else ok (call m (s_mmap addr 4096 flags (map_shared ||| map_fixed_noreplace) ram_fd offset))

-- The command register of the block device.
unfoldable pub block_command : Kernel → Machine → ℕ → Result Machine
block_command k m store_data =
    let id = m.priv.urvb_block_id in
    let buf = m.priv.urvb_buf in
    let offset = u64 (urvirt_block_size * id) in
    let m' = call m (print "urvirt block command" (store_data ∷ id ∷ buf ∷ [])) in
    if store_data == urvirt_block_cmd_read
    then ok (record m' {
      memory = k.pread_memory buf offset m.memory;
      ram = k.pread_ram buf offset m.ram;
      calls = s_pread64 block_fd buf urvirt_block_size offset ∷ m'.calls;
    })
    else if store_data == urvirt_block_cmd_write
    then ok (call m' (s_pwrite64 block_fd buf urvirt_block_size offset))
    else stop (ebreak "")

-- The branch for an address outside RAM. `store_data` is only read for a store.
unfoldable pub emulate_mmio : Kernel → Machine → (scause stval pa : ℕ) → Result Machine
emulate_mmio k m scause stval pa =
    let pc = m.regs 0 in
    let is_store = scause == scause_store_pf in
    do
      store_data ←
          if is_store
          then (do
            found ← get_store_data m
            elim found [ none ↦ stop (ebreak "Failed to get MMIO store data") | some v ↦ ok v ])
          else ok 0
      if pa == urvirt_block + urvirt_block_command && is_store
          then (do m' ← block_command k m store_data; ok (skip_store m' pc))
          else if pa == urvirt_block + urvirt_block_block_id && is_store
          then ok (skip_store (record m { priv = record m.priv { urvb_block_id = store_data } }) pc)
          else if pa == urvirt_block + urvirt_block_buf && is_store
          then ok (skip_store (record m { priv = record m.priv { urvb_buf = store_data } }) pc)
          else (do _ ← decode_sd m pc; stop (ebreak "Page fault cannot handle"))

unfoldable pub handle_page_fault : Kernel → Machine → (scause stval : ℕ) → Result Machine
handle_page_fault k m scause stval = do
  (found, m') ← lookup_pa k m stval
  elim found [
    | none ↦ ok (enter_trap m' scause stval)
    | some (pa, pte) ↦
        if pte == 0
        then stop (ebreak "someone turned off translation")
        else if leb ram_start pa && ltb pa (ram_start + ram_size)
        then map_page k m' scause stval pte
        else emulate_mmio k m' scause stval pa
  ]
