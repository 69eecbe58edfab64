-- ===== src/PageFault/Mapping.antt =====
-- What a page fault on a translated page of RAM comes to.
use urvirt.Common.{
  ℕ, ◌+◌, ◌-◌, ◌*◌, ◌/◌, ◌^◌, ◌≤◌, ◌<◌, ◌≡◌, refl, ap, ◌∙◌, ◌⊎◌, Bool, true, false, not, ◌&&◌, ◌||◌,
  ◌==◌, ltb, leb, if◌then◌else◌, sub64, u64, arith, bit_or,
}
use urvirt.Bits.{bit, clear_low12}
use urvirt.Outcome.{Result, ok, stop, ebreak}
use urvirt.Kernel.{Kernel}
use urvirt.Memory.{ram_start, ram_size, ram_fd}
use urvirt.Machine.{Machine, call, log, s_mmap, s_munmap}
use urvirt.RiscvBits.{get_satp_mode, get_field, priv_s}
use urvirt.PageTable.Laws.{flag_r, flag_w, flag_x}
use urvirt.PageTable.Spec.{InRam, page_of, third, Reaches}
use urvirt.PageTable.Levels.{next_table}
use urvirt.PageTable.Sound.{lookup_pa_in_ram_iff}
use urvirt.Trap.{enter_trap}
use urvirt.PageFault.{lookup_pa, map_page, handle_page_fault, map_shared, map_fixed_noreplace}

-- What a leaf entry allows: a fetch needs X, a load R, a store W.
abbrev pub permits : ℕ → ℕ → Bool
permits scause pte =
    if scause == 12
    then bit pte 3 == 1
    else if scause == 13
    then bit pte 1 == 1
    else if scause == 15
    then bit pte 2 == 1
    else true

-- The protection of a mapping, with the rights of the entry.
abbrev pub prot_of : ℕ → ℕ
prot_of pte =
    (if bit pte 1 == 1 then 1 else 0)
    + (if bit pte 2 == 1 then 2 else 0)
    + (if bit pte 3 == 1 then 4 else 0)

-- The machine after a look into the page table, for which the RAM is mapped and unmapped.
abbrev pub looked : Kernel → Machine → Machine
looked k m =
    call (call m (s_mmap 0 ram_size 7 map_shared ram_fd 0)) (s_munmap k.ram_address ram_size)

-- What the fault comes to: the page of RAM that the entry names is mapped at the page of `stval`
-- with the rights of the entry; but a fault that the entry does not permit is the guest's own, for
-- its kernel to handle, and if the kernel itself has it the stub stops.
abbrev pub served : Kernel → Machine → (scause stval pte : ℕ) → Result Machine
served k m scause stval pte =
    let at_page = stval / 4096 * 4096 in
    let offset = page_of pte - ram_start in
    if permits scause pte
    then (if leb (2 ^ 63) (k.mmap_result at_page (prot_of pte) offset)
        then stop (ebreak "Trying to mmap failed")
        else ok (
            call m (
              s_mmap at_page 4096 (prot_of pte) (bit_or map_shared map_fixed_noreplace) ram_fd
                offset)))
    else if m.priv.priv_mode == priv_s
    then stop (ebreak "page permission denied in s mode")
    else ok (enter_trap (call m (log "page permission denied in u mode")) scause stval)

denied_table :
    (scause : ℕ) (r w x : Bool)
    → (scause == 12 && not x || scause == 13 && not r || scause == 15 && not w)
      ≡ not
          (if scause == 12 then x else if scause == 13 then r else if scause == 15 then w else true)
denied_table scause true true true = ground arith
denied_table scause true true false = ground arith
denied_table scause true false true = ground arith
denied_table scause true false false = ground arith
denied_table scause false true true = ground arith
denied_table scause false true false = ground arith
denied_table scause false false true = ground arith
denied_table scause false false false = ground arith

if_not {ℓ} : {A : Type ℓ} (b : Bool) (x y : A) → (if not b then x else y) ≡ (if b then y else x)
if_not true x y = refl
if_not false x y = refl

prot_table :
    (r w x : Bool)
    → (let read = if r then 1 else 0 in
        let write = if w then bit_or read 2 else read in if x then bit_or write 4 else write)
      ≡ (if r then 1 else 0) + (if w then 2 else 0) + (if x then 4 else 0)
prot_table true true true = refl
prot_table true true false = refl
prot_table true false true = refl
prot_table true false false = refl
prot_table false true true = refl
prot_table false true false = refl
prot_table false false true = refl
prot_table false false false = refl

module _ (k : Kernel) (m : Machine) (scause stval pte : ℕ) (word : stval < 2 ^ 64) where
  page_offset :
      ram_start ≤ page_of pte
      → sub64 (u64 (get_field 10 44 pte * 2 ^ 12)) ram_start ≡ page_of pte - ram_start
  page_offset h = ap (λ t. sub64 t ram_start) (next_table pte) ∙ omega arith

  pub map_page-served :
      ram_start ≤ page_of pte → map_page k m scause stval pte ≡ served k m scause stval pte
  unfolding map_page
  map_page-served h =
      rw
        (
          page_offset h,
          clear_low12 stval word,
          flag_r pte,
          flag_w pte,
          flag_x pte,
          prot_table (bit pte 1 == 1) (bit pte 2 == 1) (bit pte 3 == 1),
          denied_table scause (bit pte 1 == 1) (bit pte 2 == 1) (bit pte 3 == 1),
        )
        (if_not (permits scause pte) _ _)

-- An entry that is valid is not 0.
nonzero : (e : ℕ) → bit e 0 ≡ 1 → (e == 0) ≡ false
nonzero e v = ground (arith, ap (λ t. bit t 0) {x = e} {y = 0}, bit_zero)
  where
    bit_zero : bit 0 0 ≡ 0
    bit_zero = unfold bit in refl

module _ (k : Kernel) (m : Machine) (scause stval pte : ℕ) (word : stval < 2 ^ 64) where
  -- With Sv39 on, a fault at a 64-bit address that passes the 40-bit sign check, and from which the
  -- page table leads to an entry for a page of RAM, maps that page with the rights of the entry, if
  -- the entry permits the access. Else it is the guest's own fault in user mode; but in S mode, where
  -- it should be that too, it is a stop. A refused mapping is a stop.
  pub handle_page_fault-served :
      {pa : ℕ}
      → get_satp_mode m.priv.satp ≡ 8
      → (stval < 2 ^ 39) ⊎ (2 ^ 64 - 2 ^ 39 ≤ stval)
      → Reaches m.priv.satp m.ram stval pa pte
      → InRam (page_of pte)
      → handle_page_fault k m scause stval ≡ served k (looked k m) scause stval pte
  unfolding handle_page_fault lookup_pa
  handle_page_fault-served {pa} mode sign t range =
      rw ((lookup_pa_in_ram_iff m.priv.satp m.ram stval pa pte mode word).1 (sign, t))
        (rw (valid, in_range) (map_page-served k (looked k m) scause stval pte word range.0))
    where
      valid_bit : bit (third m.priv.satp m.ram stval) 0 ≡ 1
      valid_bit = ground (arith, t.leaf)

      valid : (pte == 0) ≡ false
      valid = nonzero pte (ap (λ e. bit e 0) t.found ∙ valid_bit)

      in_range : (leb ram_start pa && ltb pa (ram_start + ram_size)) ≡ true
      in_range = ground (arith, t.address, ap page_of t.found, range)
