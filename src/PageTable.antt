-- ===== src/PageTable.antt =====
-- src/urvirt-stub/riscv-priv.c, lookup_pa_in_ram: the walk of the guest's Sv39 page table.
pub mod Laws
pub mod Spec
pub mod Levels
pub mod Sound
pub mod Bounds
use urvirt.Common.{
  ℕ, zero, suc, ◌+◌, ◌-◌, ◌*◌, ◌/◌, ◌^◌, Bool, true, false, not, ◌&&◌, ◌||◌, ltb, leb, ◌==◌,
  if◌then◌else◌, Option, none, some, ◌<<<◌, ◌&&&◌, ◌|||◌, truthy,
}
use urvirt.Outcome.{Result, ok, stop, ebreak, no_return, ◌>>=◌}
use urvirt.Memory.{ram_start, ram_size, load64}
use urvirt.RiscvBits.{
  get_satp_mode, get_satp_ppn, satp_mode_bare, get_va_ppn0, get_va_ppn1, get_va_ppn2, get_va_off,
  get_pte_flags, get_pte_ppn, pte_v, pte_r, pte_w, pte_x,
}

-- `>>` on an `intptr_t`, as a bit pattern: the sign bit is copied in from above.
abbrev pub asr64 : ℕ → ℕ → ℕ
asr64 x k = if leb (2 ^ 63) x then x / 2 ^ k + (2 ^ 64 - 2 ^ (64 - k)) else x / 2 ^ k

-- `va_signed == (va_signed << (63 - 39) >> (63 - 39))`.
unfoldable pub is_sign_extended : ℕ → Bool
is_sign_extended va = va == asr64 (va <<< (63 - 39)) (63 - 39)

-- `vpn[level]`.
abbrev pub vpn : ℕ → ℕ → ℕ
vpn va level =
    if level == 0 then get_va_ppn0 va else if level == 1 then get_va_ppn1 va else get_va_ppn2 va

-- `fl(f)`.
unfoldable pub flag : ℕ → ℕ → Bool
flag entry f = truthy (get_pte_flags entry &&& f)

-- The loop, with the rounds left: `none` is `return false`, and `some` gives `*pa` and `*pte`.
unfoldable pub walk : (ℕ → ℕ) → ℕ → ℕ → ℕ → ℕ → Result (Option (ℕ × ℕ))
walk ram va zero level pt_addr = stop no_return
walk ram va (suc rounds) level pt_addr =
    if ltb pt_addr ram_start || leb (ram_start + ram_size) pt_addr
    then stop (ebreak "pt address out of range")
    else do
      entry ← load64 ram (pt_addr - ram_start + vpn va level * 8)
      if not (flag entry pte_v)
          then ok none
          else if not (flag entry pte_r) && flag entry pte_w
          then ok none
          else if ltb level 2
          then (if flag entry pte_r || flag entry pte_w || flag entry pte_x
              then stop (ebreak "Unimplemented large pages")
              else walk ram va rounds (level + 1) (get_pte_ppn entry <<< 12))
          else if flag entry pte_w && not (flag entry pte_r)
          then ok none
          else ok (some ((get_pte_ppn entry <<< 12) ||| get_va_off va, entry))

unfoldable pub lookup_pa_in_ram : ℕ → (ℕ → ℕ) → ℕ → Result (Option (ℕ × ℕ))
lookup_pa_in_ram satp ram va =
    if get_satp_mode satp == satp_mode_bare
    then ok (some (va, 0))
    else if not (is_sign_extended va)
    then ok none
    else walk ram va 3 0 (get_satp_ppn satp <<< 12)
