-- ===== src/PageTable/Levels.antt =====
-- One round of the walk.
use urvirt.Common.{
  ℕ, suc, ◌+◌, ◌-◌, ◌*◌, ◌/◌, ◌%◌, ◌^◌, ◌≤◌, ◌<◌, ◌≡◌, ◌⊎◌, sym, ◌∙◌, inl, inr, false, not, ◌&&◌,
  ◌||◌, ◌==◌, leb, ltb, if◌then◌else◌, Bool-cases, arith, Option, none, some, bit_or, u64,
}
use urvirt.Bits.{bit, bit-lt, bit_or_fields}
use urvirt.RiscvBits.{get_field, get_field_lem, get_field-lt}
use urvirt.Outcome.{Result, ok, stop, ebreak}
use urvirt.Memory.{ram_start, ram_size, load64}
use urvirt.PageTable.{walk, vpn}
use urvirt.PageTable.Laws.{flag_v, flag_r, flag_w, flag_x}
use urvirt.PageTable.Spec.{InRam, slot, page_of, IsPointer, IsLast}

load64-ok :
    (ram : ℕ → ℕ) (offset : ℕ)
    → offset + 8 ≤ ram_size
    → offset % 8 ≡ 0
    → load64 ram offset ≡ ok (ram offset)
unfolding load64
load64-ok ram offset h a = ground arith

vpn-lt : (va level : ℕ) → vpn va level < 512
vpn-lt va level = ground (
  arith,
  get_field-lt 30 9 va (omega arith),
  get_field-lt 21 9 va (omega arith),
  get_field-lt 12 9 va (omega arith),
)

-- A page-aligned table in RAM lies within it whole.
pub load64-slot :
    (ram : ℕ → ℕ) (va level table : ℕ)
    → InRam table
    → table % 4096 ≡ 0
    → load64 ram (table - ram_start + vpn va level * 8) ≡ ok (slot ram table (vpn va level))
load64-slot ram va level table h a =
    load64-ok ram (table - ram_start + vpn va level * 8) (omega (arith, vpn-lt va level))
      (omega arith)

pub next_table : (e : ℕ) → u64 (get_field 10 44 e * 2 ^ 12) ≡ page_of e
next_table e = omega (arith, get_field_lem 10 44 e)

-- The round once the table is known to be in RAM, with the flags as bits of the entry.
unfoldable pub visit : (ℕ → ℕ) → ℕ → ℕ → ℕ → ℕ → Result (Option (ℕ × ℕ))
visit ram va rounds level e =
    if not (bit e 0 == 1)
    then ok none
    else if not (bit e 1 == 1) && bit e 2 == 1
    then ok none
    else if ltb level 2
    then (if bit e 1 == 1 || bit e 2 == 1 || bit e 3 == 1
        then stop (ebreak "Unimplemented large pages")
        else walk ram va rounds (level + 1) (page_of e))
    else if bit e 2 == 1 && not (bit e 1 == 1)
    then ok none
    else ok (some (bit_or (page_of e) (get_field 0 12 va), e))

leaf_address : (e va : ℕ) → bit_or (page_of e) (get_field 0 12 va) ≡ page_of e + va % 2 ^ 12
leaf_address e va =
    bit_or_fields 12 (e / 2 ^ 10 % 2 ^ 44) (get_field 0 12 va) (get_field-lt 0 12 va (omega arith))
    ∙ omega (arith, get_field_lem 0 12 va)

module _ (ram : ℕ → ℕ) (va rounds level table : ℕ) (aligned : table % 4096 ≡ 0) where
  abbrev pub entry : ℕ
  entry = slot ram table (vpn va level)

  pub walk-visit :
      InRam table → walk ram va (suc rounds) level table ≡ visit ram va rounds level entry
  unfolding walk visit
  walk-visit h = rw (
    below,
    above,
    load64-slot ram va level table h aligned,
    flag_v entry,
    flag_r entry,
    flag_w entry,
    flag_x entry,
    next_table entry,
  )
    where
      below : ltb table ram_start ≡ false
      below = ground arith

      above : leb (ram_start + ram_size) table ≡ false
      above = ground arith

  pub InRam-cases :
      InRam table ⊎ (walk ram va (suc rounds) level table ≡ stop (ebreak "pt address out of range"))
  unfolding walk
  InRam-cases = elim (Bool-cases (ltb table ram_start || leb (ram_start + ram_size) table)) [
    | inl t ↦ inr (rw t)
    | inr t ↦ inl (ground arith)
  ]

  InRam-of_ok : {r : Option (ℕ × ℕ)} → walk ram va (suc rounds) level table ≡ ok r → InRam table
  InRam-of_ok e = elim InRam-cases [ inl h ↦ h | inr t ↦ absurd (cc (sym t ∙ e)) ]

  pub level-inv :
      (res : ℕ × ℕ)
      → level < 2
      → walk ram va (suc rounds) level table ≡ ok (some res)
      → InRam table
        × IsPointer entry
        × (walk ram va rounds (level + 1) (page_of entry) ≡ ok (some res))
  level-inv res h e =
      let in_ram = InRam-of_ok e in
      let (p, rest) = visit-inv entry (sym (walk-visit in_ram) ∙ e) in (in_ram, p, rest)
    where
      visit-inv :
          (t : ℕ)
          → visit ram va rounds level t ≡ ok (some res)
          → IsPointer t × (walk ram va rounds (level + 1) (page_of t) ≡ ok (some res))
      visit-inv t q = unfold visit in ground (arith, bit-lt t 0, bit-lt t 1, bit-lt t 2, bit-lt t 3)

  pub level-intro :
      level < 2
      → InRam table
      → IsPointer entry
      → walk ram va (suc rounds) level table ≡ walk ram va rounds (level + 1) (page_of entry)
  level-intro h in_ram p = walk-visit in_ram ∙ (unfold visit in ground arith)

  pub IsLast-inv :
      (pa pte : ℕ)
      → level ≡ 2
      → walk ram va (suc rounds) level table ≡ ok (some (pa, pte))
      → InRam table × IsLast entry × (pte ≡ entry) × (pa ≡ page_of entry + va % 2 ^ 12)
  IsLast-inv pa pte h e =
      let in_ram = InRam-of_ok e in
      let (p, same, address) = visit_last entry (sym (walk-visit in_ram) ∙ e) in
      (in_ram, p, same, address)
    where
      visit_last :
          (t : ℕ)
          → visit ram va rounds level t ≡ ok (some (pa, pte))
          → IsLast t × (pte ≡ t) × (pa ≡ page_of t + va % 2 ^ 12)
      visit_last t q =
          unfold visit in
          ground (arith, bit-lt t 0, bit-lt t 1, bit-lt t 2, bit-lt t 3, leaf_address t va)

  pub IsLast-intro :
      level ≡ 2
      → InRam table
      → IsLast entry
      → walk ram va (suc rounds) level table ≡ ok (some (page_of entry + va % 2 ^ 12, entry))
  IsLast-intro h in_ram p =
      walk-visit in_ram ∙ (unfold visit in ground (arith, bit-lt entry 3, leaf_address entry va))
