-- ===== src/Examples/Pages.antt =====
-- The theorems on translation and page faults, at a machine with a page table.
use urvirt.Common.{ℕ, ◌+◌, ◌-◌, ◌*◌, ◌^◌, ◌≤◌, ◌<◌, ◌≡◌, ◌↔◌, ◌⊎◌, refl, inl, true, some, arith}
use urvirt.Outcome.{ok}
use urvirt.Bits.{bit}
use urvirt.RiscvBits.{get_field}
use urvirt.Machine.{Machine}
use urvirt.PageTable.{is_sign_extended, lookup_pa_in_ram}
use urvirt.PageTable.Spec.{Reaches}
use urvirt.PageTable.Laws.{is_sign_extended_iff}
use urvirt.PageTable.Sound.{lookup_pa_in_ram_iff}
use urvirt.PageTable.Bounds.{IsAnswer, lookup_pa_in_ram-IsAnswer}
use urvirt.PageFault.{handle_page_fault, decode_sd, get_store_data, emulate_mmio}
use urvirt.PageFault.Mapping.{served, looked, handle_page_fault-served}
use urvirt.PageFault.Store.{sd, decode_sd-source, get_store_data-source}
use urvirt.PageFault.Device.{device, size_of, emulate_mmio-device}
use urvirt.Machine.{advance}
use urvirt.Outcome.{◌>>=◌}
use urvirt.Examples.Machines.{linux, tables, user, booted}

-- Sv39, with the root table at the start of RAM.
abbrev sv39 : ℕ
sv39 = 8 * 2 ^ 60 + 0x80000

abbrev paged : Machine
paged = record user { priv = record user.priv { satp = sv39 } }

sv39_mode : get_field 60 4 sv39 ≡ 8
sv39_mode = unfold get_field in refl

page_Reaches : Reaches sv39 tables 0x123 0x80003123 (0x80003 * 2 ^ 10 + 15)
unfolding bit
page_Reaches = record {
  root_in_ram = omega arith;
  first_pointer = (refl, refl, refl, refl);
  second_in_ram = omega arith;
  second_pointer = (refl, refl, refl, refl);
  third_in_ram = omega arith;
  leaf = inl (refl, inl refl, inl refl);
  found = refl;
  address = refl;
}

is_sign_extended_iff_example :
    (is_sign_extended 0x123 ≡ true) ↔ ((0x123 < 2 ^ 39) ⊎ (2 ^ 64 - 2 ^ 39 ≤ 0x123))
is_sign_extended_iff_example = is_sign_extended_iff 0x123 (omega arith)

lookup_pa_in_ram_iff_example :
    (lookup_pa_in_ram sv39 tables 0x123 ≡ ok (some (0x80003123, 0x80003 * 2 ^ 10 + 15))) ↔ (
      ((0x123 < 2 ^ 39) ⊎ (2 ^ 64 - 2 ^ 39 ≤ 0x123))
      × Reaches sv39 tables 0x123 0x80003123 (0x80003 * 2 ^ 10 + 15))
lookup_pa_in_ram_iff_example =
    lookup_pa_in_ram_iff sv39 tables 0x123 0x80003123 (0x80003 * 2 ^ 10 + 15) sv39_mode
      (omega arith)

-- The page is found.
found_page : lookup_pa_in_ram sv39 tables 0x123 ≡ ok (some (0x80003123, 0x80003 * 2 ^ 10 + 15))
found_page = lookup_pa_in_ram_iff_example.1 (inl (omega arith), page_Reaches)

lookup_pa_in_ram-IsAnswer_example : IsAnswer (lookup_pa_in_ram sv39 tables 0x1123)
lookup_pa_in_ram-IsAnswer_example = lookup_pa_in_ram-IsAnswer sv39 tables 0x1123

handle_page_fault-served_example :
    handle_page_fault linux paged 13 0x123
    ≡ served linux (looked linux paged) 13 0x123 (0x80003 * 2 ^ 10 + 15)
handle_page_fault-served_example =
    handle_page_fault-served linux paged 13 0x123 (0x80003 * 2 ^ 10 + 15) (omega arith) sv39_mode
      (inl (omega arith)) page_Reaches (omega arith)

-- `sd x5, 0(x6)` at address 4.
decode_sd-source_example : decode_sd booted 4 ≡ ok (some 5)
decode_sd-source_example = decode_sd-source booted 4 (sd 6 5 0 0) (omega arith) refl

get_store_data-source_example : get_store_data booted ≡ ok (some 5)
get_store_data-source_example = get_store_data-source booted (sd 6 5 0 0) (omega arith) refl refl

-- The number of a block is set to 5.
emulate_mmio-device_example :
    emulate_mmio linux booted 15 0x5008 0x10400008
    ≡ (do n ← device linux booted 0x10400008 5; ok (advance n (size_of (sd 6 5 0 0))))
emulate_mmio-device_example =
    emulate_mmio-device linux booted (sd 6 5 0 0) (omega arith) refl refl 0x5008 0x10400008 refl
