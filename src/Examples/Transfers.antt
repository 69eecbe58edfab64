-- ===== src/Examples/Transfers.antt =====
-- A driver of the block device: its page is at 0, and three stores stand at 4.
use urvirt.Common.{ℕ, ◌+◌, ◌*◌, ◌^◌, ◌≡◌, refl, inl, some, ◌==◌, if◌then◌else◌, arith}
use urvirt.Outcome.{ok, ◌>>=◌}
use urvirt.RiscvBits.{get_field}
use urvirt.Machine.{Machine}
use urvirt.Memory.{load64}
use urvirt.PageTable.{lookup_pa_in_ram, walk, flag, is_sign_extended}
use urvirt.PageFault.{handle_page_fault}
use urvirt.PageFault.Store.{sd}
use urvirt.PageFault.Transfer.{IsTransferred, faults-IsTransferred}
use urvirt.Examples.Machines.{linux, tables, booted}

abbrev device_tables : ℕ → ℕ
device_tables offset = if offset == 0x2000 then 0x10400 * 2 ^ 10 + 15 else tables offset

-- `sd x5, 8(x6)`, `sd x7, 16(x6)`, `sd x1, 0(x6)`, and the registers hold their numbers, so that the
-- third is a read.
abbrev stores : ℕ → ℕ
stores a =
    if a == 4
    then 0x23
    else if a == 5
    then 0x34
    else if a == 6
    then 0x53
    else if a == 8
    then 0x23
    else if a == 9
    then 0x38
    else if a == 10
    then 0x73
    else if a == 12
    then 0x23
    else if a == 13
    then 0x30
    else if a == 14
    then 0x13
    else 0

abbrev driver : Machine
driver = record booted {
  priv = record booted.priv { satp = 8 * 2 ^ 60 + 0x80000 };
  ram = device_tables;
  memory = stores;
}

lookup_block_id :
    lookup_pa_in_ram driver.priv.satp device_tables 8 ≡ ok (some (0x10400008, 0x410000f))
unfolding lookup_pa_in_ram walk load64 get_field flag is_sign_extended
lookup_block_id = refl

lookup_buf : lookup_pa_in_ram driver.priv.satp device_tables 16 ≡ ok (some (0x10400010, 0x410000f))
unfolding lookup_pa_in_ram walk load64 get_field flag is_sign_extended
lookup_buf = refl

lookup_command :
    lookup_pa_in_ram driver.priv.satp device_tables 0 ≡ ok (some (0x10400000, 0x410000f))
unfolding lookup_pa_in_ram walk load64 get_field flag is_sign_extended
lookup_command = refl

faults-IsTransferred_example :
    (n : Machine) × ((do
      m' ← handle_page_fault linux driver 15 8
      m'' ← handle_page_fault linux m' 15 16
      handle_page_fault linux m'' 15 0)
      ≡ ok n)
    × IsTransferred linux driver n 5 7 1 16
faults-IsTransferred_example =
    faults-IsTransferred linux driver (sd 6 5 8 0) (sd 6 7 16 0) (sd 6 1 0 0) 8 16 0 0x410000f
      0x410000f 0x410000f 5 7 1
      (record {
        fits = omega arith;
        at = refl;
        data_in = refl;
        nonzero = refl;
        translated = lookup_block_id;
        entry = refl;
      })
      (record {
        fits = omega arith;
        at = refl;
        data_in = refl;
        nonzero = refl;
        translated = lookup_buf;
        entry = refl;
      })
      (record {
        fits = omega arith;
        at = refl;
        data_in = refl;
        nonzero = refl;
        translated = lookup_command;
        entry = refl;
      })
      refl (inl refl)
