-- ===== src/RiscvBits/Examples.antt =====
-- The theorems on the fields, at words of sstatus.
use urvirt.Common.{◌==◌, ◌≡◌, refl, if◌then◌else◌, arith}
use urvirt.RiscvBits.Layouts.{
  Bitfield, sstatus, get_bitfield, set_bitfield, get_bitfield-set_bitfield,
}

abbrev fs : Bitfield
fs = record { start = 13; width = 2 }

abbrev spp : Bitfield
spp = record { start = 8; width = 1 }

-- SPP is set, and FS is read.
get_bitfield-set_bitfield_example :
    get_bitfield fs (set_bitfield spp 0x6000 1) ≡ (if 6 == 5 then 1 else get_bitfield fs 0x6000)
get_bitfield-set_bitfield_example =
    get_bitfield-set_bitfield sstatus 6 5 0x6000 1 refl refl (omega arith)
