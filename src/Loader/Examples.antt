-- ===== src/Loader/Examples.antt =====
-- The theorems on the loader, at a table of descriptors and an address space that do what the manual
-- says. The stub is put at the first free pages, at 0.
use urvirt.Common.{ℕ, ◌+◌, ◌%◌, ◌≤◌, ◌<◌, ◌≡◌, ltb, if◌then◌else◌, Option, none, some, arith, []}
use urvirt.AddressSpace.{anonymous, in_pages}
use urvirt.Descriptors.{OpenFile, on_disk}
use urvirt.StartUp.{Answers, Process}
use urvirt.Examples.Paged.{paged}
use urvirt.Loader.{round_up, blank}
use urvirt.Loader.Ready.{Sizes}
use urvirt.Loader.Bounds.{round_up-bounds}

round_up-bounds_example :
    (round_up 0x2801 % 4096 ≡ 0) × (0x2801 ≤ round_up 0x2801) × (round_up 0x2801 < 0x2801 + 4096)
round_up-bounds_example = round_up-bounds 0x2801 (omega arith)

-- The standard streams are open, and a page of the loader itself is mapped.
abbrev streams : ℕ → Option OpenFile
streams d = if ltb d 3 then some (on_disk 0) else none

abbrev fresh_process : Process paged
fresh_process = record {
  space = λ a. if in_pages 0x10000 4096 a then some anonymous else none;
  config = blank;
  ram = λ o. 0;
  calls = [];
  pc = 0x10000;
}

abbrev sizes : Sizes
sizes = record {
  stub_size = 0x2800;
  kernel_size = 0x4000;
  fs_size = 0x100000;
  hole = 0;
  room = 0x3000000000;
}

-- Linux accepts the filter and gives the timer the number 0.
abbrev answers : Answers
answers = record { timerid = 0; seccomp_result = 0; kernel_file = λ i. 7; sc_ip_low = 8 }
