-- ===== src/StartUp/Examples.antt =====
-- The theorems on the start-up, at an address space that does what the manual says.
use urvirt.Common.{◌-◌, if◌then◌else◌, none, some, []}
use urvirt.Priv.{PrivState}
use urvirt.Examples.Machines.{loaded}
use urvirt.StartUp.{Answers, Process}
use urvirt.StartUp.Spec.{in_stub}
use urvirt.AddressSpace.{of_file, anonymous, in_pages}
use urvirt.Examples.Paged.{paged}

abbrev answers : Answers
answers = record { timerid = 0; seccomp_result = 0; kernel_file = λ i. 7; sc_ip_low = 8 }

-- The loader's stub at 0x2000000000, and a page of the loader itself.
abbrev at_stub : PrivState
at_stub = record loaded { stub_start = 0x2000000000; stub_size = 0x3000 }

abbrev at_jump : Process paged
at_jump = record {
  space = λ a.
      if in_stub at_stub a
      then some (of_file 3 (a - 0x2000000000))
      else if in_pages 0x10000 4096 a
      then some anonymous
      else none;
  config = at_stub;
  ram = λ o. 0;
  calls = [];
  pc = 0x2000000000;
}
