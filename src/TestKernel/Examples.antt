-- ===== src/TestKernel/Examples.antt =====
-- The test kernel, with its four privileged instructions in a row.
use urvirt.Common.{ℕ, ◌-◌, ◌/◌, ◌%◌, ◌^◌, ◌≡◌, refl, false, ◌==◌, if◌then◌else◌, [], arith}
use urvirt.Common.{true, ◌||◌, List, ◌∷◌}
use urvirt.Handler.{sigsegv, handler}
use urvirt.Handler.Runs.{unmaps}
use urvirt.Outcome.{ok, stop, ebreak}
use urvirt.RiscvBits.{priv_u}
use urvirt.Priv.{initialize_priv}
use urvirt.Machine.{Machine, Syscall, s_munmap, s_rt_sigreturn}
use urvirt.PrivInstr.Spec.{csr, swap, clear, return_trap, encode}
use urvirt.Examples.Machines.{linux, loaded, booted}
use urvirt.TestKernel.{Layout, kernel_main}
use urvirt.TestKernel.Boot.{IsKernelMain, kernel_main-user}

abbrev layout : Layout
layout = record {
  csrc_sstatus_pc = 0x80200000;
  csrc_sstatus_reg = 15;
  csrw_stvec_pc = 0x80200004;
  csrw_stvec_reg = 15;
  csrw_sepc_pc = 0x80200008;
  csrw_sepc_reg = 14;
  sret_pc = 0x8020000c;
  stvec = 0x80200100;
  umode = 0x80200200;
}

abbrev word : ℕ → ℕ
word i =
    if i == 0
    then encode (csr clear false 0x100 0 15)
    else if i == 1
    then encode (csr swap false 0x105 0 15)
    else if i == 2
    then encode (csr swap false 0x141 0 14)
    else if i == 3
    then encode return_trap
    else 0

abbrev started : Machine
started = record {
  priv = initialize_priv loaded;
  regs = booted.regs;
  memory = λ a. word ((a - 0x80200000) / 4) / 256 ^ (a % 4) % 256;
  ram = booted.ram;
  calls = [];
}

code : IsKernelMain layout started.memory
code = record {
  csrc_sstatus = refl;
  csrw_stvec = refl;
  csrw_sepc = refl;
  sret_at = refl;
  first_reg = (omega arith, refl);
  second_reg = (omega arith, refl);
  third_reg = (omega arith, refl);
  vector = (refl, omega arith);
}

kernel_main-user_example :
    (n : Machine) × (kernel_main linux layout started ≡ ok n)
    × (n.priv.priv_mode ≡ priv_u)
    × (n.regs 0 ≡ 0x80200200)
    × (n.priv.stvec ≡ 0x80200100)
    × (n.memory ≡ started.memory)
    × ((low : Syscall) × (high : Syscall) × (before : List Syscall) × (n.calls
          ≡ s_rt_sigreturn ∷ s_munmap linux.conf_address 4096 ∷ high ∷ low ∷ before)
        × (unmaps low 0x80200200 || unmaps high 0x80200200 ≡ true))
    × (handler linux n (sigsegv 0x80200200) ≡ stop (ebreak "someone turned off translation"))
kernel_main-user_example =
    kernel_main-user linux layout loaded started refl code (omega arith) (omega arith) refl
