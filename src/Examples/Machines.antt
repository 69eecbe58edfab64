-- ===== src/Examples/Machines.antt =====
-- The machines and the kernel of the examples.
use urvirt.Common.{ℕ, ◌+◌, ◌*◌, ◌%◌, ◌^◌, refl, inl, inr, ◌==◌, if◌then◌else◌, [], false, arith}
use urvirt.Kernel.{Kernel}
use urvirt.Priv.{PrivState, initialize_priv}
use urvirt.Priv.WellFormed.{initialize_priv-IsWellFormed}
use urvirt.Machine.{Machine, IsValid}

-- Every call succeeds, and the clock stands at 1000.
abbrev pub linux : Kernel
linux = record {
  conf_address = 2 ^ 30;
  ram_address = 2 ^ 31;
  mmap_result = λ addr flags offset. addr;
  read_result = 1;
  read_byte = 65;
  time = 1000;
  pread_memory = λ buf offset memory. memory;
  pread_ram = λ buf offset ram. ram;
}

-- The shared page as the loader leaves it.
abbrev pub loaded : PrivState
loaded = record {
  stub_start = 0x40000000;
  stub_size = 0x10000;
  kernel_size = 0x4000;
  timerid = 0;
  priv_mode = 0;
  sstatus = 0;
  sscratch = 0;
  stvec = 0;
  sepc = 0;
  scause = 0;
  stval = 0;
  sip = 0;
  sie = 0;
  satp = 0;
  urvb_block_id = 0;
  urvb_buf = 0;
  should_clear_vm = false;
  counter_ill = 0;
  counter_segv = 0;
  counter_sret = 0;
  counter_uecall = 0;
  counter_secall = 0;
}

-- A page table of three tables that maps the first page to 0x80003000 with all rights.
abbrev pub tables : ℕ → ℕ
tables offset =
    if offset == 0
    then 0x80001 * 2 ^ 10 + 1
    else if offset == 0x1000
    then 0x80002 * 2 ^ 10 + 1
    else if offset == 0x2000
    then 0x80003 * 2 ^ 10 + 15
    else 0

-- `sd x5, 0(x6)` at address 4 and zeros around it.
abbrev pub code : ℕ → ℕ
code a = if a == 4 then 0x23 else if a == 5 then 0x30 else if a == 6 then 0x53 else 0

abbrev pub booted : Machine
booted = record {
  priv = initialize_priv loaded;
  regs = λ i. if i == 0 then 4 else i % 32;
  memory = code;
  ram = tables;
  calls = [];
}

pub booted-IsValid : IsValid booted
booted-IsValid = record {
  state = initialize_priv-IsWellFormed loaded (omega arith);
  words = λ i. ground arith;
}

-- A vectored handler at 0x1000, timer interrupts enabled, and the guest in user mode.
abbrev pub user : Machine
user = record booted { priv = record booted.priv { stvec = 0x1001; sie = 2 ^ 5; priv_mode = 0 } }

pub user-IsValid : IsValid user
unfolding initialize_priv
user-IsValid = record {
  state = record {
    mode = inl refl;
    status = booted-IsValid.state.status;
    vector = omega arith;
    pending = inl refl;
    enabled = inr refl;
    translation = booted-IsValid.state.translation;
    scratch_word = booted-IsValid.state.scratch_word;
    epc_word = booted-IsValid.state.epc_word;
    cause_word = booted-IsValid.state.cause_word;
    tval_word = booted-IsValid.state.tval_word;
  };
  words = booted-IsValid.words;
}
