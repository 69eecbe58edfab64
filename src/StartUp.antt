-- ===== src/StartUp.antt =====
-- src/urvirt-stub/urvirt-stub.c, entrypoint and entrypoint_1: from the loader's jump into the stub to
-- the stub's jump into the guest's kernel.
pub mod Config
pub mod Spec
pub mod Unmap
pub mod Stack
pub mod Load
pub mod Booted
pub mod Guest
mod Examples
use urvirt.Common.{
  ℕ, zero, suc, ◌+◌, ◌-◌, ◌*◌, ◌^◌, Bool, true, false, ◌&&◌, leb, ◌==◌, if◌then◌else◌, Option, none,
  some, List, [], ◌∷◌, u32, u64, sub64, not64, ◌&&&◌, ◌|||◌, ◌<<<◌,
}
use urvirt.Outcome.{Result, ok, stop, exited, fault, ◌>>=◌}
use urvirt.Memory.{
  config_fd, ram_fd, kernel_fd, ram_start, ram_size, conf_size, kernel_start, sigstack_size,
}
use urvirt.Priv.{PrivState, initialize_priv}
use urvirt.Seccomp.{gen_addr_filter}
use urvirt.Machine.{
  Syscall, log, s_mmap, s_munmap, s_fcntl, s_sigaltstack, s_rt_sigaction, s_timer_create,
  s_riscv_flush_icache, s_prctl, s_seccomp, update,
}
use urvirt.PageFault.{prot_read, prot_write, prot_exec, map_shared}
use urvirt.AddressSpace.{
  AddressSpace, Backing, of_file, anonymous, map_private, map_fixed, map_anonymous, map_stack,
}

-- What Linux answers: the timer's number and the result of installing the filter, as words; the bytes
-- of the kernel's file; and the offset of the instruction pointer in `struct seccomp_data`.
pub record Answers : Type 0 where
  pub timerid : ℕ
  pub seccomp_result : ℕ
  pub kernel_file : ℕ → ℕ
  pub sc_ip_low : ℕ

-- `config` is what the file `CONFIG_FD` holds, and `ram` the bytes of `RAM_FD`. `calls` has the newest
-- call first.
pub record Process (S : AddressSpace) : Type 0 where
  pub space : S.State
  pub config : PrivState
  pub ram : ℕ → ℕ
  pub calls : List Syscall
  pub pc : ℕ

-- Signals and constants of the kernel's headers.
abbrev pub sigill : ℕ
sigill = 4

abbrev pub sigsegv : ℕ
sigsegv = 11

abbrev pub sigalrm : ℕ
sigalrm = 14

abbrev pub sigsys : ℕ
sigsys = 31

-- `SA_SIGINFO | SA_ONSTACK`.
abbrev pub sa_flags : ℕ
sa_flags = 0x4 ||| 0x8000000

-- The offset in a file that an address shows; anything else is a fault.
abbrev pub file_offset : Option Backing → ℕ → Result ℕ
file_offset (some (of_file f offset)) fd = if f == fd then ok offset else stop fault
file_offset _ fd = stop fault

-- The loop that copies the kernel, from byte `i` on, with the rounds left.
unfoldable pub copy_kernel :
    Answers → (ℕ → Option Backing) → (kernel rounds i : ℕ) → (ℕ → ℕ) → Result (ℕ → ℕ)
copy_kernel answers view kernel zero i ram = ok ram
copy_kernel answers view kernel (suc rounds) i ram = do
  from ← file_offset (view (kernel + i)) kernel_fd
  to ← file_offset (view (kernel_start + i)) ram_fd
  copy_kernel answers view kernel rounds (suc i) (update ram to (answers.kernel_file from))

module _ {S : AddressSpace} where
  abbrev pub record_call : Process S → Syscall → Process S
  record_call p c = record p { calls = c ∷ p.calls }

  abbrev pub mmap : Process S → (addr length prot flags fd offset : ℕ) → ℕ × Process S
  mmap p addr length prot flags fd offset =
      let r = S.map p.space addr length flags fd offset in
      (r.0, record_call (record p { space = r.1 }) (s_mmap addr length prot flags fd offset))

  abbrev pub munmap : Process S → (addr length : ℕ) → Process S
  munmap p addr length =
      record_call (record p { space = S.unmap p.space addr length }) (s_munmap addr length)

  -- `*conf`, through the mapping at that address.
  abbrev pub read_config : Process S → ℕ → Result PrivState
  read_config p conf = do
    offset ← file_offset (S.backing p.space conf) config_fd
    if offset == 0 then ok p.config else stop fault

  abbrev pub write_config : Process S → ℕ → PrivState → Result (Process S)
  write_config p conf config = do _ ← read_config p conf; ok (record p { config = config })

  -- The mapping of the shared page, wherever it fits.
  abbrev pub map_config : Process S → ℕ × Process S
  map_config p = mmap p 0 conf_size (prot_read ||| prot_write) map_shared config_fd 0

  -- The first half of entrypoint, up to where everything but the stub is unmapped.
  unfoldable pub unmap_others : Process S → Result (ℕ × Process S)
  unmap_others p = do
    let r1 = map_config p
    c1 ← read_config r1.1 r1.0
    let p1 = munmap (munmap r1.1 0 c1.stub_start) r1.0 conf_size
    let r2 = map_config p1
    c2 ← read_config r2.1 r2.0
    let kernel_end = u64 (c2.stub_start + c2.stub_size)
    ok (kernel_end, munmap (munmap r2.1 kernel_end (sub64 (2 ^ 38) kernel_end)) r2.0 conf_size)

  -- The second half: the new stack, and the shared page again, where the stub is said to be larger by
  -- that stack. The result has `sigstack_start` and `conf_to_entrypoint_1`.
  unfoldable pub set_up_stack : ℕ → Process S → Result ((ℕ × ℕ) × Process S)
  set_up_stack kernel_end p = do
    let r1 =
        mmap p kernel_end sigstack_size (prot_read ||| prot_write)
          (map_private ||| map_anonymous ||| map_stack ||| map_fixed) (2 ^ 64 - 1) 0
    let r2 = map_config r1.1
    c ← read_config r2.1 r2.0
    p' ← write_config r2.1 r2.0 (record c { stub_size = u64 (c.stub_size + sigstack_size) })
    ok ((r1.0, r2.0), p')

  unfoldable pub entrypoint : Process S → Result ((ℕ × ℕ) × Process S)
  entrypoint p = do (kernel_end, p') ← unmap_others p; set_up_stack kernel_end p'

  -- The signal stack and handlers, with SIGALRM blocked while they run, and the timer.
  abbrev pub set_up_signals : ℕ → Process S → Process S
  set_up_signals sigstack_start p =
      let mask = 1 <<< (sigalrm - 1) in
      record p {
        calls =
            s_timer_create 0 0 sigalrm
            ∷ s_rt_sigaction sigsegv sa_flags mask
            ∷ s_rt_sigaction sigalrm sa_flags mask
            ∷ s_rt_sigaction sigsys sa_flags mask
            ∷ s_rt_sigaction sigill sa_flags mask
            ∷ s_sigaltstack sigstack_start sigstack_size 0
            ∷ s_fcntl 0 4 0x800
            ∷ p.calls;
      }

  -- RAM is mapped at its bare address, and the kernel copied into it. The result has the address and
  -- the size of the mapping of the kernel's file.
  unfoldable pub load_kernel : Answers → ℕ → Process S → Result ((ℕ × ℕ) × Process S)
  load_kernel answers conf p = do
    let r1 =
        mmap p ram_start ram_size (prot_read ||| prot_write ||| prot_exec)
          (map_shared ||| map_fixed) ram_fd 0
    c ← read_config r1.1 conf
    let kernel_size_pg = u64 (c.kernel_size + 4095) &&& not64 4095
    let r2 = mmap r1.1 0 kernel_size_pg prot_read map_private kernel_fd 0
    c' ← read_config r2.1 conf
    ram ← copy_kernel answers (S.backing r2.1.space) r2.0 c'.kernel_size 0 r2.1.ram
    ok (
      (r2.0, kernel_size_pg),
      record_call (record r2.1 { ram = ram }) (s_riscv_flush_icache 0 0 0),
    )

  -- From the filter to the jump.
  unfoldable pub enter_guest :
      Answers → (conf kernel kernel_size_pg : ℕ) → Process S → Result (Process S)
  enter_guest answers conf kernel kernel_size_pg p = do
    c ← read_config p conf
    let filter = gen_addr_filter answers.sc_ip_low c.stub_start (u64 (c.stub_start + c.stub_size))
    let p1 = record_call (record_call p (s_prctl 38 1 0 0 0)) (s_seccomp 1 0 filter)
    if leb (2 ^ 31) (u32 answers.seccomp_result) then stop (exited 1) else do
      let p2 = munmap p1 kernel kernel_size_pg
      c' ← read_config p2 conf
      p3 ← write_config p2 conf (record (initialize_priv c') { timerid = answers.timerid })
      ok (record (record_call (munmap p3 conf conf_size) (log "Jumping to kernel ...")) {
        pc = kernel_start;
      })

  unfoldable pub entrypoint_1 : Answers → (sigstack_start conf : ℕ) → Process S → Result (Process S)
  entrypoint_1 answers sigstack_start conf p = do
    ((kernel, kernel_size_pg), p') ← load_kernel answers conf (set_up_signals sigstack_start p)
    enter_guest answers conf kernel kernel_size_pg p'

  -- entrypoint ends with a jump to entrypoint_1.
  unfoldable pub start_up : Answers → Process S → Result (Process S)
  start_up answers p = do
    ((sigstack_start, conf), p') ← entrypoint p
    entrypoint_1 answers sigstack_start conf p'
