-- ===== src/Syscalls.antt =====
-- src/urvirt-stub/internal-syscall.h and urvirt-syscalls.h: how a system call of the stub reaches the
-- `ecall` instruction.
pub mod Laws
mod Examples
use urvirt.Common.{ℕ, List, [], ◌∷◌, ltb, ◌==◌, if◌then◌else◌}

-- The registers that the assembly names as inputs of the `ecall`: a7, and a0 upwards.
pub record Ecall : Type 0 where
  pub a7 : ℕ
  pub inputs : List ℕ

unfoldable pub internal_syscall : (n argc a0 a1 a2 a3 a4 a5 : ℕ) → Ecall
internal_syscall n argc a0 a1 a2 a3 a4 a5 =
    if ltb argc 2
    then record { a7 = n; inputs = a0 ∷ [] }
    else if argc == 2
    then record { a7 = n; inputs = a0 ∷ a1 ∷ [] }
    else if argc == 3
    then record { a7 = n; inputs = a0 ∷ a1 ∷ a2 ∷ [] }
    else if argc == 4
    then record { a7 = n; inputs = a0 ∷ a1 ∷ a2 ∷ a3 ∷ [] }
    else if argc == 5
    then record { a7 = n; inputs = a0 ∷ a1 ∷ a2 ∷ a3 ∷ a4 ∷ [] }
    else record { a7 = n; inputs = a0 ∷ a1 ∷ a2 ∷ a3 ∷ a4 ∷ a5 ∷ [] }

-- The numbers of the calls, from the kernel's headers.
pub record Numbers : Type 0 where
  pub sys_exit_group : ℕ
  pub sys_munmap : ℕ
  pub sys_mmap : ℕ
  pub sys_sigaltstack : ℕ
  pub sys_rt_sigaction : ℕ
  pub sys_write : ℕ
  pub sys_seccomp : ℕ
  pub sys_riscv_flush_icache : ℕ
  pub sys_timer_create : ℕ
  pub sys_timer_settime : ℕ
  pub sys_read : ℕ
  pub sys_fcntl : ℕ
  pub sys_pread64 : ℕ
  pub sys_pwrite64 : ℕ
  pub sys_prctl : ℕ

-- The wrappers; a pointer is the word that it is.
module _ (sys : Numbers) where
  unfoldable pub exit_group : (status : ℕ) → Ecall
  exit_group status = internal_syscall sys.sys_exit_group 1 status 0 0 0 0 0

  unfoldable pub munmap : (addr length : ℕ) → Ecall
  munmap addr length = internal_syscall sys.sys_munmap 2 addr length 0 0 0 0

  unfoldable pub mmap : (addr length prot flags fd pgoffset : ℕ) → Ecall
  mmap addr length prot flags fd pgoffset =
      internal_syscall sys.sys_mmap 6 addr length prot flags fd pgoffset

  unfoldable pub sigaltstack : (ss oss : ℕ) → Ecall
  sigaltstack ss oss = internal_syscall sys.sys_sigaltstack 2 ss oss 0 0 0 0

  unfoldable pub rt_sigaction : (sig act oact : ℕ) → Ecall
  rt_sigaction sig act oact = internal_syscall sys.sys_rt_sigaction 4 sig act oact 8 0 0

  unfoldable pub write : (fd buf count : ℕ) → Ecall
  write fd buf count = internal_syscall sys.sys_write 3 fd buf count 0 0 0

  unfoldable pub seccomp : (operation flags args : ℕ) → Ecall
  seccomp operation flags args = internal_syscall sys.sys_seccomp 3 operation flags args 0 0 0

  unfoldable pub riscv_flush_icache : (start end flags : ℕ) → Ecall
  riscv_flush_icache start end flags =
      internal_syscall sys.sys_riscv_flush_icache 3 start end flags 0 0 0

  unfoldable pub timer_create : (clockid sevp timerid : ℕ) → Ecall
  timer_create clockid sevp timerid =
      internal_syscall sys.sys_timer_create 3 clockid sevp timerid 0 0 0

  unfoldable pub timer_settime : (timerid flags new_value old_value : ℕ) → Ecall
  timer_settime timerid flags new_value old_value =
      internal_syscall sys.sys_timer_settime 4 timerid flags new_value old_value 0 0

  unfoldable pub read : (fd buf count : ℕ) → Ecall
  read fd buf count = internal_syscall sys.sys_read 3 fd buf count 0 0 0

  unfoldable pub fcntl : (fd cmd arg : ℕ) → Ecall
  fcntl fd cmd arg = internal_syscall sys.sys_fcntl 3 fd cmd arg 0 0 0

  unfoldable pub pread64 : (fd buf count offset : ℕ) → Ecall
  pread64 fd buf count offset = internal_syscall sys.sys_pread64 4 fd buf count offset 0 0

  unfoldable pub pwrite64 : (fd buf count offset : ℕ) → Ecall
  pwrite64 fd buf count offset = internal_syscall sys.sys_pwrite64 4 fd buf count offset 0 0

  unfoldable pub prctl : (option arg2 arg3 arg4 arg5 : ℕ) → Ecall
  prctl option arg2 arg3 arg4 arg5 = internal_syscall sys.sys_prctl 5 option arg2 arg3 arg4 arg5 0
