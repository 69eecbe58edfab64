-- ===== src/Machine.antt =====
-- What the signal handler works on: the privileged state in the shared page, the interrupted
-- context, memory, and the system calls made so far.
use Prim.Native.String.{String}
use urvirt.Common.{Bool, true, false, ℕ, ◌+◌, ◌^◌, ◌<◌, ◌==◌, if◌then◌else◌, List, ◌∷◌, u64, arith}
use urvirt.Seccomp.{SockFilter}
use urvirt.Priv.{PrivState}
use urvirt.Priv.WellFormed.{IsWellFormed}

-- src/urvirt-stub/urvirt-syscalls.h: the calls that the stub makes, with their arguments; of a struct
-- that is passed, what the code writes into it.
-- `log` is `write_log`, and `print` is `printf` of the vendored library, with its arguments.
pub data Syscall : Type 0 where
  log : String → Syscall
  print : String → List ℕ → Syscall
  s_write : ℕ → ℕ → Syscall
  s_read : ℕ → Syscall
  s_mmap : (addr length prot flags fd offset : ℕ) → Syscall
  s_munmap : (addr length : ℕ) → Syscall
  s_timer_settime : (timerid sec nsec : ℕ) → Syscall
  s_pread64 : (fd buf count offset : ℕ) → Syscall
  s_pwrite64 : (fd buf count offset : ℕ) → Syscall
  s_fcntl : (fd cmd arg : ℕ) → Syscall
  s_sigaltstack : (sp size flags : ℕ) → Syscall
  s_rt_sigaction : (sig flags mask : ℕ) → Syscall
  s_timer_create : (clockid notify signo : ℕ) → Syscall
  s_riscv_flush_icache : (start end flags : ℕ) → Syscall
  s_prctl : (option arg2 arg3 arg4 arg5 : ℕ) → Syscall
  s_seccomp : (operation flags : ℕ) (filter : List SockFilter) → Syscall
  s_rt_sigreturn : Syscall

-- `regs` is `uc_mcontext.__gregs`: entry 0 is the pc, and entry i from 1 to 31 is register xi.
-- `memory` is the bytes at the addresses that the stub can read; `ram` is the 64-bit words of
-- `RAM_FD` by byte offset. `calls` has the newest call first.
pub record Machine : Type 0 where
  pub priv : PrivState
  pub regs : ℕ → ℕ
  pub memory : ℕ → ℕ
  pub ram : ℕ → ℕ
  pub calls : List Syscall

abbrev pub update : (ℕ → ℕ) → ℕ → ℕ → ℕ → ℕ
update regs i v j = if i == j then v else regs j

abbrev pub set_reg : Machine → ℕ → ℕ → Machine
set_reg m i v = record m { regs = update m.regs i v }

-- `ucontext->uc_mcontext.__gregs[0] += n`.
abbrev pub advance : Machine → ℕ → Machine
advance m n = set_reg m 0 (u64 (m.regs 0 + n))

abbrev pub call : Machine → Syscall → Machine
call m c = record m { calls = c ∷ m.calls }

-- The privileged state is well formed and every register holds a word.
pub record IsValid (m : Machine) : Type 0 where
  pub state : IsWellFormed m.priv
  pub words : (i : ℕ) → m.regs i < 2 ^ 64

pub update-lt :
    (regs : ℕ → ℕ) (i v j : ℕ)
    → ((k : ℕ) → regs k < 2 ^ 64)
    → v < 2 ^ 64
    → update regs i v j < 2 ^ 64
update-lt regs i v j h p = ground (arith, h j)

pub set_reg-IsValid : (m : Machine) (i v : ℕ) → IsValid m → v < 2 ^ 64 → IsValid (set_reg m i v)
set_reg-IsValid m i v h p = record {
  state = h.state;
  words = λ j. update-lt m.regs i v j h.words p;
}

pub advance-IsValid : (m : Machine) (n : ℕ) → IsValid m → IsValid (advance m n)
advance-IsValid m n h = set_reg-IsValid m 0 (u64 (m.regs 0 + n)) h (omega arith)

pub call-IsValid : (m : Machine) (c : Syscall) → IsValid m → IsValid (call m c)
call-IsValid m c h = record { state = h.state; words = h.words }

pub if-IsValid : (b : Bool) (m n : Machine) → IsValid m → IsValid n → IsValid (if b then m else n)
if-IsValid true m n h k = h
if-IsValid false m n h k = k
