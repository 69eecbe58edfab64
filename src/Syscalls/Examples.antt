-- ===== src/Syscalls/Examples.antt =====
-- A call with four arguments.
use urvirt.Common.{◌≡◌, [], ◌∷◌, arith}
use urvirt.Syscalls.{internal_syscall}
use urvirt.Syscalls.Laws.{internal_syscall-take}

-- `rt_sigaction` for SIGILL.
internal_syscall-take_example :
    internal_syscall 134 4 4 0x7000 0 8 0 0 ≡ record { a7 = 134; inputs = 4 ∷ 0x7000 ∷ 0 ∷ 8 ∷ [] }
internal_syscall-take_example =
    internal_syscall-take 134 4 4 0x7000 0 8 0 0 (omega arith) (omega arith)
