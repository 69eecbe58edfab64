-- ===== src/TestKernel/User.antt =====
-- src/test-kernel/test-kernel.c, umode: the user program, which prints by calls that stvec serves.
use urvirt.Common.{ℕ, zero, suc, ◌==◌, if◌then◌else◌, List, [], ◌∷◌, sub64}
use urvirt.Outcome.{Result, ok, ◌>>=◌}
use urvirt.Kernel.{Kernel}
use urvirt.Memory.{byte}
use urvirt.Machine.{Machine, set_reg}
use urvirt.TestKernel.Asm.{ecall, Hardware, fault_in, step, run}
use urvirt.TestKernel.Vector.{stvec}

-- The characters of the array, which a 0 follows.
abbrev pub str : List ℕ
str =
    0x49 ∷ 0x20 ∷ 0x77 ∷ 0x72 ∷ 0x6f ∷ 0x74 ∷ 0x65 ∷ 0x20 ∷ 0x74 ∷ 0x68 ∷ 0x69 ∷ 0x73 ∷ 0x20 ∷ 0x77
    ∷ 0x69 ∷ 0x74 ∷ 0x68 ∷ 0x20 ∷ 0x65 ∷ 0x63 ∷ 0x61 ∷ 0x6c ∷ 0x6c ∷ 0x20 ∷ 0x66 ∷ 0x72 ∷ 0x6f
    ∷ 0x6d ∷ 0x20 ∷ 0x75 ∷ 0x73 ∷ 0x65 ∷ 0x72 ∷ 0x20 ∷ 0x6d ∷ 0x6f ∷ 0x64 ∷ 0x65 ∷ 0x0a ∷ []

-- The `asm` statement for a character, with its `ecall` at `pc`, and what answers it.
abbrev pub user_call : Kernel → Hardware → (pc : ℕ) → Machine → (c : ℕ) → Result Machine
user_call k w pc m c = do
  n ← step k w ecall (set_reg (set_reg m 10 (sub64 c 3)) 0 pc)
  run k w stvec n

-- The inner loop, with the rounds left, from `p` on.
unfoldable pub print_from : Kernel → Hardware → (pc rounds p : ℕ) → Machine → Result Machine
print_from k w pc zero p m = ok m
print_from k w pc (suc rounds) p m = do
  n ← fault_in k (w.read_faults p m) m
  if byte n.memory p == 0
      then ok n
      else (do t ← user_call k w pc n (byte n.memory p); print_from k w pc rounds (suc p) t)

-- The outer loop, which does not end, for some rounds, each with as many of the inner one.
unfoldable pub umode : Kernel → Hardware → (pc inner start rounds : ℕ) → Machine → Result Machine
umode k w pc inner start zero m = ok m
umode k w pc inner start (suc rounds) m = do
  n ← print_from k w pc inner start m
  umode k w pc inner start rounds n
