-- ===== src/Examples/UserMode.antt =====
-- stvec of the test kernel, with translation on, in a page that is mapped again and again.
use urvirt.Common.{
  ℕ, ◌+◌, ◌-◌, ◌*◌, ◌/◌, ◌%◌, ◌^◌, refl, false, ◌==◌, leb, if◌then◌else◌, List, [], ◌∷◌, arith,
}
use urvirt.Machine.{Machine}
use urvirt.PrivInstr.Spec.{csr, set, swap, return_trap, encode}
use urvirt.Priv.{initialize_priv}
use urvirt.Examples.Machines.{tables, booted, booted-IsValid}
use urvirt.TestKernel.Asm.{Asm, addi, sd, csrr, sstatus, Hardware}
use urvirt.TestKernel.Hart.{seen, effects, AreReady, ◌⊗◌}
use urvirt.TestKernel.Faults.{none_yet}
use urvirt.TestKernel.Vector.{stvec, IsServed, stvec-IsServed}
use urvirt.TestKernel.Trapped.{trapped}
use urvirt.TestKernel.Called.{IsUser, trapped-IsEntered}

abbrev sv39 : ℕ
sv39 = 8 * 2 ^ 60 + 0x80000

-- No instruction is compressed, the first page is the page 0x3000 of RAM, and each instruction faults.
abbrev hardware : Hardware
hardware = record {
  size = λ i. 4;
  ram_after = λ a v ram offset. if offset == 0x3000 + a then v else ram offset;
  faults = λ i m. 0x100 ∷ [];
  read_faults = λ p m. [];
  a7_after = λ m. 0;
}

abbrev word : ℕ → ℕ
word i =
    if i == 2
    then encode (csr set false 0x100 5 0)
    else if i == 4
    then encode (csr set false 0x141 5 0)
    else if i == 15
    then encode (csr swap false 0x141 0 5)
    else if i == 17
    then encode (csr swap false 0x100 0 5)
    else if i == 20
    then encode return_trap
    else 0

-- stvec stands at 0x100.
abbrev memory : ℕ → ℕ
memory a = if leb 0x100 a then word ((a - 0x100) / 4) / 256 ^ (a % 4) % 256 else 0

abbrev user : Machine
user = record {
  priv = record booted.priv { priv_mode = 0; stvec = 0x100; satp = sv39 };
  regs = λ i. if i == 2 then 0x800 else i % 32;
  memory = memory;
  ram = tables;
  calls = [];
}

is_user : IsUser hardware sv39 tables (seen user)
unfolding initialize_priv
is_user = record {
  root = refl;
  stored = none_yet;
  quiet = refl;
  mode = refl;
  aligned = refl;
  vector = omega arith;
  words = λ i. ground arith;
  status = booted-IsValid.state.status;
  code =
      tt
      ⊗ tt
      ⊗ (refl, omega arith)
      ⊗ tt
      ⊗ (refl, omega arith)
      ⊗ tt
      ⊗ tt
      ⊗ tt
      ⊗ tt
      ⊗ tt
      ⊗ tt
      ⊗ tt
      ⊗ tt
      ⊗ tt
      ⊗ tt
      ⊗ (refl, omega arith)
      ⊗ tt
      ⊗ (refl, omega arith)
      ⊗ tt
      ⊗ tt
      ⊗ (refl, omega arith)
      ⊗ tt;
}

stvec-IsServed_example :
    AreReady hardware stvec (trapped (seen user))
    × IsServed (trapped (seen user)) (effects hardware stvec (trapped (seen user)))
stvec-IsServed_example =
    stvec-IsServed hardware (trapped (seen user))
      (trapped-IsEntered hardware sv39 tables (seen user) is_user)

-- The start of stvec, in S mode.
abbrev start : List Asm
start = addi 2 2 (2 ^ 64 - 512) ∷ sd 5 0 2 ∷ csrr 5 sstatus ∷ []

abbrev kernel : Machine
kernel = record user {
  priv = record user.priv { priv_mode = 16 };
  regs = λ i. if i == 0 then 0x100 else user.regs i;
}
