-- ===== src/StartUp/Guest.antt =====
-- The start-up with what comes after it: the filter that it installed, and the runs of the guest.
use urvirt.Common.{ℕ, ◌+◌, ◌*◌, ◌^◌, if◌then◌else◌, ◌==◌}
use urvirt.Machine.{Machine}
use urvirt.AddressSpace.{AddressSpace}
use urvirt.StartUp.{Process}

-- The bytes of RAM from an offset on as a 64-bit word, least significant first.
abbrev pub word_at : (ℕ → ℕ) → ℕ → ℕ
word_at ram o =
    ram o
    + ram (o + 1) * 2 ^ 8
    + ram (o + 2) * 2 ^ 16
    + ram (o + 3) * 2 ^ 24
    + ram (o + 4) * 2 ^ 32
    + ram (o + 5) * 2 ^ 40
    + ram (o + 6) * 2 ^ 48
    + ram (o + 7) * 2 ^ 56

-- The machine that the guest starts in, with its other registers as they happen to be.
abbrev pub machine_of : {S : AddressSpace} → Process S → (regs memory : ℕ → ℕ) → Machine
machine_of b regs memory = record {
  priv = b.config;
  regs = λ i. if i == 0 then b.pc else regs i;
  memory = memory;
  ram = word_at b.ram;
  calls = b.calls;
}
