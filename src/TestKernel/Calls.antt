-- ===== src/TestKernel/Calls.antt =====
-- The calls of sbi.h, answered by the handler.
use urvirt.Common.{true, ◌||◌, ℕ, ◌+◌, ◌%◌, ◌≡◌, false, ◌==◌, ◌∷◌, u64}
use urvirt.Outcome.{Result, ok, stop, ebreak, ◌>>=◌}
use urvirt.Kernel.{Kernel}
use urvirt.RiscvBits.{priv_s}
use urvirt.Machine.{
  Machine, Syscall, call, set_reg, advance, s_mmap, s_munmap, s_read, s_rt_sigreturn,
}
use urvirt.Sbi.{ewouldblock, is_minus, is_less_one}
use urvirt.Handler.{take_interrupt, clear_vm}
use urvirt.Handler.Interrupts.{IsSettled}

module _ (k : Kernel) (m : Machine) (supervisor : m.priv.priv_mode ≡ priv_s) where
  -- The machine of the call: its registers are set and it is counted.
  abbrev calling : (which arg0 arg1 arg2 : ℕ) → Machine
  calling which arg0 arg1 arg2 =
      let ready = set_reg (set_reg (set_reg (set_reg m 10 arg0) 11 arg1) 12 arg2) 17 which in
      let entered = set_reg (call (advance ready 4) (s_mmap 0 4096 3 1 64 0)) 17 which in
      record entered { priv = record m.priv { counter_secall = u64 (m.priv.counter_secall + 1) } }

  abbrev resumed : ℕ × Machine → Machine
  resumed r =
      call (call (clear_vm (take_interrupt (set_reg r.1 10 r.0))) (s_munmap k.conf_address 4096))
        s_rt_sigreturn

  -- What the handler and the caller do with what the branch leaves.
  abbrev ended : Result Machine → Result (ℕ × Machine)
  ended t = do
    m' ← (do
      n ← (do n' ← t; ok (call (clear_vm (take_interrupt n')) (s_munmap k.conf_address 4096)))
      ok (call n s_rt_sigreturn))
    ok (m'.regs 10, m')

  module _ (which arg0 arg1 arg2 : ℕ) (plain : arg0 == 0xdeadbeefdeadbeef ≡ false) where
    abbrev ready : Machine
    ready = advance (set_reg (set_reg (set_reg (set_reg m 10 arg0) 11 arg1) 12 arg2) 17 which) 4

-- One call of the system was made, between the mapping of the shared page and its end, and the guest
-- goes on after its own.
pub record IsCalled (k : Kernel) (m n : Machine) (made : Syscall) : Type 0 where
  pub calls :
      n.calls
      ≡ s_rt_sigreturn ∷ s_munmap k.conf_address 4096 ∷ made ∷ s_mmap 0 4096 3 1 64 0 ∷ m.calls
  pub priv : n.priv ≡ record m.priv { counter_secall = u64 (m.priv.counter_secall + 1) }
  pub pc : n.regs 0 ≡ u64 (m.regs 0 + 4)
  pub registers :
      (i : ℕ) → (i == 0 || i == 10 || i == 11 || i == 12 || i == 17) ≡ false → n.regs i ≡ m.regs i
  pub memory : n.memory ≡ m.memory
  pub ram : n.ram ≡ m.ram

-- A read of standard input: a byte, 0 if there is none yet, or else a stop.
pub data IsRead (k : Kernel) (m : Machine) : Result Machine → Type 0 where
  byte_read :
      (n : Machine)
      → is_minus k.read_result ewouldblock ≡ false
      → is_less_one k.read_result ≡ false
      → IsCalled k m n (s_read 0)
      → n.regs 10 ≡ k.read_byte % 256
      → IsRead k m (ok n)
  no_byte :
      (n : Machine)
      → is_minus k.read_result ewouldblock ≡ true
      → IsCalled k m n (s_read 0)
      → n.regs 10 ≡ 0
      → IsRead k m (ok n)
  refused :
      is_minus k.read_result ewouldblock ≡ false
      → is_less_one k.read_result ≡ true
      → IsRead k m (stop (ebreak "error in read"))

module _ (k : Kernel) (m : Machine) (supervisor : m.priv.priv_mode ≡ priv_s)
    (settled : IsSettled m) where
  -- The machine after a call that ends with `value` in a0.
  abbrev after : (which arg0 : ℕ) → Syscall → (value : ℕ) → Machine
  after which arg0 made value =
      call
        (call (set_reg (call (calling k m supervisor which arg0 0 0) made) 10 value)
          (s_munmap k.conf_address 4096))
        s_rt_sigreturn
