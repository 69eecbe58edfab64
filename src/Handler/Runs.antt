-- ===== src/Handler/Runs.antt =====
-- Runs of the virtual machine: the guest computes, a signal comes, the handler answers, and so on.
-- And the ranges of addresses that clearing the mappings takes away.
use urvirt.Common.{
  ℕ, ◌+◌, ◌^◌, ◌≤◌, ◌<◌, ◌≡◌, refl, Bool, true, false, not, ◌&&◌, ◌||◌, leb, ltb, arith, List, ◌∷◌,
  sub64, u64, sym,
}
use mathlib.Core.Path.{subst}
use urvirt.Outcome.{Result, ok, stop, ok-injective, ◌>>=◌}
use urvirt.Kernel.{Kernel}
use urvirt.Priv.{PrivState, initialize_priv}
use urvirt.Priv.WellFormed.{initialize_priv-IsWellFormed}
use urvirt.Machine.{Machine, IsValid, Syscall, s_munmap, s_rt_sigreturn, call, call-IsValid}
use urvirt.RiscvBits.{get_field}
use urvirt.Handler.{Signal, handler, handler_wrapper, clear_vm, timer_due}
use urvirt.Handler.Invariant.{IsWord, handler-IsValid}
use urvirt.Handler.Interrupts.{IsSettled, handler-IsSettled}

-- The guest changes registers, memory and RAM as it likes, but not the shared page, which is not
-- mapped while it runs. A signal runs the handler.
pub data Step (k : Kernel) : Machine → Machine → Type 0 where
  guest :
      {m : Machine} (regs memory ram : ℕ → ℕ)
      → ((i : ℕ) → regs i < 2 ^ 64)
      → Step k m (record m { regs = regs; memory = memory; ram = ram })
  signal : {m n : Machine} (sig : Signal) → IsWord sig → handler_wrapper k m sig ≡ ok n → Step k m n

-- From a machine that has just been initialised on a fresh shared page. What the system answers may be
-- different at each step.
pub data Reachable : Machine → Type 0 where
  start :
      (p : PrivState) (regs memory ram : ℕ → ℕ) (calls : List Syscall)
      → p.stval < 2 ^ 64
      → p.should_clear_vm ≡ false
      → ((i : ℕ) → regs i < 2 ^ 64)
      → Reachable (record {
        priv = initialize_priv p;
        regs = regs;
        memory = memory;
        ram = ram;
        calls = calls;
      })
  next : {m n : Machine} (k : Kernel) → Reachable m → Step k m n → Reachable n

-- The wrapper returns what the handler does, with the call that resumes the guest.
pub handler_wrapper-handler :
    (k : Kernel) (m : Machine) (sig : Signal) {n : Machine}
    → handler_wrapper k m sig ≡ ok n
    → (n' : Machine) × (handler k m sig ≡ ok n') × (n ≡ call n' s_rt_sigreturn)
unfolding handler_wrapper
handler_wrapper-handler k m sig e = go (handler k m sig) refl e
  where
    go :
        {n : Machine} (r : Result Machine)
        → handler k m sig ≡ r
        → (r >>= λ n'. ok (call n' s_rt_sigreturn)) ≡ ok n
        → (n' : Machine) × (handler k m sig ≡ ok n') × (n ≡ call n' s_rt_sigreturn)
    go (ok n') e h = (n', e, sym (ok-injective h))
    go (stop s) e h = cc

pub Step-IsValid : (k : Kernel) {m n : Machine} → Step k m n → IsValid m → IsValid n
Step-IsValid k (guest regs memory ram words) h = record { state = h.state; words = words }
Step-IsValid k (signal sig word e) h =
    let r = handler_wrapper-handler k _ sig e in
    subst IsValid (sym r.2) (call-IsValid r.0 s_rt_sigreturn (handler-IsValid k _ sig h word r.1))

Step-IsSettled : (k : Kernel) {m n : Machine} → Step k m n → IsSettled m → IsSettled n
unfolding timer_due
Step-IsSettled k (guest regs memory ram words) h = h
Step-IsSettled k (signal sig word e) h =
    let r = handler_wrapper-handler k _ sig e in
    subst IsSettled (sym r.2) (handler-IsSettled k _ sig r.1)

-- In every run, however the guest behaves and whatever signals come in whatever order, the machine
-- stays valid, and while the guest runs no timer interrupt is due and no request to clear the
-- mappings is left.
pub Reachable-IsValid : (m : Machine) → Reachable m → IsValid m × IsSettled m
Reachable-IsValid _ (start p regs memory ram calls tval clear words) = (
  record { state = initialize_priv-IsWellFormed p tval; words = words },
  unfold timer_due initialize_priv get_field in (refl, clear),
)
Reachable-IsValid _ (next {m} k r s) =
    let before = Reachable-IsValid m r in (Step-IsValid k s before.0, Step-IsSettled k s before.1)

-- An address that a call unmaps.
abbrev pub unmaps : Syscall → ℕ → Bool
unmaps (s_munmap addr length) a = leb addr a && ltb a (addr + length)
unmaps _ a = false

-- When clearing is asked for, and the stub lies below 2 ^ 38, two calls are made, and they unmap an
-- address below 2 ^ 38 exactly if it lies outside the stub.
pub clear_vm-unmaps :
    (m : Machine) (a : ℕ)
    → m.priv.should_clear_vm ≡ true
    → m.priv.stub_start + m.priv.stub_size ≤ 2 ^ 38
    → a < 2 ^ 38
    → (low : Syscall) × (high : Syscall) × ((clear_vm m).calls ≡ high ∷ low ∷ m.calls)
      × ((unmaps low a || unmaps high a)
          ≡ not (leb m.priv.stub_start a && ltb a (m.priv.stub_start + m.priv.stub_size)))
unfolding clear_vm
clear_vm-unmaps m a asked fits below = (
  s_munmap 0 m.priv.stub_start,
  s_munmap (u64 (m.priv.stub_start + m.priv.stub_size))
      (sub64 (2 ^ 38) (u64 (m.priv.stub_start + m.priv.stub_size))),
  rw asked refl,
  ground arith,
)
