-- ===== src/TestKernel/Signals.antt =====
-- A privileged instruction of the guest's kernel is a signal: what the handler makes of it.
use urvirt.Common.{
  ℕ, ◌+◌, ◌<◌, ◌≡◌, refl, ap, ◌∙◌, true, false, ◌==◌, if◌then◌else◌, arith, u64, sym,
}
use urvirt.Outcome.{Result, ok, stop, ◌>>=◌}
use urvirt.Kernel.{Kernel}
use urvirt.Memory.{load32}
use urvirt.RiscvBits.{priv_s, priv_u, get_field}
use urvirt.Priv.{PrivState}
use urvirt.Machine.{Machine, call, set_reg, advance, s_munmap, s_rt_sigreturn}
use urvirt.PrivInstr.Spec.{csr, set, swap, clear, encode, exec, exec_csr, CsrOp, is_swap, combine}
use urvirt.Handler.{take_interrupt, clear_vm, timer_due}
use urvirt.Handler.Delivery.{clear_vm_lem}
use urvirt.Handler.Instructions.{entered, finished, handler_wrapper-exec}
use urvirt.Csr.{read_csr, write_csr}
use urvirt.Trap.{sret}
use urvirt.TestKernel.{asm_operand}

pub take_interrupt-quiet : (t : Machine) → t.priv.sip ≡ 0 → take_interrupt t ≡ t
unfolding take_interrupt timer_due get_field
take_interrupt-quiet t quiet = rw quiet refl

-- With no interrupt pending the guest goes on where the instruction led.
pub finished-quiet :
    (k : Kernel) (t : Machine)
    → t.priv.sip ≡ 0
    → finished k t
      ≡ record t { priv = record t.priv { should_clear_vm = false }; calls = (finished k t).calls }
finished-quiet k t quiet =
    ap (λ t. call (call (clear_vm t) (s_munmap k.conf_address 4096)) s_rt_sigreturn)
      (take_interrupt-quiet t quiet)
    ∙ ap (λ t. call (call t (s_munmap k.conf_address 4096)) s_rt_sigreturn) (clear_vm_lem t)
    ∙ ap (λ cs. record t { priv = record t.priv { should_clear_vm = false }; calls = cs })
        (ap (λ t. (call (call (clear_vm t) (s_munmap k.conf_address 4096)) s_rt_sigreturn).calls)
          (sym (take_interrupt-quiet t quiet)))

-- The state with one more SIGILL counted.
abbrev pub counted : PrivState → PrivState
counted p = record p { counter_ill = u64 (p.counter_ill + 1) }

-- The value that a CSR instruction with destination x0 and a source other than x0 writes.
abbrev pub write_of : PrivState → CsrOp → (number value : ℕ) → Result PrivState
write_of p op number value = do
  old ← if is_swap op then ok 0 else read_csr p number
  write_csr p number (combine op old value)

bind_ok {ℓ κ ι} :
    {A : Type ℓ} {B : Type κ} {C : Type ι} (r : Result A) (f : A → Result B) (g : B → Result C)
    (b : B)
    → (r >>= f) ≡ ok b
    → (r >>= λ a. f a >>= g) ≡ g b
bind_ok (ok a) f g b e = rw e refl
bind_ok (stop s) f g b e = absurd (clash e)
  where
    clash : stop s ≡ ok b → ⊥
    clash h = cc

exec_csr-written :
    (e : Machine) (op : CsrOp) (number r : ℕ) (p' : PrivState)
    → r == 0 ≡ false
    → write_of e.priv op number (e.regs r) ≡ ok p'
    → exec_csr e op false number 0 r ≡ ok (advance (record e { priv = p' }) 4)
exec_csr-written e swap number r p' nonzero written = rw nonzero (
    bind_ok {A = ℕ} (ok 0) (λ _. write_csr e.priv number (e.regs r))
      (λ q. ok (advance (record e { priv = q }) 4)) p' written)
exec_csr-written e set number r p' nonzero written =
    rw nonzero
      (bind_ok (read_csr e.priv number) _ (λ q. ok (advance (record e { priv = q }) 4)) p' written)
exec_csr-written e clear number r p' nonzero written =
    rw nonzero
      (bind_ok (read_csr e.priv number) _ (λ q. ok (advance (record e { priv = q }) 4)) p' written)

abbrev pub with_operand : Machine → (pc r value : ℕ) → Machine
with_operand m pc r value = set_reg (set_reg m r value) 0 pc

abbrev pub after_write : Machine → PrivState → (pc r value : ℕ) → Machine
after_write m p' pc r value = advance (record (entered (with_operand m pc r value)) { priv = p' }) 4

-- A write of a control register by an `asm` statement.
pub asm_operand-csr :
    (k : Kernel) (m : Machine) (p p' : PrivState) (pc r value number : ℕ) (op : CsrOp)
    → m.priv ≡ p
    → p.priv_mode ≡ priv_s
    → load32 m.memory pc ≡ encode (csr op false number 0 r)
    → (r < 32) × (number < 4096) × (r == 0 ≡ false)
    → write_of (counted p) op number value ≡ ok p'
    → p'.sip ≡ 0
    → (n : Machine) × (asm_operand k m pc r value ≡ ok n)
      × (n.priv ≡ record p' { should_clear_vm = false })
      × (n.memory ≡ m.memory)
asm_operand-csr k m p p' pc r value number op same mode at fits written quiet = (
  record (after_write m p' pc r value) {
    priv = record p' { should_clear_vm = false };
    calls = (finished k (after_write m p' pc r value)).calls;
  },
  handler_wrapper-exec k (with_operand m pc r value) (csr op false number 0 r)
        (ap (λ (q : PrivState). q.priv_mode) same ∙ mode) at (fits.1, omega arith, fits.0)
      ∙ ap (λ e. do t ← e; ok (finished k t)) executed
      ∙ ap ok (finished-quiet k (after_write m p' pc r value) quiet),
  refl,
  refl,
)
  where
    source : (with_operand m pc r value).regs r ≡ value
    source = ground (arith, fits.2)

    executed :
        exec (entered (with_operand m pc r value)) (csr op false number 0 r)
        ≡ ok (after_write m p' pc r value)
    executed = exec_csr-written (entered (with_operand m pc r value)) op number r p' fits.2 (
        ap (λ v. write_of (counted m.priv) op number v) source
        ∙ ap (λ q. write_of (counted q) op number value) same
        ∙ written)

-- What `sret` to user mode does.
pub record IsReturned (t n : Machine) : Type 0 where
  pub mode : n.priv.priv_mode ≡ priv_u
  pub pc : n.regs 0 ≡ t.priv.sepc
  pub vector : n.priv.stvec ≡ t.priv.stvec
  pub pending : n.priv.sip ≡ t.priv.sip
  pub memory : n.memory ≡ t.memory
  pub root : n.priv.satp ≡ t.priv.satp
  pub start : n.priv.stub_start ≡ t.priv.stub_start
  pub size : n.priv.stub_size ≡ t.priv.stub_size
  pub stale : n.priv.should_clear_vm ≡ true

pub sret-IsReturned : (t : Machine) → get_field 8 1 t.priv.sstatus ≡ 0 → IsReturned t (sret t)
unfolding sret
sret-IsReturned t e = record {
  mode = rw e refl;
  pc = rw e refl;
  vector = rw e refl;
  pending = rw e refl;
  memory = refl;
  root = rw e refl;
  start = rw e refl;
  size = rw e refl;
  stale = rw e refl;
}
