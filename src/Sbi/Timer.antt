-- ===== src/Sbi/Timer.antt =====
-- src/urvirt-stub/handle-sbi.c, SBI_SET_TIMER: what the call promises of the timer.
use urvirt.Common.{
  ℕ, ◌+◌, ◌-◌, ◌*◌, ◌/◌, ◌%◌, ◌^◌, ◌<◌, ◌≡◌, refl, ◌&&◌, leb, ltb, if◌then◌else◌, arith, ◌∷◌, sub64,
  u64,
}
use urvirt.Outcome.{ok}
use urvirt.Kernel.{Kernel}
use urvirt.Priv.WellFormed.{IsTimerOnly}
use urvirt.Machine.{Machine, log, s_timer_settime}
use urvirt.Sbi.{handle_legacy_sbi_call, set_timer, sbi_set_timer}
use urvirt.Sbi.Laws.{set_timer_bit}

-- The machine after the call: only sip has changed, to say whether the deadline has passed, and one
-- timer is armed.
abbrev pub IsArmed : Kernel → Machine → ℕ → (sec nsec : ℕ) → Machine → Type 0
IsArmed k m deadline sec nsec n = n ≡ (record m {
  priv = record m.priv { sip = if leb deadline k.time then 2 ^ 5 else 0 };
  calls = s_timer_settime m.priv.timerid sec nsec ∷ log "Set timer" ∷ m.calls;
})

-- The call answers 0, and sets the pending bit exactly for a deadline that has passed; and it arms the
-- timer, the nanoseconds below a second. For a deadline that is not in the past, and so near that its
-- nanoseconds fit in 64 bits, the time is what is left, a tick being a microsecond; else it is that
-- product of 64 bits, which has wrapped.
pub set_timer-IsArmed :
    (k : Kernel) (m : Machine) (deadline arg1 arg2 : ℕ)
    → IsTimerOnly m.priv.sip
    → deadline < 2 ^ 64
    → (sec : ℕ) × (nsec : ℕ) × (n : Machine) × (handle_legacy_sbi_call k m sbi_set_timer deadline
          arg1 arg2
        ≡ ok (0, n))
      × IsArmed k m deadline sec nsec n
      × (nsec < 1000000000)
      × (sec * 1000000000 + nsec ≡ (
          if leb k.time deadline && ltb ((deadline - k.time) * 1000) (2 ^ 64)
          then (deadline - k.time) * 1000
          else u64 (sub64 deadline k.time * 1000)))
unfolding handle_legacy_sbi_call
set_timer-IsArmed k m deadline arg1 arg2 h word = (
  u64 (sub64 deadline k.time * 1000) / 1000000000,
  u64 (sub64 deadline k.time * 1000) % 1000000000,
  (set_timer k m deadline).1,
  (unfold set_timer in refl),
  (unfold set_timer in rw (set_timer_bit m.priv.sip (leb deadline k.time) h) refl),
  omega arith,
  ground arith,
)
