-- ===== src/Examples/Traps.antt =====
-- The theorems on traps and the SBI.
use urvirt.Common.{
  ℕ, ◌+◌, ◌-◌, ◌*◌, ◌<◌, ◌≡◌, refl, inl, arith, ◌^◌, ◌&&◌, leb, ltb, if◌then◌else◌, u64, sub64,
}
use urvirt.Outcome.{ok}
use urvirt.Priv.{initialize_priv}
use urvirt.Machine.{Machine}
use urvirt.Trap.{enter_trap, sret}
use urvirt.Trap.Invariant.{IsResumed, sret-enter_trap}
use urvirt.Sbi.{handle_legacy_sbi_call, sbi_set_timer}
use urvirt.Sbi.Timer.{IsArmed, set_timer-IsArmed}
use urvirt.Examples.Machines.{linux, booted, user, user-IsValid}

sret-enter_trap_example : IsResumed user (sret (enter_trap user 13 0x123))
sret-enter_trap_example = sret-enter_trap user 13 0x123 user-IsValid

-- Half a second after the clock's 1000.
set_timer-IsArmed_example :
    (sec : ℕ) × (nsec : ℕ) × (n : Machine) × (handle_legacy_sbi_call linux booted sbi_set_timer
        501000 0 0
      ≡ ok (0, n))
    × IsArmed linux booted 501000 sec nsec n
    × (nsec < 1000000000)
    × (sec * 1000000000 + nsec ≡ (
        if leb linux.time 501000 && ltb ((501000 - linux.time) * 1000) (2 ^ 64)
        then (501000 - linux.time) * 1000
        else u64 (sub64 501000 linux.time * 1000)))
unfolding initialize_priv
set_timer-IsArmed_example = set_timer-IsArmed linux booted 501000 0 0 (inl refl) (omega arith)
