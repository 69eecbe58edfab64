-- ===== src/Sbi/Contained.antt =====
-- The SBI calls and the guest's address space.
use urvirt.Common.{ℕ, ◌*◌, ◌/◌, ◌%◌, ◌==◌, refl, u64, sub64}
use urvirt.Outcome.{Ensures, Ensures-if}
use urvirt.Kernel.{Kernel}
use urvirt.Machine.{Machine, call, log, s_write, s_read, s_timer_settime}
use urvirt.Sbi.{handle_legacy_sbi_call, console_getchar, set_timer, is_minus, is_less_one}
use urvirt.Contained.{IsContained, other, call-IsContained}

module _ (k : Kernel) (m : Machine) where
  abbrev Answered : ℕ × Machine → Type 0
  Answered r = IsContained k m r.1

  getchar-IsContained : (n : Machine) → IsContained k m n → Ensures Answered (console_getchar k n)
  unfolding console_getchar
  getchar-IsContained n h =
      Ensures-if Answered (is_minus k.read_result 11) _ _ (λ _. read)
        (λ _. Ensures-if Answered (is_less_one k.read_result) _ _ (λ _. tt) (λ _. read))
    where
      read : IsContained k m (call n (s_read 0))
      read = call-IsContained k m n (s_read 0) (other (s_read 0) refl) h

  set_timer-IsContained :
      (n : Machine) (deadline : ℕ) → IsContained k m n → Answered (set_timer k n deadline)
  unfolding set_timer
  set_timer-IsContained n deadline h =
      let logged = call-IsContained k m n (log "Set timer") (other _ refl) h in
      let delta = u64 (sub64 deadline k.time * 1000) in
      let armed =
        call-IsContained k m _
          (s_timer_settime n.priv.timerid (delta / 1000000000) (delta % 1000000000)) (other _ refl)
          logged in
      record { log = armed.log; state = record { stub = h.state.stub; space = h.state.space } }

  -- A call that returns makes no call that changes the address space.
  pub handle_legacy_sbi_call-IsContained :
      (n : Machine) (which arg0 arg1 arg2 : ℕ)
      → IsContained k m n
      → Ensures Answered (handle_legacy_sbi_call k n which arg0 arg1 arg2)
  unfolding handle_legacy_sbi_call
  handle_legacy_sbi_call-IsContained n which arg0 arg1 arg2 h =
      Ensures-if Answered (which == 1) _ _
        (λ _. call-IsContained k m n (s_write 1 (arg0 % 256)) (other _ refl) h)
        (λ _.
          Ensures-if Answered (which == 2) _ _ (λ _. getchar-IsContained n h)
            (λ _.
              Ensures-if Answered (which == 8) _ _ (λ _. tt)
                (λ _.
                  Ensures-if Answered (which == 0) _ _ (λ _. set_timer-IsContained n arg0 h)
                    (λ _. call-IsContained k m n (log "Unhandled sbi call") (other _ refl) h))))
