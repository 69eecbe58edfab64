-- ===== src/Sbi/Laws.antt =====
-- The SBI calls: the timer, and validity.
use urvirt.Common.{ℕ, ◌^◌, ◌<◌, ◌≡◌, inl, inr, Bool, true, false, ◌==◌, leb, if◌then◌else◌, arith}
use urvirt.Outcome.{Ensures, Ensures-if}
use urvirt.Kernel.{Kernel}
use urvirt.Priv.WellFormed.{IsTimerOnly}
use urvirt.Machine.{Machine, IsValid, call-IsValid}
use urvirt.RiscvBits.{set_field}
use urvirt.Sbi.{
  handle_legacy_sbi_call, set_timer, console_getchar, is_minus, is_less_one, ewouldblock,
}

-- Setting the timer bit of a word that holds no other.
pub set_timer_bit :
    (x : ℕ) (b : Bool)
    → IsTimerOnly x
    → set_field 5 1 x (if b then 1 else 0) ≡ (if b then 2 ^ 5 else 0)
unfolding set_field
set_timer_bit x true (inl e) = rw e
set_timer_bit x true (inr e) = rw e
set_timer_bit x false (inl e) = rw e
set_timer_bit x false (inr e) = rw e

pub timer_bit-IsTimerOnly :
    (x : ℕ) (b : Bool) → IsTimerOnly x → IsTimerOnly (set_field 5 1 x (if b then 1 else 0))
timer_bit-IsTimerOnly x b h = rw (set_timer_bit x b h) (ground arith)

-- A machine with another legal sip.
pub sip-IsValid :
    (m : Machine) (x : ℕ)
    → IsValid m
    → IsTimerOnly x
    → IsValid (record m { priv = record m.priv { sip = x } })
sip-IsValid m x h t = record { state = assumption (h.state, t); words = h.words }

set_timer-IsValid :
    (k : Kernel) (m : Machine) (arg0 : ℕ) → IsValid m → IsValid (set_timer k m arg0).1
unfolding set_timer
set_timer-IsValid k m arg0 h = call-IsValid _ _ (
    call-IsValid _ _
      (sip-IsValid m _ h (timer_bit-IsTimerOnly m.priv.sip (leb arg0 k.time) h.state.pending)))

-- A result that is a word, and a valid machine.
abbrev pub IsReply : ℕ × Machine → Type 0
IsReply r = (r.0 < 2 ^ 64) × IsValid r.1

console_getchar-IsReply :
    (k : Kernel) (m : Machine) → IsValid m → Ensures IsReply (console_getchar k m)
unfolding console_getchar
console_getchar-IsReply k m h =
    Ensures-if IsReply (is_minus k.read_result ewouldblock) _ _
      (λ _. (omega arith, call-IsValid m _ h))
      (λ _.
        Ensures-if IsReply (is_less_one k.read_result) _ _ (λ _. tt)
          (λ _. (omega arith, call-IsValid m _ h)))

-- A call from a valid machine that returns gives a result that is a word, and a valid machine.
pub handle_legacy_sbi_call-IsReply :
    (k : Kernel) (m : Machine) (which arg0 arg1 arg2 : ℕ)
    → IsValid m
    → Ensures IsReply (handle_legacy_sbi_call k m which arg0 arg1 arg2)
unfolding handle_legacy_sbi_call
handle_legacy_sbi_call-IsReply k m which arg0 arg1 arg2 h =
    Ensures-if IsReply (which == 1) _ _ (λ _. (omega arith, call-IsValid m _ h))
      (λ _.
        Ensures-if IsReply (which == 2) _ _ (λ _. console_getchar-IsReply k m h)
          (λ _.
            Ensures-if IsReply (which == 8) _ _ (λ _. tt)
              (λ _.
                Ensures-if IsReply (which == 0) _ _
                  (λ _. ((unfold set_timer in omega arith), set_timer-IsValid k m arg0 h))
                  (λ _. (omega arith, call-IsValid m _ h)))))
