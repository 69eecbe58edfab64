-- ===== src/Sbi.antt =====
-- src/urvirt-stub/handle-sbi.c and handle-sbi.h: the legacy SBI calls.
pub mod Laws
pub mod Timer
pub mod Contained
use urvirt.Common.{
  ℕ, ◌+◌, ◌-◌, ◌*◌, ◌/◌, ◌%◌, ◌^◌, Bool, true, false, ltb, leb, ◌||◌, ◌==◌, if◌then◌else◌, sub64,
  u64, u32,
}
use urvirt.Outcome.{Result, ok, stop, ebreak, exited}
use urvirt.Kernel.{Kernel}
use urvirt.Machine.{Machine, call, log, s_write, s_read, s_timer_settime}
use urvirt.RiscvBits.{set_six_sti}

abbrev pub sbi_err_not_supported : ℕ
sbi_err_not_supported = 2 ^ 64 - 2

abbrev pub sbi_set_timer : ℕ
sbi_set_timer = 0

abbrev pub sbi_console_putchar : ℕ
sbi_console_putchar = 1

abbrev pub sbi_console_getchar : ℕ
sbi_console_getchar = 2

abbrev pub sbi_shutdown : ℕ
sbi_shutdown = 8

-- `EWOULDBLOCK` of errno.h.
abbrev pub ewouldblock : ℕ
ewouldblock = 11

-- `int res = s_read(...)`: the low 32 bits, whose top bit is the sign.
abbrev pub is_minus : ℕ → ℕ → Bool
is_minus res n = u32 res == 2 ^ 32 - n

abbrev pub is_less_one : ℕ → Bool
is_less_one res = u32 res == 0 || leb (2 ^ 31) (u32 res)

-- The `SBI_CONSOLE_GETCHAR` branch; `char` is unsigned on RISC-V.
unfoldable pub console_getchar : Kernel → Machine → Result (ℕ × Machine)
console_getchar k m =
    let m' = call m (s_read 0) in
    if is_minus k.read_result ewouldblock
    then ok (0, m')
    else if is_less_one k.read_result
    then stop (ebreak "error in read")
    else ok (k.read_byte % 256, m')

-- The `SBI_SET_TIMER` branch.
pub set_timer : Kernel → Machine → ℕ → ℕ × Machine
set_timer k m arg0 =
    let cur_time = k.time in
    let delta_ns = u64 (sub64 arg0 cur_time * 1000) in
    let m' = call m (log "Set timer") in
    let m'' =
      call m' (s_timer_settime m.priv.timerid (delta_ns / 1000000000) (delta_ns % 1000000000)) in
    (
      0,
      record m'' {
        priv = record m.priv { sip = set_six_sti m.priv.sip (if leb arg0 cur_time then 1 else 0) };
      },
    )

-- `arg1` and `arg2` are never read.
unfoldable pub handle_legacy_sbi_call :
    Kernel → Machine → (which arg0 arg1 arg2 : ℕ) → Result (ℕ × Machine)
handle_legacy_sbi_call k m which arg0 arg1 arg2 =
    if which == sbi_console_putchar
    then ok (0, call m (s_write 1 (arg0 % 256)))
    else if which == sbi_console_getchar
    then console_getchar k m
    else if which == sbi_shutdown
    then stop (exited 0)
    else if which == sbi_set_timer
    then ok (set_timer k m arg0)
    else ok (sbi_err_not_supported, call m (log "Unhandled sbi call"))
