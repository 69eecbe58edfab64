-- ===== src/Seccomp/Laws.antt =====
-- The filter against what the kernel documents of classic BPF.
use urvirt.Common.{
  ℕ, ◌+◌, ◌/◌, ◌%◌, ◌^◌, ◌<◌, ◌≡◌, refl, ◌∙◌, Bool, true, false, ◌&&◌, ◌==◌, leb, ltb,
  if◌then◌else◌, arith, List, u32, some,
}
use urvirt.Common.Lists.{get_elem?}
use urvirt.Seccomp.{SockFilter, ld_w_abs, jeq, jge, jgt, ret_allow, ret_trap, gen_addr_filter}

-- What the kernel does with a system call made at `ip`, by a filter, from the instruction numbered
-- `pc` with `acc` in the accumulator. The laws are the documented meaning of the instructions that
-- the stub uses: a load reads a 32-bit half of the instruction pointer, a jump is relative to the
-- next instruction, a return gives the verdict (`true` to allow the call, `false` to trap).
pub record Bpf : Type 0 where
  pub ip_low : ℕ
  pub run : List SockFilter → ℕ → ℕ → ℕ → Bool
  pub load_low :
      (f : List SockFilter) (ip pc acc : ℕ)
      → get_elem? f pc ≡ some (ld_w_abs ip_low)
      → run f ip pc acc ≡ run f ip (pc + 1) (ip % 2 ^ 32)
  pub load_high :
      (f : List SockFilter) (ip pc acc : ℕ)
      → get_elem? f pc ≡ some (ld_w_abs (ip_low + 4))
      → run f ip pc acc ≡ run f ip (pc + 1) (ip / 2 ^ 32 % 2 ^ 32)
  pub jump_eq :
      (f : List SockFilter) (ip pc acc : ℕ) {k jt jf : ℕ}
      → get_elem? f pc ≡ some (jeq k jt jf)
      → run f ip pc acc ≡ run f ip (pc + 1 + (if acc == k then jt else jf)) acc
  pub jump_ge :
      (f : List SockFilter) (ip pc acc : ℕ) {k jt jf : ℕ}
      → get_elem? f pc ≡ some (jge k jt jf)
      → run f ip pc acc ≡ run f ip (pc + 1 + (if leb k acc then jt else jf)) acc
  pub jump_gt :
      (f : List SockFilter) (ip pc acc : ℕ) {k jt jf : ℕ}
      → get_elem? f pc ≡ some (jgt k jt jf)
      → run f ip pc acc ≡ run f ip (pc + 1 + (if ltb k acc then jt else jf)) acc
  pub allow :
      (f : List SockFilter) (ip pc acc : ℕ)
      → get_elem? f pc ≡ some ret_allow
      → run f ip pc acc ≡ true
  pub trap :
      (f : List SockFilter) (ip pc acc : ℕ)
      → get_elem? f pc ≡ some ret_trap
      → run f ip pc acc ≡ false

module _ (b : Bpf) (start_addr end_addr ip : ℕ) where
  filter : List SockFilter
  filter = gen_addr_filter b.ip_low start_addr end_addr

  sh : ℕ
  sh = u32 (start_addr / 2 ^ 32)

  sl : ℕ
  sl = u32 start_addr

  eh : ℕ
  eh = u32 (end_addr / 2 ^ 32)

  el : ℕ
  el = u32 end_addr

  hi : ℕ
  hi = ip / 2 ^ 32 % 2 ^ 32

  lo : ℕ
  lo = ip % 2 ^ 32

  at_allow : (acc : ℕ) → b.run filter ip 10 acc ≡ true
  unfolding filter gen_addr_filter
  at_allow acc = b.allow filter ip 10 acc refl

  at_trap : (acc : ℕ) → b.run filter ip 11 acc ≡ false
  unfolding filter gen_addr_filter
  at_trap acc = b.trap filter ip 11 acc refl

  -- Instructions 7 to 9: the comparison with the end, by the low or the high half.
  at_end_low : (acc : ℕ) → b.run filter ip 7 acc ≡ ltb lo el
  unfolding filter gen_addr_filter lo el
  at_end_low acc = ground (
    arith,
    b.load_low filter ip 7 acc refl,
    b.jump_ge filter ip 8 lo refl,
    at_allow lo,
    at_trap lo,
  )

  -- Instructions 5 and 6: which half decides.
  at_end : (acc : ℕ) → b.run filter ip 5 acc ≡ (if hi == eh then ltb lo el else ltb hi eh)
  unfolding filter gen_addr_filter lo el hi eh
  at_end acc = ground (
    arith,
    b.load_high filter ip 5 acc refl,
    b.jump_eq filter ip 6 hi refl,
    b.jump_gt filter ip 9 hi refl,
    at_end_low hi,
    at_allow hi,
    at_trap hi,
  )

  at_start :
      (acc : ℕ)
      → b.run filter ip 0 acc ≡ (
          if hi == sh
          then (if leb sl lo then b.run filter ip 5 lo else false)
          else if ltb sh hi
          then b.run filter ip 5 hi
          else false)
  unfolding filter gen_addr_filter lo sl hi sh
  at_start acc = ground (
    arith,
    b.load_high filter ip 0 acc refl,
    b.jump_eq filter ip 1 hi refl,
    b.load_low filter ip 2 hi refl,
    b.jump_ge filter ip 3 lo refl,
    b.jump_gt filter ip 4 hi refl,
    at_trap hi,
    at_trap lo,
  )

-- The generated filter allows a system call exactly when it is made from the half-open range from
-- `start_addr` to `end_addr`, and traps every other; all three are 64-bit words.
pub gen_addr_filter_exact :
    (b : Bpf) (start_addr end_addr ip acc : ℕ)
    → start_addr < 2 ^ 64
    → end_addr < 2 ^ 64
    → ip < 2 ^ 64
    → b.run (gen_addr_filter b.ip_low start_addr end_addr) ip 0 acc
      ≡ leb start_addr ip && ltb ip end_addr
unfolding filter sh sl eh el hi lo
gen_addr_filter_exact b start_addr end_addr ip acc hs he hi' =
    at_start b start_addr end_addr ip acc
    ∙ ground (
      arith,
      at_end b start_addr end_addr ip (lo b start_addr end_addr ip),
      at_end b start_addr end_addr ip (hi b start_addr end_addr ip),
    )
