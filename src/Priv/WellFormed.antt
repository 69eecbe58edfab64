-- ===== src/Priv/WellFormed.antt =====
-- What holds of the privileged state between any two operations.
use urvirt.Common.{
  ℕ, ◌%◌, ◌^◌, ◌≤◌, ◌<◌, ◌≡◌, ◌⊎◌, Bool, true, false, ◌||◌, ◌==◌, if◌then◌else◌, arith, refl, inl,
  inr, all_below, all_below_lem, ==→eq,
}
use urvirt.RiscvBits.{
  priv_s, priv_u, get_satp_mode, satp_mode_bare, satp_mode_sv39, get_field, set_field,
  set_sstatus_sd, set_sstatus_xs, set_sstatus_fs, sstatus_xs_dirty,
}
use urvirt.Bits.{bit}
use urvirt.Priv.{PrivState, initialize_priv}

-- The writable bits of sstatus: SIE, SPIE, SPP, SUM and MXR.
abbrev pub is_writable : ℕ → Bool
is_writable i = i == 1 || i == 5 || i == 8 || i == 18 || i == 19

-- The bits of sstatus that are always 1: FS, XS and SD say "dirty".
abbrev pub dirty_bit : ℕ → ℕ
dirty_bit i = if i == 13 || i == 14 || i == 15 || i == 16 || i == 63 then 1 else 0

abbrev pub IsStatus : ℕ → Type 0
IsStatus s = (s < 2 ^ 64) × ((i : ℕ) → i < 64 → is_writable i ≡ false → bit s i ≡ dirty_bit i)

-- Only the supervisor timer bit of sip and sie is ever set.
abbrev pub IsTimerOnly : ℕ → Type 0
IsTimerOnly x = (x ≡ 0) ⊎ (x ≡ 2 ^ 5)

abbrev pub IsSatp : ℕ → Type 0
IsSatp x =
    (x < 2 ^ 64)
    × ((get_satp_mode x ≡ satp_mode_bare) ⊎ (get_satp_mode x ≡ satp_mode_sv39))
    × (get_field 44 16 x ≡ 0)

pub record IsWellFormed (p : PrivState) : Type 0 where
  pub mode : (p.priv_mode ≡ priv_u) ⊎ (p.priv_mode ≡ priv_s)
  pub status : IsStatus p.sstatus
  pub vector : (p.stvec < 2 ^ 64) × (p.stvec % 4 ≤ 1)
  pub pending : IsTimerOnly p.sip
  pub enabled : IsTimerOnly p.sie
  pub translation : IsSatp p.satp
  pub scratch_word : p.sscratch < 2 ^ 64
  pub epc_word : p.sepc < 2 ^ 64
  pub cause_word : p.scause < 2 ^ 64
  pub tval_word : p.stval < 2 ^ 64

abbrev initial_sstatus : ℕ
initial_sstatus =
    set_sstatus_sd (set_sstatus_xs (set_sstatus_fs 0 sstatus_xs_dirty) sstatus_xs_dirty) 1

initial_table : all_below 64 (λ i. bit initial_sstatus i == dirty_bit i) ≡ true
unfolding all_below bit set_field
initial_table = refl

initial-IsStatus : IsStatus initial_sstatus
initial-IsStatus = (
  unfold set_field in omega arith,
  λ i p fixed.
      ==→eq _ _ (all_below_lem 64 (λ i. bit initial_sstatus i == dirty_bit i) i initial_table p),
)

initial-IsSatp : IsSatp 0
initial-IsSatp = (omega arith, inl (unfold get_field in refl), unfold get_field in refl)

-- `initialize_priv` makes the state well formed, if stval, which it does not write, holds a word.
pub initialize_priv-IsWellFormed :
    (p : PrivState) → p.stval < 2 ^ 64 → IsWellFormed (initialize_priv p)
unfolding initialize_priv
initialize_priv-IsWellFormed p h = record {
  mode = inr refl;
  status = initial-IsStatus;
  vector = omega arith;
  pending = inl refl;
  enabled = inl refl;
  translation = initial-IsSatp;
  scratch_word = omega arith;
  epc_word = omega arith;
  cause_word = omega arith;
  tval_word = h;
}
