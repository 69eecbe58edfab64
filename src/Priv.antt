-- ===== src/Priv.antt =====
-- src/urvirt-stub/riscv-priv.h and riscv-priv.c: the privileged state and its initialisation.
pub mod WellFormed
use urvirt.Common.{ℕ, Bool}
use urvirt.RiscvBits.{
  priv_s, sstatus_xs_dirty, set_sstatus_fs, set_sstatus_xs, set_sstatus_sd, set_field,
}

-- `struct priv_state`. It lies over `struct urvirt_config`: the first three fields are the loader's.
pub record PrivState : Type 0 where
  pub stub_start : ℕ
  pub stub_size : ℕ
  pub kernel_size : ℕ
  pub timerid : ℕ
  pub priv_mode : ℕ
  pub sstatus : ℕ
  pub sscratch : ℕ
  pub stvec : ℕ
  pub sepc : ℕ
  pub scause : ℕ
  pub stval : ℕ
  pub sip : ℕ
  pub sie : ℕ
  pub satp : ℕ
  pub urvb_block_id : ℕ
  pub urvb_buf : ℕ
  pub should_clear_vm : Bool
  pub counter_ill : ℕ
  pub counter_segv : ℕ
  pub counter_sret : ℕ
  pub counter_uecall : ℕ
  pub counter_secall : ℕ

-- Fields that `initialize_priv` does not write keep what the shared page holds.
unfoldable pub initialize_priv : PrivState → PrivState
initialize_priv priv = record priv {
  priv_mode = priv_s;
  sscratch = 0;
  stvec = 0;
  sepc = 0;
  scause = 0;
  satp = 0;
  sip = 0;
  sie = 0;
  sstatus = set_sstatus_sd (set_sstatus_xs (set_sstatus_fs 0 sstatus_xs_dirty) sstatus_xs_dirty) 1;
  counter_ill = 0;
  counter_segv = 0;
  counter_sret = 0;
  counter_uecall = 0;
  counter_secall = 0;
}
