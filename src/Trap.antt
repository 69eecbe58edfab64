-- ===== src/Trap.antt =====
-- src/urvirt-stub/riscv-priv.c: entering a trap, and returning from one by `sret`.
pub mod Laws
pub mod Invariant
use urvirt.Common.{
  ℕ, ◌+◌, ◌*◌, Bool, true, false, not, ◌||◌, ◌==◌, if◌then◌else◌, ◌&&&◌, not64, u64, truthy,
}
use urvirt.Priv.{PrivState}
use urvirt.Machine.{Machine, set_reg}
use urvirt.RiscvBits.{
  stvec_mode_mask, stvec_direct, scause_is_int, priv_s, priv_u, sstatus_spp_s, sstatus_spp_u,
  get_sstatus_sie, get_sstatus_spie, get_sstatus_spp, set_sstatus_sie, set_sstatus_spie,
  set_sstatus_spp,
}

unfoldable pub trap_target : PrivState → ℕ → ℕ
trap_target priv scause =
    let base = priv.stvec &&& not64 stvec_mode_mask in
    let mode = priv.stvec &&& stvec_mode_mask in
    if mode == stvec_direct || not (truthy (scause &&& scause_is_int))
    then base
    else u64 (base + u64 (scause * 4))

-- sstatus on entry to a trap from mode `mode`.
pub trap_sstatus : ℕ → ℕ → ℕ
trap_sstatus mode sstatus =
    let with_spp =
      if mode == priv_s
      then set_sstatus_spp sstatus sstatus_spp_s
      else set_sstatus_spp sstatus sstatus_spp_u in
    set_sstatus_sie (set_sstatus_spie with_spp (get_sstatus_sie with_spp)) 0

unfoldable pub enter_trap : Machine → ℕ → ℕ → Machine
enter_trap m scause stval =
    let priv = record m.priv {
      sepc = m.regs 0;
      scause = scause;
      stval = stval;
      sstatus = trap_sstatus m.priv.priv_mode m.priv.sstatus;
      priv_mode = priv_s;
    } in
    let m' = set_reg m 0 (trap_target priv scause) in
    record m' { priv = record priv { should_clear_vm = true } }

-- sstatus after `sret`.
pub sret_sstatus : ℕ → ℕ
sret_sstatus sstatus =
    set_sstatus_spp (set_sstatus_spie (set_sstatus_sie sstatus (get_sstatus_spie sstatus)) 1) 0

-- The `sret` branch of handle_priv_instr.
unfoldable pub sret : Machine → Machine
sret m =
    let priv = record m.priv {
      counter_sret = u64 (m.priv.counter_sret + 1);
      sstatus = sret_sstatus m.priv.sstatus;
    } in
    let spp = get_sstatus_spp m.priv.sstatus in
    let back =
      if spp == sstatus_spp_u
      then record priv { priv_mode = priv_u; should_clear_vm = true }
      else record priv { priv_mode = priv_s } in
    set_reg (record m { priv = back }) 0 back.sepc
