-- ===== src/Csr.antt =====
-- src/urvirt-stub/riscv-priv.c: reading and writing the emulated control and status registers.
pub mod Fields
pub mod Laws
pub mod Invariant
use urvirt.Common.{ℕ, Bool, true, ◌||◌, ◌==◌, if◌then◌else◌, ◌&&&◌, ◌|||◌, not64}
use urvirt.Outcome.{Result, ok, stop, ebreak}
use urvirt.Priv.{PrivState}
use urvirt.RiscvBits.{
  stvec_mode_mask, stvec_direct, stvec_vectored, csr_sscratch, csr_stvec, csr_sepc, csr_sstatus,
  csr_sie, csr_sip, csr_scause, csr_stval, csr_satp, sstatus_writable_mask, six_writable_mask,
  get_satp_mode, set_satp_asid, satp_mode_sv39, satp_mode_bare,
}

unfoldable pub sanitize_stvec : ℕ → ℕ
sanitize_stvec stvec =
    let mode = stvec &&& stvec_mode_mask in
    if mode == stvec_direct || mode == stvec_vectored
    then stvec
    else stvec &&& not64 stvec_mode_mask

-- The writable bits of `value` over the other bits of `old`.
unfoldable pub merge_mask : ℕ → ℕ → ℕ → ℕ
merge_mask mask value old = (value &&& mask) ||| (old &&& not64 mask)

unfoldable pub read_csr : PrivState → ℕ → Result ℕ
read_csr priv csr =
    if csr == csr_sscratch
    then ok priv.sscratch
    else if csr == csr_stvec
    then ok priv.stvec
    else if csr == csr_sepc
    then ok priv.sepc
    else if csr == csr_sstatus
    then ok priv.sstatus
    else if csr == csr_sie
    then ok priv.sie
    else if csr == csr_sip
    then ok priv.sip
    else if csr == csr_scause
    then ok priv.scause
    else if csr == csr_stval
    then ok priv.stval
    else if csr == csr_satp
    then ok priv.satp
    else stop (ebreak "Unimplemented CSR read")

unfoldable pub write_csr : PrivState → ℕ → ℕ → Result PrivState
write_csr priv csr value =
    if csr == csr_sscratch
    then ok (record priv { sscratch = value })
    else if csr == csr_stvec
    then ok (record priv { stvec = sanitize_stvec value })
    else if csr == csr_sepc
    then ok (record priv { sepc = value })
    else if csr == csr_sstatus
    then ok (record priv { sstatus = merge_mask sstatus_writable_mask value priv.sstatus })
    else if csr == csr_sie
    then ok (record priv { sie = merge_mask six_writable_mask value priv.sie })
    else if csr == csr_sip
    then ok (record priv { sip = merge_mask six_writable_mask value priv.sip })
    else if csr == csr_scause
    then ok (record priv { scause = value })
    else if csr == csr_stval
    then ok (record priv { stval = value })
    else if csr == csr_satp
    then (if get_satp_mode value == satp_mode_sv39 || get_satp_mode value == satp_mode_bare
        then ok (record priv { satp = set_satp_asid value 0; should_clear_vm = true })
        else ok priv)
    else stop (ebreak "Unimplemented CSR write")
