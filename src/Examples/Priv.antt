-- ===== src/Examples/Priv.antt =====
-- The theorems on the privileged state and its instructions, at the booted machine.
use urvirt.Common.{◌-◌, ◌^◌, ◌≡◌, false, arith}
use urvirt.Csr.Laws.{sstatus, Written, write_csr-Written}
use urvirt.PrivInstr.{handle_priv_instr}
use urvirt.PrivInstr.Spec.{Instr, csr, set, encode, exec, IsEncodable, wfi}
use urvirt.PrivInstr.Decode.{handle_priv_instr-encode}
use urvirt.PrivInstr.Accept.{handle_priv_instr_accepts}
use urvirt.Examples.Machines.{booted, booted-IsValid}

-- All ones are written to sstatus.
write_csr-Written_example : Written booted.priv sstatus (2 ^ 64 - 1)
write_csr-Written_example =
    write_csr-Written booted.priv (2 ^ 64 - 1) booted-IsValid.state (omega arith) sstatus

-- `csrrs x7, sstatus, x2`.
handle_priv_instr-encode_example :
    handle_priv_instr booted (encode (csr set false 0x100 7 2))
    ≡ exec booted (csr set false 0x100 7 2)
handle_priv_instr-encode_example =
    handle_priv_instr-encode booted (csr set false 0x100 7 2) (omega arith)

handle_priv_instr_accepts_example : (i : Instr) × IsEncodable i × (encode i ≡ 0x10500073)
handle_priv_instr_accepts_example =
    handle_priv_instr_accepts booted 0x10500073 (omega arith)
      (handle_priv_instr-encode booted wfi tt)
