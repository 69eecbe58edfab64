-- ===== src/Trap/Invariant.antt =====
-- Traps, `sret` and the validity of the machine; a trap followed by `sret`.
use urvirt.Common.{ℕ, ◌^◌, ◌<◌, ◌≡◌, refl, ap, ◌∙◌, ◌⊎◌, inl, inr, true, ◌==◌, Bool-cases, arith}
use urvirt.Bits.{bit_ext, bit}
use urvirt.Priv.{PrivState}
use urvirt.Priv.WellFormed.{IsWellFormed, IsStatus}
use urvirt.Machine.{Machine, IsValid, update-lt}
use urvirt.RiscvBits.{
  set_field, set_field-lt, set_sstatus_spp, set_sstatus_spie, get_field, get_field_one, priv_s,
  priv_u,
}
use urvirt.Trap.{trap_target, trap_sstatus, enter_trap, sret_sstatus, sret}
use urvirt.Trap.Laws.{
  bit-set_one, trap_target_lem, bit-trap_sstatus, bit-sret_sstatus, trap_sstatus-IsStatus,
  sret_sstatus-IsStatus,
}

user_mode : (priv_u ≡ priv_u) ⊎ (priv_u ≡ priv_s)
user_mode = inl refl

supervisor_mode : (priv_s ≡ priv_u) ⊎ (priv_s ≡ priv_s)
supervisor_mode = inr refl

pub trap_target-lt :
    (p : PrivState) (scause : ℕ) → IsWellFormed p → scause < 2 ^ 64 → trap_target p scause < 2 ^ 64
trap_target-lt p scause h word = rw (trap_target_lem p scause h word) (ground (arith, h.vector))

-- A trap keeps a valid machine valid, when its cause and value are words.
pub enter_trap-IsValid :
    (m : Machine) (scause stval : ℕ)
    → IsValid m
    → scause < 2 ^ 64
    → stval < 2 ^ 64
    → IsValid (enter_trap m scause stval)
unfolding enter_trap
enter_trap-IsValid m scause stval h cause tval = record {
  state = record {
    mode = inr refl;
    status = state.status;
    vector = state.vector;
    pending = state.pending;
    enabled = state.enabled;
    translation = state.translation;
    scratch_word = state.scratch_word;
    epc_word = state.epc_word;
    cause_word = cause;
    tval_word = tval;
  };
  words = λ i. update-lt m.regs 0 _ i h.words (trap_target-lt trapped scause state cause);
}
  where
    trapped : PrivState
    trapped = record m.priv {
      sepc = m.regs 0;
      scause = scause;
      stval = stval;
      sstatus = trap_sstatus m.priv.priv_mode m.priv.sstatus;
      priv_mode = priv_s;
    }

    state : IsWellFormed trapped
    state = assumption (
      supervisor_mode,
      trap_sstatus-IsStatus m.priv.priv_mode m.priv.sstatus h.state.status,
      h.words 0,
    )

module _ (p : PrivState) (count : ℕ) (h : IsWellFormed p) where
  sret-IsWellFormed_user : IsWellFormed (record p {
    counter_sret = count;
    sstatus = sret_sstatus p.sstatus;
    priv_mode = priv_u;
    should_clear_vm = true;
  })
  sret-IsWellFormed_user = assumption (user_mode, sret_sstatus-IsStatus p.sstatus h.status)

  sret-IsWellFormed_supervisor :
      IsWellFormed
        (record p { counter_sret = count; sstatus = sret_sstatus p.sstatus; priv_mode = priv_s })
  sret-IsWellFormed_supervisor =
      assumption (supervisor_mode, sret_sstatus-IsStatus p.sstatus h.status)

-- `sret` keeps a valid machine valid.
pub sret-IsValid : (m : Machine) → IsValid m → IsValid (sret m)
unfolding sret
sret-IsValid m h = elim (Bool-cases (get_field 8 1 m.priv.sstatus == 0)) [
  | inl e ↦ rw e (record {
    state = sret-IsWellFormed_user m.priv _ h.state;
    words = λ i. update-lt m.regs 0 m.priv.sepc i h.words h.state.epc_word;
  })
  | inr e ↦ rw e (record {
    state = sret-IsWellFormed_supervisor m.priv _ h.state;
    words = λ i. update-lt m.regs 0 m.priv.sepc i h.words h.state.epc_word;
  })
]

sret-sstatus : (m : Machine) → (sret m).priv.sstatus ≡ sret_sstatus m.priv.sstatus
unfolding sret
sret-sstatus m = ground arith

module _ (mode s : ℕ) (h : IsStatus s) where
  sret-trap_bits :
      (i : ℕ)
      → i < 64
      → bit (sret_sstatus (trap_sstatus mode s)) i ≡ bit (set_field 8 1 (set_field 5 1 s 1) 0) i
  sret-trap_bits i p = ground (
    arith,
    bit-sret_sstatus (trap_sstatus mode s) i p,
    bit-trap_sstatus mode s 5,
    bit-trap_sstatus mode s i p,
    bit-set_one 8 (set_field 5 1 s 1) 0 i,
    bit-set_one 5 s 1 i,
    same_bit,
  )
    where
      same_bit : i ≡ 1 → bit s i ≡ bit s 1
      same_bit e = ap (bit s) e

  sret-trap_sstatus : sret_sstatus (trap_sstatus mode s) ≡ set_field 8 1 (set_field 5 1 s 1) 0
  sret-trap_sstatus =
      bit_ext 64 _ _ (sret_sstatus-IsStatus _ (trap_sstatus-IsStatus mode s h)).0
        (set_field-lt 8 1 _ 0 (set_field-lt 5 1 s 1 h.0)) sret-trap_bits

-- What a trap and the matching `sret` give back: the mode, the pc and every register; sstatus is
-- as it was, but for SPIE, which is 1, and SPP, which is 0.
pub record IsResumed (m n : Machine) : Type 0 where
  pub mode : n.priv.priv_mode ≡ m.priv.priv_mode
  pub registers : (i : ℕ) → n.regs i ≡ m.regs i
  pub status : n.priv.sstatus ≡ set_sstatus_spp (set_sstatus_spie m.priv.sstatus 1) 0
  pub memory : n.memory ≡ m.memory

-- In a valid machine, `sret` right after a trap resumes the interrupted code: the same mode, pc and
-- registers, and the same sstatus but for SPIE, which is 1, and SPP, which is 0.
pub sret-enter_trap :
    (m : Machine) (scause stval : ℕ) → IsValid m → IsResumed m (sret (enter_trap m scause stval))
unfolding enter_trap sret
sret-enter_trap m scause stval h = record {
  mode =
      ground
        (arith, get_field_one 8 (trap_sstatus mode s), bit-trap_sstatus mode s 8, h.state.mode);
  registers = λ i. ground arith;
  status = sret-sstatus (enter_trap m scause stval) ∙ sret-trap_sstatus mode s h.state.status;
  memory = refl;
}
  where
    mode : ℕ
    mode = m.priv.priv_mode

    s : ℕ
    s = m.priv.sstatus
