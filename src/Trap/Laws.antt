-- ===== src/Trap/Laws.antt =====
-- What a trap and `sret` do to sstatus, the mode and the pc.
use urvirt.Common.{
  ℕ, ◌+◌, ◌-◌, ◌*◌, ◌/◌, ◌%◌, ◌^◌, ◌<◌, ◌≡◌, ap, ◌∙◌, ◌&&◌, leb, ◌==◌, if◌then◌else◌, arith,
  Bool-cases, inl, inr,
}
use urvirt.Bits.{bit, bit-lt, bit-zero, bit_and_mask, bit_and-high, clear_low2}
use urvirt.Priv.{PrivState}
use urvirt.Priv.WellFormed.{IsWellFormed, IsStatus}
use urvirt.RiscvBits.{get_field, set_field, get_field_one, bit-set_field, set_field-lt, priv_s}
use urvirt.Trap.{trap_target, trap_sstatus, sret_sstatus}

-- In a well-formed state, for a cause of 64 bits, the target is the 4-aligned base, plus 4 for each number of the cause if the cause is an
-- interrupt and the mode is vectored; the sum wraps at 64 bits as an address does.
pub trap_target_lem :
    (p : PrivState) (scause : ℕ)
    → IsWellFormed p
    → scause < 2 ^ 64
    → trap_target p scause ≡ (
        if p.stvec % 4 == 1 && leb (2 ^ 63) scause
        then (p.stvec / 4 * 4 + (scause - 2 ^ 63) * 4) % 2 ^ 64
        else p.stvec / 4 * 4)
unfolding trap_target
trap_target_lem p scause h word = ground (
  arith,
  h.vector,
  bit_and_mask 2 p.stvec,
  clear_low2 p.stvec h.vector.0,
  bit_and-high 63 1 scause,
)

-- Of the state, only stvec matters to the target.
pub trap_target-stvec :
    (p q : PrivState) (scause : ℕ) → p.stvec ≡ q.stvec → trap_target p scause ≡ trap_target q scause
unfolding trap_target
trap_target-stvec p q scause e = rw e

-- One bit set in a word.
pub bit-set_one :
    (s d v i : ℕ) → v < 2 → i < 64 → bit (set_field s 1 d v) i ≡ (if i == s then v else bit d i)
bit-set_one s d v i fits p =
    ground (arith, bit-set_field s 1 d v i (omega arith) fits p, bit-zero v, at_start)
  where
    at_start : i ≡ s → bit v (i - s) ≡ v
    at_start e = ap (bit v) {y = 0} (omega arith) ∙ bit-zero v ∙ omega arith

trap_bits :
    (s v i : ℕ)
    → v < 2
    → i < 64
    → let t = set_field 8 1 s v in
      bit (set_field 1 1 (set_field 5 1 t (get_field 1 1 t)) 0) i
      ≡ (if i == 1 then 0 else if i == 5 then bit s 1 else if i == 8 then v else bit s i)
trap_bits s v i fits p = ground (
  arith,
  get_field_one 1 (set_field 8 1 s v),
  bit-lt s 1,
  bit-set_one 1 (set_field 5 1 (set_field 8 1 s v) (get_field 1 1 (set_field 8 1 s v))) 0 i,
  bit-set_one 5 (set_field 8 1 s v) (get_field 1 1 (set_field 8 1 s v)) i,
  bit-set_one 8 s v i,
  bit-set_one 8 s v 1,
)

-- On entry to a trap SIE is 0, SPIE is the old SIE, SPP tells whether the mode was S, and no other of
-- the 64 bits changes.
pub bit-trap_sstatus :
    (mode s i : ℕ)
    → i < 64
    → bit (trap_sstatus mode s) i ≡ (
        if i == 1
        then 0
        else if i == 5
        then bit s 1
        else if i == 8
        then (if mode == priv_s then 1 else 0)
        else bit s i)
unfolding trap_sstatus
bit-trap_sstatus mode s i p = elim (Bool-cases (mode == priv_s)) [
  | inl e ↦ rw e (trap_bits s 1 i (omega arith) p)
  | inr e ↦ rw e (trap_bits s 0 i (omega arith) p)
]

-- After `sret` SIE is the old SPIE, SPIE is 1, SPP is 0, and no other of the 64 bits changes.
pub bit-sret_sstatus :
    (s i : ℕ)
    → i < 64
    → bit (sret_sstatus s) i
      ≡ (if i == 1 then bit s 5 else if i == 5 then 1 else if i == 8 then 0 else bit s i)
unfolding sret_sstatus
bit-sret_sstatus s i p = ground (
  arith,
  get_field_one 5 s,
  bit-lt s 5,
  bit-set_one 8 (set_field 5 1 (set_field 1 1 s (get_field 5 1 s)) 1) 0 i,
  bit-set_one 5 (set_field 1 1 s (get_field 5 1 s)) 1 i,
  bit-set_one 1 s (get_field 5 1 s) i,
)

trap_sstatus-lt : (mode s : ℕ) → s < 2 ^ 64 → trap_sstatus mode s < 2 ^ 64
unfolding trap_sstatus
trap_sstatus-lt mode s h = set_field-lt 1 1 _ 0 (set_field-lt 5 1 _ _ with_spp)
  where
    with_spp : (if mode == priv_s then set_field 8 1 s 1 else set_field 8 1 s 0) < 2 ^ 64
    with_spp = elim (Bool-cases (mode == priv_s)) [
      | inl e ↦ rw e (set_field-lt 8 1 s 1 h)
      | inr e ↦ rw e (set_field-lt 8 1 s 0 h)
    ]

pub trap_sstatus-IsStatus : (mode s : ℕ) → IsStatus s → IsStatus (trap_sstatus mode s)
trap_sstatus-IsStatus mode s h = (
  trap_sstatus-lt mode s h.0,
  λ i p fixed. bit-trap_sstatus mode s i p ∙ ground (arith, h.1 i p fixed),
)

pub sret_sstatus-IsStatus : (s : ℕ) → IsStatus s → IsStatus (sret_sstatus s)
sret_sstatus-IsStatus s h = (
  unfold sret_sstatus in
      set_field-lt 8 1 _ 0 (set_field-lt 5 1 _ 1 (set_field-lt 1 1 s (get_field 5 1 s) h.0)),
  λ i p fixed. bit-sret_sstatus s i p ∙ ground (arith, h.1 i p fixed),
)
