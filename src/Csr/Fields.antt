-- ===== src/Csr/Fields.antt =====
-- What each write rule does to a word: the masks of sstatus, sip and sie, stvec and satp.
use urvirt.Common.{
  ℕ, ◌-◌, ◌*◌, ◌/◌, ◌%◌, ◌^◌, ◌<◌, ◌≡◌, refl, ap, ◌∙◌, ◌⊎◌, inl, inr, true, false, ◌==◌, ==→eq, leb,
  if◌then◌else◌, bit_and, arith, not64, all_below, all_below_lem,
}
use urvirt.Bits.{
  bit, bit-lt, bit-bit_and, bit-bit_or, bit-not64, bit_or-lt, bit_and-lt, bit_and-lt_left,
  bit_and_mask, clear_low2, bit_ext, bit_of_lt, bit_shl, bit-zero,
}
use urvirt.RiscvBits.{
  mask_field, mask_field-lt, bit-mask_field, sstatus_writable_mask, six_writable_mask,
  set_satp_asid, get_satp_mode, get_field-set_field_ne, get_field-set_field_self, set_field-lt,
}
use urvirt.Priv.WellFormed.{is_writable, IsStatus, IsTimerOnly, IsSatp}
use urvirt.Csr.{sanitize_stvec, merge_mask}

-- Where the mask has a 1 the value's bit is stored, elsewhere the old bit stays.
pub bit-merge_mask :
    (mask value old i : ℕ)
    → mask < 2 ^ 64
    → i < 64
    → bit (merge_mask mask value old) i ≡ (if bit mask i == 1 then bit value i else bit old i)
unfolding merge_mask
bit-merge_mask mask value old i h p = ground (
  arith,
  bit-bit_or (bit_and value mask) (bit_and old (not64 mask)) i,
  bit-bit_and value mask i,
  bit-bit_and old (not64 mask) i,
  bit-not64 mask i h p,
  bit-lt mask i,
  bit-lt value i,
  bit-lt old i,
)

pub merge_mask-lt :
    (mask value old : ℕ) → mask < 2 ^ 64 → old < 2 ^ 64 → merge_mask mask value old < 2 ^ 64
unfolding merge_mask
merge_mask-lt mask value old h p =
    bit_or-lt 64 (bit_and value mask) (bit_and old (not64 mask)) (bit_and-lt 64 value mask h)
      (bit_and-lt_left 64 old (not64 mask) p)

writable_table :
    all_below 64 (λ i. bit sstatus_writable_mask i == (if is_writable i then 1 else 0)) ≡ true
unfolding all_below bit mask_field
writable_table = refl

pub bit-writable_mask :
    (i : ℕ) → i < 64 → bit sstatus_writable_mask i ≡ (if is_writable i then 1 else 0)
bit-writable_mask i h = ==→eq _ _ (
    all_below_lem 64 (λ i. bit sstatus_writable_mask i == (if is_writable i then 1 else 0)) i
      writable_table h)

writable_mask-lt : sstatus_writable_mask < 2 ^ 64
unfolding mask_field
writable_mask-lt = omega arith

-- A write of sstatus, bit by bit.
pub bit_sstatus :
    (value old i : ℕ)
    → i < 64
    → bit (merge_mask sstatus_writable_mask value old) i
      ≡ (if is_writable i then bit value i else bit old i)
bit_sstatus value old i h = ground (
  arith,
  bit-merge_mask sstatus_writable_mask value old i writable_mask-lt h,
  bit-writable_mask i h,
)

pub merge_mask-IsStatus :
    (value old : ℕ) → IsStatus old → IsStatus (merge_mask sstatus_writable_mask value old)
merge_mask-IsStatus value old s = (
  merge_mask-lt sstatus_writable_mask value old writable_mask-lt s.0,
  λ i p fixed. bit_sstatus value old i p ∙ ground (arith, s.1 i p fixed),
)

-- `WARL`: a mode other than direct and vectored is stored as direct.
pub sanitize_stvec_lem :
    (v : ℕ) → v < 2 ^ 64 → sanitize_stvec v ≡ (if leb (v % 4) 1 then v else v / 4 * 4)
unfolding sanitize_stvec
sanitize_stvec_lem v h = ground (arith, bit_and_mask 2 v, clear_low2 v h)

pub set_satp_asid-IsSatp :
    (v : ℕ)
    → v < 2 ^ 64
    → ((get_satp_mode v ≡ 8) ⊎ (get_satp_mode v ≡ 0))
    → IsSatp (set_satp_asid v 0)
set_satp_asid-IsSatp v h mode = (
  set_field-lt 44 16 v 0 h,
  ground (
    arith,
    get_field-set_field_ne 44 16 60 4 v 0 (omega arith) (omega arith) (omega arith) (omega arith)
        (inl (omega arith)),
  ),
  get_field-set_field_self 44 16 v 0 (omega arith) (omega arith) (omega arith),
)

bit_timer : (x i : ℕ) → x < 2 → bit (x * 2 ^ 5) i ≡ (if i == 5 then x else 0)
bit_timer x i h = ground (arith, bit_shl 5 x i, bit_of_lt 1 x (i - 5) h, bit-zero x)

bit-IsTimerOnly : (x i : ℕ) → IsTimerOnly x → (i == 5) ≡ false → bit x i ≡ 0
bit-IsTimerOnly x i (inl e) n = ap (λ t. bit t i) e ∙ bit_of_lt 0 0 i (omega arith) (omega arith)
bit-IsTimerOnly x i (inr e) n = ap (λ t. bit t i) e ∙ ground (arith, bit_timer 1 i)

-- A write of sip or sie stores bit 5 of the value and nothing else.
pub merge_six :
    (value old : ℕ) → IsTimerOnly old → merge_mask six_writable_mask value old ≡ bit value 5 * 2 ^ 5
merge_six value old h =
    bit_ext 64 (merge_mask six_writable_mask value old) (bit value 5 * 2 ^ 5)
      (merge_mask-lt six_writable_mask value old (mask_field-lt 5 1) (omega arith))
      (omega (arith, bit-lt value 5))
      λ i p. ground (
        arith,
        bit-merge_mask six_writable_mask value old i (mask_field-lt 5 1) p,
        bit-mask_field 5 1 i (omega arith) p,
        bit_timer (bit value 5) i (bit-lt value 5),
        bit-IsTimerOnly old i h,
        same_bit i,
      )
  where
    same_bit : (i : ℕ) → (i == 5) ≡ true → bit value i ≡ bit value 5
    same_bit i e = ap (bit value) (==→eq i 5 e)
