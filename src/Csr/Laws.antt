-- ===== src/Csr/Laws.antt =====
-- read_csr and write_csr against the registers of the privileged architecture, as they are kept.
use urvirt.Common.{
  ℕ, ◌*◌, ◌/◌, ◌%◌, ◌^◌, ◌<◌, ◌≡◌, ◌≢◌, refl, ◌⊎◌, inl, inr, Bool, true, false, ◌||◌, ◌==◌, leb,
  if◌then◌else◌, Bool-cases, arith,
}
use urvirt.Bits.{bit}
use urvirt.Outcome.{ok, stop, ebreak}
use urvirt.Priv.{PrivState}
use urvirt.Priv.WellFormed.{IsWellFormed, is_writable}
use urvirt.RiscvBits.{
  get_satp_mode, set_satp_asid, get_satp_ppn, get_field-set_field_ne, get_field-set_field_self,
  get_field, sstatus_writable_mask, six_writable_mask,
}
use urvirt.Csr.{read_csr, write_csr, sanitize_stvec, merge_mask}
use urvirt.Csr.Fields.{bit_sstatus, sanitize_stvec_lem, merge_six}

-- The implemented registers, their numbers, and where each is kept.
pub data Csr : Type 0 where
  sscratch stvec sepc sstatus sie sip scause stval satp : Csr

abbrev pub number : Csr → ℕ
number sscratch = 0x140
number stvec = 0x105
number sepc = 0x141
number sstatus = 0x100
number sie = 0x104
number sip = 0x144
number scause = 0x142
number stval = 0x143
number satp = 0x180

abbrev pub value_of : PrivState → Csr → ℕ
value_of p sscratch = p.sscratch
value_of p stvec = p.stvec
value_of p sepc = p.sepc
value_of p sstatus = p.sstatus
value_of p sie = p.sie
value_of p sip = p.sip
value_of p scause = p.scause
value_of p stval = p.stval
value_of p satp = p.satp

abbrev pub is_supported_mode : ℕ → Bool
is_supported_mode v = get_satp_mode v == 8 || get_satp_mode v == 0

-- `new` is a legal result of writing `v` over `old`, where the code is more lenient than the architecture
-- with sepc, whose bit 0 is to read as 0, and with STIP of sip, which is to be read only.
abbrev pub WritesAs : Csr → ℕ → ℕ → ℕ → Type 0
WritesAs sstatus old v new =
    (i : ℕ) → i < 64 → bit new i ≡ (if is_writable i then bit v i else bit old i)
WritesAs sie old v new = new ≡ bit v 5 * 2 ^ 5
WritesAs sip old v new = new ≡ bit v 5 * 2 ^ 5
WritesAs stvec old v new = new ≡ (if leb (v % 4) 1 then v else v / 4 * 4)
WritesAs satp old v new =
    ((is_supported_mode v ≡ true)
      × (get_satp_mode new ≡ get_satp_mode v)
      × (get_field 44 16 new ≡ 0)
      × (get_satp_ppn new ≡ get_satp_ppn v))
    ⊎ ((is_supported_mode v ≡ false) × (new ≡ old))
WritesAs _ old v new = new ≡ v

pub read_csr-number : (p : PrivState) (c : Csr) → read_csr p (number c) ≡ ok (value_of p c)
unfolding read_csr
read_csr-number p sscratch = refl
read_csr-number p _ = refl

-- `p` with register `c` replaced.
abbrev pub with_csr : PrivState → Csr → ℕ → PrivState
with_csr p sscratch new = record p { sscratch = new }
with_csr p stvec new = record p { stvec = new }
with_csr p sepc new = record p { sepc = new }
with_csr p sstatus new = record p { sstatus = new }
with_csr p sie new = record p { sie = new }
with_csr p sip new = record p { sip = new }
with_csr p scause new = record p { scause = new }
with_csr p stval new = record p { stval = new }
with_csr p satp new = record p { satp = new; should_clear_vm = true }

-- The outcome of a write: the register holds a legal value for what was written and nothing else
-- changes, but that a supported value of satp asks for the mappings to be cleared.
abbrev pub Written : PrivState → Csr → ℕ → Type 0
Written p c v =
    (new : ℕ) × WritesAs c (value_of p c) v new
    × ((write_csr p (number c) v ≡ ok (with_csr p c new))
        ⊎ ((c ≡ satp) × (is_supported_mode v ≡ false) × (write_csr p (number c) v ≡ ok p)))

module _ (p : PrivState) (v : ℕ) (h : IsWellFormed p) (word : v < 2 ^ 64) where
  Written-satp : Written p satp v
  unfolding write_csr
  Written-satp = elim (Bool-cases (is_supported_mode v)) [
    | inl e ↦ (
      set_satp_asid v 0,
      inl (
        e,
        get_field-set_field_ne 44 16 60 4 v 0 (omega arith) (omega arith) (omega arith)
            (omega arith) (inl (omega arith)),
        get_field-set_field_self 44 16 v 0 (omega arith) (omega arith) (omega arith),
        get_field-set_field_ne 44 16 0 44 v 0 (omega arith) (omega arith) (omega arith)
            (omega arith) (inr (omega arith)),
      ),
      inl (rw e),
    )
    | inr e ↦ (p.satp, inr (e, refl), inr (refl, e, rw e))
  ]

  -- In a well-formed state, a write of a 64-bit word to an implemented register leaves the value of
  -- WritesAs in that register and changes no other; an unsupported mode of satp changes nothing.
  pub write_csr-Written : (c : Csr) → Written p c v
  unfolding write_csr
  write_csr-Written sstatus =
      (merge_mask sstatus_writable_mask v p.sstatus, bit_sstatus v p.sstatus, inl refl)
  write_csr-Written stvec = (sanitize_stvec v, sanitize_stvec_lem v word, inl refl)
  write_csr-Written sie =
      (merge_mask six_writable_mask v p.sie, merge_six v p.sie h.enabled, inl refl)
  write_csr-Written sip =
      (merge_mask six_writable_mask v p.sip, merge_six v p.sip h.pending, inl refl)
  write_csr-Written satp = Written-satp
  write_csr-Written _ = (v, refl, inl refl)

-- A read and a write of any register but the nine implemented ones stop the stub.
pub csr_unimplemented :
    (p : PrivState) (csr v : ℕ)
    → ((c : Csr) → csr ≢ number c)
    → (read_csr p csr ≡ stop (ebreak "Unimplemented CSR read"))
      × (write_csr p csr v ≡ stop (ebreak "Unimplemented CSR write"))
unfolding read_csr write_csr
csr_unimplemented p csr v n =
    ground (arith, n sscratch, n stvec, n sepc, n sstatus, n sie, n sip, n scause, n stval, n satp)
