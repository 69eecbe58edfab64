-- ===== src/Csr/Invariant.antt =====
-- Writes of the registers and the invariant of the privileged state.
use urvirt.Common.{ℕ, ◌*◌, ◌%◌, ◌^◌, ◌≤◌, ◌<◌, ◌≡◌, ◌≢◌, ◌⊎◌, inl, inr, true, Bool-cases, arith}
use mathlib.Core.Path.{subst}
use native.Mathlib.Decide.{ℕ_discrete}
use urvirt.Bits.{bit, bit-lt}
use urvirt.Outcome.{ok, ok-injective}
use urvirt.Priv.{PrivState}
use urvirt.Priv.WellFormed.{IsWellFormed, IsStatus, IsTimerOnly, IsSatp}
use urvirt.RiscvBits.{get_satp_mode}
use urvirt.Csr.{read_csr, write_csr, sanitize_stvec}
use urvirt.Csr.Fields.{merge_mask-IsStatus, sanitize_stvec_lem, set_satp_asid-IsSatp, merge_six}
use urvirt.Csr.Laws.{
  Csr, sscratch, stvec, sepc, sstatus, sie, sip, scause, stval, satp, number, with_csr,
  is_supported_mode, csr_unimplemented,
}

-- The values that a register may hold in a well-formed state.
abbrev pub IsLegal : Csr → ℕ → Type 0
IsLegal sstatus new = IsStatus new
IsLegal stvec new = (new < 2 ^ 64) × (new % 4 ≤ 1)
IsLegal sie new = IsTimerOnly new
IsLegal sip new = IsTimerOnly new
IsLegal satp new = IsSatp new
IsLegal _ new = new < 2 ^ 64

pub with_csr-IsWellFormed :
    (p : PrivState) (c : Csr) (new : ℕ)
    → IsWellFormed p
    → IsLegal c new
    → IsWellFormed (with_csr p c new)
with_csr-IsWellFormed p sscratch new h l = assumption
with_csr-IsWellFormed p _ new h l = assumption

timer_word : (v : ℕ) → IsTimerOnly (bit v 5 * 2 ^ 5)
timer_word v = omega (arith, bit-lt v 5)

sanitize_stvec-IsLegal : (v : ℕ) → v < 2 ^ 64 → IsLegal stvec (sanitize_stvec v)
sanitize_stvec-IsLegal v h = rw (sanitize_stvec_lem v h) (ground arith)

satp_mode-cases :
    (v : ℕ) → is_supported_mode v ≡ true → (get_satp_mode v ≡ 8) ⊎ (get_satp_mode v ≡ 0)
satp_mode-cases v e = ground arith

write_csr-number-IsWellFormed :
    (p : PrivState) (c : Csr) (v : ℕ) {q : PrivState}
    → IsWellFormed p
    → v < 2 ^ 64
    → write_csr p (number c) v ≡ ok q
    → IsWellFormed q
unfolding write_csr
write_csr-number-IsWellFormed p sstatus v h w e =
    subst IsWellFormed (ok-injective e)
      (with_csr-IsWellFormed p sstatus _ h (merge_mask-IsStatus v p.sstatus h.status))
write_csr-number-IsWellFormed p stvec v h w e =
    subst IsWellFormed (ok-injective e)
      (with_csr-IsWellFormed p stvec _ h (sanitize_stvec-IsLegal v w))
write_csr-number-IsWellFormed p sie v h w e =
    subst IsWellFormed (ok-injective e)
      (with_csr-IsWellFormed p sie _ h (rw (merge_six v p.sie h.enabled) (timer_word v)))
write_csr-number-IsWellFormed p sip v h w e =
    subst IsWellFormed (ok-injective e)
      (with_csr-IsWellFormed p sip _ h (rw (merge_six v p.sip h.pending) (timer_word v)))
write_csr-number-IsWellFormed p satp v h w e = elim (Bool-cases (is_supported_mode v)) [
  | inl m ↦
      subst IsWellFormed (ok-injective (rw m at e))
        (with_csr-IsWellFormed p satp _ h (set_satp_asid-IsSatp v w (satp_mode-cases v m)))
  | inr m ↦ subst IsWellFormed (ok-injective (rw m at e)) h
]
write_csr-number-IsWellFormed p sscratch v h w e =
    subst IsWellFormed (ok-injective e) (with_csr-IsWellFormed p sscratch v h w)
write_csr-number-IsWellFormed p sepc v h w e =
    subst IsWellFormed (ok-injective e) (with_csr-IsWellFormed p sepc v h w)
write_csr-number-IsWellFormed p scause v h w e =
    subst IsWellFormed (ok-injective e) (with_csr-IsWellFormed p scause v h w)
write_csr-number-IsWellFormed p stval v h w e =
    subst IsWellFormed (ok-injective e) (with_csr-IsWellFormed p stval v h w)

-- Every register number is one of the implemented ones, or none of them.
pub number-cases : (csr : ℕ) → ((c : Csr) × (csr ≡ number c)) ⊎ ((c : Csr) → csr ≢ number c)
number-cases csr = elim (ℕ_discrete csr (number sscratch)) [
  | yes e ↦ inl (sscratch, e)
  | no not_sscratch ↦ elim (ℕ_discrete csr (number stvec)) [
    | yes e ↦ inl (stvec, e)
    | no not_stvec ↦ elim (ℕ_discrete csr (number sepc)) [
      | yes e ↦ inl (sepc, e)
      | no not_sepc ↦ elim (ℕ_discrete csr (number sstatus)) [
        | yes e ↦ inl (sstatus, e)
        | no not_sstatus ↦ elim (ℕ_discrete csr (number sie)) [
          | yes e ↦ inl (sie, e)
          | no not_sie ↦ elim (ℕ_discrete csr (number sip)) [
            | yes e ↦ inl (sip, e)
            | no not_sip ↦ elim (ℕ_discrete csr (number scause)) [
              | yes e ↦ inl (scause, e)
              | no not_scause ↦ elim (ℕ_discrete csr (number stval)) [
                | yes e ↦ inl (stval, e)
                | no not_stval ↦ elim (ℕ_discrete csr (number satp)) [
                  | yes e ↦ inl (satp, e)
                  | no not_satp ↦ inr (elim [
                    | sscratch ↦ not_sscratch
                    | stvec ↦ not_stvec
                    | sepc ↦ not_sepc
                    | sstatus ↦ not_sstatus
                    | sie ↦ not_sie
                    | sip ↦ not_sip
                    | scause ↦ not_scause
                    | stval ↦ not_stval
                    | satp ↦ not_satp
                  ])
                ]
              ]
            ]
          ]
        ]
      ]
    ]
  ]
]

-- A write of a 64-bit word that goes through, to whatever register, keeps a well-formed state well
-- formed.
pub write_csr-IsWellFormed :
    (p : PrivState) (csr v : ℕ) {q : PrivState}
    → IsWellFormed p
    → v < 2 ^ 64
    → write_csr p csr v ≡ ok q
    → IsWellFormed q
write_csr-IsWellFormed p csr v {q} h w e = elim (number-cases csr) [
  | inl (c, n) ↦ write_csr-number-IsWellFormed p c v h w (rw n at e)
  | inr n ↦ cc ((csr_unimplemented p csr v n).1)
]

-- What is read of a well-formed state is a word.
pub read_csr-lt :
    (p : PrivState) (csr : ℕ) {r : ℕ} → IsWellFormed p → read_csr p csr ≡ ok r → r < 2 ^ 64
unfolding read_csr
read_csr-lt p csr h e = ground (arith, h.status)
