-- ===== src/PrivInstr/Accept.antt =====
-- Which instruction words handle_priv_instr of src/urvirt-stub/riscv-priv.c accepts.
use urvirt.Common.{
  ℕ, zero, suc, ◌+◌, ◌*◌, ◌/◌, ◌%◌, ◌^◌, ◌<◌, ◌≡◌, refl, ◌∙◌, Bool, true, false, ◌&&◌, ◌==◌,
  Bool-cases, ==→eq, inl, inr, arith,
}
use urvirt.Outcome.{ok}
use urvirt.Machine.{Machine}
use urvirt.RiscvBits.{ins_field, ins_field_lem}
use urvirt.PrivInstr.{handle_priv_instr, csr_instr}
use urvirt.PrivInstr.Spec.{
  CsrOp, swap, set, clear, Instr, sfence_vma, wfi, return_trap, csr, system, encode, funct3_of,
  IsEncodable,
}

-- An instruction word is its fields put together.
system-fields :
    (instr funct3 : ℕ)
    → instr < 2 ^ 32
    → ins_field 0 7 instr ≡ 0x73
    → ins_field 12 3 instr ≡ funct3
    → system (instr / 2 ^ 7 % 32) funct3 (instr / 2 ^ 15 % 32) (instr / 2 ^ 20) ≡ instr
system-fields instr funct3 word opcode f =
    omega (arith, ins_field_lem 0 7 instr, ins_field_lem 12 3 instr)

abbrev Encoding : ℕ → Type 0
Encoding instr = (i : Instr) × IsEncodable i × (encode i ≡ instr)

module _ (m n : Machine) (instr : ℕ) (word : instr < 2 ^ 32)
    (opcode : ins_field 0 7 instr ≡ 0x73) where
  csr_Encoding :
      (op : CsrOp) (imm : Bool) → ins_field 12 3 instr ≡ funct3_of op imm → Encoding instr
  csr_Encoding op imm f = (
    csr op imm (instr / 2 ^ 20) (instr / 2 ^ 7 % 32) (instr / 2 ^ 15 % 32),
    omega arith,
    system-fields instr (funct3_of op imm) word opcode f,
  )

  csr_accepted :
      (funct3 : ℕ) → ins_field 12 3 instr ≡ funct3 → csr_instr m instr ≡ ok n → Encoding instr
  unfolding csr_instr
  csr_accepted zero f e = absurd (cc (rw f at e))
  csr_accepted (suc zero) f e = csr_Encoding swap false f
  csr_accepted (suc (suc zero)) f e = csr_Encoding set false f
  csr_accepted (suc (suc (suc zero))) f e = csr_Encoding clear false f
  csr_accepted (suc (suc (suc (suc zero)))) f e = absurd (cc (rw f at e))
  csr_accepted (suc (suc (suc (suc (suc zero))))) f e = csr_Encoding swap true f
  csr_accepted (suc (suc (suc (suc (suc (suc zero)))))) f e = csr_Encoding set true f
  csr_accepted (suc (suc (suc (suc (suc (suc (suc zero))))))) f e = csr_Encoding clear true f
  csr_accepted (suc (suc (suc (suc (suc (suc (suc (suc k)))))))) f e =
      absurd (omega (arith, ins_field_lem 12 3 instr))

  rebuilt :
      (instr / 2 ^ 12 % 8 ≡ 0)
      → system (instr / 2 ^ 7 % 32) 0 (instr / 2 ^ 15 % 32) (instr / 2 ^ 20) ≡ instr
  rebuilt f = omega (arith, ins_field_lem 0 7 instr)

  sfence_Encoding :
      ins_field 12 3 instr ≡ 0
      → (ins_field 25 7 instr == 9 && ins_field 7 5 instr == 0) ≡ true
      → Encoding instr
  sfence_Encoding f e = (
    sfence_vma (instr / 2 ^ 15 % 32) (instr / 2 ^ 20 % 32),
    omega arith,
    ground (
      arith,
      ins_field_lem 0 7 instr,
      ins_field_lem 7 5 instr,
      ins_field_lem 12 3 instr,
      ins_field_lem 25 7 instr,
    ),
  )

  exact_Encoding :
      (i : Instr) (csr12 : ℕ)
      → IsEncodable i
      → encode i ≡ system 0 0 0 (8 * 32 + csr12)
      → ins_field 12 3 instr ≡ 0
      → (ins_field 25 7 instr == 8
          && ins_field 20 5 instr == csr12
          && ins_field 15 5 instr == 0
          && ins_field 7 5 instr == 0)
        ≡ true
      → Encoding instr
  exact_Encoding i csr12 ok' same f e = (
    i,
    ok',
    same
        ∙ ground (
          arith,
          ins_field_lem 0 7 instr,
          ins_field_lem 7 5 instr,
          ins_field_lem 12 3 instr,
          ins_field_lem 15 5 instr,
          ins_field_lem 20 5 instr,
          ins_field_lem 25 7 instr,
        ),
  )

  not_csr_accepted : ins_field 12 3 instr ≡ 0 → handle_priv_instr m instr ≡ ok n → Encoding instr
  unfolding handle_priv_instr
  not_csr_accepted f e = elim (Bool-cases (ins_field 25 7 instr == 9 && ins_field 7 5 instr == 0)) [
    | inl t ↦ sfence_Encoding f t
    | inr t ↦
        elim (Bool-cases (
          ins_field 25 7 instr == 8
          && ins_field 20 5 instr == 5
          && ins_field 15 5 instr == 0
          && ins_field 7 5 instr == 0)) [
            | inl u ↦ exact_Encoding wfi 5 tt refl f u
            | inr u ↦
                elim (Bool-cases (
                  ins_field 25 7 instr == 8
                  && ins_field 20 5 instr == 2
                  && ins_field 15 5 instr == 0
                  && ins_field 7 5 instr == 0)) [
                    | inl v ↦ exact_Encoding return_trap 2 tt refl f v
                    | inr v ↦ absurd (cc (rw (opcode, f, t, u, v) at e))
                  ]
          ]
  ]

  csr_handled :
      (ins_field 12 3 instr == 0) ≡ false
      → handle_priv_instr m instr ≡ ok n
      → csr_instr m instr ≡ ok n
  unfolding handle_priv_instr
  csr_handled f e = rw (opcode, f) at e

not_system_stops :
    (m n : Machine) (instr : ℕ)
    → (ins_field 0 7 instr == 0x73) ≡ false
    → handle_priv_instr m instr ≡ ok n
    → Encoding instr
unfolding handle_priv_instr
not_system_stops m n instr t e = absurd (cc (rw t at e))

-- Only encodings are accepted: a 32-bit word that the handler emulates is the encoding of one of the
-- instructions, with its fields in range.
pub handle_priv_instr_accepts :
    (m : Machine) (instr : ℕ) {n : Machine}
    → instr < 2 ^ 32
    → handle_priv_instr m instr ≡ ok n
    → (i : Instr) × IsEncodable i × (encode i ≡ instr)
handle_priv_instr_accepts m instr {n} word e = elim (Bool-cases (ins_field 0 7 instr == 0x73)) [
  | inl t ↦
      let opcode : ins_field 0 7 instr ≡ 0x73 = ==→eq _ _ t in
      elim (Bool-cases (ins_field 12 3 instr == 0)) [
        | inl f ↦ not_csr_accepted m n instr word opcode (==→eq _ _ f) e
        | inr f ↦ csr_accepted m n instr word opcode _ refl (csr_handled m n instr word opcode f e)
      ]
  | inr t ↦ not_system_stops m n instr t e
]
