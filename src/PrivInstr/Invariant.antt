-- ===== src/PrivInstr/Invariant.antt =====
-- The branches of handle_priv_instr and the validity of the machine.
use urvirt.Common.{
  ℕ, ◌^◌, ◌<◌, ◌≡◌, Bool, true, ◌&&◌, ◌==◌, if◌then◌else◌, Bool-cases, inl, inr, arith, not64,
  bit_and, bit_or, truthy, not,
}
use urvirt.Bits.{bit_or-lt, bit_and-lt_left}
use urvirt.Outcome.{ok, Ensures, Ensures->>=, Ensures-if, Ensures-ok, Ensures-of_ok}
use urvirt.Machine.{set_reg-IsValid, advance-IsValid, Machine, IsValid, advance}
use urvirt.Priv.WellFormed.{IsWellFormed}
use urvirt.RiscvBits.{ins_field, ins_field_lem}
use urvirt.Csr.{read_csr, write_csr}
use urvirt.Csr.Invariant.{write_csr-IsWellFormed, read_csr-lt}
use urvirt.Trap.Invariant.{sret-IsValid}
use urvirt.PrivInstr.{handle_priv_instr, csr_instr, csr_swap, csr_modify, store_csr, write_rd}

write_rd-IsValid : (m : Machine) (rd v : ℕ) → IsValid m → v < 2 ^ 64 → IsValid (write_rd m rd v)
write_rd-IsValid m rd v h p = elim (Bool-cases (rd == 0)) [
  | inl e ↦ rw e h
  | inr e ↦ rw e (set_reg-IsValid m rd v h p)
]

store_csr-IsValid :
    (m : Machine) (csr v : ℕ) → IsValid m → v < 2 ^ 64 → Ensures IsValid (store_csr m csr v)
unfolding store_csr
store_csr-IsValid m csr v h p =
    Ensures->>= IsWellFormed IsValid (write_csr m.priv csr v) _
      (Ensures-of_ok IsWellFormed _ (λ q e. write_csr-IsWellFormed m.priv csr v h.state p e))
      (λ priv valid. record { state = valid; words = h.words })

read_csr_word :
    (m : Machine) (csr : ℕ) → IsValid m → Ensures (λ v. v < 2 ^ 64) (read_csr m.priv csr)
read_csr_word m csr h = Ensures-of_ok (λ v. v < 2 ^ 64) _ (λ v e. read_csr-lt m.priv csr h.state e)

csr_swap-IsValid :
    (m : Machine) (csr rd v : ℕ) → IsValid m → v < 2 ^ 64 → Ensures IsValid (csr_swap m csr rd v)
unfolding csr_swap
csr_swap-IsValid m csr rd v h p =
    Ensures->>= IsValid IsValid _ (λ m'. store_csr m' csr v)
      (Ensures-if IsValid (not (rd == 0)) _ _
        (λ _.
          Ensures->>= (λ v. v < 2 ^ 64) IsValid (read_csr m.priv csr) _ (read_csr_word m csr h)
            (λ orig word. set_reg-IsValid m rd orig h word))
        (λ _. h))
      (λ m' valid. store_csr-IsValid m' csr v valid p)

csr_modify-IsValid :
    (m : Machine) (csr rd : ℕ) (will : Bool) (change : ℕ → ℕ)
    → IsValid m
    → ((v : ℕ) → v < 2 ^ 64 → change v < 2 ^ 64)
    → Ensures IsValid (csr_modify m csr rd will change)
unfolding csr_modify
csr_modify-IsValid m csr rd will change h p =
    Ensures->>= (λ v. v < 2 ^ 64) IsValid (read_csr m.priv csr) _ (read_csr_word m csr h)
      λ orig word.
        Ensures->>= IsValid IsValid (if will then store_csr m csr (change orig) else ok m) _
          (Ensures-if IsValid will _ _ (λ _. store_csr-IsValid m csr (change orig) h (p orig word))
            (λ _. h))
          (λ m' valid. write_rd-IsValid m' rd orig valid word)

csr_instr-IsValid : (m : Machine) (instr : ℕ) → IsValid m → Ensures IsValid (csr_instr m instr)
unfolding csr_instr
csr_instr-IsValid m instr h =
    Ensures->>= IsValid IsValid _ (λ m'. ok (advance m' 4))
      (Ensures-if IsValid (op == 1) _ _ (λ _. csr_swap-IsValid m csr rd value h word)
        (λ _.
          Ensures-if IsValid (op == 2) _ _
            (λ _.
              csr_modify-IsValid m csr rd _ (λ orig. bit_or orig value) h
                (λ v w. bit_or-lt 64 v value w word))
            (λ _.
              Ensures-if IsValid (op == 3) _ _
                (λ _.
                  csr_modify-IsValid m csr rd _ (λ orig. bit_and orig (not64 value)) h
                    (λ v w. bit_and-lt_left 64 v (not64 value) w))
                (λ _. tt))))
      (λ m' valid. advance-IsValid m' 4 valid)
  where
    csr : ℕ
    csr = ins_field 20 12 instr

    rd : ℕ
    rd = ins_field 7 5 instr

    rs1 : ℕ
    rs1 = ins_field 15 5 instr

    op : ℕ
    op = bit_and (ins_field 12 3 instr) 3

    value : ℕ
    value =
        if truthy (bit_and (ins_field 12 3 instr) 4)
        then rs1
        else if rs1 == 0
        then 0
        else m.regs rs1

    word : value < 2 ^ 64
    word = ground (arith, h.words rs1, ins_field_lem 15 5 instr)

clearing :
    (m : Machine)
    → IsValid m
    → IsValid (record m { priv = record m.priv { should_clear_vm = true } })
clearing m h = record { state = assumption h.state; words = h.words }

handle_priv_instr-Ensures :
    (m : Machine) (instr : ℕ) → IsValid m → Ensures IsValid (handle_priv_instr m instr)
unfolding handle_priv_instr
handle_priv_instr-Ensures m instr h =
    Ensures-if IsValid (ins_field 0 7 instr == 0x73) _ _
      (λ _.
        Ensures-if IsValid (ins_field 12 3 instr == 0) _ _
          (λ _.
            Ensures-if IsValid (ins_field 25 7 instr == 9 && ins_field 7 5 instr == 0) _ _
              (λ _. advance-IsValid _ 4 (clearing m h))
              (λ _.
                Ensures-if IsValid
                  (ins_field 25 7 instr == 8
                    && ins_field 20 5 instr == 5
                    && ins_field 15 5 instr == 0
                    && ins_field 7 5 instr == 0)
                  _ _ (λ _. advance-IsValid m 4 h)
                  (λ _.
                    Ensures-if IsValid
                      (ins_field 25 7 instr == 8
                        && ins_field 20 5 instr == 2
                        && ins_field 15 5 instr == 0
                        && ins_field 7 5 instr == 0)
                      _ _ (λ _. sret-IsValid m h) (λ _. tt))))
          (λ _. csr_instr-IsValid m instr h))
      (λ _. tt)

-- A privileged instruction that is emulated keeps a valid machine valid.
pub handle_priv_instr-IsValid :
    (m : Machine) (instr : ℕ) {n : Machine}
    → IsValid m
    → handle_priv_instr m instr ≡ ok n
    → IsValid n
handle_priv_instr-IsValid m instr h e =
    Ensures-ok IsValid (handle_priv_instr m instr) (handle_priv_instr-Ensures m instr h) e
