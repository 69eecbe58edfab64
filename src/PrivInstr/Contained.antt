-- ===== src/PrivInstr/Contained.antt =====
-- The branches of handle_priv_instr and the guest's address space.
use urvirt.Common.{
  ℕ, ◌≡◌, refl, inl, inr, ◌⊎◌, sym, ◌∙◌, Bool-cases, Bool, true, not, ◌&&◌, ◌||◌, ◌==◌,
  if◌then◌else◌, not64, bit_and, bit_or, truthy,
}
use urvirt.Outcome.{Result, ok, Ensures, Ensures->>=, Ensures-if, Ensures-of_ok}
use urvirt.Kernel.{Kernel}
use urvirt.Machine.{Machine, advance}
use urvirt.RiscvBits.{ins_field, get_field}
use urvirt.Priv.{PrivState}
use urvirt.Csr.{read_csr, write_csr}
use urvirt.Trap.{sret}
use urvirt.PrivInstr.{handle_priv_instr, csr_instr, csr_swap, csr_modify, store_csr}
use urvirt.Contained.{IsTracked, IsSameSpace, IsContained, guest-IsContained, if-IsContained}

-- A new satp is a request to clear the mappings; no other write touches the translation.
write_csr-IsTracked :
    (p q : PrivState) (csr v : ℕ) → IsTracked p q → Ensures (IsTracked p) (write_csr q csr v)
unfolding write_csr
write_csr-IsTracked p q csr v h =
    keep (csr == 0x140) _ _ (record { stub = h.stub; space = h.space })
      (keep (csr == 0x105) _ _ (record { stub = h.stub; space = h.space })
        (keep (csr == 0x141) _ _ (record { stub = h.stub; space = h.space })
          (keep (csr == 0x100) _ _ (record { stub = h.stub; space = h.space })
            (keep (csr == 0x104) _ _ (record { stub = h.stub; space = h.space })
              (keep (csr == 0x144) _ _ (record { stub = h.stub; space = h.space })
                (keep (csr == 0x142) _ _ (record { stub = h.stub; space = h.space })
                  (keep (csr == 0x143) _ _ (record { stub = h.stub; space = h.space })
                    (keep (csr == 0x180) _ _
                      (keep (get_field 60 4 v == 8 || get_field 60 4 v == 0) _ _
                        (record { stub = h.stub; space = inl refl }) h)
                      tt))))))))
  where
    keep :
        (b : Bool) (x y : Result PrivState)
        → Ensures (IsTracked p) x
        → Ensures (IsTracked p) y
        → Ensures (IsTracked p) (if b then x else y)
    keep b x y f g = Ensures-if (IsTracked p) b x y (λ _. f) (λ _. g)

module _ (k : Kernel) (m : Machine) where
  abbrev Contained : Machine → Type 0
  Contained = IsContained k m

  abbrev Any : ℕ → Type 0
  Any v = Unit

  reads : (n : Machine) (csr : ℕ) → Ensures Any (read_csr n.priv csr)
  reads n csr = Ensures-of_ok Any _ (λ _ _. tt)

  store_csr-IsContained :
      (n : Machine) (csr v : ℕ) → Contained n → Ensures Contained (store_csr n csr v)
  unfolding store_csr
  store_csr-IsContained n csr v h =
      Ensures->>= (IsTracked m.priv) Contained (write_csr n.priv csr v) _
        (write_csr-IsTracked m.priv n.priv csr v h.state)
        (λ priv tracked. record { log = h.log; state = tracked })

  csr_swap-IsContained :
      (n : Machine) (csr rd v : ℕ) → Contained n → Ensures Contained (csr_swap n csr rd v)
  unfolding csr_swap
  csr_swap-IsContained n csr rd v h =
      Ensures->>= Contained Contained _ (λ n'. store_csr n' csr v)
        (Ensures-if Contained (not (rd == 0)) _ _
          (λ _.
            Ensures->>= Any Contained (read_csr n.priv csr) _ (reads n csr)
              (λ orig _. guest-IsContained k m n _ _ _ h))
          (λ _. h))
        (λ n' h'. store_csr-IsContained n' csr v h')

  csr_modify-IsContained :
      (n : Machine) (csr rd : ℕ) (will : Bool) (change : ℕ → ℕ)
      → Contained n
      → Ensures Contained (csr_modify n csr rd will change)
  unfolding csr_modify
  csr_modify-IsContained n csr rd will change h =
      Ensures->>= Any Contained (read_csr n.priv csr) _ (reads n csr) λ orig _.
        Ensures->>= Contained Contained (if will then store_csr n csr (change orig) else ok n) _
          (Ensures-if Contained will _ _ (λ _. store_csr-IsContained n csr (change orig) h)
            (λ _. h))
          (λ n' h'. if-IsContained k m (not (rd == 0)) _ _ (guest-IsContained k m n' _ _ _ h') h')

  csr_instr-IsContained :
      (n : Machine) (instr : ℕ) → Contained n → Ensures Contained (csr_instr n instr)
  unfolding csr_instr
  csr_instr-IsContained n instr h =
      Ensures->>= Contained Contained _ (λ n'. ok (advance n' 4))
        (Ensures-if Contained (op == 1) _ _ (λ _. csr_swap-IsContained n csr rd value h)
          (λ _.
            Ensures-if Contained (op == 2) _ _
              (λ _. csr_modify-IsContained n csr rd _ (λ orig. bit_or orig value) h)
              (λ _.
                Ensures-if Contained (op == 3) _ _
                  (λ _. csr_modify-IsContained n csr rd _ (λ orig. bit_and orig (not64 value)) h)
                  (λ _. tt))))
        (λ n' h'. guest-IsContained k m n' _ _ _ h')
    where
      csr : ℕ
      csr = ins_field 20 12 instr

      rd : ℕ
      rd = ins_field 7 5 instr

      rs1 : ℕ
      rs1 = ins_field 15 5 instr

      op : ℕ
      op = bit_and (ins_field 12 3 instr) 3

      value : ℕ
      value =
          if truthy (bit_and (ins_field 12 3 instr) 4)
          then rs1
          else if rs1 == 0
          then 0
          else n.regs rs1

  -- From S mode `sret` stays in S mode, or asks for the mappings to be cleared.
  sret-IsContained : (n : Machine) → n.priv.priv_mode ≡ 16 → Contained n → Contained (sret n)
  unfolding sret
  sret-IsContained n supervisor h = elim (Bool-cases (get_field 8 1 n.priv.sstatus == 0)) [
    | inl user ↦
        rw user (record { log = h.log; state = record { stub = h.state.stub; space = inl refl } })
    | inr back ↦ rw back (record {
      log = h.log;
      state = record { stub = h.state.stub; space = still h.state.space };
    })
  ]
    where
      still :
          (n.priv.should_clear_vm ≡ true) ⊎ IsSameSpace m.priv n.priv
          → (n.priv.should_clear_vm ≡ true)
            ⊎ ((16 ≡ m.priv.priv_mode) × (n.priv.satp ≡ m.priv.satp))
      still (inl asked) = inl asked
      still (inr (mode, satp)) = inr (sym supervisor ∙ mode, satp)

  -- An instruction that is emulated in S mode makes no call of its own, and changes the guest's
  -- translation only with a request to clear its mappings.
  pub handle_priv_instr-IsContained :
      (n : Machine) (instr : ℕ)
      → n.priv.priv_mode ≡ 16
      → Contained n
      → Ensures Contained (handle_priv_instr n instr)
  unfolding handle_priv_instr
  handle_priv_instr-IsContained n instr supervisor h =
      Ensures-if Contained (ins_field 0 7 instr == 0x73) _ _
        (λ _.
          Ensures-if Contained (ins_field 12 3 instr == 0) _ _
            (λ _.
              Ensures-if Contained (ins_field 25 7 instr == 9 && ins_field 7 5 instr == 0) _ _
                (λ _. record {
                  log = h.log;
                  state = record { stub = h.state.stub; space = inl refl };
                })
                (λ _.
                  Ensures-if Contained
                    (ins_field 25 7 instr == 8
                      && ins_field 20 5 instr == 5
                      && ins_field 15 5 instr == 0
                      && ins_field 7 5 instr == 0)
                    _ _ (λ _. guest-IsContained k m n _ _ _ h)
                    (λ _.
                      Ensures-if Contained
                        (ins_field 25 7 instr == 8
                          && ins_field 20 5 instr == 2
                          && ins_field 15 5 instr == 0
                          && ins_field 7 5 instr == 0)
                        _ _ (λ _. sret-IsContained n supervisor h) (λ _. tt))))
            (λ _. csr_instr-IsContained n instr h))
        (λ _. tt)
