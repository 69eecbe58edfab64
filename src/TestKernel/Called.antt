-- ===== src/TestKernel/Called.antt =====
-- A call of the user program, which stvec serves.
use urvirt.Common.{
  Bool-cases, inl, inr, ==→eq, ℕ, ◌+◌, ◌-◌, ◌%◌, ◌^◌, ◌≤◌, ◌<◌, ◌≡◌, refl, ap, ◌∙◌, sym, false,
  ◌==◌, ◌||◌, arith, List, [], ◌∷◌, u64, sub64,
}
use mathlib.Core.Path.{subst}
use urvirt.Outcome.{ok, ◌>>=◌}
use urvirt.Kernel.{Kernel}
use urvirt.Memory.{load32}
use urvirt.RiscvBits.{get_field_one}
use urvirt.Priv.{PrivState}
use urvirt.Priv.WellFormed.{IsStatus}
use urvirt.Machine.{Machine, set_reg, update}
use urvirt.Trap.{trap_sstatus}
use urvirt.Trap.Laws.{bit-trap_sstatus, trap_sstatus-IsStatus, sret_sstatus-IsStatus}
use urvirt.TestKernel.Doublewords.{distance}
use urvirt.TestKernel.Frame.{IsOutside}
use urvirt.TestKernel.Asm.{
  Asm, addi, li, sd, ld, csrr, csrw, ecall, sret, Hardware, execute, step, run,
}
use urvirt.TestKernel.Hart.{Hart, seen, effects, AreReady}
use urvirt.TestKernel.Trapped.{trapped, ecall-trapped}
use urvirt.TestKernel.Faults.{fault_in-served, Stored, IsHosted, effects-Stored}
use urvirt.TestKernel.Refinement.{run-hosted}
use urvirt.TestKernel.Vector.{
  stvec, StandsAt, IsLoaded, length_of, base_of, IsEntered, IsServed, stvec-IsServed,
}
use urvirt.TestKernel.User.{user_call}

-- The user program runs, with this root of the page table and RAM as some stores left it, with no
-- interrupt pending and words in the registers; stvec stands at a vector that is a multiple of 4, its
-- privileged instructions away from its frame.
pub record IsUser (w : Hardware) (satp : ℕ) (before : ℕ → ℕ) (h : Hart) : Type 0 where
  pub root : h.others.satp ≡ satp
  pub stored : Stored w before h.ram
  pub quiet : h.others.sip ≡ 0
  pub mode : h.mode ≡ 0
  pub aligned : h.others.stvec % 4 ≡ 0
  pub vector : h.others.stvec < 2 ^ 64
  pub words : (i : ℕ) → h.regs i < 2 ^ 64
  pub status : IsStatus h.status
  pub code : IsLoaded w h.memory (base_of h) h.others.stvec stvec

pub trapped-IsEntered :
    (w : Hardware) (satp : ℕ) (before : ℕ → ℕ) (h : Hart)
    → IsUser w satp before h
    → IsEntered w (trapped h)
trapped-IsEntered w satp before h user = record {
  mode = refl;
  from_user =
      get_field_one 8 (trap_sstatus 0 h.status) ∙ bit-trap_sstatus 0 h.status 8 (omega arith);
  words = λ i. ground (arith, user.words i, user.vector);
  status_word = (trap_sstatus-IsStatus 0 h.status user.status).0;
  epc_word = user.words 0;
  code = user.code;
}

-- An instruction that lies outside the frame stays, if nothing else changes.
module _ (w : Hardware) (base : ℕ) (word : base < 2 ^ 64) (before after : ℕ → ℕ)
    (same : (j : ℕ) → j < 2 ^ 64 → 512 ≤ distance base j → after j ≡ before j) where
  load32_same : (p : ℕ) → IsOutside base p → load32 after p ≡ load32 before p
  load32_same p out =
      omega (arith, at 0 (omega arith), at 1 (omega arith), at 2 (omega arith), at 3 (omega arith))
    where
      at : (i : ℕ) → i < 4 → after (u64 (p + i)) ≡ before (u64 (p + i))
      at i below = same (u64 (p + i)) (omega arith) (omega (arith, below, out))

  StandsAt-same : (pc : ℕ) (i : Asm) → StandsAt before base pc i → StandsAt after base pc i
  StandsAt-same pc (csrr rd c) stands = (load32_same pc stands.1 ∙ stands.0, stands.1)
  StandsAt-same pc (csrw c rs) stands = (load32_same pc stands.1 ∙ stands.0, stands.1)
  StandsAt-same pc sret stands = (load32_same pc stands.1 ∙ stands.0, stands.1)
  StandsAt-same pc (addi rd rs imm) stands = tt
  StandsAt-same pc (li rd imm) stands = tt
  StandsAt-same pc (sd rs2 offset rs1) stands = tt
  StandsAt-same pc (ld rd offset rs1) stands = tt
  StandsAt-same pc ecall stands = tt

  IsLoaded-same :
      (pc : ℕ) (code : List Asm) → IsLoaded w before base pc code → IsLoaded w after base pc code
  IsLoaded-same pc [] loaded = tt
  IsLoaded-same pc (i ∷ code) loaded =
      (StandsAt-same pc i loaded.0, IsLoaded-same (u64 (pc + length_of w i)) code loaded.1)

-- The character is printed, and the user program goes on with what it had, but for a0 and the frame
-- of stvec.
pub record IsAnswered (w : Hardware) (satp : ℕ) (before : ℕ → ℕ) (h : Hart) (c : ℕ) (n : Hart)
    : Type 0 where
  pub user : IsUser w satp before n
  pub output : n.output ≡ c ∷ h.output
  pub registers : (i : ℕ) → (i == 0 || i == 10) ≡ false → n.regs i ≡ h.regs i
  pub memory : (j : ℕ) → j < 2 ^ 64 → 512 ≤ distance (base_of h) j → n.memory j ≡ h.memory j

-- The user program at its `ecall`.
abbrev calling_at : Hart → (pc c : ℕ) → Hart
calling_at h pc c = record h { regs = update (update h.regs 10 (sub64 c 3)) 0 pc }

module _ (w : Hardware) (satp : ℕ) (before : ℕ → ℕ) (h : Hart) (user : IsUser w satp before h)
    (pc c : ℕ) (below : pc < 2 ^ 64) (char : c < 256) where
  calling_at-IsUser : IsUser w satp before (calling_at h pc c)
  calling_at-IsUser = record {
    root = user.root;
    stored = user.stored;
    quiet = user.quiet;
    mode = user.mode;
    aligned = user.aligned;
    vector = user.vector;
    words = λ i. ground (arith, user.words i, below);
    status = user.status;
    code = user.code;
  }

  served-IsAnswered :
      (n : Hart)
      → IsServed (trapped (calling_at h pc c)) n
      → Stored w before n.ram
      → IsAnswered w satp before h c n
  served-IsAnswered n served stored = record {
    user = record {
      root = ap (λ (p : PrivState). p.satp) served.others ∙ user.root;
      stored = stored;
      quiet = ap (λ (p : PrivState). p.sip) served.others ∙ user.quiet;
      mode = served.mode;
      aligned = ap (λ v. v % 4) vector ∙ user.aligned;
      vector = omega (arith, vector, user.vector);
      words = words;
      status =
          subst IsStatus (sym served.status)
            (sret_sstatus-IsStatus _ (trap_sstatus-IsStatus 0 h.status user.status));
      code =
          subst (λ base. IsLoaded w n.memory base n.others.stvec stvec) (sym same_base)
            (subst (λ v. IsLoaded w n.memory (base_of h) v stvec) (sym vector)
              (IsLoaded-same w (base_of h) (omega arith) h.memory n.memory served.memory
                h.others.stvec stvec user.code));
    };
    output = served.output ∙ ap (λ o. o ∷ h.output) (omega (arith, char));
    registers = kept;
    memory = served.memory;
  }
    where
      vector : n.others.stvec ≡ h.others.stvec
      vector = ap (λ (p : PrivState). p.stvec) served.others

      kept : (i : ℕ) → (i == 0 || i == 10) ≡ false → n.regs i ≡ h.regs i
      kept i other = ground (arith, other, served.registers i)

      same_base : base_of n ≡ base_of h
      same_base = ap (λ s. u64 (s + (2 ^ 64 - 512))) (kept 2 refl)

      words : (i : ℕ) → n.regs i < 2 ^ 64
      words i = elim (Bool-cases (i == 0)) [
        | inl e ↦ subst (λ i. n.regs i < 2 ^ 64) (sym (==→eq i 0 e)) (omega (arith, served.pc))
        | inr other ↦ elim (Bool-cases (i == 10)) [
          | inl e ↦
              subst (λ i. n.regs i < 2 ^ 64) (sym (==→eq i 10 e))
                (omega (arith, served.registers 10 refl))
          | inr also ↦ omega (arith, kept i (rw (other, also) refl), user.words i)
        ]
      ]

module _ (k : Kernel) (w : Hardware) (satp : ℕ) (before : ℕ → ℕ)
    (hosted : IsHosted k w satp before) where
  step-trapped :
      (m : Machine)
      → IsUser w satp before (seen m)
      → (t : Machine) × (step k w ecall m ≡ ok t) × (seen t ≡ trapped (seen m))
  unfolding step
  step-trapped m user =
      let (n, served, same) =
        fault_in-served k satp (w.faults ecall m) m user.quiet user.root
          (hosted.steps ecall m user.root user.stored) in
      let still = subst (IsUser w satp before) (sym same) user in
      let (t, called, view) =
        ecall-trapped k w n still.quiet still.mode still.aligned still.vector (still.words 0) in
      (t, ap (λ r. do n ← r; execute k w ecall n) served ∙ called, view ∙ ap trapped same)

  -- A call of the user program prints its character, and the user program goes on.
  pub user_call-IsAnswered :
      (pc c : ℕ) (m : Machine)
      → pc < 2 ^ 64
      → c < 256
      → IsUser w satp before (seen m)
      → (n : Machine) × (user_call k w pc m c ≡ ok n) × IsAnswered w satp before (seen m) c (seen n)
  user_call-IsAnswered pc c m below char user =
      let at : Machine = set_reg (set_reg m 10 (sub64 c 3)) 0 pc in
      let ready : IsUser w satp before (seen at) =
        calling_at-IsUser w satp before (seen m) user pc c below char in
      let (t, stepped, view) = step-trapped at ready in
      let entered = trapped-IsEntered w satp before (seen at) ready in
      let (n, ran, end) =
        run-hosted k w satp before hosted stvec t
          (ap (λ (h : Hart). h.others.sip) view ∙ user.quiet)
          (ap (λ (h : Hart). h.others.satp) view ∙ user.root)
          (subst (λ (h : Hart). Stored w before h.ram) (sym view) user.stored)
          (subst (AreReady w stvec) (sym view) (stvec-IsServed w (trapped (seen at)) entered).0) in
      let view_end : seen n ≡ effects w stvec (trapped (seen at)) =
        end ∙ ap (effects w stvec) view in
      (
        n,
        ap (λ r. do n ← r; run k w stvec n) stepped ∙ ran,
        served-IsAnswered w satp before (seen m) user pc c below char (seen n)
            (subst (IsServed (trapped (seen at))) (sym view_end)
              (stvec-IsServed w (trapped (seen at)) entered).1)
            (subst (λ (h : Hart). Stored w before h.ram) (sym view_end)
              (effects-Stored w before stvec (trapped (seen at)) user.stored)),
      )
