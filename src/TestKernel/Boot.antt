-- ===== src/TestKernel/Boot.antt =====
-- kernel_main on the handler: each privileged instruction is a signal.
use urvirt.Common.{
  ℕ, zero, suc, leb, ltb, ◌+◌, ◌%◌, ◌^◌, ◌<◌, ◌≡◌, refl, ap, ◌∙◌, false, ◌&&◌, ◌==◌, if◌then◌else◌,
  arith, true, ◌≤◌, ◌||◌, List, ◌∷◌,
}
use urvirt.Outcome.{ok, stop, ebreak}
use urvirt.Kernel.{Kernel}
use urvirt.Memory.{load32}
use urvirt.RiscvBits.{priv_s, priv_u, get_field, set_field, mask_field, mask_sstatus_spp}
use urvirt.Priv.{PrivState, initialize_priv}
use urvirt.Machine.{Machine, Syscall, set_reg, update, s_munmap, s_rt_sigreturn}
use urvirt.Handler.{sigsegv, handler, clear_vm}
use urvirt.Handler.Runs.{unmaps, clear_vm-unmaps}
use urvirt.Handler.Exceptions.{handler-bare}
use urvirt.PrivInstr.Spec.{csr, swap, clear, return_trap, encode}
use urvirt.Csr.{read_csr, write_csr, merge_mask, sanitize_stvec}
use urvirt.Csr.Fields.{sanitize_stvec_lem}
use urvirt.Trap.{sret}
use urvirt.TestKernel.{Layout, asm_operand, kernel_main, clear_bss}
use urvirt.Handler.Instructions.{entered, finished, handler_wrapper-exec}
use urvirt.TestKernel.Signals.{
  counted, finished-quiet, take_interrupt-quiet, asm_operand-csr, IsReturned, sret-IsReturned,
}

-- The code of kernel_main in memory: the operands are not in x0, and the vector is a multiple of 4.
pub record IsKernelMain (l : Layout) (memory : ℕ → ℕ) : Type 0 where
  pub csrc_sstatus :
      load32 memory l.csrc_sstatus_pc ≡ encode (csr clear false 0x100 0 l.csrc_sstatus_reg)
  pub csrw_stvec : load32 memory l.csrw_stvec_pc ≡ encode (csr swap false 0x105 0 l.csrw_stvec_reg)
  pub csrw_sepc : load32 memory l.csrw_sepc_pc ≡ encode (csr swap false 0x141 0 l.csrw_sepc_reg)
  pub sret_at : load32 memory l.sret_pc ≡ encode return_trap
  pub first_reg : (l.csrc_sstatus_reg < 32) × (l.csrc_sstatus_reg == 0 ≡ false)
  pub second_reg : (l.csrw_stvec_reg < 32) × (l.csrw_stvec_reg == 0 ≡ false)
  pub third_reg : (l.csrw_sepc_reg < 32) × (l.csrw_sepc_reg == 0 ≡ false)
  pub vector : (l.stvec % 4 ≡ 0) × (l.stvec < 2 ^ 64)

module _ (k : Kernel) (l : Layout) (c : PrivState) (m : Machine)
    (fresh : m.priv ≡ initialize_priv c) (code : IsKernelMain l m.memory) where
  abbrev priv1 : PrivState
  priv1 = record (counted (initialize_priv c)) { sstatus = 0x800000000001E000 }

  first :
      (n : Machine) × (asm_operand k m l.csrc_sstatus_pc l.csrc_sstatus_reg mask_sstatus_spp ≡ ok n)
      × (n.priv ≡ record priv1 { should_clear_vm = false })
      × (n.memory ≡ m.memory)
  unfolding initialize_priv
  first =
      asm_operand-csr k m (initialize_priv c) priv1 l.csrc_sstatus_pc l.csrc_sstatus_reg
        mask_sstatus_spp 0x100 clear fresh refl code.csrc_sstatus
        (code.first_reg.0, omega arith, code.first_reg.1)
        (unfold read_csr write_csr merge_mask set_field mask_field in refl) refl

  abbrev priv2 : PrivState
  priv2 = record (counted priv1) { should_clear_vm = false; stvec = l.stvec }

  second :
      (n : Machine) × (asm_operand k first.0 l.csrw_stvec_pc l.csrw_stvec_reg l.stvec ≡ ok n)
      × (n.priv ≡ record priv2 { should_clear_vm = false })
      × (n.memory ≡ first.0.memory)
  second =
      asm_operand-csr k first.0 (record priv1 { should_clear_vm = false }) priv2 l.csrw_stvec_pc
        l.csrw_stvec_reg l.stvec 0x105 swap first.2 (unfold initialize_priv in refl)
        (ap (λ memory. load32 memory l.csrw_stvec_pc) first.3 ∙ code.csrw_stvec)
        (code.second_reg.0, omega arith, code.second_reg.1)
        (unfold write_csr in
          ap (λ v. ok (record (counted priv1) { should_clear_vm = false; stvec = v })) direct)
        (unfold initialize_priv in refl)
    where
      direct : sanitize_stvec l.stvec ≡ l.stvec
      direct = sanitize_stvec_lem l.stvec code.vector.1 ∙ ground (arith, code.vector.0)

  abbrev priv3 : PrivState
  priv3 = record (counted priv2) { should_clear_vm = false; sepc = l.umode }

  third :
      (n : Machine) × (asm_operand k second.0 l.csrw_sepc_pc l.csrw_sepc_reg l.umode ≡ ok n)
      × (n.priv ≡ record priv3 { should_clear_vm = false })
      × (n.memory ≡ second.0.memory)
  third =
      asm_operand-csr k second.0 (record priv2 { should_clear_vm = false }) priv3 l.csrw_sepc_pc
        l.csrw_sepc_reg l.umode 0x141 swap second.2 (unfold initialize_priv in refl)
        (ap (λ memory. load32 memory l.csrw_sepc_pc) (second.3 ∙ first.3) ∙ code.csrw_sepc)
        (code.third_reg.0, omega arith, code.third_reg.1) (unfold write_csr in refl)
        (unfold initialize_priv in refl)

  kept : third.0.memory ≡ m.memory
  kept = third.3 ∙ second.3 ∙ first.3

  -- The guest that `sret` leaves.
  abbrev returned : Machine
  returned = sret (entered (set_reg third.0 0 l.sret_pc))

  spp_clear : get_field 8 1 third.0.priv.sstatus ≡ 0
  spp_clear = ap (λ (q : PrivState). get_field 8 1 q.sstatus) third.2 ∙ (unfold get_field in refl)

  in_user : IsReturned (entered (set_reg third.0 0 l.sret_pc)) returned
  in_user = sret-IsReturned (entered (set_reg third.0 0 l.sret_pc)) spp_clear

  quiet : returned.priv.sip ≡ 0
  quiet = in_user.pending ∙ ap (λ (q : PrivState). q.sip) third.2 ∙ (unfold initialize_priv in refl)

  abbrev final : Machine
  final = record returned {
    priv = record returned.priv { should_clear_vm = false };
    calls = (finished k returned).calls;
  }

  runs : kernel_main k l m ≡ ok final
  unfolding kernel_main
  runs =
      rw (first.1, second.1, third.1)
        (handler_wrapper-exec k (set_reg third.0 0 l.sret_pc) return_trap supervisor
            (ap (λ memory. load32 memory l.sret_pc) kept ∙ code.sret_at) tt
          ∙ ap ok (finished-quiet k returned quiet))
    where
      supervisor : third.0.priv.priv_mode ≡ priv_s
      supervisor = ap (λ (q : PrivState). q.priv_mode) third.2 ∙ (unfold initialize_priv in refl)

  module _ (fits : c.stub_start + c.stub_size ≤ 2 ^ 38) (user : l.umode < 2 ^ 38)
      (outside : leb c.stub_start l.umode && ltb l.umode (c.stub_start + c.stub_size) ≡ false) where
    same_stub : (returned.priv.stub_start ≡ c.stub_start) × (returned.priv.stub_size ≡ c.stub_size)
    same_stub = (
      in_user.start
          ∙ ap (λ (q : PrivState). q.stub_start) third.2
          ∙ (unfold initialize_priv in refl),
      in_user.size ∙ ap (λ (q : PrivState). q.stub_size) third.2 ∙ (unfold initialize_priv in refl),
    )

    cleared :
        (low : Syscall) × (high : Syscall) × ((clear_vm returned).calls
          ≡ high ∷ low ∷ returned.calls)
        × (unmaps low l.umode || unmaps high l.umode ≡ true)
    cleared =
        let r =
          clear_vm-unmaps returned l.umode in_user.stale
            (omega (arith, same_stub.0, same_stub.1, fits)) user in
        (r.0, r.1, r.2, r.3 ∙ ground (arith, same_stub.0, same_stub.1, outside))

    -- From a freshly initialised privileged state, with its code in memory, every operand in a
    -- register other than x0 and a vector that is a multiple of 4, kernel_main runs through, by four
    -- signals, to user mode at umode, with its vector in stvec and memory as it was. Where the stub
    -- and umode lie below 2 ^ 38 and apart, the last signal unmaps umode; and since translation is
    -- still off, the page fault that its fetch is then stops the stub.
    pub kernel_main-user :
        (n : Machine) × (kernel_main k l m ≡ ok n)
        × (n.priv.priv_mode ≡ priv_u)
        × (n.regs 0 ≡ l.umode)
        × (n.priv.stvec ≡ l.stvec)
        × (n.memory ≡ m.memory)
        × ((low : Syscall) × (high : Syscall) × (before : List Syscall) × (n.calls
              ≡ s_rt_sigreturn ∷ s_munmap k.conf_address 4096 ∷ high ∷ low ∷ before)
            × (unmaps low l.umode || unmaps high l.umode ≡ true))
        × (handler k n (sigsegv l.umode) ≡ stop (ebreak "someone turned off translation"))
    kernel_main-user = (
      final,
      runs,
      in_user.mode,
      in_user.pc ∙ ap (λ (q : PrivState). q.sepc) third.2,
      in_user.vector ∙ ap (λ (q : PrivState). q.stvec) third.2,
      in_user.memory ∙ kept,
      (cleared.0, cleared.1, returned.calls, calls_left, cleared.3),
      handler-bare k final l.umode bare,
    )
      where
        calls_left :
            final.calls
            ≡ s_rt_sigreturn ∷ s_munmap k.conf_address 4096 ∷ cleared.1 ∷ cleared.0 ∷ returned.calls
        calls_left =
            ap (λ t. s_rt_sigreturn ∷ s_munmap k.conf_address 4096 ∷ (clear_vm t).calls)
              (take_interrupt-quiet returned quiet)
            ∙ ap (λ cs. s_rt_sigreturn ∷ s_munmap k.conf_address 4096 ∷ cs) cleared.2

        bare : get_field 60 4 returned.priv.satp ≡ 0
        bare =
            ap (get_field 60 4) in_user.root
            ∙ ap (λ (q : PrivState). get_field 60 4 q.satp) third.2
            ∙ (unfold initialize_priv get_field in refl)

-- The loop writes zeros from its start to its end and nothing else.
clear_bss-zeros :
    (rounds p : ℕ) (memory : ℕ → ℕ) (a : ℕ)
    → clear_bss rounds p memory a ≡ (if leb p a && ltb a (p + rounds) then 0 else memory a)
unfolding clear_bss
clear_bss-zeros zero p memory a = ground arith
clear_bss-zeros (suc rounds) p memory a =
    clear_bss-zeros rounds (suc p) (update memory p 0) a ∙ ground arith
