-- ===== src/PageFault/Contained.antt =====
-- The branches of handle_page_fault and the guest's address space.
use urvirt.Common.{
  ℕ, ◌+◌, ◌^◌, ◌<◌, ◌≡◌, refl, sym, ap, ap₂, ◌∙◌, inl, inr, true, false, ◌&&◌, ◌==◌, ltb, leb,
  if◌then◌else◌, Option, none, some, arith, [], ◌∷◌,
}
use mathlib.Core.Path.{subst}
use urvirt.Outcome.{
  Result, ok, stop, ebreak, ◌>>=◌, Ensures, Ensures-if, Ensures->>=, Ensures-of_ok,
}
use urvirt.Kernel.{Kernel}
use urvirt.Memory.{ram_start, ram_size, block_fd}
use urvirt.Machine.{Machine, call, log, print, s_pread64, s_pwrite64}
use urvirt.RiscvBits.{get_satp_mode}
use urvirt.Priv.WellFormed.{IsSatp}
use urvirt.PageTable.{lookup_pa_in_ram}
use urvirt.PageTable.Spec.{InRam, page_of, Reaches}
use urvirt.PageTable.Sound.{lookup_pa_in_ram_iff}
use urvirt.Trap.{enter_trap}
use urvirt.PageFault.{
  lookup_pa, decode_sd, get_store_data, skip_store, map_page, block_command, emulate_mmio,
  handle_page_fault, looks_wide,
}
use urvirt.PageFault.Mapping.{permits, map_page-served}
use urvirt.Contained.{
  IsContained, page, all_ram, all_ram_end, other, call-IsContained, guest-IsContained,
  enter_trap-IsContained, if-IsContained,
}

module _ (k : Kernel) (m : Machine) where
  abbrev Contained : Machine → Type 0
  Contained = IsContained k m

  -- The page is mapped, the guest gets a trap, or the stub stops.
  map_page-IsContained :
      (n : Machine) (scause stval pa pte : ℕ)
      → stval < 2 ^ 64
      → Reaches m.priv.satp m.ram stval pa pte
      → InRam (page_of pte)
      → Contained n
      → Ensures Contained (map_page k n scause stval pte)
  map_page-IsContained n scause stval pa pte word t range h =
      subst (Ensures Contained) (sym (map_page-served k n scause stval pte word range.0)) (
        Ensures-if Contained (permits scause pte) _ _
          (λ _.
            Ensures-if Contained (leb (2 ^ 63) (k.mmap_result _ _ _)) _ _ (λ _. tt)
              (λ _. call-IsContained k m n _ (page stval pa pte t range) h))
          (λ _.
            Ensures-if Contained (n.priv.priv_mode == 16) _ _ (λ _. tt)
              (λ _. enter_trap-IsContained k m _ scause stval (
                call-IsContained k m n (log "page permission denied in u mode") (other _ refl) h))))

  block_command-IsContained :
      (n : Machine) (data' : ℕ) → Contained n → Ensures Contained (block_command k n data')
  unfolding block_command
  block_command-IsContained n data' h =
      Ensures-if Contained (data' == 1) _ _
        (λ _.
          guest-IsContained k m _ _ _ _
            (call-IsContained k m _ (s_pread64 block_fd _ 512 _) (other _ refl) printed))
        (λ _.
          Ensures-if Contained (data' == 2) _ _
            (λ _. call-IsContained k m _ (s_pwrite64 block_fd _ 512 _) (other _ refl) printed)
            (λ _. tt))
    where
      printed : Contained (
          call n
            (print "urvirt block command" (data' ∷ n.priv.urvb_block_id ∷ n.priv.urvb_buf ∷ [])))
      printed = call-IsContained k m n _ (other _ refl) h

  skip_store-IsContained : (n : Machine) (pc : ℕ) → Contained n → Contained (skip_store n pc)
  skip_store-IsContained n pc h =
      if-IsContained k m (looks_wide n pc) _ _ (guest-IsContained k m n _ _ _ h)
        (guest-IsContained k m n _ _ _ h)

  abbrev Any : ℕ → Type 0
  Any v = Unit

  abbrev AnyRegister : Option ℕ → Type 0
  AnyRegister r = Unit

  emulate_mmio-IsContained :
      (n : Machine) (scause stval pa : ℕ)
      → Contained n
      → Ensures Contained (emulate_mmio k n scause stval pa)
  unfolding emulate_mmio
  emulate_mmio-IsContained n scause stval pa h = Ensures->>= Any Contained _ _ any λ store_data _.
      Ensures-if Contained (pa == 0x10400000 && scause == 15) _ _
        (λ _.
          Ensures->>= Contained Contained (block_command k n store_data) _
            (block_command-IsContained n store_data h)
            (λ n' h'. skip_store-IsContained n' (n.regs 0) h'))
        (λ _.
          Ensures-if Contained (pa == 0x10400008 && scause == 15) _ _
            (λ _.
              skip_store-IsContained
                (record n { priv = record n.priv { urvb_block_id = store_data } }) (n.regs 0)
                (tracked store_data n.priv.urvb_buf))
            (λ _.
              Ensures-if Contained (pa == 0x10400010 && scause == 15) _ _
                (λ _.
                  skip_store-IsContained
                    (record n { priv = record n.priv { urvb_buf = store_data } }) (n.regs 0)
                    (tracked n.priv.urvb_block_id store_data))
                (λ _.
                  Ensures->>= AnyRegister Contained (decode_sd n (n.regs 0)) _
                    (Ensures-of_ok AnyRegister _ (λ _ _. tt)) (λ _ _. tt))))
    where
      tracked :
          (block buf : ℕ)
          → Contained (record n { priv = record n.priv { urvb_block_id = block; urvb_buf = buf } })
      tracked block buf = record {
        log = h.log;
        state = record { stub = h.state.stub; space = h.state.space };
      }

      any : Ensures Any (
          if scause == 15
          then (get_store_data n >>= λ found. elim found [
            | none ↦ stop (ebreak "Failed to get MMIO store data")
            | some v ↦ ok v
          ])
          else ok 0)
      any = Ensures-of_ok Any _ (λ _ _. tt)

  abbrev entry_of : Result (Option (ℕ × ℕ)) → ℕ
  entry_of (ok (some (pa, pte))) = pte
  entry_of _ = 0

  -- What the walk finds in RAM, with a nonzero entry, is a translation by the guest's page table.
  found-Reaches :
      (stval pa pte : ℕ)
      → IsSatp m.priv.satp
      → stval < 2 ^ 64
      → lookup_pa_in_ram m.priv.satp m.ram stval ≡ ok (some (pa, pte))
      → (pte == 0) ≡ false
      → Reaches m.priv.satp m.ram stval pa pte
  found-Reaches stval pa pte satp word e nonzero = elim satp.1 [
    | inl bare ↦ absurd (zero_entry bare)
    | inr sv39 ↦ ((lookup_pa_in_ram_iff m.priv.satp m.ram stval pa pte sv39 word).0 e).1
  ]
    where
      clash : 0 ≡ pte → ⊥
      clash zero = ground (arith, zero, nonzero)

      zero_entry : get_satp_mode m.priv.satp ≡ 0 → ⊥
      zero_entry bare =
          let off : lookup_pa_in_ram m.priv.satp m.ram stval ≡ ok (some (stval, 0)) =
            unfold lookup_pa_in_ram in rw bare refl in
          clash (ap entry_of (sym off ∙ e))

  found-InRam :
      (stval pa pte : ℕ)
      → Reaches m.priv.satp m.ram stval pa pte
      → (leb ram_start pa && ltb pa (ram_start + ram_size)) ≡ true
      → InRam (page_of pte)
  found-InRam stval pa pte t range = (
    ground (arith, t.address, ap page_of t.found, range),
    ground (arith, t.address, ap page_of t.found, range),
  )

  -- A fault at a word, found on a machine whose page table is still that of the signal's, leads to no
  -- other call than the allowed ones.
  pub handle_page_fault-IsContained :
      (n : Machine) (scause stval : ℕ)
      → IsSatp m.priv.satp
      → stval < 2 ^ 64
      → n.priv.satp ≡ m.priv.satp
      → n.ram ≡ m.ram
      → Contained n
      → Ensures Contained (handle_page_fault k n scause stval)
  unfolding handle_page_fault lookup_pa
  handle_page_fault-IsContained n scause stval satp word same_root same_ram h =
      Ensures->>= Looked Contained (lookup_pa k n stval) _
        (Ensures->>= Found Looked (lookup_pa_in_ram n.priv.satp n.ram stval) _
          (Ensures-of_ok Found (lookup_pa_in_ram n.priv.satp n.ram stval) (λ o e. e))
          (λ o e. (
            sym (ap₂ (λ root ram. lookup_pa_in_ram root ram stval) same_root same_ram) ∙ e,
            call-IsContained k m _ _ all_ram_end (call-IsContained k m n _ all_ram h),
          )))
        (λ r v. found r.0 r.1 v)
    where
      Found : Option (ℕ × ℕ) → Type 0
      Found o = lookup_pa_in_ram n.priv.satp n.ram stval ≡ ok o

      Looked : Option (ℕ × ℕ) × Machine → Type 0
      Looked r = (lookup_pa_in_ram m.priv.satp m.ram stval ≡ ok r.0) × Contained r.1

      found :
          (o : Option (ℕ × ℕ)) (n' : Machine)
          → Looked (o, n')
          → Ensures Contained (elim o [
            | none ↦ ok (enter_trap n' scause stval)
            | some (pa, pte) ↦
                if pte == 0
                then stop (ebreak "someone turned off translation")
                else if leb ram_start pa && ltb pa (ram_start + ram_size)
                then map_page k n' scause stval pte
                else emulate_mmio k n' scause stval pa
          ])
      found none n' v = enter_trap-IsContained k m n' scause stval v.1
      found (some (pa, pte)) n' v =
          Ensures-if Contained (pte == 0) _ _ (λ _. tt)
            (λ nonzero.
              let t = found-Reaches stval pa pte satp word v.0 nonzero in
              Ensures-if Contained (leb ram_start pa && ltb pa (ram_start + ram_size)) _ _
                (λ range.
                  map_page-IsContained n' scause stval pa pte word t
                    (found-InRam stval pa pte t range) v.1)
                (λ _. emulate_mmio-IsContained n' scause stval pa v.1))
