-- ===== src/PageFault/Invariant.antt =====
-- The branches of handle_page_fault and the validity of the machine.
use urvirt.Common.{
  ℕ, ◌+◌, ◌^◌, ◌<◌, not, ◌&&◌, ◌||◌, ◌==◌, ltb, leb, if◌then◌else◌, Bool-cases, inl, inr, Option,
  none, some,
}
use urvirt.Outcome.{ok, stop, ebreak, ◌>>=◌, Ensures, Ensures-if, Ensures->>=, Ensures-of_ok}
use urvirt.Kernel.{Kernel}
use urvirt.Memory.{ram_start, ram_size}
use urvirt.Machine.{Machine, IsValid, call-IsValid, advance-IsValid}
use urvirt.PageTable.{lookup_pa_in_ram, flag}
use urvirt.Trap.{enter_trap}
use urvirt.Trap.Invariant.{enter_trap-IsValid}
use urvirt.PageFault.{
  lookup_pa, decode_sd, get_store_data, skip_store, map_page, block_command, emulate_mmio,
  handle_page_fault, looks_wide,
}

block_id-IsValid :
    (m : Machine) (v : ℕ)
    → IsValid m
    → IsValid (record m { priv = record m.priv { urvb_block_id = v } })
block_id-IsValid m v h = record { state = assumption h.state; words = h.words }

buf-IsValid :
    (m : Machine) (v : ℕ) → IsValid m → IsValid (record m { priv = record m.priv { urvb_buf = v } })
buf-IsValid m v h = record { state = assumption h.state; words = h.words }

abbrev Any : ℕ → Type 0
Any n = Unit

module _ (k : Kernel) (m : Machine) (scause stval : ℕ) (h : IsValid m) (cause : scause < 2 ^ 64)
    (tval : stval < 2 ^ 64) where
  map_page-IsValid : (pte : ℕ) → Ensures IsValid (map_page k m scause stval pte)
  unfolding map_page
  map_page-IsValid pte =
      Ensures-if IsValid
        (scause == 12 && not (flag pte 8)
          || scause == 13 && not (flag pte 2)
          || scause == 15 && not (flag pte 4))
        _ _
        (λ _.
          Ensures-if IsValid (m.priv.priv_mode == 16) _ _ (λ _. tt)
            (λ _. enter_trap-IsValid _ scause stval (call-IsValid m _ h) cause tval))
        (λ _.
          Ensures-if IsValid (leb (2 ^ 63) (k.mmap_result _ _ _)) _ _ (λ _. tt)
            (λ _. call-IsValid m _ h))

  block_command-IsValid :
      (n : Machine) (data' : ℕ) → IsValid n → Ensures IsValid (block_command k n data')
  unfolding block_command
  block_command-IsValid n data' v =
      Ensures-if IsValid (data' == 1) _ _ (λ _. record { state = v.state; words = v.words })
        (λ _.
          Ensures-if IsValid (data' == 2) _ _ (λ _. record { state = v.state; words = v.words })
            (λ _. tt))

  skip_store-IsValid : (n : Machine) (pc : ℕ) → IsValid n → IsValid (skip_store n pc)
  skip_store-IsValid n pc v = elim (Bool-cases (looks_wide n pc)) [
    | inl e ↦ rw e (advance-IsValid n 4 v)
    | inr e ↦ rw e (advance-IsValid n 2 v)
  ]

  emulate_mmio-IsValid : (pa : ℕ) → Ensures IsValid (emulate_mmio k m scause stval pa)
  unfolding emulate_mmio
  emulate_mmio-IsValid pa = Ensures->>= Any IsValid _ _ any λ store_data _.
      Ensures-if IsValid (pa == 0x10400000 && scause == 15) _ _
        (λ _.
          Ensures->>= IsValid IsValid (block_command k m store_data) _
            (block_command-IsValid m store_data h) (λ n v. skip_store-IsValid n (m.regs 0) v))
        (λ _.
          Ensures-if IsValid (pa == 0x10400008 && scause == 15) _ _
            (λ _. skip_store-IsValid _ (m.regs 0) (block_id-IsValid m store_data h))
            (λ _.
              Ensures-if IsValid (pa == 0x10400010 && scause == 15) _ _
                (λ _. skip_store-IsValid _ (m.regs 0) (buf-IsValid m store_data h))
                (λ _. cannot_handle)))
    where
      any : Ensures Any (
          if scause == 15
          then (get_store_data m >>= λ found. elim found [
            | none ↦ stop (ebreak "Failed to get MMIO store data")
            | some v ↦ ok v
          ])
          else ok 0)
      any = Ensures-of_ok Any _ (λ _ _. tt)

      cannot_handle :
          Ensures IsValid (decode_sd m (m.regs 0) >>= λ _. stop (ebreak "Page fault cannot handle"))
      cannot_handle =
          Ensures->>= (λ (_ : Option ℕ). Unit {0}) IsValid (decode_sd m (m.regs 0)) _
            (Ensures-of_ok (λ (_ : Option ℕ). Unit {0}) _ (λ _ _. tt)) (λ _ _. tt)

-- A page fault, with a cause and an address that are words, keeps a valid machine valid if it does
-- not stop, whether it ends in a mapping, in the block device or in a trap of the guest.
pub handle_page_fault-IsValid :
    (k : Kernel) (m : Machine) (scause stval : ℕ)
    → IsValid m
    → scause < 2 ^ 64
    → stval < 2 ^ 64
    → Ensures IsValid (handle_page_fault k m scause stval)
unfolding handle_page_fault lookup_pa
handle_page_fault-IsValid k m scause stval h cause tval =
    Ensures->>= (λ (r : Option (ℕ × ℕ) × Machine). IsValid r.1) IsValid (lookup_pa k m stval) _
      (Ensures->>= (λ (r : Option (ℕ × ℕ)). Unit {0}) _ (lookup_pa_in_ram m.priv.satp m.ram stval) _
        (Ensures-of_ok (λ (r : Option (ℕ × ℕ)). Unit {0}) _ (λ _ _. tt))
        (λ _ _. call-IsValid _ _ (call-IsValid m _ h)))
      (λ r v. found r.0 r.1 v)
  where
    found :
        (o : Option (ℕ × ℕ)) (n : Machine)
        → IsValid n
        → Ensures IsValid (elim o [
          | none ↦ ok (enter_trap n scause stval)
          | some (pa, pte) ↦
              if pte == 0
              then stop (ebreak "someone turned off translation")
              else if leb ram_start pa && ltb pa (ram_start + ram_size)
              then map_page k n scause stval pte
              else emulate_mmio k n scause stval pa
        ])
    found none n v = enter_trap-IsValid n scause stval v cause tval
    found (some (pa, pte)) n v =
        Ensures-if IsValid (pte == 0) _ _ (λ _. tt)
          (λ _.
            Ensures-if IsValid (leb ram_start pa && ltb pa (ram_start + ram_size)) _ _
              (λ _. map_page-IsValid k n scause stval v cause tval pte)
              (λ _. emulate_mmio-IsValid k n scause stval v cause tval pa))
