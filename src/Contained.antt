-- ===== src/Contained.antt =====
-- What the stub may do to the guest's address space while it handles a signal.
use urvirt.Common.{
  ℕ, ◌+◌, ◌-◌, ◌*◌, ◌/◌, ◌^◌, ◌≡◌, ◌⊎◌, refl, inl, inr, Bool, true, false, List, ◌∷◌, bit_or, u64,
  sub64, if◌then◌else◌,
}
use urvirt.Kernel.{Kernel}
use urvirt.Memory.{ram_start}
use urvirt.Priv.{PrivState}
use urvirt.Machine.{Machine, Syscall, call, s_mmap, s_munmap}
use urvirt.PageTable.Spec.{InRam, page_of, Reaches}
use urvirt.PageFault.Mapping.{prot_of}
use urvirt.Trap.{enter_trap}

-- The calls that change the address space.
abbrev pub changes_memory : Syscall → Bool
changes_memory (s_mmap addr length prot flags fd offset) = true
changes_memory (s_munmap addr length) = true
changes_memory _ = false

abbrev pub stub_end : Machine → ℕ
stub_end m = u64 (m.priv.stub_start + m.priv.stub_size)

-- What a machine that gets a signal may be led to call: the shared page and the whole of RAM are mapped
-- where Linux likes, and unmapped again; a page of RAM is mapped for the guest if the guest's page
-- table leads to it, with the rights of the entry and over nothing that is mapped; and what lies
-- below the stub and above it is unmapped.
pub data Allowed (k : Kernel) (m : Machine) : Syscall → Type 0 where
  shared_page : Allowed k m (s_mmap 0 4096 3 1 64 0)
  shared_page_end : Allowed k m (s_munmap k.conf_address 4096)
  all_ram : Allowed k m (s_mmap 0 0x1000000 7 1 65 0)
  all_ram_end : Allowed k m (s_munmap k.ram_address 0x1000000)
  page :
      (a pa pte : ℕ)
      → Reaches m.priv.satp m.ram a pa pte
      → InRam (page_of pte)
      → Allowed k m (
          s_mmap
            (a / 4096 * 4096)
            4096
            (prot_of pte)
            (bit_or 1 0x100000)
            65
            (page_of pte - ram_start))
  below_stub : Allowed k m (s_munmap 0 m.priv.stub_start)
  above_stub : Allowed k m (s_munmap (stub_end m) (sub64 (2 ^ 38) (stub_end m)))
  other : (c : Syscall) → changes_memory c ≡ false → Allowed k m c

-- The log grows by calls that are allowed.
pub data Extends (k : Kernel) (m : Machine) (before : List Syscall) : List Syscall → Type 0 where
  same : Extends k m before before
  more :
      {after : List Syscall} (c : Syscall)
      → Allowed k m c
      → Extends k m before after
      → Extends k m before (c ∷ after)

-- The guest's translation is what it was, mode and root.
abbrev pub IsSameSpace : PrivState → PrivState → Type 0
IsSameSpace p q = (q.priv_mode ≡ p.priv_mode) × (q.satp ≡ p.satp)

-- The stub is where it was, and if the guest's translation changed, its mappings are to be cleared.
pub record IsTracked (p q : PrivState) : Type 0 where
  pub stub : (q.stub_start ≡ p.stub_start) × (q.stub_size ≡ p.stub_size)
  pub space : (q.should_clear_vm ≡ true) ⊎ IsSameSpace p q

-- What holds of the machine while a signal that came to `m` is handled.
pub record IsContained (k : Kernel) (m n : Machine) : Type 0 where
  pub log : Extends k m m.calls n.calls
  pub state : IsTracked m.priv n.priv

module _ (k : Kernel) (m : Machine) where
  pub start-IsContained : IsContained k m m
  start-IsContained = record {
    log = same;
    state = record { stub = (refl, refl); space = inr (refl, refl) };
  }

  pub call-IsContained :
      (n : Machine) (c : Syscall) → Allowed k m c → IsContained k m n → IsContained k m (call n c)
  call-IsContained n c allowed h = record { log = more c allowed h.log; state = h.state }

  -- Registers, memory and RAM are not looked at.
  pub guest-IsContained :
      (n : Machine) (regs memory ram : ℕ → ℕ)
      → IsContained k m n
      → IsContained k m (record n { regs = regs; memory = memory; ram = ram })
  guest-IsContained n regs memory ram h = record { log = h.log; state = h.state }

  pub enter_trap-IsContained :
      (n : Machine) (scause stval : ℕ)
      → IsContained k m n
      → IsContained k m (enter_trap n scause stval)
  unfolding enter_trap
  enter_trap-IsContained n scause stval h = record {
    log = h.log;
    state = record { stub = h.state.stub; space = inl refl };
  }

  pub if-IsContained :
      (b : Bool) (x y : Machine)
      → IsContained k m x
      → IsContained k m y
      → IsContained k m (if b then x else y)
  if-IsContained true x y h g = h
  if-IsContained false x y h g = g
