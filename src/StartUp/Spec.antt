-- ===== src/StartUp/Spec.antt =====
-- What the loader leaves for the stub, and the address space that the guest is started in.
use urvirt.Common.{
  ℕ, ◌+◌, ◌-◌, ◌*◌, ◌%◌, ◌^◌, ◌≤◌, ◌<◌, ◌≡◌, ◌⊎◌, Bool, true, ◌&&◌, leb, ltb, if◌then◌else◌, Option,
  none, some,
}
use urvirt.Memory.{ram_start, ram_size}
use urvirt.Priv.{PrivState}
use urvirt.AddressSpace.{
  AddressSpace, Backing, IsHospitable, handed_on, of_file, anonymous, page_up,
}
use urvirt.StartUp.{Process}

-- Pages enough for the kernel's file and one more.
abbrev pub span : PrivState → ℕ
span c = page_up c.kernel_size + 4096

-- The stub and the page after it.
abbrev pub stub_end : PrivState → ℕ
stub_end c = c.stub_start + c.stub_size

abbrev pub in_stub : PrivState → ℕ → Bool
in_stub c a = leb c.stub_start a && ltb a (stub_end c)

abbrev pub in_stack : PrivState → ℕ → Bool
in_stack c a = leb (stub_end c) a && ltb a (stub_end c + 4096)

abbrev pub in_ram : ℕ → Bool
in_ram a = leb ram_start a && ltb a (ram_start + ram_size)

-- The system is hospitable. The stub is whole pages, with room for a stack after it, and not where RAM goes; the kernel's file
-- is not empty and fits into RAM; and from `room` on there are free pages for the mappings that come
-- and go.
pub record IsLoaded (S : AddressSpace) (p : Process S) (room : ℕ) : Type 0 where
  pub hospitable : IsHospitable S handed_on
  pub start_aligned : p.config.stub_start % 4096 ≡ 0
  pub size_aligned : p.config.stub_size % 4096 ≡ 0
  pub below : stub_end p.config + 4096 ≤ 2 ^ 38
  pub apart : (stub_end p.config + 4096 ≤ ram_start) ⊎ (ram_start + ram_size ≤ p.config.stub_start)
  pub some_kernel : 0 < p.config.kernel_size
  pub kernel_fits : p.config.kernel_size + 0x200000 ≤ ram_size
  pub room_aligned : room % 4096 ≡ 0
  pub room_below : room + 2 * span p.config ≤ 2 ^ 38
  pub room_ram : (room + 2 * span p.config ≤ ram_start) ⊎ (ram_start + ram_size ≤ room)
  pub room_stub :
      (room + 2 * span p.config ≤ p.config.stub_start) ⊎ (stub_end p.config + 4096 ≤ room)
  pub room_free :
      (a : ℕ) → leb room a && ltb a (room + 2 * span p.config) ≡ true → S.backing p.space a ≡ none

-- The guest's address space: the stub, as the loader mapped it, its stack, and RAM.
abbrev pub guest_view : PrivState → (ℕ → Option Backing) → ℕ → Option Backing
guest_view c before a =
    if in_stub c a
    then before a
    else if in_stack c a
    then some anonymous
    else if in_ram a
    then some (of_file 65 (a - ram_start))
    else none
