-- ===== src/PageTable/Spec.antt =====
-- Sv39 translation with 4 KiB pages, from the privileged architecture: three tables of 512 entries,
-- a pointer entry at the first two levels and a leaf at the third; and what the walk takes for one.
use urvirt.Common.{ℕ, ◌+◌, ◌-◌, ◌*◌, ◌/◌, ◌%◌, ◌^◌, ◌≤◌, ◌<◌, ◌≡◌, ◌⊎◌}
use urvirt.Bits.{bit}
use urvirt.Memory.{ram_start, ram_size}

abbrev pub InRam : ℕ → Type 0
InRam a = (ram_start ≤ a) × (a < ram_start + ram_size)

-- Entry `index` of the table at physical address `table`.
abbrev pub slot : (ℕ → ℕ) → ℕ → ℕ → ℕ
slot ram table index = ram (table - ram_start + index * 8)

-- The physical address of the page or table that an entry names.
abbrev pub page_of : ℕ → ℕ
page_of entry = entry / 2 ^ 10 % 2 ^ 44 * 2 ^ 12

-- V set and R, W, X clear.
abbrev pub IsPointer : ℕ → Type 0
IsPointer e = (bit e 0 ≡ 1) × (bit e 1 ≡ 0) × (bit e 2 ≡ 0) × (bit e 3 ≡ 0)

-- V set, readable or executable, and not writable without being readable.
abbrev pub IsLeaf : ℕ → Type 0
IsLeaf e = (bit e 0 ≡ 1) × ((bit e 1 ≡ 1) ⊎ (bit e 3 ≡ 1)) × ((bit e 1 ≡ 1) ⊎ (bit e 2 ≡ 0))

-- What the walk takes for a leaf: a leaf, or a pointer at the last level, where the architecture has a
-- page fault.
abbrev pub IsLast : ℕ → Type 0
IsLast e = IsLeaf e ⊎ IsPointer e

abbrev pub root_of : ℕ → ℕ
root_of satp = satp % 2 ^ 44 * 2 ^ 12

abbrev pub first : ℕ → (ℕ → ℕ) → ℕ → ℕ
first satp ram va = slot ram (root_of satp) (va / 2 ^ 30 % 512)

abbrev pub second : ℕ → (ℕ → ℕ) → ℕ → ℕ
second satp ram va = slot ram (page_of (first satp ram va)) (va / 2 ^ 21 % 512)

abbrev pub third : ℕ → (ℕ → ℕ) → ℕ → ℕ
third satp ram va = slot ram (page_of (second satp ram va)) (va / 2 ^ 12 % 512)

-- By two pointer entries of the page table at `satp`, `va` comes to the last entry `pte`, which names
-- the page of `pa`. If that is a leaf, it is Sv39's translation; else the architecture has none.
pub record Reaches (satp : ℕ) (ram : ℕ → ℕ) (va pa pte : ℕ) : Type 0 where
  pub root_in_ram : InRam (root_of satp)
  pub first_pointer : IsPointer (first satp ram va)
  pub second_in_ram : InRam (page_of (first satp ram va))
  pub second_pointer : IsPointer (second satp ram va)
  pub third_in_ram : InRam (page_of (second satp ram va))
  pub leaf : IsLast (third satp ram va)
  pub found : pte ≡ third satp ram va
  pub address : pa ≡ page_of (third satp ram va) + va % 2 ^ 12
