-- ===== src/AddressSpace.antt =====
-- What the start-up relies on of mmap(2) and munmap(2): an address space over an unknown state, what
-- the manual says of the two calls, and what the code takes for granted beyond that. A page is 4096 bytes and the user's addresses are those
-- below 2 ^ 38.
use urvirt.Common.{
  ℕ, ◌+◌, ◌-◌, ◌*◌, ◌/◌, ◌%◌, ◌^◌, ◌≤◌, ◌<◌, ◌≡◌, ◌⊎◌, Bool, true, false, ◌&&◌, ◌||◌, ◌==◌, leb,
  ltb, if◌then◌else◌, Option, none, some, ◌&&&◌, truthy,
}
use urvirt.Memory.{ram_start, ram_size}

-- What an address shows: a byte of a file, or memory of no file.
pub data Backing : Type 0 where
  of_file : (fd offset : ℕ) → Backing
  anonymous : Backing

-- Flags of mmap(2) beyond those of the handler.
abbrev pub map_private : ℕ
map_private = 2

abbrev pub map_fixed : ℕ
map_fixed = 0x10

abbrev pub map_anonymous : ℕ
map_anonymous = 0x20

abbrev pub map_stack : ℕ
map_stack = 0x20000

-- `map` returns the address at which it put the pages, if the system grants the mapping; to refuse is
-- an error.
pub record AddressSpace : Type 1 where
  pub State : Type 0
  pub backing : State → ℕ → Option Backing
  pub grants : State → (length flags fd offset : ℕ) → Bool
  pub map : State → (addr length flags fd offset : ℕ) → ℕ × State
  pub unmap : State → (addr length : ℕ) → State

-- A length in whole pages.
abbrev pub page_up : ℕ → ℕ
page_up n = (n + 4095) / 4096 * 4096

-- The address lies in the pages of a range.
abbrev pub in_pages : (addr length a : ℕ) → Bool
in_pages addr length a = leb addr a && ltb a (addr + page_up length)

-- What a mapping shows at an address.
abbrev pub shown : (addr flags fd offset a : ℕ) → Backing
shown addr flags fd offset a =
    if truthy (flags &&& map_anonymous) then anonymous else of_file fd (offset + (a - addr))

-- Free whole pages for a length.
pub record IsFree (S : AddressSpace) (s : S.State) (length at : ℕ) : Type 0 where
  pub nonempty : 0 < length
  pub aligned : at % 4096 ≡ 0
  pub within : at + page_up length ≤ 2 ^ 38
  pub free : (a : ℕ) → in_pages at length a ≡ true → S.backing s a ≡ none

-- The pages do not meet the guest's RAM.
abbrev pub IsApart : (at length : ℕ) → Type 0
IsApart at length = (at + page_up length ≤ ram_start) ⊎ (ram_start + ram_size ≤ at)

-- What the manual says.
pub record IsLawful (S : AddressSpace) : Type 0 where
  pub unmap_lem :
      (s : S.State) (addr length a : ℕ)
      → addr % 4096 ≡ 0
      → addr + length ≤ 2 ^ 38
      → S.backing (S.unmap s addr length) a
        ≡ (if in_pages addr length a then none else S.backing s a)
  -- With MAP_FIXED the pages of a mapping that is granted are put at the address, over what was there.
  pub map-fixed_lem :
      (s : S.State) (addr length flags fd offset a : ℕ)
      → truthy (flags &&& map_fixed) ≡ true
      → addr % 4096 ≡ 0
      → addr + length ≤ 2 ^ 38
      → S.grants s length flags fd offset ≡ true
      → ((S.map s addr length flags fd offset).0 ≡ addr)
        × (S.backing (S.map s addr length flags fd offset).1 a ≡ (
            if in_pages addr length a then some (shown addr flags fd offset a) else S.backing s a))
  -- Without it, and with no address asked for, they are put at whole pages that were free.
  pub map-free_lem :
      (s : S.State) (length flags fd offset hole : ℕ)
      → truthy (flags &&& map_fixed) ≡ false
      → IsFree S s length hole
      → S.grants s length flags fd offset ≡ true
      → IsFree S s length (S.map s 0 length flags fd offset).0
  pub backing-map_free :
      (s : S.State) (length flags fd offset hole a : ℕ)
      → truthy (flags &&& map_fixed) ≡ false
      → IsFree S s length hole
      → S.grants s length flags fd offset ≡ true
      → let at = (S.map s 0 length flags fd offset).0 in
        S.backing (S.map s 0 length flags fd offset).1 a
        ≡ (if in_pages at length a then some (shown at flags fd offset a) else S.backing s a)

-- Free whole pages for a length, outside the guest's RAM.
pub record IsHole (S : AddressSpace) (s : S.State) (length at : ℕ) : Type 0 where
  pub nonempty : 0 < length
  pub aligned : at % 4096 ≡ 0
  pub within : at + page_up length ≤ 2 ^ 38
  pub apart : IsApart at length
  pub free : (a : ℕ) → in_pages at length a ≡ true → S.backing s a ≡ none

-- What the manual does not promise, and the code takes for granted: the mappings of anonymous memory
-- and of the descriptors of `open_fds`, which are open when they are mapped, are granted, as there is
-- memory; and where no address is asked for, the pages are not put where the guest's RAM goes, if
-- there are others.
pub record IsHospitable (S : AddressSpace) (open_fds : ℕ → Bool) : Type 0 where
  pub granted :
      (s : S.State) (length flags fd offset : ℕ)
      → 0 < length
      → (truthy (flags &&& map_anonymous) || open_fds fd) ≡ true
      → S.grants s length flags fd offset ≡ true
  pub placed :
      (s : S.State) (length flags fd offset hole : ℕ)
      → truthy (flags &&& map_fixed) ≡ false
      → IsHole S s length hole
      → IsApart (S.map s 0 length flags fd offset).0 length

-- The descriptors that the loader hands on.
abbrev pub handed_on : ℕ → Bool
handed_on fd = fd == 64 || fd == 65 || fd == 66

module _ {S : AddressSpace} (L : IsLawful S) {open_fds : ℕ → Bool} (H : IsHospitable S open_fds)
    (s : S.State) (length flags fd offset hole : ℕ)
    (anywhere : truthy (flags &&& map_fixed) ≡ false)
    (opened : (truthy (flags &&& map_anonymous) || open_fds fd) ≡ true)
    (h : IsHole S s length hole) where
  IsHole-IsFree : IsFree S s length hole
  IsHole-IsFree = record {
    nonempty = h.nonempty;
    aligned = h.aligned;
    within = h.within;
    free = h.free;
  }

  pub map-IsHole : IsHole S s length (S.map s 0 length flags fd offset).0
  map-IsHole = record {
    nonempty = h.nonempty;
    aligned = at.aligned;
    within = at.within;
    apart = H.placed s length flags fd offset hole anywhere h;
    free = at.free;
  }
    where
      at : IsFree S s length (S.map s 0 length flags fd offset).0
      at =
          L.map-free_lem s length flags fd offset hole anywhere IsHole-IsFree
            (H.granted s length flags fd offset h.nonempty opened)

  pub backing-map :
      (a : ℕ)
      → let at = (S.map s 0 length flags fd offset).0 in
        S.backing (S.map s 0 length flags fd offset).1 a
        ≡ (if in_pages at length a then some (shown at flags fd offset a) else S.backing s a)
  backing-map a =
      L.backing-map_free s length flags fd offset hole a anywhere IsHole-IsFree
        (H.granted s length flags fd offset h.nonempty opened)
