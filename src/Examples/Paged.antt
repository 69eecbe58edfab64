-- ===== src/Examples/Paged.antt =====
-- An address space that does what the manual says, and is hospitable.
use urvirt.Common.{
  ℕ, ◌+◌, ◌-◌, ◌*◌, ◌/◌, ◌^◌, ◌≤◌, ◌<◌, ◌≡◌, refl, ap, ◌∙◌, Bool, true, false, ◌&&◌, ◌||◌, leb, ltb,
  if◌then◌else◌, arith, Bool-cases, inl, inr, Option, none, some, ◌&&&◌, truthy, all_below,
  all_below_lem,
}
use urvirt.Memory.{ram_start, ram_size}
use urvirt.AddressSpace.{
  AddressSpace, Backing, IsLawful, IsFree, IsHospitable, IsHole, IsApart, page_up, in_pages, shown,
  map_fixed,
}
use urvirt.Examples.Search.{first_below, first_below_lem, first_below_le, all_below-of_all}

abbrev is_none : Option Backing → Bool
is_none none = true
is_none (some b) = false

is_none-none : (o : Option Backing) → is_none o ≡ true → o ≡ none
is_none-none none e = refl
is_none-none (some b) e = cc

abbrev is_free : (ℕ → Option Backing) → (length page : ℕ) → Bool
is_free view length page =
    all_below (page_up length) (λ j. is_none (view (page * 4096 + j)))
    && leb (page * 4096 + page_up length) (2 ^ 38)

abbrev is_hole : (ℕ → Option Backing) → (length page : ℕ) → Bool
is_hole view length page =
    is_free view length page
    && (leb (page * 4096 + page_up length) ram_start || leb (ram_start + ram_size) (page * 4096))

abbrev first_hole : (ℕ → Option Backing) → ℕ → ℕ
first_hole view length = first_below (2 ^ 26) (is_hole view length)

-- Free pages that do not meet the guest's RAM, or else any.
pub placed : (ℕ → Option Backing) → ℕ → ℕ
placed view length =
    if is_hole view length (first_hole view length)
    then first_hole view length * 4096
    else first_below (2 ^ 26) (is_free view length) * 4096

abbrev overlay : (ℕ → Option Backing) → (addr length flags fd offset : ℕ) → ℕ → Option Backing
overlay view addr length flags fd offset a =
    if in_pages addr length a then some (shown addr flags fd offset a) else view a

abbrev pub paged : AddressSpace
paged = record {
  State = ℕ → Option Backing;
  backing = λ view. view;
  grants = λ view length flags fd offset. ltb 0 length;
  map = λ view addr length flags fd offset.
      let at = if truthy (flags &&& map_fixed) then addr else placed view length in
      (at, overlay view at length flags fd offset);
  unmap = λ view addr length a. if in_pages addr length a then none else view a;
}

free-is_free :
    (view : ℕ → Option Backing) (length at : ℕ)
    → IsFree paged view length at
    → is_free view length (at / 4096) ≡ true
free-is_free view length at h = rw free (ground (arith, h.aligned, h.within))
  where
    free : all_below (page_up length) (λ j. is_none (view (at / 4096 * 4096 + j))) ≡ true
    free =
        all_below-of_all (page_up length) (λ j. is_none (view (at / 4096 * 4096 + j)))
          (λ j below. ap is_none (h.free (at / 4096 * 4096 + j) (ground (arith, h.aligned))))

is_free-IsFree :
    (view : ℕ → Option Backing) (length page : ℕ)
    → 0 < length
    → is_free view length page ≡ true
    → IsFree paged view length (page * 4096)
is_free-IsFree view length page positive e = record {
  nonempty = positive;
  aligned = omega arith;
  within = ground (arith, e);
  free = λ a inside. is_none-none (view a) (
      ap (λ t. is_none (view t)) {y = page * 4096 + (a - page * 4096)} (ground arith)
      ∙ all_below_lem (page_up length) (λ j. is_none (view (page * 4096 + j))) (a - page * 4096)
          all_free (ground arith));
}
  where
    all_free : all_below (page_up length) (λ j. is_none (view (page * 4096 + j))) ≡ true
    all_free = ground (arith, e)

module _ (view : ℕ → Option Backing) (length at : ℕ) (h : IsHole paged view length at) where
  hole-is_hole : is_hole view length (at / 4096) ≡ true
  hole-is_hole = rw free (ground (arith, h.aligned, h.apart))
    where
      free : is_free view length (at / 4096) ≡ true
      free =
          free-is_free view length at (record {
            nonempty = h.nonempty;
            aligned = h.aligned;
            within = h.within;
            free = h.free;
          })

  found : is_hole view length (first_hole view length) ≡ true
  found =
      first_below_lem (2 ^ 26) (is_hole view length) (at / 4096)
        (omega (arith, h.within, h.nonempty)) hole-is_hole

  placed-first : placed view length ≡ first_hole view length * 4096
  unfolding placed
  placed-first = rw found refl

  placed-apart : IsApart (placed view length) length
  placed-apart = ground (arith, placed-first, found)

  pub placed-le : placed view length ≤ at
  placed-le = omega (
    arith,
    placed-first,
    first_below_le (2 ^ 26) (is_hole view length) (at / 4096) (omega (arith, h.within, h.nonempty))
        hole-is_hole,
  )

placed-IsFree :
    (view : ℕ → Option Backing) (length at : ℕ)
    → IsFree paged view length at
    → IsFree paged view length (placed view length)
unfolding placed
placed-IsFree view length at h = elim (Bool-cases (is_hole view length (first_hole view length))) [
  | inl e ↦ rw e (is_free-IsFree view length _ h.nonempty (ground (arith, e)))
  | inr e ↦ rw e (
      is_free-IsFree view length _ h.nonempty (
        first_below_lem (2 ^ 26) (is_free view length) (at / 4096)
          (omega (arith, h.within, h.nonempty)) (free-is_free view length at h)))
]

pub paged-IsLawful : IsLawful paged
paged-IsLawful = record {
  unmap_lem = λ view addr length a aligned below. refl;
  map-fixed_lem =
      λ view addr length flags fd offset a fixed aligned below granted. rw fixed (refl, refl);
  map-free_lem =
      λ view length flags fd offset hole free h granted. rw free (placed-IsFree view length hole h);
  backing-map_free = λ view length flags fd offset hole a free h granted. rw free refl;
}

pub paged-IsHospitable : (open_fds : ℕ → Bool) → IsHospitable paged open_fds
paged-IsHospitable open_fds = record {
  granted = λ view length flags fd offset positive opened. ground arith;
  placed = λ view length flags fd offset hole free h. rw free (placed-apart view length hole h);
}
