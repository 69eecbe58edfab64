-- ===== src/RiscvBits/Layouts.antt =====
-- src/common/riscv-bits.h: the uses of the macro `bitfield`, register by register, and that the fields
-- of one register do not interfere.
use urvirt.Common.{
  ℕ, zero, suc, ◌+◌, ◌^◌, ◌≤◌, ◌<◌, ◌≡◌, ◌⊎◌, refl, Bool, true, false, ◌&&◌, ◌||◌, leb, ltb, ◌==◌,
  if◌then◌else◌, arith, List, [], ◌∷◌, some, ap, ◌∙◌, sym, ==→eq, Bool-cases, inl, inr,
}
use mathlib.Core.Path.{subst}
use mathlib.Core.Option.{some-injective, none-ne-some}
use urvirt.Common.Lists.{get_elem?}
use urvirt.RiscvBits.Bitfields.{get_field, set_field}
use urvirt.RiscvBits.Fields.{get_field-set_field_self, get_field-set_field_ne}

-- `bitfield(name, start, width)`.
pub record Bitfield : Type 0 where
  pub start : ℕ
  pub width : ℕ

abbrev field : ℕ → ℕ → Bitfield
field s w = record { start = s; width = w }

pub data Register : Type 0 where
  sstatus six satp pte va : Register

-- sd, uxl, mxr, sum, xs, fs, spp, spie, upie, sie and uie.
abbrev pub sstatus_fields : List Bitfield
sstatus_fields =
    field 63 1
    ∷ field 32 1
    ∷ field 19 1
    ∷ field 18 1
    ∷ field 15 2
    ∷ field 13 2
    ∷ field 8 1
    ∷ field 5 1
    ∷ field 4 1
    ∷ field 1 1
    ∷ field 0 1
    ∷ []

-- sti.
abbrev pub six_fields : List Bitfield
six_fields = field 5 1 ∷ []

-- ppn, asid and mode.
abbrev pub satp_fields : List Bitfield
satp_fields = field 0 44 ∷ field 44 16 ∷ field 60 4 ∷ []

-- flags, rsw and ppn.
abbrev pub pte_fields : List Bitfield
pte_fields = field 0 8 ∷ field 8 2 ∷ field 10 44 ∷ []

-- ppn0, ppn1, ppn2 and off.
abbrev pub va_fields : List Bitfield
va_fields = field 30 9 ∷ field 21 9 ∷ field 12 9 ∷ field 0 12 ∷ []

abbrev pub fields : Register → List Bitfield
fields sstatus = sstatus_fields
fields six = six_fields
fields satp = satp_fields
fields pte = pte_fields
fields va = va_fields

abbrev pub get_bitfield : Bitfield → ℕ → ℕ
get_bitfield f d = get_field f.start f.width d

abbrev pub set_bitfield : Bitfield → ℕ → ℕ → ℕ
set_bitfield f d v = set_field f.start f.width d v

-- One of the two ends before the other starts, as a test.
abbrev apart : Bitfield → Bitfield → Bool
apart f g = leb (f.start + f.width) g.start || leb (g.start + g.width) f.start

abbrev apart_from : Bitfield → List Bitfield → Bool
apart_from f [] = true
apart_from f (g ∷ gs) = apart f g && apart_from f gs

-- Every field lies in a word, is narrower than it, and is apart from all that follow.
abbrev separate : List Bitfield → Bool
separate [] = true
separate (f ∷ fs) = leb (f.start + f.width) 64 && ltb f.width 64 && apart_from f fs && separate fs

separate_all : (r : Register) → separate (fields r) ≡ true
separate_all sstatus = refl
separate_all six = refl
separate_all satp = refl
separate_all pte = refl
separate_all va = refl

abbrev Within : Bitfield → Type 0
Within f = (f.start + f.width ≤ 64) × (f.width < 64)

within :
    (fs : List Bitfield) (i : ℕ) {f : Bitfield}
    → separate fs ≡ true
    → get_elem? fs i ≡ some f
    → Within f
within [] i s e = absurd (none-ne-some _ e)
within (g ∷ gs) zero s e =
    subst Within (some-injective _ _ e) (ground (arith, s), ground (arith, s))
within (g ∷ gs) (suc i) s e = within gs i (ground (arith, s)) e

apart_from_lem :
    (f : Bitfield) (gs : List Bitfield) (j : ℕ) {g : Bitfield}
    → apart_from f gs ≡ true
    → get_elem? gs j ≡ some g
    → apart f g ≡ true
apart_from_lem f [] j s e = absurd (none-ne-some _ e)
apart_from_lem f (g ∷ gs) zero s e =
    subst (λ h. apart f h ≡ true) (some-injective _ _ e) (ground (arith, s))
apart_from_lem f (g ∷ gs) (suc j) s e = apart_from_lem f gs j (ground (arith, s)) e

-- Two different positions of a separate list hold fields that are apart.
separate-apart :
    (fs : List Bitfield) (i j : ℕ) {f g : Bitfield}
    → separate fs ≡ true
    → get_elem? fs i ≡ some f
    → get_elem? fs j ≡ some g
    → (i == j) ≡ false
    → (f.start + f.width ≤ g.start) ⊎ (g.start + g.width ≤ f.start)
separate-apart [] i j s at_i at_j other = absurd (none-ne-some _ at_i)
separate-apart (h ∷ hs) zero zero s at_i at_j other = absurd (ground (arith, other))
separate-apart (h ∷ hs) zero (suc j) {f} {g} s at_i at_j other =
    subst (λ h. (h.start + h.width ≤ g.start) ⊎ (g.start + g.width ≤ h.start))
      (some-injective _ _ at_i)
      (ground (arith, apart_from_lem h hs j {g = g} (ground (arith, s)) at_j))
separate-apart (h ∷ hs) (suc i) zero {f} {g} s at_i at_j other =
    subst (λ h. (f.start + f.width ≤ h.start) ⊎ (h.start + h.width ≤ f.start))
      (some-injective _ _ at_j)
      (ground (arith, apart_from_lem h hs i {g = f} (ground (arith, s)) at_i))
separate-apart (h ∷ hs) (suc i) (suc j) s at_i at_j other =
    separate-apart hs i j (ground (arith, s)) at_i at_j (ground (arith, other))

-- Of the fields of one register each is its own: what is read of any of them, after one is set to a
-- value that fits, is the value if it is the same field, and else what was read before.
pub get_bitfield-set_bitfield :
    (r : Register) (i j : ℕ) {f g : Bitfield} (d v : ℕ)
    → get_elem? (fields r) i ≡ some f
    → get_elem? (fields r) j ≡ some g
    → v < 2 ^ f.width
    → get_bitfield g (set_bitfield f d v) ≡ (if i == j then v else get_bitfield g d)
get_bitfield-set_bitfield r i j {f} {g} d v at_i at_j fits = elim (Bool-cases (i == j)) [
  | inl same ↦ rw same (
      subst (λ h. get_bitfield h (set_bitfield f d v) ≡ v) (same_field same)
        (get_field-set_field_self f.start f.width d v inside.0 inside.1 fits))
  | inr other ↦ rw other (
      get_field-set_field_ne f.start f.width g.start g.width d v inside'.0 inside.1 inside'.1 fits
        (separate-apart (fields r) i j (separate_all r) at_i at_j other))
]
  where
    inside : Within f
    inside = within (fields r) i (separate_all r) at_i

    inside' : Within g
    inside' = within (fields r) j (separate_all r) at_j

    same_field : (i == j) ≡ true → f ≡ g
    same_field same =
        some-injective _ _ (sym at_i ∙ ap (get_elem? (fields r)) (==→eq i j same) ∙ at_j)
