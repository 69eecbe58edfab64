-- ===== src/RiscvBits/Fields.antt =====
-- What `get_` and `set_` of a field of `w` bits from bit `s` on do to a word.
use urvirt.Common.{
  ◌⊎◌, ℕ, ◌+◌, ◌-◌, ◌*◌, ◌/◌, ◌%◌, ◌^◌, ◌≤◌, ◌<◌, bit_and, ◌≡◌, sym, ap, ◌∙◌, arith, ltb, leb, ◌&&◌,
  if◌then◌else◌, u64, not64,
}
use urvirt.Bits.{
  bit, bit-zero, bit-lt, bit-bit_and, bit-bit_or, bit-not64, bit_complement, bit_of_lt, bit_or-lt,
  bit_and-lt_left, bit_and_mask, bit_mod, bit_shl, bit_shr, bit_ext,
}
use urvirt.RiscvBits.Bitfields.{mask_field, get_field, set_field, ins_field}
use native.Mathlib.Decide.{dec_lt}
use native.Mathlib.Nat.{pow-le-pow_right, mod-lt, one-le-pow}

one_shl : (w : ℕ) → w < 64 → u64 (1 * 2 ^ w) ≡ 2 ^ w
one_shl w h =
    let below : 2 ^ w ≤ 2 ^ 63 = pow-le-pow_right (omega arith) {j = 63} (omega arith) in
    omega arith

pub get_field_lem : (s w d : ℕ) → w < 64 → get_field s w d ≡ d / 2 ^ s % 2 ^ w
unfolding get_field
get_field_lem s w d h =
    ap (λ t. bit_and (d / 2 ^ s) (t - 1)) (one_shl w h) ∙ bit_and_mask w (d / 2 ^ s)

pub ins_field_lem : (s w d : ℕ) → w < 64 → ins_field s w d ≡ d / 2 ^ s % 2 ^ w
unfolding ins_field
ins_field_lem s w d h =
    ap (λ t. bit_and (d / 2 ^ s) (t - 1)) (one_shl w h) ∙ bit_and_mask w (d / 2 ^ s)

pub get_field-lt : (s w d : ℕ) → w < 64 → get_field s w d < 2 ^ w
get_field-lt s w d h =
    omega (arith, get_field_lem s w d h, mod-lt (d / 2 ^ s) (one-le-pow w 2 (omega arith)))

-- A field of one bit is that bit.
pub get_field_one : (s d : ℕ) → get_field s 1 d ≡ bit d s
get_field_one s d =
    get_field_lem s 1 d (omega arith)
    ∙ sym (bit-zero (d / 2 ^ s))
    ∙ bit_shr s d 0
    ∙ ap (bit d) (omega arith)

pub bit-get_field :
    (s w d i : ℕ) → w < 64 → bit (get_field s w d) i ≡ (if ltb i w then bit d (i + s) else 0)
bit-get_field s w d i h = rw (get_field_lem s w d h, bit_mod w (d / 2 ^ s) i, bit_shr s d i)

bit_ones : (w i : ℕ) → bit (2 ^ w - 1) i ≡ (if ltb i w then 1 else 0)
bit_ones w i = elim (dec_lt i w) [
  | yes h ↦
      ap (λ t. bit t i) {y = 2 ^ w - 1 - 0} (omega arith)
      ∙ bit_complement w 0 i (one-le-pow w 2 (omega arith)) h
      ∙ ground (arith, bit_of_lt 0 0 i (omega arith) (omega arith))
  | no h ↦ bit_of_lt w (2 ^ w - 1) i (omega (arith, one-le-pow w 2)) (omega arith) ∙ ground arith
]

pub bit-mask_field :
    (s w i : ℕ)
    → w < 64
    → i < 64
    → bit (mask_field s w) i ≡ (if leb s i && ltb i (s + w) then 1 else 0)
unfolding mask_field
bit-mask_field s w i h p =
    bit_mod 64 ((u64 (1 * 2 ^ w) - 1) * 2 ^ s) i
    ∙ ap (λ t. if ltb i 64 then bit ((t - 1) * 2 ^ s) i else 0) (one_shl w h)
    ∙ ground (arith, bit_shl s (2 ^ w - 1) i, bit_ones w (i - s))

pub mask_field-lt : (s w : ℕ) → mask_field s w < 2 ^ 64
unfolding mask_field
mask_field-lt s w = omega arith

-- Setting a field, narrower than a word, to a value that fits changes the field's bits to the
-- value's, and no other of the 64.
pub bit-set_field :
    (s w d v i : ℕ)
    → w < 64
    → v < 2 ^ w
    → i < 64
    → bit (set_field s w d v) i ≡ (if leb s i && ltb i (s + w) then bit v (i - s) else bit d i)
unfolding set_field
bit-set_field s w d v i h fits p = ground (
  arith,
  bit-bit_or (bit_and d (not64 (mask_field s w))) (u64 (v * 2 ^ s)) i,
  bit-bit_and d (not64 (mask_field s w)) i,
  bit-not64 (mask_field s w) i (mask_field-lt s w) p,
  bit-mask_field s w i h p,
  bit_mod 64 (v * 2 ^ s) i,
  bit_shl s v i,
  bit_of_lt w v (i - s) fits,
  bit-lt d i,
  bit-lt v (i - s),
)

pub set_field-lt : (s w d v : ℕ) → d < 2 ^ 64 → set_field s w d v < 2 ^ 64
unfolding set_field
set_field-lt s w d v h =
    bit_or-lt 64 (bit_and d (not64 (mask_field s w))) (u64 (v * 2 ^ s))
      (bit_and-lt_left 64 d (not64 (mask_field s w)) h) (omega arith)

-- Reading back the field that was set.
pub get_field-set_field_self :
    (s w d v : ℕ) → s + w ≤ 64 → w < 64 → v < 2 ^ w → get_field s w (set_field s w d v) ≡ v
get_field-set_field_self s w d v room h fits =
    bit_ext w (get_field s w (set_field s w d v)) v (get_field-lt s w _ h) fits λ i p. ground (
      arith,
      bit-get_field s w (set_field s w d v) i h,
      bit-set_field s w d v (i + s) h fits (omega arith),
      ap (bit v) {x = i + s - s} {y = i} (omega arith),
    )

-- Setting a field, narrower than a word, to a value that fits leaves every other field that does not
-- overlap it, and lies within the word, as it is.
pub get_field-set_field_ne :
    (s w s' w' d v : ℕ)
    → s' + w' ≤ 64
    → w < 64
    → w' < 64
    → v < 2 ^ w
    → (s + w ≤ s') ⊎ (s' + w' ≤ s)
    → get_field s' w' (set_field s w d v) ≡ get_field s' w' d
get_field-set_field_ne s w s' w' d v room h h' fits apart =
    bit_ext w' (get_field s' w' (set_field s w d v)) (get_field s' w' d) (get_field-lt s' w' _ h')
      (get_field-lt s' w' _ h')
      λ i p. ground (
        arith,
        bit-get_field s' w' (set_field s w d v) i h',
        bit-get_field s' w' d i h',
        bit-set_field s w d v (i + s') h fits (omega arith),
      )
