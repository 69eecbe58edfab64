-- ===== src/PageTable/Laws.antt =====
-- The pieces of the walk as arithmetic: the sign check, the flags, the indices and the addresses.
use urvirt.Common.{
  ℕ, ◌+◌, ◌-◌, ◌*◌, ◌^◌, ◌≤◌, ◌<◌, ◌≡◌, ◌↔◌, ◌⊎◌, ap, sym, ◌∙◌, true, ◌==◌, ltb, if◌then◌else◌,
  arith, bit_and,
}
use urvirt.Bits.{bit, bit-lt, bit_eq_div, bit_and-high}
use urvirt.RiscvBits.{get_field, bit-get_field}
use urvirt.PageTable.{is_sign_extended, flag}

-- The check keeps 40 bits: the 64-bit addresses that pass are those below 2 ^ 39 and the topmost
-- 2 ^ 39.
pub is_sign_extended_iff :
    (va : ℕ) → va < 2 ^ 64 → (is_sign_extended va ≡ true) ↔ ((va < 2 ^ 39) ⊎ (2 ^ 64 - 2 ^ 39 ≤ va))
unfolding is_sign_extended
is_sign_extended_iff va h = ground arith

-- Each flag that the walk tests is a bit of the entry.
flag-bit : (k e : ℕ) → k < 8 → bit_and (get_field 0 8 e) (2 ^ k) ≡ bit e k * 2 ^ k
flag-bit k e h =
    ap (bit_and (get_field 0 8 e)) {y = (2 ^ 1 - 1) * 2 ^ k} (omega arith)
    ∙ bit_and-high k 1 (get_field 0 8 e)
    ∙ ap (λ t. t * 2 ^ k)
        (sym (bit_eq_div (get_field 0 8 e) k) ∙ bit-get_field 0 8 e k (omega arith) ∙ in_range)
  where
    in_range : (if ltb k 8 then bit e (k + 0) else 0) ≡ bit e k
    in_range = ground (arith, ap (bit e) {x = k + 0} {y = k} (omega arith))

pub flag_v : (e : ℕ) → flag e 1 ≡ (bit e 0 == 1)
unfolding flag
flag_v e = ground (arith, flag-bit 0 e, bit-lt e 0)

pub flag_r : (e : ℕ) → flag e 2 ≡ (bit e 1 == 1)
unfolding flag
flag_r e = ground (arith, flag-bit 1 e, bit-lt e 1)

pub flag_w : (e : ℕ) → flag e 4 ≡ (bit e 2 == 1)
unfolding flag
flag_w e = ground (arith, flag-bit 2 e, bit-lt e 2)

pub flag_x : (e : ℕ) → flag e 8 ≡ (bit e 3 == 1)
unfolding flag
flag_x e = ground (arith, flag-bit 3 e, bit-lt e 3)
