-- ===== src/Bits/Laws.antt =====
-- What the bits of a word say of it: bounds, equality, complements and masks.
use urvirt.Common.{
  ℕ, zero, suc, ◌+◌, ◌-◌, ◌*◌, ◌/◌, ◌%◌, ◌^◌, ◌≤◌, ◌<◌, min, bit_and, bit_or, ◌≡◌, ap, ap₂, ◌∙◌,
  arith, not64,
}
use urvirt.Bits.Digits.{bit, bit_and_halves, bit_or_halves, zero-bit_and, bit_and-zero}
use native.Mathlib.Nat.{
  pow-suc, one-le-pow, mul-add-mod_self_right, mod-eq_of_lt, mod-lt, div-add-mod',
}

-- Complement below `2 ^ k`.
pub bit_complement : (k x i : ℕ) → x < 2 ^ k → i < k → bit (2 ^ k - 1 - x) i ≡ 1 - bit x i
unfolding bit
bit_complement zero x i h p = absurd (omega arith)
bit_complement (suc k) x zero h p = omega (arith, pow-suc 2 k, one-le-pow k 2)
bit_complement (suc k) x (suc i) h p =
    ap (λ t. bit t i) (omega (arith, pow-suc 2 k, one-le-pow k 2))
    ∙ bit_complement k (x / 2) i (omega (arith, pow-suc 2 k)) (omega arith)

pub bit-not64 : (x i : ℕ) → x < 2 ^ 64 → i < 64 → bit (not64 x) i ≡ 1 - bit x i
bit-not64 x i h p = ap (λ t. bit (2 ^ 64 - 1 - t) i) (omega arith) ∙ bit_complement 64 x i h p

-- A word below `2 ^ k` has no bit from `k` on.
pub bit_of_lt : (k x i : ℕ) → x < 2 ^ k → k ≤ i → bit x i ≡ 0
unfolding bit
bit_of_lt zero x zero h p = omega arith
bit_of_lt zero x (suc i) h p =
    ap (λ t. bit t i) (omega arith) ∙ bit_of_lt zero 0 i (omega arith) (omega arith)
bit_of_lt (suc k) x zero h p = absurd (omega arith)
bit_of_lt (suc k) x (suc i) h p = bit_of_lt k (x / 2) i (omega (arith, pow-suc 2 k)) (omega arith)

-- The lowest bit of a remainder by a power of two.
pub mod_pow_suc : (k x : ℕ) → x % 2 ^ suc k ≡ x / 2 % 2 ^ k * 2 + x % 2
mod_pow_suc k x =
    ap (λ t. t % 2 ^ suc k) split ∙ mul-add-mod_self_right q (2 ^ suc k) r ∙ mod-eq_of_lt low
  where
    q : ℕ
    q = x / 2 / 2 ^ k

    r : ℕ
    r = x / 2 % 2 ^ k * 2 + x % 2

    split : x ≡ q * 2 ^ suc k + r
    split = omega (arith, ap (λ (t : ℕ). q * t) (pow-suc 2 k), div-add-mod' (x / 2) (2 ^ k))

    low : r < 2 ^ suc k
    low = omega (arith, pow-suc 2 k, mod-lt (x / 2) (one-le-pow k 2 (omega arith)))

-- Two words of `k` bits with the same bits are equal.
pub bit_ext : (k a b : ℕ) → a < 2 ^ k → b < 2 ^ k → ((i : ℕ) → i < k → bit a i ≡ bit b i) → a ≡ b
unfolding bit
bit_ext zero a b ha hb h = omega arith
bit_ext (suc k) a b ha hb h = omega (
  arith,
  h 0 (omega arith),
  bit_ext k (a / 2) (b / 2) (omega (arith, pow-suc 2 k)) (omega (arith, pow-suc 2 k))
      (λ i p. h (suc i) (omega arith)),
)

-- The bounds of the results.
pub bit_or-lt : (k a b : ℕ) → a < 2 ^ k → b < 2 ^ k → bit_or a b < 2 ^ k
bit_or-lt zero a b ha hb =
    let a_zero : a ≡ 0 = omega arith in
    let b_zero : b ≡ 0 = omega arith in rw a_zero (rw b_zero (omega arith))
bit_or-lt (suc k) a b ha hb = omega (
  arith,
  pow-suc 2 k,
  bit_or_halves a b,
  bit_or-lt k (a / 2) (b / 2) (omega (arith, pow-suc 2 k)) (omega (arith, pow-suc 2 k)),
)

pub bit_and-lt : (k a b : ℕ) → b < 2 ^ k → bit_and a b < 2 ^ k
bit_and-lt zero a b hb =
    let b_zero : b ≡ 0 = omega arith in rw b_zero (rw bit_and-zero (omega arith))
bit_and-lt (suc k) a b hb = omega (
  arith,
  pow-suc 2 k,
  bit_and_halves a b,
  bit_and-lt k (a / 2) (b / 2) (omega (arith, pow-suc 2 k)),
)

pub bit_and-lt_left : (k a b : ℕ) → a < 2 ^ k → bit_and a b < 2 ^ k
bit_and-lt_left zero a b ha =
    let a_zero : a ≡ 0 = omega arith in rw a_zero (rw zero-bit_and (omega arith))
bit_and-lt_left (suc k) a b ha = omega (
  arith,
  pow-suc 2 k,
  bit_and_halves a b,
  bit_and-lt_left k (a / 2) (b / 2) (omega (arith, pow-suc 2 k)),
)

-- A mask of `k` low ones is the remainder by `2 ^ k`.
pub bit_and_mask : (k a : ℕ) → bit_and a (2 ^ k - 1) ≡ a % 2 ^ k
bit_and_mask zero a = bit_and-zero a ∙ omega arith
bit_and_mask (suc k) a =
    omega (arith, pow-suc 2 k, one-le-pow k 2, halves, bit_and_mask k (a / 2), mod_pow_suc k a)
  where
    halves : bit_and a (2 ^ suc k - 1) ≡ bit_and (a / 2) (2 ^ k - 1) * 2 + a % 2
    halves =
        bit_and_halves a (2 ^ suc k - 1)
        ∙ ap₂ (λ t u. bit_and (a / 2) t * 2 + min (a % 2) u) {y = 2 ^ k - 1} {v = 1}
            (omega (arith, pow-suc 2 k, one-le-pow k 2))
            (omega (arith, pow-suc 2 k, one-le-pow k 2))
        ∙ omega arith
