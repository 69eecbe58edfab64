-- ===== src/Bits/Shift.antt =====
-- The bits of a shifted or truncated word.
use urvirt.Common.{
  ℕ, zero, suc, ◌+◌, ◌-◌, ◌*◌, ◌/◌, ◌%◌, ◌^◌, ◌≡◌, sym, ap, ap₂, ◌∙◌, arith, ltb, if◌then◌else◌,
  min, bit_and, bit_or, not64, ◌<◌,
}
use urvirt.Bits.Digits.{bit, bit-zero, bit-suc, bit_and_halves, bit_or_halves, bit_or-zero}
use urvirt.Bits.Laws.{bit_and_mask, bit_of_lt, mod_pow_suc}
use native.Mathlib.Nat.{pow-suc, div-div-eq-div-mul, div-one}

pub bit_mod : (k x i : ℕ) → bit (x % 2 ^ k) i ≡ (if ltb i k then bit x i else 0)
bit_mod zero x i = ground (arith, bit_of_lt 0 (x % 2 ^ 0) i)
bit_mod (suc k) x zero = ground (arith, bit-zero (x % 2 ^ suc k), bit-zero x, mod_pow_suc k x)
bit_mod (suc k) x (suc i) =
    bit-suc (x % 2 ^ suc k) i
    ∙ ap (λ t. bit t i) {y = x / 2 % 2 ^ k} (omega (arith, mod_pow_suc k x))
    ∙ ground (arith, bit_mod k (x / 2) i, bit-suc x i)

double : (s x : ℕ) → x * 2 ^ suc s ≡ x * 2 ^ s * 2
double s x = omega (arith, ap (λ (t : ℕ). x * t) (pow-suc 2 s))

pub bit_shl : (s x i : ℕ) → bit (x * 2 ^ s) i ≡ (if ltb i s then 0 else bit x (i - s))
bit_shl zero x i = ap₂ bit {y = x} {v = i - 0} (omega arith) (omega arith) ∙ ground arith
bit_shl (suc s) x zero = ground (arith, bit-zero (x * 2 ^ suc s), double s x)
bit_shl (suc s) x (suc i) =
    bit-suc (x * 2 ^ suc s) i
    ∙ ap (λ t. bit t i) {y = x * 2 ^ s} (omega (arith, double s x))
    ∙ ground (arith, bit_shl s x i)

div-pow-suc : (s x : ℕ) → x / 2 ^ suc s ≡ x / 2 / 2 ^ s
div-pow-suc s x =
    ap (λ t. x / t) (pow-suc 2 s)
    ∙ ap (λ t. x / t) (omega arith)
    ∙ sym (div-div-eq-div-mul x 2 (2 ^ s))

pub bit_shr : (s x i : ℕ) → bit (x / 2 ^ s) i ≡ bit x (i + s)
bit_shr zero x i = ap₂ bit {y = x} {v = i + 0} (omega arith) (omega arith)
bit_shr (suc s) x i =
    ap (λ t. bit t i) (div-pow-suc s x)
    ∙ bit_shr s (x / 2) i
    ∙ sym (bit-suc x (i + s))
    ∙ ap (bit x) (omega arith)

-- `&` with the complement of a low mask clears the low bits.
pub bit_and-high : (k m x : ℕ) → bit_and x ((2 ^ m - 1) * 2 ^ k) ≡ x / 2 ^ k % 2 ^ m * 2 ^ k
bit_and-high zero m x =
    ap (bit_and x) {y = 2 ^ m - 1} (omega arith)
    ∙ bit_and_mask m x
    ∙ omega (arith, ap (λ t. t % 2 ^ m) (div-one x))
bit_and-high (suc k) m x =
    bit_and_halves x ((2 ^ m - 1) * 2 ^ suc k)
    ∙ ap₂ (λ t u. bit_and (x / 2) t * 2 + min (x % 2) u) {y = (2 ^ m - 1) * 2 ^ k} {v = 0}
        (omega (arith, double k (2 ^ m - 1))) (omega (arith, double k (2 ^ m - 1)))
    ∙ ap (λ t. t * 2 + min (x % 2) 0) (bit_and-high k m (x / 2))
    ∙ omega
        (arith, double k (x / 2 / 2 ^ k % 2 ^ m), ap (λ t. t % 2 ^ m * 2 ^ suc k) (div-pow-suc k x))

pub clear_low2 : (x : ℕ) → x < 2 ^ 64 → bit_and x (not64 3) ≡ x / 4 * 4
clear_low2 x h = bit_and-high 2 62 x ∙ omega arith

pub clear_low12 : (x : ℕ) → x < 2 ^ 64 → bit_and x (not64 4095) ≡ x / 4096 * 4096
clear_low12 x h = bit_and-high 12 52 x ∙ omega arith

-- A bit as a quotient's remainder.
pub bit_eq_div : (x k : ℕ) → bit x k ≡ x / 2 ^ k % 2
bit_eq_div x k = ap (bit x) {y = 0 + k} (omega arith) ∙ sym (bit_shr k x 0) ∙ bit-zero (x / 2 ^ k)

-- `(q << k) | r` is a sum when `r` fits `k` bits.
pub bit_or_fields : (k q r : ℕ) → r < 2 ^ k → bit_or (q * 2 ^ k) r ≡ q * 2 ^ k + r
bit_or_fields zero q r h =
    let r_zero : r ≡ 0 = omega arith in rw r_zero (rw bit_or-zero (omega arith))
bit_or_fields (suc k) q r h = omega (
  arith,
  bit_or_halves (q * 2 ^ suc k) r,
  ap (λ t. bit_or t (r / 2)) {x = q * 2 ^ suc k / 2} {y = q * 2 ^ k} (omega (arith, double k q)),
  double k q,
  bit_or_fields k q (r / 2) (omega (arith, pow-suc 2 k)),
)
