-- ===== src/Bits/Digits.antt =====
-- One bit of a word, and what `&` and `|` do to it. The native operations stand for a recursion on
-- binary digits with fuel, `digits`, so their meaning is found bit by bit at any fuel that suffices.
use Prim.Native.Nat.{digits, bit_and-bitwise, bit_or-bitwise}
use urvirt.Common.{
  ℕ, zero, suc, ◌+◌, ◌*◌, ◌/◌, ◌%◌, ◌≤◌, ◌<◌, min, max, bit_and, bit_or, ◌≡◌, refl, ap, ◌∙◌, arith,
}

-- Bit `i` of `x`, from the lowest.
unfoldable pub bit : ℕ → ℕ → ℕ
bit x zero = x % 2
bit x (suc i) = bit (x / 2) i

pub bit-zero : (x : ℕ) → bit x 0 ≡ x % 2
unfolding bit
bit-zero x = refl

pub bit-suc : (x i : ℕ) → bit x (suc i) ≡ bit (x / 2) i
unfolding bit
bit-suc x i = refl

pub bit-lt : (x i : ℕ) → bit x i < 2
unfolding bit
bit-lt x zero = omega arith
bit-lt x (suc i) = bit-lt (x / 2) i

pub zero-bit : (i : ℕ) → bit 0 i ≡ 0
unfolding bit
zero-bit zero = refl
zero-bit (suc i) = zero-bit i

-- Numbers with the same bits are equal; `k` bounds both.
pub bit_eq : (k a b : ℕ) → a ≤ k → b ≤ k → ((i : ℕ) → bit a i ≡ bit b i) → a ≡ b
unfolding bit
bit_eq zero a b p q same = omega arith
bit_eq (suc k) a b p q same =
    omega (arith, same 0, bit_eq k (a / 2) (b / 2) (omega arith) (omega arith) (λ i. same (suc i)))

-- Digit by digit, `f` is applied; `z` gives the digits of the second number where the first has none.
module _ (z : ℕ → ℕ) (f : ℕ → ℕ → ℕ) (tail : (b i : ℕ) → bit (z b) i ≡ f 0 (bit b i))
    (small : (x y : ℕ) → x < 2 → y < 2 → f x y < 2) where
  bit-tail : (b i : ℕ) → bit (z b) i ≡ f (bit 0 i) (bit b i)
  bit-tail b i = rw (zero-bit i) (tail b i)

  pub bit-digits : (fuel a b i : ℕ) → a ≤ fuel → bit (digits z f fuel a b) i ≡ f (bit a i) (bit b i)
  unfolding bit
  bit-digits zero zero b i enough = bit-tail b i
  bit-digits zero (suc a) b i enough = absurd (omega arith)
  bit-digits (suc fuel) zero b i enough = bit-tail b i
  bit-digits (suc fuel) (suc a) b zero enough =
      omega (arith, small (suc a % 2) (b % 2) (omega arith) (omega arith))
  bit-digits (suc fuel) (suc a) b (suc i) enough =
      ap (λ t. bit t i) {y = digits z f fuel (suc a / 2) (b / 2)}
        (omega (arith, small (suc a % 2) (b % 2) (omega arith) (omega arith)))
      ∙ bit-digits fuel (suc a / 2) (b / 2) i (omega arith)

pub bit-bit_and : (a b i : ℕ) → bit (bit_and a b) i ≡ min (bit a i) (bit b i)
bit-bit_and a b i =
    ap (λ t. bit t i) (bit_and-bitwise a b)
    ∙ bit-digits (λ y. 0) min (λ c j. omega (arith, zero-bit j)) (λ x y p q. omega arith) a a b i
        (omega arith)

pub bit-bit_or : (a b i : ℕ) → bit (bit_or a b) i ≡ max (bit a i) (bit b i)
bit-bit_or a b i =
    ap (λ t. bit t i) (bit_or-bitwise a b)
    ∙ bit-digits (λ y. y) max (λ c j. omega arith) (λ x y p q. omega arith) a a b i (omega arith)

-- A number from the digits above the lowest, and the lowest.
bit-join : (q r i : ℕ) → r < 2 → bit (q * 2 + r) (suc i) ≡ bit q i
unfolding bit
bit-join q r i p = ap (λ t. bit t i) (omega arith)

pub bit_and_halves : (a b : ℕ) → bit_and a b ≡ bit_and (a / 2) (b / 2) * 2 + min (a % 2) (b % 2)
unfolding bit
bit_and_halves a b =
    bit_eq (bit_and a b + joined) (bit_and a b) joined (omega arith) (omega arith) same
  where
    joined : ℕ
    joined = bit_and (a / 2) (b / 2) * 2 + min (a % 2) (b % 2)

    same : (i : ℕ) → bit (bit_and a b) i ≡ bit joined i
    same zero = bit-bit_and a b 0 ∙ omega arith
    same (suc i) = omega (
      arith,
      bit-bit_and a b (suc i),
      bit-bit_and (a / 2) (b / 2) i,
      bit-join (bit_and (a / 2) (b / 2)) (min (a % 2) (b % 2)) i (omega arith),
    )

pub bit_or_halves : (a b : ℕ) → bit_or a b ≡ bit_or (a / 2) (b / 2) * 2 + max (a % 2) (b % 2)
unfolding bit
bit_or_halves a b =
    bit_eq (bit_or a b + joined) (bit_or a b) joined (omega arith) (omega arith) same
  where
    joined : ℕ
    joined = bit_or (a / 2) (b / 2) * 2 + max (a % 2) (b % 2)

    same : (i : ℕ) → bit (bit_or a b) i ≡ bit joined i
    same zero = bit-bit_or a b 0 ∙ omega arith
    same (suc i) = omega (
      arith,
      bit-bit_or a b (suc i),
      bit-bit_or (a / 2) (b / 2) i,
      bit-join (bit_or (a / 2) (b / 2)) (max (a % 2) (b % 2)) i (omega arith),
    )

pub zero-bit_and : (b : ℕ) → bit_and 0 b ≡ 0
zero-bit_and b = bit_and-bitwise 0 b

pub bit_and-zero : (a : ℕ) → bit_and a 0 ≡ 0
bit_and-zero a =
    bit_eq (bit_and a 0) (bit_and a 0) 0 (omega arith) (omega arith)
      (λ i. omega (arith, bit-bit_and a 0 i, zero-bit i))

pub bit_or-zero : (a : ℕ) → bit_or a 0 ≡ a
bit_or-zero a =
    bit_eq (bit_or a 0 + a) (bit_or a 0) a (omega arith) (omega arith)
      (λ i. omega (arith, bit-bit_or a 0 i, zero-bit i))
