-- ===== src/Common/Word.antt =====
-- C's unsigned machine words as native numbers: casts, shifts, `&`, `|` and `~` at 64 bits.
use Prim.Native.Nat.{ℕ, ◌+◌, ◌-◌, ◌*◌, ◌/◌, ◌%◌, ◌^◌, bit_and, bit_or}
use mathlib.Core.Bool.{Bool, not}
use urvirt.Common.Tests.{◌==◌}

-- The casts to `uint16_t`, `uint32_t` and `uintptr_t`.
abbrev pub u16 : ℕ → ℕ
u16 n = n % 2 ^ 16

abbrev pub u32 : ℕ → ℕ
u32 n = n % 2 ^ 32

abbrev pub u64 : ℕ → ℕ
u64 n = n % 2 ^ 64

infixl 75 ◌>>>◌ ◌<<<◌
infixl 60 ◌&&&◌
infixl 55 ◌|||◌
abbrev pub ◌>>>◌ : ℕ → ℕ → ℕ
x >>> k = x / 2 ^ k

-- A left shift of a `uintptr_t` drops what leaves the word.
abbrev pub ◌<<<◌ : ℕ → ℕ → ℕ
x <<< k = u64 (x * 2 ^ k)

abbrev pub ◌&&&◌ : ℕ → ℕ → ℕ
a &&& b = bit_and a b

abbrev pub ◌|||◌ : ℕ → ℕ → ℕ
a ||| b = bit_or a b

-- `~ x` on a `uintptr_t`.
abbrev pub not64 : ℕ → ℕ
not64 x = 2 ^ 64 - 1 - u64 x

-- `a - b` on `uintptr_t`, which wraps; `-` on ℕ stops at 0, so the modulus is added first.
abbrev pub sub64 : ℕ → ℕ → ℕ
sub64 a b = u64 (a + 2 ^ 64 - u64 b)

-- A C condition: a word is true when it is not 0.
abbrev pub truthy : ℕ → Bool
truthy x = not (x == 0)
