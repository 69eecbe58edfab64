-- ===== src/TestKernel/Doublewords.antt =====
-- Doublewords in the guest's memory, least significant byte first.
use urvirt.Common.{
  ℕ, ◌+◌, ◌-◌, ◌*◌, ◌/◌, ◌%◌, ◌^◌, ◌≤◌, ◌<◌, ◌≡◌, ap, ◌∙◌, ltb, if◌then◌else◌, arith, u64,
}
use urvirt.Memory.{byte, load32}

-- How far an address lies after another, around the end of the address space.
abbrev pub distance : (a j : ℕ) → ℕ
distance a j = (j + 2 ^ 64 - a) % 2 ^ 64

unfoldable pub store_double : (ℕ → ℕ) → (a v : ℕ) → ℕ → ℕ
store_double memory a v j = if ltb (distance a j) 8 then v / 256 ^ distance a j % 256 else memory j

unfoldable pub load_double : (ℕ → ℕ) → ℕ → ℕ
load_double memory a =
    byte memory a
    + byte memory (a + 1) * 2 ^ 8
    + byte memory (a + 2) * 2 ^ 16
    + byte memory (a + 3) * 2 ^ 24
    + byte memory (a + 4) * 2 ^ 32
    + byte memory (a + 5) * 2 ^ 40
    + byte memory (a + 6) * 2 ^ 48
    + byte memory (a + 7) * 2 ^ 56

module _ (memory : ℕ → ℕ) (a v : ℕ) (word : a < 2 ^ 64) where
  byte_inside : (i : ℕ) → i < 8 → byte (store_double memory a v) (a + i) ≡ v / 256 ^ i % 256
  unfolding store_double
  byte_inside i below =
      let e : distance a (u64 (a + i)) ≡ i = omega (arith, below, word) in
      rw e (ground (arith, below))

  -- What was stored is loaded.
  pub load_double-store_double_self : v < 2 ^ 64 → load_double (store_double memory a v) a ≡ v
  unfolding load_double
  load_double-store_double_self small = omega (
    arith,
    first,
    byte_inside 1 (omega arith),
    byte_inside 2 (omega arith),
    byte_inside 3 (omega arith),
    byte_inside 4 (omega arith),
    byte_inside 5 (omega arith),
    byte_inside 6 (omega arith),
    byte_inside 7 (omega arith),
  )
    where
      first : byte (store_double memory a v) a ≡ v % 256
      first =
          ap (byte (store_double memory a v)) {x = a} {y = a + 0} (omega arith)
          ∙ byte_inside 0 (omega arith)
          ∙ omega arith

  -- A byte further on than the doubleword, or before it, is as it was.
  pub byte_outside :
      (j : ℕ) → 8 ≤ distance a (u64 j) → byte (store_double memory a v) j ≡ byte memory j
  unfolding store_double
  byte_outside j out = ground arith

  pub load_double-store_double_ne :
      (b : ℕ)
      → b < 2 ^ 64
      → 8 ≤ distance a b
      → distance a b + 8 ≤ 2 ^ 64
      → load_double (store_double memory a v) b ≡ load_double memory b
  unfolding load_double
  load_double-store_double_ne b fits past before = omega (
    arith,
    byte_outside b (omega arith),
    byte_outside (b + 1) (omega arith),
    byte_outside (b + 2) (omega arith),
    byte_outside (b + 3) (omega arith),
    byte_outside (b + 4) (omega arith),
    byte_outside (b + 5) (omega arith),
    byte_outside (b + 6) (omega arith),
    byte_outside (b + 7) (omega arith),
  )

  -- An instruction elsewhere is left alone.
  pub load32-store_double :
      (p : ℕ)
      → p < 2 ^ 64
      → 8 ≤ distance a p
      → distance a p + 4 ≤ 2 ^ 64
      → load32 (store_double memory a v) p ≡ load32 memory p
  load32-store_double p fits past before = omega (
    arith,
    byte_outside p (omega arith),
    byte_outside (p + 1) (omega arith),
    byte_outside (p + 2) (omega arith),
    byte_outside (p + 2 + 1) (omega arith),
  )
