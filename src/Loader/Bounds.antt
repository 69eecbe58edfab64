-- ===== src/Loader/Bounds.antt =====
-- The size of the stub's mapping.
use urvirt.Common.{ℕ, ◌+◌, ◌%◌, ◌^◌, ◌≤◌, ◌<◌, ◌≡◌, ◌∙◌, arith, u64}
use urvirt.Bits.{clear_low12}
use urvirt.AddressSpace.{page_up}
use urvirt.Loader.{round_up}

pub round_up-page_up : (n : ℕ) → n + 4095 < 2 ^ 64 → round_up n ≡ page_up n
unfolding round_up
round_up-page_up n h = clear_low12 (u64 (n + 4095)) (omega arith) ∙ omega arith

-- For a file whose size is not within a page of 2 ^ 64, the size of the stub's mapping is a multiple
-- of the page, at least the file's size, and less than a page more.
pub round_up-bounds :
    (n : ℕ)
    → n + 4095 < 2 ^ 64
    → (round_up n % 4096 ≡ 0) × (n ≤ round_up n) × (round_up n < n + 4096)
round_up-bounds n h = (
  omega (arith, round_up-page_up n h),
  omega (arith, round_up-page_up n h),
  omega (arith, round_up-page_up n h),
)
