-- ===== src/TestKernel/Frame.antt =====
-- The stack frame of stvec: five doublewords that are stored one after the other.
use urvirt.Common.{ℕ, ◌+◌, ◌^◌, ◌≤◌, ◌<◌, ◌≡◌, ◌∙◌, arith, u64}
use urvirt.Memory.{load32}
use urvirt.TestKernel.Doublewords.{
  distance, store_double, load_double, load_double-store_double_self, load_double-store_double_ne,
  load32-store_double,
}

-- The four bytes at `p` lie outside the 512 bytes from `base` on.
abbrev pub IsOutside : (base p : ℕ) → Type 0
IsOutside base p = (p < 2 ^ 64) × (512 ≤ distance base p) × (distance base p + 4 ≤ 2 ^ 64)

module _ (base : ℕ) where
  pub load32_slot :
      (memory : ℕ → ℕ) (o v p : ℕ)
      → o + 8 ≤ 512
      → IsOutside base p
      → load32 (store_double memory (u64 (base + o)) v) p ≡ load32 memory p
  load32_slot memory o v p small out =
      load32-store_double memory (u64 (base + o)) v (omega arith) p out.0
        (omega (arith, small, out)) (omega (arith, small, out))

  slot_self :
      (memory : ℕ → ℕ) (o v : ℕ)
      → v < 2 ^ 64
      → load_double (store_double memory (u64 (base + o)) v) (u64 (base + o)) ≡ v
  slot_self memory o v word =
      load_double-store_double_self memory (u64 (base + o)) v (omega arith) word

  -- A slot further on leaves those below it.
  slot_below :
      (memory : ℕ → ℕ) (o v o' : ℕ)
      → o' + 8 ≤ o
      → o + 8 ≤ 512
      → load_double (store_double memory (u64 (base + o)) v) (u64 (base + o'))
        ≡ load_double memory (u64 (base + o'))
  slot_below memory o v o' apart small =
      load_double-store_double_ne memory (u64 (base + o)) v (omega arith) (u64 (base + o'))
        (omega arith) (omega (arith, apart, small)) (omega (arith, apart, small))

  pub slot_outside :
      (memory : ℕ → ℕ) (o v j : ℕ)
      → o + 8 ≤ 512
      → j < 2 ^ 64
      → 512 ≤ distance base j
      → store_double memory (u64 (base + o)) v j ≡ memory j
  unfolding store_double
  slot_outside memory o v j small word out =
      let past : 8 ≤ distance (u64 (base + o)) j = omega (arith, small, word, out) in
      ground (arith, past)

  module _ (memory : ℕ → ℕ) (v0 v1 v2 v3 v4 : ℕ) where
    abbrev pub frame : ℕ → ℕ
    frame =
        store_double
          (store_double
            (store_double
              (store_double (store_double memory (u64 (base + 0)) v0) (u64 (base + 8)) v1)
              (u64 (base + 16)) v2)
            (u64 (base + 24)) v3)
          (u64 (base + 32)) v4

    pub slot4 : v4 < 2 ^ 64 → load_double frame (u64 (base + 32)) ≡ v4
    slot4 word = slot_self _ 32 v4 word

    pub slot3 : v3 < 2 ^ 64 → load_double frame (u64 (base + 24)) ≡ v3
    slot3 word = slot_below _ 32 v4 24 (omega arith) (omega arith) ∙ slot_self _ 24 v3 word

    pub slot2 : v2 < 2 ^ 64 → load_double frame (u64 (base + 16)) ≡ v2
    slot2 word =
        slot_below _ 32 v4 16 (omega arith) (omega arith)
        ∙ slot_below _ 24 v3 16 (omega arith) (omega arith)
        ∙ slot_self _ 16 v2 word

    pub slot1 : v1 < 2 ^ 64 → load_double frame (u64 (base + 8)) ≡ v1
    slot1 word =
        slot_below _ 32 v4 8 (omega arith) (omega arith)
        ∙ slot_below _ 24 v3 8 (omega arith) (omega arith)
        ∙ slot_below _ 16 v2 8 (omega arith) (omega arith)
        ∙ slot_self _ 8 v1 word

    pub slot0 : v0 < 2 ^ 64 → load_double frame (u64 (base + 0)) ≡ v0
    slot0 word =
        slot_below _ 32 v4 0 (omega arith) (omega arith)
        ∙ slot_below _ 24 v3 0 (omega arith) (omega arith)
        ∙ slot_below _ 16 v2 0 (omega arith) (omega arith)
        ∙ slot_below _ 8 v1 0 (omega arith) (omega arith)
        ∙ slot_self _ 0 v0 word

    pub load32-frame : (p : ℕ) → IsOutside base p → load32 frame p ≡ load32 memory p
    load32-frame p out =
        load32_slot _ 32 v4 p (omega arith) out
        ∙ load32_slot _ 24 v3 p (omega arith) out
        ∙ load32_slot _ 16 v2 p (omega arith) out
        ∙ load32_slot _ 8 v1 p (omega arith) out
        ∙ load32_slot _ 0 v0 p (omega arith) out

    pub frame_outside : (j : ℕ) → j < 2 ^ 64 → 512 ≤ distance base j → frame j ≡ memory j
    frame_outside j word out =
        slot_outside _ 32 v4 j (omega arith) word out
        ∙ slot_outside _ 24 v3 j (omega arith) word out
        ∙ slot_outside _ 16 v2 j (omega arith) word out
        ∙ slot_outside _ 8 v1 j (omega arith) word out
        ∙ slot_outside _ 0 v0 j (omega arith) word out
