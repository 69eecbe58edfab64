-- ===== src/PageTable/Sound.antt =====
-- The walk of lookup_pa_in_ram against the translation of PageTable/Spec.
use urvirt.Common.{
  ℕ, ◌+◌, ◌-◌, ◌*◌, ◌/◌, ◌%◌, ◌^◌, ◌≤◌, ◌<◌, ◌≡◌, ◌↔◌, ◌⊎◌, refl, ap, ap₂, sym, ◌∙◌, inl, inr, true,
  false, Bool-cases, arith, none, some, u64,
}
use urvirt.RiscvBits.{get_field, get_field_lem, get_satp_mode}
use urvirt.Outcome.{ok}
use urvirt.PageTable.{walk, vpn, lookup_pa_in_ram, is_sign_extended}
use urvirt.PageTable.Laws.{is_sign_extended_iff}
use urvirt.PageTable.Spec.{slot, page_of, root_of, first, second, Reaches}
use urvirt.PageTable.Levels.{level-inv, level-intro, IsLast-inv, IsLast-intro}

module _ (satp : ℕ) (ram : ℕ → ℕ) (va : ℕ) where
  root_address : u64 (get_field 0 44 satp * 2 ^ 12) ≡ root_of satp
  root_address = omega (arith, get_field_lem 0 44 satp)

  -- The tables' indices.
  index0 : vpn va 0 ≡ va / 2 ^ 30 % 512
  index0 = get_field_lem 30 9 va (omega arith)

  index1 : vpn va 1 ≡ va / 2 ^ 21 % 512
  index1 = get_field_lem 21 9 va (omega arith)

  index2 : vpn va 2 ≡ va / 2 ^ 12 % 512
  index2 = get_field_lem 12 9 va (omega arith)

  walk-Reaches :
      (pa pte : ℕ)
      → walk ram va 3 0 (root_of satp) ≡ ok (some (pa, pte))
      → Reaches satp ram va pa pte
  walk-Reaches pa pte e =
      let (r0, p0, w1) =
        rw index0 at
          (level-inv ram va 2 0 (root_of satp) (omega arith) (pa, pte) (omega arith) e) in
      let (r1, p1, w2) = rw index1 at (
        level-inv ram va 1 1 (page_of (first satp ram va)) (omega arith) (pa, pte) (omega arith)
          w1) in
      let (r2, p2, same, address) =
        rw index2 at
          (IsLast-inv ram va 0 2 (page_of (second satp ram va)) (omega arith) pa pte refl w2) in
      record {
        root_in_ram = r0;
        first_pointer = p0;
        second_in_ram = r1;
        second_pointer = p1;
        third_in_ram = r2;
        leaf = p2;
        found = same;
        address = address;
      }

  Reaches-walk :
      {pa pte : ℕ}
      → Reaches satp ram va pa pte
      → walk ram va 3 0 (root_of satp) ≡ ok (some (pa, pte))
  Reaches-walk {pa} {pte} t =
      level-intro ram va 2 0 (root_of satp) (omega arith) (omega arith) t.root_in_ram
        (rw index0 t.first_pointer)
      ∙ ap (λ i. walk ram va 2 1 (page_of (slot ram (root_of satp) i))) index0
      ∙ level-intro ram va 1 1 (page_of (first satp ram va)) (omega arith) (omega arith)
          t.second_in_ram (rw index1 t.second_pointer)
      ∙ ap (λ i. walk ram va 1 2 (page_of (slot ram (page_of (first satp ram va)) i))) index1
      ∙ IsLast-intro ram va 0 2 (page_of (second satp ram va)) (omega arith) refl t.third_in_ram
          (rw index2 t.leaf)
      ∙ ap
          (λ i. ok (
            some (
              page_of (slot ram (page_of (second satp ram va)) i) + va % 2 ^ 12,
              slot ram (page_of (second satp ram va)) i,
            )))
          index2
      ∙ ap₂ (λ a b. ok (some (a, b))) (sym t.address) (sym t.found)

-- With Sv39 on, a lookup of a 64-bit address finds `pa` and `pte` exactly when the address passes the
-- 40-bit sign check and the page table leads from it to the entry `pte`, which is a leaf as Sv39 has
-- it, or else a pointer, which Sv39 does not have at the last level.
pub lookup_pa_in_ram_iff :
    (satp : ℕ) (ram : ℕ → ℕ) (va pa pte : ℕ)
    → get_satp_mode satp ≡ 8
    → va < 2 ^ 64
    → (lookup_pa_in_ram satp ram va ≡ ok (some (pa, pte)))
      ↔ (((va < 2 ^ 39) ⊎ (2 ^ 64 - 2 ^ 39 ≤ va)) × Reaches satp ram va pa pte)
lookup_pa_in_ram_iff satp ram va pa pte mode word =
    (lookup-Reaches, λ h. lookup_of_sign (sign.1 h.0) ∙ Reaches-walk satp ram va h.1)
  where
    sign : (is_sign_extended va ≡ true) ↔ ((va < 2 ^ 39) ⊎ (2 ^ 64 - 2 ^ 39 ≤ va))
    sign = is_sign_extended_iff va word

    enters :
        is_sign_extended va ≡ true
        → lookup_pa_in_ram satp ram va ≡ walk ram va 3 0 (u64 (get_field 0 44 satp * 2 ^ 12))
    enters s = unfold lookup_pa_in_ram in rw (mode, s)

    lookup_of_sign :
        is_sign_extended va ≡ true → lookup_pa_in_ram satp ram va ≡ walk ram va 3 0 (root_of satp)
    lookup_of_sign s = enters s ∙ ap (walk ram va 3 0) (root_address satp ram va)

    lookup-Reaches :
        lookup_pa_in_ram satp ram va ≡ ok (some (pa, pte))
        → ((va < 2 ^ 39) ⊎ (2 ^ 64 - 2 ^ 39 ≤ va)) × Reaches satp ram va pa pte
    lookup-Reaches e = elim (Bool-cases (is_sign_extended va)) [
      | inl s ↦ (sign.0 s, walk-Reaches satp ram va pa pte (sym (lookup_of_sign s) ∙ e))
      | inr s ↦ absurd (cc (sym (not_found s) ∙ e))
    ]
      where
        not_found : is_sign_extended va ≡ false → lookup_pa_in_ram satp ram va ≡ ok none
        not_found s = unfold lookup_pa_in_ram in rw (mode, s)
