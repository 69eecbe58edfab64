-- ===== src/PageTable/Bounds.antt =====
-- The ways in which the walk of lookup_pa_in_ram ends.
use urvirt.Common.{
  ℕ, zero, suc, ◌+◌, ◌*◌, ◌%◌, ◌^◌, ◌<◌, ◌≡◌, refl, inl, inr, Bool, true, false, not, ◌&&◌, ◌||◌,
  ◌==◌, ltb, ltb→lt, if◌then◌else◌, arith, Option, none, u64,
}
use urvirt.RiscvBits.{get_field, get_satp_mode}
use urvirt.Bits.{bit}
use urvirt.Outcome.{Result, ok, stop, ebreak}
use urvirt.PageTable.{walk, lookup_pa_in_ram, is_sign_extended}
use urvirt.PageTable.Spec.{page_of}
use urvirt.PageTable.Levels.{entry, visit, walk-visit, InRam-cases}

-- The ways in which a walk may end.
pub data IsAnswer (r : Result (Option (ℕ × ℕ))) : Type 0 where
  answer : (o : Option (ℕ × ℕ)) → r ≡ ok o → IsAnswer r
  outside : r ≡ stop (ebreak "pt address out of range") → IsAnswer r
  large : r ≡ stop (ebreak "Unimplemented large pages") → IsAnswer r

IsAnswer-if :
    (b : Bool) {x y : Result (Option (ℕ × ℕ))}
    → (b ≡ true → IsAnswer x)
    → IsAnswer y
    → IsAnswer (if b then x else y)
IsAnswer-if true h k = h refl
IsAnswer-if false h k = k

visit-IsAnswer :
    (ram : ℕ → ℕ) (va rounds level e : ℕ)
    → (level < 2 → IsAnswer (walk ram va rounds (level + 1) (page_of e)))
    → IsAnswer (visit ram va rounds level e)
unfolding visit
visit-IsAnswer ram va rounds level e next =
    IsAnswer-if (not (bit e 0 == 1)) (λ _. answer none refl)
      (IsAnswer-if (not (bit e 1 == 1) && bit e 2 == 1) (λ _. answer none refl)
        (IsAnswer-if (ltb level 2)
          (λ low.
            IsAnswer-if (bit e 1 == 1 || bit e 2 == 1 || bit e 3 == 1) (λ _. large refl)
              (next (ltb→lt level 2 low)))
          (IsAnswer-if (bit e 2 == 1 && not (bit e 1 == 1)) (λ _. answer none refl)
            (answer _ refl))))

walk-IsAnswer :
    (ram : ℕ → ℕ) (va rounds level table : ℕ)
    → rounds + level ≡ 2
    → table % 4096 ≡ 0
    → IsAnswer (walk ram va (suc rounds) level table)
walk-IsAnswer ram va zero level table e a = elim (InRam-cases ram va 0 level table a) [
  | inl h ↦
      rw (walk-visit ram va 0 level table a h)
        (visit-IsAnswer ram va 0 level (entry ram va 0 level table a) (λ low. absurd (omega arith)))
  | inr out ↦ outside out
]
walk-IsAnswer ram va (suc k) level table e a = elim (InRam-cases ram va (suc k) level table a) [
  | inl h ↦ rw (walk-visit ram va (suc k) level table a h) (
      visit-IsAnswer ram va (suc k) level (entry ram va (suc k) level table a)
        (λ low. walk-IsAnswer ram va k (level + 1) _ (omega arith) (omega arith)))
  | inr out ↦ outside out
]

-- Whatever the page table holds, a lookup finds an answer or stops at the check of a table's address
-- or at a large page: all its reads lie in the mapping of RAM, and it never runs off its end.
pub lookup_pa_in_ram-IsAnswer :
    (satp : ℕ) (ram : ℕ → ℕ) (va : ℕ) → IsAnswer (lookup_pa_in_ram satp ram va)
unfolding lookup_pa_in_ram
lookup_pa_in_ram-IsAnswer satp ram va =
    IsAnswer-if (get_satp_mode satp == 0) (λ _. answer _ refl)
      (IsAnswer-if (not (is_sign_extended va)) (λ _. answer _ refl)
        (walk-IsAnswer ram va 2 0 (u64 (get_field 0 44 satp * 2 ^ 12)) (omega arith) (omega arith)))
