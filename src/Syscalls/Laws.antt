-- ===== src/Syscalls/Laws.antt =====
-- internal_syscall against the calling convention: the call takes its first `argc` arguments.
use urvirt.Common.{ℕ, zero, suc, List, [], ◌∷◌, ◌≤◌, ◌≡◌, refl, arith}
use urvirt.Syscalls.{internal_syscall}

abbrev pub take {ℓ} : {A : Type ℓ} → ℕ → List A → List A
take zero xs = []
take (suc n) [] = []
take (suc n) (x ∷ xs) = x ∷ take n xs

-- A call with one to six arguments hands over its number and exactly its first `argc` arguments, in
-- order.
pub internal_syscall-take :
    (n argc a0 a1 a2 a3 a4 a5 : ℕ)
    → 1 ≤ argc
    → argc ≤ 6
    → internal_syscall n argc a0 a1 a2 a3 a4 a5
      ≡ record { a7 = n; inputs = take argc (a0 ∷ a1 ∷ a2 ∷ a3 ∷ a4 ∷ a5 ∷ []) }
unfolding internal_syscall
internal_syscall-take n zero a0 a1 a2 a3 a4 a5 low high = absurd (omega arith)
internal_syscall-take n (suc zero) a0 a1 a2 a3 a4 a5 low high = refl
internal_syscall-take n (suc (suc zero)) a0 a1 a2 a3 a4 a5 low high = refl
internal_syscall-take n (suc (suc (suc zero))) a0 a1 a2 a3 a4 a5 low high = refl
internal_syscall-take n (suc (suc (suc (suc zero)))) a0 a1 a2 a3 a4 a5 low high = refl
internal_syscall-take n (suc (suc (suc (suc (suc zero))))) a0 a1 a2 a3 a4 a5 low high = refl
internal_syscall-take n (suc (suc (suc (suc (suc (suc zero)))))) a0 a1 a2 a3 a4 a5 low high = refl
internal_syscall-take n (suc (suc (suc (suc (suc (suc (suc k))))))) a0 a1 a2 a3 a4 a5 low high =
    absurd (omega arith)
