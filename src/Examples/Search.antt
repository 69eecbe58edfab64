-- ===== src/Examples/Search.antt =====
-- Searches below a number.
use urvirt.Common.{
  ℕ, zero, suc, ◌≤◌, ◌<◌, ◌≡◌, refl, Bool, true, if◌then◌else◌, arith, all_below, Bool-cases, inl,
  inr,
}

-- The first number below `n` that passes a test.
unfoldable pub first_below : ℕ → (ℕ → Bool) → ℕ
first_below zero test = 0
first_below (suc n) test = if test 0 then 0 else suc (first_below n (λ k. test (suc k)))

pub first_below_lem :
    (n : ℕ) (test : ℕ → Bool) (k : ℕ) → k < n → test k ≡ true → test (first_below n test) ≡ true
unfolding first_below
first_below_lem zero test k below e = absurd (omega arith)
first_below_lem (suc n) test zero below e = rw e e
first_below_lem (suc n) test (suc k) below e = elim (Bool-cases (test 0)) [
  | inl t ↦ rw t t
  | inr t ↦ rw t (first_below_lem n (λ j. test (suc j)) k (omega arith) e)
]

pub all_below-of_all :
    (n : ℕ) (test : ℕ → Bool) → ((k : ℕ) → k < n → test k ≡ true) → all_below n test ≡ true
unfolding all_below
all_below-of_all zero test h = refl
all_below-of_all (suc n) test h = ground (
  arith,
  h 0 (omega arith),
  all_below-of_all n (λ k. test (suc k)) (λ k p. h (suc k) (omega arith)),
)

pub first_below_le :
    (n : ℕ) (test : ℕ → Bool) (k : ℕ) → k < n → test k ≡ true → first_below n test ≤ k
unfolding first_below
first_below_le zero test k below e = absurd (omega arith)
first_below_le (suc n) test zero below e = rw e (omega arith)
first_below_le (suc n) test (suc k) below e = elim (Bool-cases (test 0)) [
  | inl t ↦ rw t (omega arith)
  | inr t ↦ rw t (omega (arith, first_below_le n (λ j. test (suc j)) k (omega arith) e))
]
