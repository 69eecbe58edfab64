-- ===== src/Outcome.antt =====
-- How a piece of the stub's code ends. `asm("ebreak")` raises SIGTRAP, for which entrypoint_1 in
-- src/urvirt-stub/urvirt-stub.c installs no handler, so the process dies there: no code after it
-- runs. `exited` is `s_exit_group`; `no_return` is the end of a function that owes a value and
-- reaches no `return`, which C leaves undefined; `fault` is a read outside the memory mapped for it.
use urvirt.Common.{ℕ, ◌≡◌, refl, Bool, true, false, if◌then◌else◌}
use Prim.Native.String.{String}

pub data Stop : Type 0 where
  ebreak : String → Stop
  exited : ℕ → Stop
  no_return : Stop
  fault : Stop

pub data Result {ℓ} (A : Type ℓ) : Type ℓ where
  ok : A → Result A
  stop : Stop → Result A

infixl 5 ◌>>=◌
abbrev pub ◌>>=◌ {ℓ κ} : {A : Type ℓ} {B : Type κ} → Result A → (A → Result B) → Result B
ok a >>= f = f a
stop s >>= f = stop s

pub ok-injective {ℓ} : {A : Type ℓ} {a b : A} → ok a ≡ ok b → a ≡ b
ok-injective e = cc

-- `P` holds of the value, if there is one.
abbrev pub Ensures {ℓ κ} : {A : Type ℓ} → (A → Type κ) → Result A → Type κ
Ensures P (ok a) = P a
Ensures P (stop s) = Unit

pub Ensures->>= {ℓ κ ι} :
    {A : Type ℓ} {B : Type ℓ} (P : A → Type κ) (Q : B → Type ι) (r : Result A) (f : A → Result B)
    → Ensures P r
    → ((a : A) → P a → Ensures Q (f a))
    → Ensures Q (r >>= f)
Ensures->>= P Q (ok a) f h k = k a h
Ensures->>= P Q (stop s) f h k = tt

pub Ensures-if {ℓ κ} :
    {A : Type ℓ} (P : A → Type κ) (b : Bool) (x y : Result A)
    → (b ≡ true → Ensures P x)
    → (b ≡ false → Ensures P y)
    → Ensures P (if b then x else y)
Ensures-if P true x y h k = h refl
Ensures-if P false x y h k = k refl

pub Ensures-ok {ℓ κ} :
    {A : Type ℓ} (P : A → Type κ) (r : Result A) {a : A} → Ensures P r → r ≡ ok a → P a
Ensures-ok P r h e = rw e at h

pub Ensures-of_ok {ℓ κ} :
    {A : Type ℓ} (P : A → Type κ) (r : Result A) → ((a : A) → r ≡ ok a → P a) → Ensures P r
Ensures-of_ok P (ok a) h = h a refl
Ensures-of_ok P (stop s) h = tt
