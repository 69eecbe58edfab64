-- ===== src/TestKernel/Printing.antt =====
-- The user program prints its text again and again.
use urvirt.Common.{
  ℕ, zero, suc, ◌+◌, ◌-◌, ◌%◌, ◌^◌, ◌≤◌, ◌<◌, ◌≡◌, refl, ap, ◌∙◌, sym, if_false, false, ◌==◌,
  if◌then◌else◌, arith, List, [], ◌∷◌, u64,
}
use mathlib.Core.Path.{subst}
use urvirt.Common.Lists.{length}
use urvirt.Outcome.{Result, ok, ◌>>=◌}
use urvirt.Kernel.{Kernel}
use urvirt.Memory.{byte}
use urvirt.Machine.{Machine}
use urvirt.TestKernel.Doublewords.{distance}
use urvirt.TestKernel.Asm.{Hardware}
use urvirt.TestKernel.Faults.{fault_in-served, IsHosted}
use urvirt.TestKernel.Hart.{Hart, seen}
use urvirt.TestKernel.Vector.{base_of}
use urvirt.TestKernel.User.{str, user_call, print_from, umode}
use urvirt.TestKernel.Called.{IsUser, IsAnswered, user_call-IsAnswered}

-- A text without a 0 stands in memory from an address on, with a 0 after it, away from the frame.
abbrev IsText : (memory : ℕ → ℕ) (base p : ℕ) → List ℕ → Type 0
IsText memory base p [] = (byte memory p ≡ 0) × (512 ≤ distance base (u64 p))
IsText memory base p (c ∷ text) =
    (byte memory p ≡ c)
    × (c == 0 ≡ false)
    × (512 ≤ distance base (u64 p))
    × IsText memory base (suc p) text

-- A text after what was printed, the newest byte first; and the same so many times.
abbrev printed : (text output : List ℕ) → List ℕ
printed [] output = output
printed (c ∷ text) output = printed text (c ∷ output)

abbrev printed_times : (rounds : ℕ) (text output : List ℕ) → List ℕ
printed_times zero text output = output
printed_times (suc rounds) text output = printed_times rounds text (printed text output)

abbrev IsSame : (base : ℕ) (before after : ℕ → ℕ) → Type 0
IsSame base before after = (j : ℕ) → j < 2 ^ 64 → 512 ≤ distance base j → after j ≡ before j

IsText-same :
    (base : ℕ) (before after : ℕ → ℕ) (p : ℕ) (text : List ℕ)
    → IsSame base before after
    → IsText before base p text
    → IsText after base p text
IsText-same base before after p [] same (zero_at, out) =
    (ap (λ b. b % 256) (same (u64 p) (omega arith) out) ∙ zero_at, out)
IsText-same base before after p (c ∷ text) same (at, nonzero, out, rest) = (
  ap (λ b. b % 256) (same (u64 p) (omega arith) out) ∙ at,
  nonzero,
  out,
  IsText-same base before after (suc p) text same rest,
)

-- The text was printed, and the user program goes on.
record IsPassed (w : Hardware) (satp : ℕ) (before : ℕ → ℕ) (text : List ℕ) (h n : Hart)
    : Type 0 where
  user : IsUser w satp before n
  output : n.output ≡ printed text h.output
  same_base : base_of n ≡ base_of h
  memory : IsSame (base_of h) h.memory n.memory

module _ (k : Kernel) (w : Hardware) (satp : ℕ) (before : ℕ → ℕ) (hosted : IsHosted k w satp before)
    (pc : ℕ) (below : pc < 2 ^ 64) where
  abbrev Passes : Result Machine → List ℕ → Machine → Type 0
  Passes r text m = (n : Machine) × (r ≡ ok n) × IsPassed w satp before text (seen m) (seen n)

  -- A round, once the character is read.
  abbrev pass : (rounds p c : ℕ) → Machine → Result Machine
  pass rounds p c n =
      if c == 0 then ok n else (do t ← user_call k w pc n c; print_from k w pc rounds (suc p) t)

  pass_next :
      (rounds p c : ℕ) (n : Machine)
      → c == 0 ≡ false
      → pass rounds p c n ≡ (do t ← user_call k w pc n c; print_from k w pc rounds (suc p) t)
  pass_next rounds p c n nonzero = if_false (c == 0) _ nonzero

  read_char :
      (rounds p c : ℕ) (m : Machine)
      → IsUser w satp before (seen m)
      → byte m.memory p ≡ c
      → (n : Machine) × (print_from k w pc (suc rounds) p m ≡ pass rounds p c n) × (seen n ≡ seen m)
  unfolding print_from
  read_char rounds p c m user at =
      let (n, served, same) =
        fault_in-served k satp (w.read_faults p m) m user.quiet user.root
          (hosted.reads p m user.root user.stored) in
      (
        n,
        ap (λ r. do n ← r; pass rounds p (byte n.memory p) n) served
            ∙ ap (λ c. pass rounds p c n) (ap (λ (h : Hart). byte h.memory p) same ∙ at),
        same,
      )

  print_from-IsPassed :
      (rounds p : ℕ) (text : List ℕ) (m : Machine)
      → length text < rounds
      → IsUser w satp before (seen m)
      → IsText m.memory (base_of (seen m)) p text
      → Passes (print_from k w pc rounds p m) text m
  print_from-IsPassed zero p text m enough user stands = absurd (omega (arith, enough))
  print_from-IsPassed (suc rounds) p [] m enough user stands =
      let (n, went, same) = read_char rounds p 0 m user stands.0 in
      (n, went, subst (IsPassed w satp before [] (seen m)) (sym same) unchanged)
    where
      unchanged : IsPassed w satp before [] (seen m) (seen m)
      unchanged = record {
        user = user;
        output = refl;
        same_base = refl;
        memory = λ j fits out. refl;
      }
  print_from-IsPassed (suc rounds) p (c ∷ text) m enough user stands =
      let (r, went, same) = read_char rounds p c m user stands.0 in
      let (t, called, view) =
        user_call-IsAnswered k w satp before hosted pc c r below (omega (arith, stands.0))
          (subst (IsUser w satp before) (sym same) user) in
      let answered : IsAnswered w satp before (seen m) c (seen t) =
        subst (λ h. IsAnswered w satp before h c (seen t)) same view in
      let same_base : base_of (seen t) ≡ base_of (seen m) =
        ap (λ s. u64 (s + (2 ^ 64 - 512))) (answered.registers 2 refl) in
      let still : IsText t.memory (base_of (seen t)) (suc p) text =
        subst (λ base. IsText t.memory base (suc p) text) (sym same_base)
          (IsText-same (base_of (seen m)) m.memory t.memory (suc p) text answered.memory
            stands.3) in
      let (n, rest, passed) =
        print_from-IsPassed rounds (suc p) text t (omega (arith, enough)) answered.user still in
      (
        n,
        went
            ∙ pass_next rounds p c r stands.1
            ∙ ap (λ r. do n ← r; print_from k w pc rounds (suc p) n) called
            ∙ rest,
        record {
          user = passed.user;
          output = passed.output ∙ ap (printed text) answered.output;
          same_base = passed.same_base ∙ same_base;
          memory = λ j fits out.
              passed.memory j fits (subst (λ base. 512 ≤ distance base j) (sym same_base) out)
              ∙ answered.memory j fits out;
        },
      )

  umode-IsPassed :
      (text : List ℕ) (inner start rounds : ℕ) (m : Machine)
      → length text < inner
      → IsUser w satp before (seen m)
      → IsText m.memory (base_of (seen m)) start text
      → (n : Machine) × (umode k w pc inner start rounds m ≡ ok n)
        × ((seen n).output ≡ printed_times rounds text (seen m).output)
        × IsUser w satp before (seen n)
  unfolding umode
  umode-IsPassed text inner start zero m enough user stands = (m, refl, refl, user)
  umode-IsPassed text inner start (suc rounds) m enough user stands =
      let (t, went, passed) = print_from-IsPassed inner start text m enough user stands in
      let still : IsText t.memory (base_of (seen t)) start text =
        subst (λ base. IsText t.memory base start text) (sym passed.same_base)
          (IsText-same (base_of (seen m)) m.memory t.memory start text passed.memory stands) in
      let (n, rest, output, in_user) =
        umode-IsPassed text inner start rounds t enough passed.user still in
      (
        n,
        ap (λ r. do n ← r; umode k w pc inner start rounds n) went ∙ rest,
        output ∙ ap (printed_times rounds text) passed.output,
        in_user,
      )

-- The user program never ends: it runs for as many rounds of its loop as one likes. Each prints the
-- text once more, `I wrote this with ecall from user mode` and a newline, by calls that stvec serves,
-- and then the user program goes on in user mode. So it is if no interrupt is pending, the registers
-- hold words and sstatus what it may hold, stvec and the text stand in memory, stvec at a multiple of
-- 4, with its privileged instructions and the text away from its frame, the address of the `ecall` is
-- a word, the inner loop is given more rounds than there are characters, and every page fault that
-- may come is one that the page table serves. Translation must be on for that, if any comes at all,
-- and kernel_main leaves it off.
umode-prints :
    (k : Kernel) (w : Hardware) (pc inner start rounds : ℕ) (m : Machine)
    → pc < 2 ^ 64
    → length str < inner
    → IsHosted k w m.priv.satp m.ram
    → IsUser w m.priv.satp m.ram (seen m)
    → IsText m.memory (base_of (seen m)) start str
    → (n : Machine) × (umode k w pc inner start rounds m ≡ ok n)
      × ((seen n).output ≡ printed_times rounds str (seen m).output)
      × IsUser w m.priv.satp m.ram (seen n)
umode-prints k w pc inner start rounds m below enough hosted user stands =
    umode-IsPassed k w m.priv.satp m.ram hosted pc below str inner start rounds m enough user stands
