-- ===== src/Handler/Coherence.antt =====
-- The mappings of the guest, along a run, against its mode and page table.
use urvirt.Common.{◌+◌, ◌^◌, ◌≡◌, refl, sym, ap₂, ◌∙◌, inl, inr, ◌⊎◌, List, ◌∷◌, u64, sub64}
use mathlib.Core.Path.{subst}
use urvirt.Kernel.{Kernel}
use urvirt.Priv.{PrivState}
use urvirt.Machine.{Machine, IsValid, Syscall, call, s_munmap, s_rt_sigreturn}
use urvirt.Handler.Runs.{Step, guest, signal, Step-IsValid, handler_wrapper-handler}
use urvirt.Handler.Contained.{IsLeft, handler-IsLeft}
use urvirt.Contained.{IsSameSpace, Allowed, shared_page_end, other, Extends, same, more}

-- From the machine `m`, by steps of the guest and of signals, each with its own answers of the system.
pub data Runs (m : Machine) : Machine → Type 0 where
  rest : Runs m m
  step : {n o : Machine} (k : Kernel) → Runs m n → Step k n o → Runs m o

-- A machine that the run came through, its first and its last among them.
abbrev pub Visits : {m o : Machine} → Runs m o → Machine → Type 0
Visits {m} rest n = n ≡ m
Visits (step {n} {o} k r s) v = (v ≡ o) ⊎ Visits r v

module _ (m : Machine) where
  -- Of the run `r`. The log, newest call first, for the privileged state `p`: down to the last time
  -- that all below and above the stub was unmapped, or to the start of the run, each call is one that
  -- was allowed to a machine that the run came through, with the mode and the satp of `p`.
  pub data IsFresh {o : Machine} (r : Runs m o) (p : PrivState) : List Syscall → Type 0 where
    start : IsSameSpace m.priv p → IsFresh r p m.calls
    cleared :
        (before : List Syscall)
        → IsFresh r p (
            s_munmap
              (u64 (p.stub_start + p.stub_size))
              (sub64 (2 ^ 38) (u64 (p.stub_start + p.stub_size)))
            ∷ s_munmap 0 p.stub_start
            ∷ before)
    later :
        {calls : List Syscall} (k : Kernel) (c : Syscall) (n : Machine)
        → Visits r n
        → IsSameSpace n.priv p
        → Allowed k n c
        → IsFresh r p calls
        → IsFresh r p (c ∷ calls)

  -- What is fresh stays so as the run goes on.
  Fresh-step :
      {o o' : Machine} (k : Kernel) (r : Runs m o) (s : Step k o o') {p : PrivState}
      {calls : List Syscall}
      → IsFresh r p calls
      → IsFresh (step k r s) p calls
  Fresh-step k r s (start t) = start t
  Fresh-step k r s (cleared before) = cleared before
  Fresh-step k r s (later k' c n v t allowed f) =
      later k' c n (inr v) t allowed (Fresh-step k r s f)

  module _ {e : Machine} (r : Runs m e) where
    Fresh-subst :
        {p q : PrivState} {calls : List Syscall}
        → IsSameSpace p q
        → q.stub_start ≡ p.stub_start
        → q.stub_size ≡ p.stub_size
        → IsFresh r p calls
        → IsFresh r q calls
    Fresh-subst s at size (start t) = start (s.0 ∙ t.0, s.1 ∙ t.1)
    Fresh-subst {p} {q} s at size (cleared before) =
        subst (λ calls. IsFresh r q calls)
          (ap₂
            (λ a n. s_munmap (u64 (a + n)) (sub64 (2 ^ 38) (u64 (a + n))) ∷ s_munmap 0 a ∷ before)
            at size)
          (cleared before)
    Fresh-subst s at size (later k c n v t allowed f) =
        later k c n v (s.0 ∙ t.0, s.1 ∙ t.1) allowed (Fresh-subst s at size f)

    Fresh-Extends :
        (k : Kernel) (n : Machine) {p : PrivState} {before after : List Syscall}
        → Visits r n
        → IsSameSpace n.priv p
        → Extends k n before after
        → IsFresh r p before
        → IsFresh r p after
    Fresh-Extends k n v s same f = f
    Fresh-Extends k n v s (more c allowed e) f = later k c n v s allowed (Fresh-Extends k n v s e f)

    -- What a handler leaves is fresh, if it came upon what is.
    IsLeft-IsFresh :
        (k : Kernel) (n o : Machine)
        → Visits r n
        → Visits r (call o s_rt_sigreturn)
        → IsLeft k n o
        → IsFresh r n.priv n.calls
        → IsFresh r o.priv o.calls
    IsLeft-IsFresh k n o v v' (e, at, size, inl s) f =
        Fresh-Extends k n v s e (Fresh-subst s at size f)
    IsLeft-IsFresh k n o v v' (e, at, size, inr (before, ends)) f =
        subst (IsFresh r o.priv) (sym ends) (
          later k _ (call o s_rt_sigreturn) v' (refl, refl) shared_page_end
            (subst (IsFresh r o.priv)
              (ap₂
                (λ a n.
                  s_munmap (u64 (a + n)) (sub64 (2 ^ 38) (u64 (a + n))) ∷ s_munmap 0 a ∷ before)
                at size)
              (cleared before)))

  last : {n : Machine} (r : Runs m n) → Visits r n
  last rest = refl
  last (step k r s) = inl refl

  Runs-both : {n : Machine} → IsValid m → (r : Runs m n) → IsValid n × IsFresh r n.priv n.calls
  Runs-both valid rest = (valid, start (refl, refl))
  Runs-both valid (step k r (guest regs memory ram words)) =
      let before = Runs-both valid r in
      (
        Step-IsValid k (guest regs memory ram words) before.0,
        Fresh-step k r (guest regs memory ram words) before.1,
      )
  Runs-both valid (step {n} k r (signal sig word e)) =
      let before = Runs-both valid r in
      let after = handler_wrapper-handler k n sig e in
      let r' = step k r (signal sig word e) in
      let left = handler-IsLeft k n sig before.0 word after.1 in
      (
        Step-IsValid k (signal sig word e) before.0,
        subst (λ o. IsFresh r' o.priv o.calls) (sym after.2)
            (later k s_rt_sigreturn _ (inl (sym after.2)) (refl, refl) (other _ refl)
              (IsLeft-IsFresh r' k n after.0 (inr (last r)) (inl (sym after.2)) left
                (Fresh-step k r (signal sig word e) before.1))),
      )

  -- In every run from a valid machine, however the guest behaves and whatever signals come, the pages
  -- that were mapped for the guest since its address space was last cleared, or since the start, are
  -- those of its present mode and satp: to each the page table led, with these, that the guest had at
  -- some point of that run.
  pub Runs-IsFresh : (n : Machine) → IsValid m → (r : Runs m n) → IsFresh r n.priv n.calls
  Runs-IsFresh n valid r = (Runs-both valid r).1
