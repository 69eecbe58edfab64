-- ===== src/Handler/Contained.antt =====
-- What the handler may do to the guest's address space.
pub mod Branches
use urvirt.Common.{
  ◌+◌, ◌^◌, ◌≡◌, refl, ap₂, sym, ◌⊎◌, inl, inr, true, false, arith, u64, sub64, List, Bool-cases,
  ◌∷◌,
}
use mathlib.Core.Path.{subst}
use urvirt.Outcome.{ok, Ensures, Ensures->>=, Ensures-ok}
use urvirt.Kernel.{Kernel}
use urvirt.Machine.{Machine, Syscall, IsValid, call, log, s_munmap}
use urvirt.Handler.{Signal, dispatch, clear_vm, handler}
use urvirt.Handler.Invariant.{IsWord}
use urvirt.Contained.{
  IsSameSpace, Allowed, Extends, more, shared_page, shared_page_end, below_stub, above_stub,
  start-IsContained, call-IsContained, stub_end,
}
use urvirt.Handler.Contained.Branches.{Contained, dispatch-IsContained, take_interrupt-IsContained}

module _ (k : Kernel) (m : Machine) where
  -- The last thing done, but for the end of the shared page's mapping, is to unmap all but the stub.
  abbrev pub IsCleared : Machine → Type 0
  IsCleared n =
      (before : List Syscall) × (n.calls
        ≡ s_munmap k.conf_address 4096
          ∷ s_munmap (stub_end m) (sub64 (2 ^ 38) (stub_end m))
          ∷ s_munmap 0 m.priv.stub_start
          ∷ before)

  -- At the end of a handler.
  abbrev pub IsLeft : Machine → Type 0
  IsLeft n =
      Extends k m m.calls n.calls
      × (n.priv.stub_start ≡ m.priv.stub_start)
      × (n.priv.stub_size ≡ m.priv.stub_size)
      × (IsSameSpace m.priv n.priv ⊎ IsCleared n)

  clear_vm-IsLeft :
      (n : Machine) → Contained k m n → IsLeft (call (clear_vm n) (s_munmap k.conf_address 4096))
  unfolding clear_vm
  clear_vm-IsLeft n h = elim (Bool-cases n.priv.should_clear_vm) [
    | inl asked ↦ rw asked (
      more _ shared_page_end (more _ above (more _ below h.log)),
      h.state.stub.0,
      h.state.stub.1,
      inr (
        n.calls,
        ap₂
            (λ start end.
              s_munmap k.conf_address 4096
              ∷ s_munmap end (sub64 (2 ^ 38) end)
              ∷ s_munmap 0 start
              ∷ n.calls)
            h.state.stub.0 same_end,
      ),
    )
    | inr quiet ↦ rw quiet (
      more _ shared_page_end h.log,
      h.state.stub.0,
      h.state.stub.1,
      inl (still quiet h.state.space),
    )
  ]
    where
      same_end : stub_end n ≡ stub_end m
      same_end = ap₂ (λ start size. u64 (start + size)) h.state.stub.0 h.state.stub.1

      below : Allowed k m (s_munmap 0 n.priv.stub_start)
      below = subst (λ start. Allowed k m (s_munmap 0 start)) (sym h.state.stub.0) below_stub

      above : Allowed k m (s_munmap (stub_end n) (sub64 (2 ^ 38) (stub_end n)))
      above =
          subst (λ end. Allowed k m (s_munmap end (sub64 (2 ^ 38) end))) (sym same_end) above_stub

      still :
          n.priv.should_clear_vm ≡ false
          → (n.priv.should_clear_vm ≡ true) ⊎ IsSameSpace m.priv n.priv
          → IsSameSpace m.priv n.priv
      still quiet (inl asked) = absurd (ground (arith, quiet, asked))
      still quiet (inr unchanged) = unchanged

  -- From a valid machine, whatever signal comes, a handler that returns has changed the address space
  -- only by the allowed calls: the shared page and the whole of RAM are mapped where Linux likes, and
  -- unmapped there; each other page that was mapped is a page of RAM to which the guest's page table
  -- leads, with the rights of the entry and over nothing that was mapped; and what else was
  -- unmapped lies below and above the stub. If the guest's mode or satp is another now, all that was
  -- unmapped, after all mapping. The stub stays where it is.
  pub handler-IsLeft :
      (sig : Signal) {n : Machine} → IsValid m → IsWord sig → handler k m sig ≡ ok n → IsLeft n
  handler-IsLeft sig valid word e = Ensures-ok IsLeft (handler k m sig) returns e
    where
      returns : Ensures IsLeft (handler k m sig)
      returns =
          unfold handler in
          Ensures->>= (Contained k m) IsLeft (dispatch k _ sig) _
            (dispatch-IsContained k m _ sig valid.state.translation word refl refl
              (call-IsContained k m m _ shared_page (start-IsContained k m)))
            (λ n v. clear_vm-IsLeft _ (take_interrupt-IsContained k m n v))
