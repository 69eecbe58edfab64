-- ===== src/StartUp/Booted.antt =====
-- The whole start-up: what the guest is started in.
use urvirt.Common.{ℕ, ◌+◌, ◌^◌, ◌<◌, ◌≡◌, u64, List, ◌∷◌, ◌++◌}
use urvirt.Outcome.{ok}
use urvirt.Memory.{kernel_start}
use urvirt.Priv.{initialize_priv}
use urvirt.Seccomp.{gen_addr_filter}
use urvirt.Machine.{Syscall, s_seccomp, s_prctl, log}
use urvirt.AddressSpace.{AddressSpace, IsLawful, page_up}
use urvirt.StartUp.{Answers, Process, munmap, record_call, entrypoint}
use urvirt.StartUp.Spec.{IsLoaded, stub_end, guest_view}
use urvirt.StartUp.Unmap.{unmap_others-OnlyStub}
use urvirt.StartUp.Stack.{HasStack, with_stack, set_up_stack-HasStack}
use urvirt.StartUp.Load.{HasKernel, with_kernel}

-- The guest runs at `kernel_start` in an address space of the stub, its stack and RAM; RAM has the
-- kernel; the shared page has a fresh privileged state, the stub's range with its stack, and the
-- timer; and the filter for that range was installed.
pub record IsBooted (S : AddressSpace) (answers : Answers) (p b : Process S) : Type 0 where
  pub view : (a : ℕ) → a < 2 ^ 38 → S.backing b.space a ≡ guest_view p.config (S.backing p.space) a
  pub ram : (o : ℕ) → b.ram o ≡ with_kernel answers.kernel_file 0 p.config.kernel_size p.ram o
  pub config :
      b.config ≡ initialize_priv (record (with_stack p.config) { timerid = answers.timerid })
  pub pc : b.pc ≡ kernel_start
  pub before : List Syscall
  pub after : List Syscall
  pub installed :
      b.calls
      ≡ after
        ++ s_seccomp 1 0
            (gen_addr_filter answers.sc_ip_low p.config.stub_start (stub_end p.config + 4096))
          ∷ before

module _ {S : AddressSpace} (L : IsLawful S) (answers : Answers) (p : Process S) (room : ℕ)
    (d : IsLoaded S p room) where
  module _ (conf : ℕ) (q : Process S) (o : HasStack S p q conf) (kernel : ℕ) (r : Process S)
      (t : HasKernel S answers.kernel_file p r conf kernel) where
    abbrev filtered : Process S
    filtered = record_call (record_call r (s_prctl 38 1 0 0 0)) (
        s_seccomp 1 0 (
          gen_addr_filter answers.sc_ip_low r.config.stub_start
            (u64 (r.config.stub_start + r.config.stub_size))))

    abbrev without_kernel : Process S
    without_kernel = munmap filtered kernel (page_up p.config.kernel_size)

    abbrev booted : Process S
    booted =
        record (record_call
          (munmap
            (record without_kernel {
              config = record (initialize_priv r.config) { timerid = answers.timerid };
            })
            conf 4096)
          (log "Jumping to kernel ...")) { pc = kernel_start }

  abbrev entered :
      (conf : ℕ) × (q : Process S) × (entrypoint p ≡ ok ((stub_end p.config, conf), q))
      × HasStack S p q conf
  entered =
      let first = unmap_others-OnlyStub L p room d in
      let second = set_up_stack-HasStack L p room d first.0 first.2 in
      (second.0, second.1, (unfold entrypoint in rw first.1 second.2), second.3)
