-- ===== src/Loader/Loaded.antt =====
-- The loader as a whole, and the stub's start-up after it.
use urvirt.Common.{ℕ}
use urvirt.Machine.{log}
use urvirt.AddressSpace.{AddressSpace, IsLawful, page_up}
use urvirt.Descriptors.{Descriptors, IsPosix}
use urvirt.StartUp.{Process, mmap, munmap, record_call, map_config}
use urvirt.Loader.{blank, st_size}
use urvirt.Loader.Ready.{Sizes, stub_addr, IsPlaced, IsReady}

module _ {D : Descriptors} {S : AddressSpace} (L : IsPosix D) (M : IsLawful S) (stub kernel fs : ℕ)
    (z : Sizes) (s : D.State) (p : Process S) (h : IsPlaced D S stub z s p) where
  abbrev fd : ℕ
  fd = (D.open_file s stub 0).0

  abbrev at : ℕ
  at = stub_addr D S stub z s p

  -- Opened and closed again, the stub's image leaves no descriptor.
  abbrev closed : D.State
  closed = D.close (D.open_file s stub 0).1 fd

  -- The size that the stub is told: the kernel's, or what the struct still holds of the stub's image.
  abbrev told : ℕ
  told = st_size (D.size_at kernel 0) z.stub_size

  abbrev with_stub : Process S
  with_stub = record (mmap p 0 (page_up z.stub_size) 5 2 fd 0).1 { config = blank; ram = λ o. 0 }

  abbrev conf : ℕ
  conf = (map_config with_stub).0

  -- The process at the jump.
  abbrev jumped : Process S
  jumped =
      let written = record (map_config with_stub).1 {
        config = record blank {
          stub_start = at;
          stub_size = page_up z.stub_size;
          kernel_size = told;
        };
      } in
      record (record_call (munmap written conf 4096) (log "[urvirt] Entering urvirt-stub\n")) {
        pc = at;
      }

module _ {D : Descriptors} {S : AddressSpace} (L : IsPosix D) (M : IsLawful S) (stub kernel fs : ℕ)
    (z : Sizes) (s : D.State) (p : Process S) (h : IsReady D S stub kernel fs z s p) where
  abbrev left : Process S
  left = jumped L M stub kernel fs z s p h.placed
