-- ===== src/Loader/Ready.antt =====
-- What the loader needs: files, descriptors and free pages.
use urvirt.Common.{
  ℕ, ◌+◌, ◌*◌, ◌%◌, ◌^◌, ◌≤◌, ◌<◌, ◌≡◌, ◌⊎◌, true, ◌&&◌, ◌||◌, ◌==◌, leb, ltb, none, some,
}
use urvirt.Memory.{ram_start, ram_size}
use urvirt.AddressSpace.{AddressSpace, IsHospitable, IsHole, handed_on, page_up}
use urvirt.Descriptors.{Descriptors}
use urvirt.StartUp.{Process}

-- The sizes of the images of the stub and the kernel, that of the file system's file, a place for the
-- stub, and the start of free pages for the mappings that come and go.
pub record Sizes : Type 0 where
  pub stub_size : ℕ
  pub kernel_size : ℕ
  pub fs_size : ℕ
  pub hole : ℕ
  pub room : ℕ

-- Room for the kernel's file and one more page, twice.
abbrev pub spare : ℕ → ℕ
spare kernel_size = 2 * (page_up kernel_size + 4096)

module _ (D : Descriptors) (S : AddressSpace) where
  -- Where the stub is mapped.
  abbrev pub stub_addr : (stub : ℕ) → Sizes → D.State → Process S → ℕ
  stub_addr stub z s p = (S.map p.space 0 (page_up z.stub_size) 2 (D.open_file s stub 0).0 0).0

  -- The system is hospitable, the stub's image can be opened and the descriptors 8 and 9 are free. There are free pages for the
  -- stub; where it goes a page is left after it, and both lie outside the guest's RAM. The spare pages
  -- are free and lie outside of all that.
  pub record IsPlaced (stub : ℕ) (z : Sizes) (s : D.State) (p : Process S) : Type 0 where
    pub hospitable : IsHospitable S (λ fd. fd == (D.open_file s stub 0).0 || handed_on fd)
    pub stub_image : D.size_at stub 0 ≡ some z.stub_size
    pub eight : D.file s 8 ≡ none
    pub nine : D.file s 9 ≡ none
    pub place : IsHole S p.space (page_up z.stub_size) z.hole
    pub below : stub_addr stub z s p + page_up z.stub_size + 4096 ≤ 2 ^ 38
    pub apart :
        (stub_addr stub z s p + page_up z.stub_size + 4096 ≤ ram_start)
        ⊎ (ram_start + ram_size ≤ stub_addr stub z s p)
    pub room_aligned : z.room % 4096 ≡ 0
    pub room_below : z.room + spare z.kernel_size ≤ 2 ^ 38
    pub room_ram : (z.room + spare z.kernel_size ≤ ram_start) ⊎ (ram_start + ram_size ≤ z.room)
    pub room_stub :
        (z.room + spare z.kernel_size ≤ stub_addr stub z s p)
        ⊎ (stub_addr stub z s p + page_up z.stub_size + 4096 ≤ z.room)
    pub room_free :
        (a : ℕ)
        → leb z.room a && ltb a (z.room + spare z.kernel_size) ≡ true
        → S.backing p.space a ≡ none

  -- The other files can be opened too, and the kernel's is not empty and fits into RAM.
  pub record IsReady (stub kernel fs : ℕ) (z : Sizes) (s : D.State) (p : Process S) : Type 0 where
    pub placed : IsPlaced stub z s p
    pub kernel_image : D.size_at kernel 0 ≡ some z.kernel_size
    pub fs_image : D.size_at fs 2 ≡ some z.fs_size
    pub some_kernel : 0 < z.kernel_size
    pub kernel_fits : z.kernel_size + 0x200000 ≤ ram_size
