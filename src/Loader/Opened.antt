-- ===== src/Loader/Opened.antt =====
-- The descriptors that the loader leaves for the stub.
use urvirt.Common.{ℕ, ◌<◌, ◌≡◌, refl, ap, ◌∙◌, ◌==◌, if◌then◌else◌, Option, none, some, arith}
use urvirt.Descriptors.{Descriptors, on_disk, in_memory, IsNew, IsPosix}
use urvirt.Loader.{st_size, move, create_files, open_files}
use urvirt.Loader.Files.{opened_as, file-open_file-move, file-create_files}

-- What the loader opens, beyond what was open: the two files in memory, and the kernel's image and the
-- file system's, if they can be opened.
pub record HasFiles (D : Descriptors) (kernel fs : ℕ) (s s' : D.State) : Type 0 where
  pub config_id : ℕ
  pub ram_id : ℕ
  pub files :
      (d : ℕ)
      → D.file s' d ≡ (
          if d == 64
          then some (in_memory config_id 4096)
          else if d == 65
          then some (in_memory ram_id 0x1000000)
          else if d == 66
          then opened_as (D.size_at kernel 0) kernel (D.file s 66)
          else if d == 67
          then opened_as (D.size_at fs 2) fs (D.file s 67)
          else D.file s d)

module _ {D : Descriptors} (L : IsPosix D) where
  -- The attempt to open a file finds its size, or nothing.
  fstat-open_file :
      (s : D.State) (name flags n : ℕ)
      → D.file s n ≡ none
      → n < 1024
      → let r = D.open_file s name flags in D.fstat r.1 r.0 ≡ D.size_at name flags
  fstat-open_file s name flags n unused below = go (D.size_at name flags) refl
    where
      r : ℕ × D.State
      r = D.open_file s name flags

      go : (size : Option ℕ) → D.size_at name flags ≡ size → D.fstat r.1 r.0 ≡ size
      go (some size) e =
          let new : IsNew D s r.1 n r.0 (on_disk name) =
            L.open_file_lem s name flags size n e below unused in
          L.fstat_lem r.1 r.0 name flags size (new.files r.0 ∙ ground arith) e
      go none e =
          let failed = L.open_file-missing s name flags e in
          L.fstat-none r.1 r.0 (L.file-limit r.1 r.0 (omega (arith, failed.0)))

  module _ (kernel fs before : ℕ) (s : D.State) (eight : D.file s 8 ≡ none)
      (nine : D.file s 9 ≡ none) where
    kernel_moved : D.State
    kernel_moved = move D (D.open_file s kernel 0).1 (D.open_file s kernel 0).0 66

    file-kernel_moved :
        (d : ℕ)
        → D.file kernel_moved d
          ≡ (if d == 66 then opened_as (D.size_at kernel 0) kernel (D.file s 66) else D.file s d)
    unfolding kernel_moved
    file-kernel_moved = file-open_file-move L s kernel 0 8 66 eight (omega arith) (omega arith)

    eight' : D.file kernel_moved 8 ≡ none
    eight' = file-kernel_moved 8 ∙ eight

    nine' : D.file kernel_moved 9 ≡ none
    nine' = file-kernel_moved 9 ∙ nine

    s2 : D.State
    s2 = create_files D kernel_moved

    file-s2 :
        (d : ℕ)
        → D.file s2 d ≡ (
            if d == 65
            then some (in_memory (D.fresh (D.memfd_create kernel_moved).1) 0x1000000)
            else if d == 64
            then some (in_memory (D.fresh kernel_moved) 4096)
            else D.file kernel_moved d)
    unfolding s2
    file-s2 = file-create_files L kernel_moved eight' nine'

    abbrev s4 : D.State
    s4 = move D (D.open_file s2 fs 2).1 (D.open_file s2 fs 2).0 67

    file-s4 :
        (d : ℕ)
        → D.file s4 d
          ≡ (if d == 67 then opened_as (D.size_at fs 2) fs (D.file s 67) else D.file s2 d)
    file-s4 d =
        file-open_file-move L s2 fs 2 8 67 (file-s2 8 ∙ eight') (omega arith) (omega arith) d
        ∙ ap (λ o. if d == 67 then opened_as (D.size_at fs 2) fs o else D.file s2 d)
            (file-s2 67 ∙ file-kernel_moved 67)

    -- The size is the kernel's image's, or what it was before.
    pub open_files-HasFiles :
        (s' : D.State) × (open_files D kernel fs before s
          ≡ (st_size (D.size_at kernel 0) before, s'))
        × HasFiles D kernel fs s s'
    open_files-HasFiles = (
      s4,
      (unfold open_files s2 kernel_moved in
          rw (fstat-open_file s kernel 0 8 eight (omega arith)) refl),
      record {
        config_id = D.fresh kernel_moved;
        ram_id = D.fresh (D.memfd_create kernel_moved).1;
        files = λ d. ground (arith, file-s4 d, file-s2 d, file-kernel_moved d);
      },
    )
