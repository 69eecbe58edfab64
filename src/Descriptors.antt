-- ===== src/Descriptors.antt =====
-- What the loader relies on of open(2), close(2), dup2(2), fstat(2), memfd_create(2) and
-- ftruncate(2): a table of descriptors over an unknown state, and what the manual says of the calls.
-- A process has up to 1024 descriptors, and a result of -1 is the word 2 ^ 64 - 1.
use urvirt.Common.{ℕ, ◌≤◌, ◌<◌, ◌≡◌, false, ◌==◌, ◌-◌, ◌^◌, if◌then◌else◌, Option, none, some}

-- What a descriptor stands for: the file of a name, or an unnamed file in memory, told apart from
-- others by a number, with its length.
pub data OpenFile : Type 0 where
  on_disk : (name : ℕ) → OpenFile
  in_memory : (id length : ℕ) → OpenFile

-- `size_at` is the size of the file of a name, if it can be opened with those flags.
pub record Descriptors : Type 1 where
  pub State : Type 0
  pub file : State → ℕ → Option OpenFile
  pub size_at : (name flags : ℕ) → Option ℕ
  pub fresh : State → ℕ
  pub open_file : State → (name flags : ℕ) → ℕ × State
  pub memfd_create : State → ℕ × State
  pub ftruncate : State → (fd length : ℕ) → State
  pub fstat : State → (fd : ℕ) → Option ℕ
  pub dup2 : State → (old new : ℕ) → State
  pub close : State → (fd : ℕ) → State

-- What is seen of a descriptor once the file in memory of a number has another length.
abbrev pub resized : (id length : ℕ) → Option OpenFile → Option OpenFile
resized id length (some (in_memory j n)) = some (in_memory j (if j == id then length else n))
resized id length (some (on_disk name)) = some (on_disk name)
resized id length none = none

-- From `s` to `s'` a descriptor `fd` that was not in use, and is no larger than the unused `n`, came
-- to stand for a file.
pub record IsNew (D : Descriptors) (s s' : D.State) (n fd : ℕ) (f : OpenFile) : Type 0 where
  pub least : fd ≤ n
  pub unused : D.file s fd ≡ none
  pub files : (d : ℕ) → D.file s' d ≡ (if d == fd then some f else D.file s d)

pub record IsPosix (D : Descriptors) : Type 0 where
  pub open_file_lem :
      (s : D.State) (name flags size n : ℕ)
      → D.size_at name flags ≡ some size
      → n < 1024
      → D.file s n ≡ none
      → let r = D.open_file s name flags in IsNew D s r.1 n r.0 (on_disk name)
  pub open_file-missing :
      (s : D.State) (name flags : ℕ)
      → D.size_at name flags ≡ none
      → let r = D.open_file s name flags in
        (r.0 ≡ 2 ^ 64 - 1) × ((d : ℕ) → D.file r.1 d ≡ D.file s d)
  pub memfd_create_lem :
      (s : D.State) (n : ℕ)
      → n < 1024
      → D.file s n ≡ none
      → let r = D.memfd_create s in IsNew D s r.1 n r.0 (in_memory (D.fresh s) 0)
  -- The number of a new file is that of no file that a descriptor stands for.
  pub fresh_lem :
      (s : D.State) (d id length : ℕ)
      → D.file s d ≡ some (in_memory id length)
      → id == D.fresh s ≡ false
  pub ftruncate_lem :
      (s : D.State) (fd id n length d : ℕ)
      → D.file s fd ≡ some (in_memory id n)
      → D.file (D.ftruncate s fd length) d ≡ resized id length (D.file s d)
  pub fstat_lem :
      (s : D.State) (fd name flags size : ℕ)
      → D.file s fd ≡ some (on_disk name)
      → D.size_at name flags ≡ some size
      → D.fstat s fd ≡ some size
  -- Calls on a descriptor that stands for nothing fail and change nothing.
  pub file-limit : (s : D.State) (fd : ℕ) → 1024 ≤ fd → D.file s fd ≡ none
  pub fstat-none : (s : D.State) (fd : ℕ) → D.file s fd ≡ none → D.fstat s fd ≡ none
  pub dup2-none :
      (s : D.State) (old new d : ℕ) → D.file s old ≡ none → D.file (D.dup2 s old new) d ≡ D.file s d
  pub dup2_lem :
      (s : D.State) (old new d : ℕ) (f : OpenFile)
      → D.file s old ≡ some f
      → new < 1024
      → D.file (D.dup2 s old new) d ≡ (if d == new then some f else D.file s d)
  pub close_lem :
      (s : D.State) (fd d : ℕ) → D.file (D.close s fd) d ≡ (if d == fd then none else D.file s d)
