-- ===== src/Loader/Files.antt =====
-- A new descriptor under a fixed number, and the two files in memory.
use urvirt.Common.{
  ℕ, ◌-◌, ◌^◌, ◌<◌, ◌≡◌, refl, ap, sym, ◌∙◌, true, false, ◌==◌, if◌then◌else◌, Option, none, some,
  arith, Bool-cases, inl, inr, ◌⊎◌,
}
use urvirt.Memory.{conf_size, ram_size}
use urvirt.Descriptors.{Descriptors, OpenFile, on_disk, in_memory, resized, IsNew, IsPosix}
use urvirt.Loader.{move, create_files}

-- What a number stands for after an attempt to open a file, if its size is there, for it.
abbrev pub opened_as : (size : Option ℕ) (name : ℕ) → Option OpenFile → Option OpenFile
opened_as (some size) name before = some (on_disk name)
opened_as none name before = before

module _ {D : Descriptors} (L : IsPosix D) where
  -- A new descriptor that is moved to a number leaves only that number changed.
  pub file-move :
      (s s' : D.State) (n fd number : ℕ) (f : OpenFile)
      → IsNew D s s' n fd f
      → n < number
      → number < 1024
      → (d : ℕ) → D.file (move D s' fd number) d ≡ (if d == number then some f else D.file s d)
  file-move s s' n fd number f h below fits d = ground (
    arith,
    L.close_lem (D.dup2 s' fd number) fd d,
    L.dup2_lem s' fd number d f,
    h.files d,
    h.files fd,
    h.least,
    unused d,
  )
    where
      unused : (d : ℕ) → d ≡ fd → D.file s d ≡ none
      unused d e = ap (D.file s) e ∙ h.unused

  -- What an attempt to open a file leaves under the number it is then moved to: what was there before,
  -- if the file cannot be opened.
  pub file-open_file-move :
      (s : D.State) (name flags n number : ℕ)
      → D.file s n ≡ none
      → n < number
      → number < 1024
      → let r = D.open_file s name flags in
        (d : ℕ)
        → D.file (move D r.1 r.0 number) d ≡ (
            if d == number
            then opened_as (D.size_at name flags) name (D.file s number)
            else D.file s d)
  file-open_file-move s name flags n number unused below fits d = go (D.size_at name flags) refl
    where
      go :
          (size : Option ℕ)
          → D.size_at name flags ≡ size
          → let r = D.open_file s name flags in
            D.file (move D r.1 r.0 number) d
            ≡ (if d == number then opened_as size name (D.file s number) else D.file s d)
      go (some size) e =
          file-move s _ n (D.open_file s name flags).0 number (on_disk name)
            (L.open_file_lem s name flags size n e (omega (arith, below, fits)) unused) below fits d
      go none e = ground (
        arith,
        L.close_lem (D.dup2 r.1 r.0 number) r.0 d,
        L.dup2-none r.1 r.0 number d (L.file-limit r.1 r.0 (omega (arith, failed.0))),
        failed.0,
        failed.1 d,
        L.file-limit s d,
        same,
      )
        where
          r : ℕ × D.State
          r = D.open_file s name flags

          failed : (r.0 ≡ 2 ^ 64 - 1) × ((d : ℕ) → D.file r.1 d ≡ D.file s d)
          failed = L.open_file-missing s name flags e

          same : (d == number) ≡ true → D.file s d ≡ D.file s number
          same h = ap (D.file s) (ground (arith, h))

  -- Other files in memory keep their length.
  resized-other :
      (s : D.State) (id length d : ℕ)
      → ((j n : ℕ) → D.file s d ≡ some (in_memory j n) → j == id ≡ false)
      → resized id length (D.file s d) ≡ D.file s d
  resized-other s id length d other = go (D.file s d) other
    where
      go :
          (o : Option OpenFile)
          → ((j n : ℕ) → o ≡ some (in_memory j n) → j == id ≡ false)
          → resized id length o ≡ o
      go none h = refl
      go (some (on_disk name)) h = refl
      go (some (in_memory j n)) h = rw (h j n refl) refl

  module _ (s : D.State) (eight : D.file s 8 ≡ none) (nine : D.file s 9 ≡ none) where
    abbrev s1 : D.State
    s1 = (D.memfd_create s).1

    first : IsNew D s s1 8 (D.memfd_create s).0 (in_memory (D.fresh s) 0)
    first = L.memfd_create_lem s 8 (omega arith) eight

    second : IsNew D s1 (D.memfd_create s1).1 9 (D.memfd_create s1).0 (in_memory (D.fresh s1) 0)
    second =
        L.memfd_create_lem s1 9 (omega arith) (ground (arith, first.files 9, first.least, nine))

    abbrev c : ℕ
    c = (D.memfd_create s).0

    abbrev e : ℕ
    e = (D.memfd_create s1).0

    abbrev i : ℕ
    i = D.fresh s

    abbrev j : ℕ
    j = D.fresh s1

    at_c : D.file s1 c ≡ some (in_memory i 0)
    at_c = first.files c ∙ ground arith

    apart : c == e ≡ false
    apart = elim (Bool-cases (c == e)) [
      | inl same ↦ absurd (clash (sym at_c ∙ ap (D.file s1) (ground (arith, same)) ∙ second.unused))
      | inr other ↦ other
    ]
      where
        clash : some (in_memory i 0) ≡ none → ⊥
        clash h = cc

    differ : i == j ≡ false
    differ = L.fresh_lem s1 c i 0 at_c

    -- The two new files, of these lengths.
    abbrev with_files : (m n d : ℕ) → Option OpenFile
    with_files m n d =
        if d == e then some (in_memory j n) else if d == c then some (in_memory i m) else D.file s d

    created : (d : ℕ) → D.file (D.memfd_create s1).1 d ≡ with_files 0 0 d
    created d = second.files d ∙ ground (arith, first.files d)

    old :
        (d id n : ℕ)
        → d == c ≡ false
        → D.file s d ≡ some (in_memory id n)
        → (id == i ≡ false) × (id == j ≡ false)
    old d id n other h =
        (L.fresh_lem s d id n h, L.fresh_lem s1 d id n (first.files d ∙ ground (arith, other, h)))

    resized-i : (m n len d : ℕ) → resized i len (with_files m n d) ≡ with_files len n d
    resized-i m n len d = elim (Bool-cases (d == e)) [
      | inl h ↦ rw h (ground (arith, differ))
      | inr h ↦ elim (Bool-cases (d == c)) [
        | inl k ↦ rw (h, k) (ground arith)
        | inr k ↦ rw (h, k) (resized-other s i len d (λ id n t. (old d id n k t).0))
      ]
    ]

    resized-j : (m n len d : ℕ) → resized j len (with_files m n d) ≡ with_files m len d
    resized-j m n len d = elim (Bool-cases (d == e)) [
      | inl h ↦ rw h (ground arith)
      | inr h ↦ elim (Bool-cases (d == c)) [
        | inl k ↦ rw (h, k) (ground (arith, differ))
        | inr k ↦ rw (h, k) (resized-other s j len d (λ id n t. (old d id n k t).1))
      ]
    ]

    abbrev s3 : D.State
    s3 = D.ftruncate (D.ftruncate (D.memfd_create s1).1 c conf_size) e ram_size

    truncated : (d : ℕ) → D.file s3 d ≡ with_files conf_size ram_size d
    truncated d =
        L.ftruncate_lem _ e j 0 ram_size d (once e ∙ ground arith)
        ∙ ap (resized j ram_size) (once d)
        ∙ resized-j conf_size 0 ram_size d
      where
        once :
            (d : ℕ)
            → D.file (D.ftruncate (D.memfd_create s1).1 c conf_size) d ≡ with_files conf_size 0 d
        once d =
            L.ftruncate_lem _ c i 0 conf_size d (created c ∙ ground (arith, apart))
            ∙ ap (resized i conf_size) (created d)
            ∙ resized-i 0 0 conf_size d

    abbrev s4 : D.State
    s4 = D.dup2 (D.dup2 s3 c 64) e 65

    numbered :
        (d : ℕ)
        → D.file s4 d ≡ (
            if d == 65
            then some (in_memory j ram_size)
            else if d == 64
            then some (in_memory i conf_size)
            else with_files conf_size ram_size d)
    numbered d =
        L.dup2_lem (D.dup2 s3 c 64) e 65 d (in_memory j ram_size)
          (once e ∙ ground (arith, second.least)) (omega arith)
        ∙ ground (arith, once d)
      where
        once :
            (d : ℕ)
            → D.file (D.dup2 s3 c 64) d
              ≡ (if d == 64 then some (in_memory i conf_size) else with_files conf_size ram_size d)
        once d =
            L.dup2_lem s3 c 64 d (in_memory i conf_size) (truncated c ∙ ground (arith, apart))
              (omega arith)
            ∙ ground (arith, truncated d)

    unused : (d : ℕ) → (d == c) ≡ true ⊎ (d == e) ≡ true → D.file s d ≡ none
    unused d (inl h) = ap (D.file s) {y = c} (ground (arith, h)) ∙ first.unused
    unused d (inr h) =
        ap (D.file s) {y = e} (ground (arith, h))
        ∙ sym (first.files e ∙ ground (arith, apart))
        ∙ second.unused

    -- The two files take the numbers 64 and 65, and no other descriptor changes.
    pub file-create_files :
        (d : ℕ)
        → D.file (create_files D s) d ≡ (
            if d == 65
            then some (in_memory j ram_size)
            else if d == 64
            then some (in_memory i conf_size)
            else D.file s d)
    unfolding create_files
    file-create_files d = ground (
      arith,
      L.close_lem (D.close s4 c) e d,
      L.close_lem s4 c d,
      numbered d,
      first.least,
      second.least,
      unused d,
    )
