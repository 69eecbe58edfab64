-- ===== src/StartUp/Load.antt =====
-- The first half of entrypoint_1: RAM, and the kernel in it.
use urvirt.Common.{
  ℕ, zero, suc, ◌+◌, ◌-◌, ◌*◌, ◌%◌, ◌^◌, ◌≤◌, ◌<◌, ◌≡◌, refl, ap, ◌∙◌, sym, ◌⊎◌, true, false, ◌&&◌,
  leb, ltb, if◌then◌else◌, arith, Option, none, some, u64, not64, ◌&&&◌,
}
use urvirt.Bits.{clear_low12}
use urvirt.Outcome.{ok}
use urvirt.Memory.{ram_start, ram_size}
use urvirt.Priv.{PrivState}
use urvirt.Machine.{update, s_riscv_flush_icache}
use urvirt.AddressSpace.{
  AddressSpace, Backing, IsLawful, IsHole, in_pages, of_file, page_up, map-IsHole, backing-map,
}
use urvirt.StartUp.{Answers, Process, mmap, record_call, copy_kernel, load_kernel}
use urvirt.StartUp.Config.{read_config-ok}
use urvirt.StartUp.Spec.{IsLoaded, span, in_ram}
use urvirt.StartUp.Stack.{HasStack, stub_view, with_stack}

-- RAM with `n` bytes of the kernel from byte `i` on, where the kernel goes.
abbrev pub with_kernel : (ℕ → ℕ) → (i n : ℕ) → (ℕ → ℕ) → ℕ → ℕ
with_kernel file i n ram o =
    if leb (0x200000 + i) o && ltb o (0x200000 + n) then file (o - 0x200000) else ram o

module _ (answers : Answers) (view : ℕ → Option Backing) (kernel n : ℕ)
    (from : (j : ℕ) → j < n → view (kernel + j) ≡ some (of_file 66 j))
    (to : (j : ℕ) → j < n → view (0x80200000 + j) ≡ some (of_file 65 (0x200000 + j))) where
  -- The loop copies every byte that is left, and no other.
  pub copy_kernel-ok :
      (rounds i : ℕ) (ram : ℕ → ℕ)
      → i + rounds ≡ n
      → (ram' : ℕ → ℕ) × (copy_kernel answers view kernel rounds i ram ≡ ok ram')
        × ((o : ℕ) → ram' o ≡ with_kernel answers.kernel_file i n ram o)
  unfolding copy_kernel
  copy_kernel-ok zero i ram e = (ram, refl, λ o. ground arith)
  copy_kernel-ok (suc rounds) i ram e =
      let rest =
        copy_kernel-ok rounds (suc i) (update ram (0x200000 + i) (answers.kernel_file i))
          (omega arith) in
      (
        rest.0,
        rw (from i (omega arith), to i (omega arith)) rest.1,
        λ o. rest.2 o ∙ ground (arith, same o),
      )
    where
      same : (o : ℕ) → o ≡ 0x200000 + i → answers.kernel_file i ≡ answers.kernel_file (o - 0x200000)
      same o e' = ap answers.kernel_file (omega arith)

-- What is there once the kernel is loaded: its file is mapped at `kernel`.
abbrev pub ram_view : PrivState → (ℕ → Option Backing) → ℕ → ℕ → Option Backing
ram_view c before conf a =
    if in_ram a
    then some (of_file 65 (a - ram_start))
    else if in_pages conf 4096 a
    then some (of_file 64 (a - conf))
    else stub_view c before a

pub record HasKernel (S : AddressSpace) (file : ℕ → ℕ) (p r : Process S) (conf kernel : ℕ)
    : Type 0 where
  pub config : r.config ≡ with_stack p.config
  pub ram : (o : ℕ) → r.ram o ≡ with_kernel file 0 p.config.kernel_size p.ram o
  pub aligned : kernel % 4096 ≡ 0
  pub within : kernel + page_up p.config.kernel_size ≤ 2 ^ 38
  pub apart : (kernel + page_up p.config.kernel_size ≤ ram_start) ⊎ (ram_start + ram_size ≤ kernel)
  pub hidden :
      (a : ℕ)
      → in_pages kernel p.config.kernel_size a ≡ true
      → ram_view p.config (S.backing p.space) conf a ≡ none
  pub view :
      (a : ℕ)
      → a < 2 ^ 38
      → S.backing r.space a ≡ (
          if in_pages kernel p.config.kernel_size a
          then some (of_file 66 (a - kernel))
          else ram_view p.config (S.backing p.space) conf a)

module _ {S : AddressSpace} (L : IsLawful S) (answers : Answers) (p : Process S) (room : ℕ)
    (d : IsLoaded S p room) (q : Process S) (conf : ℕ) (o : HasStack S p q conf) where
  abbrev with_ram : Process S
  with_ram = (mmap q 0x80000000 0x1000000 7 17 65 0).1

  backing-with_ram :
      (a : ℕ)
      → a < 2 ^ 38
      → S.backing with_ram.space a ≡ ram_view p.config (S.backing p.space) conf a
  backing-with_ram a user = ground (
    arith,
    d.apart,
    L.map-fixed_lem q.space 0x80000000 0x1000000 17 65 0 a refl,
    d.hospitable.granted q.space 0x1000000 17 65 0,
    o.view a user,
  )

  -- The half of the free pages in which the shared page is not.
  abbrev half : ℕ
  half = if ltb conf (room + span p.config) then room + span p.config else room

  half-inside :
      (a : ℕ)
      → in_pages half (page_up p.config.kernel_size) a ≡ true
      → leb room a && ltb a (room + 2 * span p.config) ≡ true
  half-inside a e = ground arith

  half-apart :
      (a : ℕ) → in_pages half (page_up p.config.kernel_size) a ≡ true → in_pages conf 4096 a ≡ false
  half-apart a e = ground (arith, o.aligned, d.room_aligned)

  room-free :
      (a : ℕ)
      → leb room a && ltb a (room + 2 * span p.config) ≡ true
      → in_pages conf 4096 a ≡ false
      → ram_view p.config (S.backing p.space) conf a ≡ none
  room-free a e f = rw f (ground (arith, d.room_free a, d.room_stub, d.room_ram))

  hole : IsHole S with_ram.space (page_up p.config.kernel_size) half
  hole = record {
    nonempty = omega (arith, d.some_kernel);
    aligned = ground (arith, d.room_aligned);
    within = ground (arith, d.room_below);
    apart = ground (arith, d.room_ram);
    free = λ a e.
        backing-with_ram a (ground (arith, half-inside a e, d.room_below))
        ∙ room-free a (half-inside a e) (half-apart a e);
  }

  abbrev with_file : Process S
  with_file = (mmap with_ram 0 (page_up p.config.kernel_size) 1 2 66 0).1

  abbrev kernel_at : ℕ
  kernel_at = (mmap with_ram 0 (page_up p.config.kernel_size) 1 2 66 0).0

  kernel-IsHole : IsHole S with_ram.space (page_up p.config.kernel_size) kernel_at
  kernel-IsHole =
      map-IsHole L d.hospitable with_ram.space (page_up p.config.kernel_size) 2 66 0 half refl refl
        hole

  whole_pages : page_up (page_up p.config.kernel_size) ≡ page_up p.config.kernel_size
  whole_pages = omega arith

  backing-with_file :
      (a : ℕ)
      → a < 2 ^ 38
      → S.backing with_file.space a ≡ (
          if in_pages kernel_at p.config.kernel_size a
          then some (of_file 66 (a - kernel_at))
          else ram_view p.config (S.backing p.space) conf a)
  backing-with_file a user =
      backing-map L d.hospitable with_ram.space (page_up p.config.kernel_size) 2 66 0 half refl refl
        hole a
      ∙ rw (whole_pages, backing-with_ram a user) (ground arith)

  kernel-hidden :
      (a : ℕ)
      → in_pages kernel_at p.config.kernel_size a ≡ true
      → ram_view p.config (S.backing p.space) conf a ≡ none
  kernel-hidden a e =
      sym (backing-with_ram a (ground (arith, kernel-IsHole.within)))
      ∙ kernel-IsHole.free a (rw whole_pages e)

  conf-with_ram : S.backing with_ram.space conf ≡ some (of_file 64 0)
  conf-with_ram = backing-with_ram conf (omega (arith, o.within)) ∙ ground (arith, o.apart)

  conf-with_file : S.backing with_file.space conf ≡ some (of_file 64 0)
  conf-with_file =
      backing-with_file conf (omega (arith, o.within))
      ∙ ground (arith, o.apart, kernel-hidden conf, some_ne_none (of_file 64 0))
    where
      some_ne_none : (b : Backing) → some b ≡ none → ⊥
      some_ne_none b e = cc

  from :
      (j : ℕ)
      → j < p.config.kernel_size
      → S.backing with_file.space (kernel_at + j) ≡ some (of_file 66 j)
  from j h = backing-with_file (kernel_at + j) (omega (arith, kernel-IsHole.within)) ∙ ground arith

  not_file :
      (j : ℕ)
      → j < p.config.kernel_size
      → in_pages kernel_at p.config.kernel_size (0x80200000 + j) ≡ false
  not_file j h = ground (arith, kernel-IsHole.apart, d.kernel_fits)

  to :
      (j : ℕ)
      → j < p.config.kernel_size
      → S.backing with_file.space (0x80200000 + j) ≡ some (of_file 65 (0x200000 + j))
  to j h =
      backing-with_file (0x80200000 + j) (omega (arith, d.kernel_fits))
      ∙ rw (not_file j h) (ground (arith, d.kernel_fits))

  copied :
      (ram' : ℕ → ℕ) × (copy_kernel answers
          (S.backing with_file.space)
          kernel_at
          p.config.kernel_size
          0
          q.ram
        ≡ ok ram')
      × ((i : ℕ) → ram' i ≡ with_kernel answers.kernel_file 0 p.config.kernel_size q.ram i)
  copied =
      copy_kernel-ok answers (S.backing with_file.space) kernel_at p.config.kernel_size from to
        p.config.kernel_size 0 q.ram (omega arith)

  load_kernel-ok :
      load_kernel answers conf q
      ≡ ok (
        (kernel_at, page_up p.config.kernel_size),
        record_call (record with_file { ram = copied.0 }) (s_riscv_flush_icache 0 0 0),
      )
  unfolding load_kernel
  load_kernel-ok =
      rw (read_config-ok with_ram conf conf-with_ram, rounded)
        (rw (read_config-ok with_file conf conf-with_file, counted) refl)
    where
      size : q.config.kernel_size ≡ p.config.kernel_size
      size = ap (λ c. c.kernel_size) o.config

      rounded : u64 (q.config.kernel_size + 4095) &&& not64 4095 ≡ page_up p.config.kernel_size
      rounded =
          clear_low12 (u64 (q.config.kernel_size + 4095)) (omega arith)
          ∙ omega (arith, size, d.kernel_fits)

      counted :
          copy_kernel answers (S.backing with_file.space) kernel_at q.config.kernel_size 0 q.ram
          ≡ ok copied.0
      counted =
          ap (λ n. copy_kernel answers (S.backing with_file.space) kernel_at n 0 q.ram) size
          ∙ copied.1

  -- RAM is mapped and has the kernel, whose file is still mapped.
  pub load_kernel-HasKernel :
      (kernel : ℕ) × (r : Process S) × (load_kernel answers conf q
        ≡ ok ((kernel, page_up p.config.kernel_size), r))
      × HasKernel S answers.kernel_file p r conf kernel
  load_kernel-HasKernel = (
    kernel_at,
    record_call (record with_file { ram = copied.0 }) (s_riscv_flush_icache 0 0 0),
    load_kernel-ok,
    record {
      config = o.config;
      ram = λ i. copied.2 i ∙ ground (arith, o.ram i);
      aligned = kernel-IsHole.aligned;
      within = omega (arith, kernel-IsHole.within);
      apart = ground (arith, kernel-IsHole.apart);
      hidden = kernel-hidden;
      view = backing-with_file;
    },
  )
