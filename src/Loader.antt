-- ===== src/Loader.antt =====
-- src/urvirt-loader/urvirt-loader.c: the program that maps the stub and opens what it needs, up to
-- the jump into the stub.
pub mod Bounds
pub mod Files
pub mod Opened
pub mod Ready
pub mod Loaded
mod Examples
use urvirt.Common.{
  ℕ, ◌+◌, ◌-◌, ◌^◌, Option, none, some, List, [], ◌∷◌, u64, not64, ◌&&&◌, ◌|||◌, false,
}
use urvirt.Outcome.{Result, ok, stop, exited, ◌>>=◌}
use urvirt.Memory.{config_fd, ram_fd, kernel_fd, block_fd, conf_size, ram_size}
use urvirt.Priv.{PrivState}
use urvirt.Machine.{log}
use urvirt.PageFault.{prot_read, prot_exec}
use urvirt.AddressSpace.{AddressSpace, map_private}
use urvirt.Descriptors.{Descriptors}
use urvirt.StartUp.{Process, mmap, munmap, record_call, map_config, write_config}

-- `(file_size + 4095) & ~4095`.
unfoldable pub round_up : ℕ → ℕ
round_up file_size = u64 (file_size + 4095) &&& not64 4095

-- `fstat` leaves the struct as it was when it fails.
abbrev pub st_size : Option ℕ → ℕ → ℕ
st_size (some size) before = size
st_size none before = before

-- A page of zeros, as the new file for the shared page has.
abbrev pub blank : PrivState
blank = record {
  stub_start = 0;
  stub_size = 0;
  kernel_size = 0;
  timerid = 0;
  priv_mode = 0;
  sstatus = 0;
  sscratch = 0;
  stvec = 0;
  sepc = 0;
  scause = 0;
  stval = 0;
  sip = 0;
  sie = 0;
  satp = 0;
  urvb_block_id = 0;
  urvb_buf = 0;
  should_clear_vm = false;
  counter_ill = 0;
  counter_segv = 0;
  counter_sret = 0;
  counter_uecall = 0;
  counter_secall = 0;
}

module _ (D : Descriptors) where
  -- `dup2` of a descriptor to its fixed number, and `close` of it.
  abbrev pub move : D.State → (fd number : ℕ) → D.State
  move s fd number = D.close (D.dup2 s fd number) fd

  -- The files in memory for the shared page and for RAM, as CONFIG_FD and RAM_FD.
  unfoldable pub create_files : D.State → D.State
  create_files s =
      let (config_fd_orig, s1) = D.memfd_create s in
      let (ram_fd_orig, s2) = D.memfd_create s1 in
      let s3 = D.ftruncate (D.ftruncate s2 config_fd_orig conf_size) ram_fd_orig ram_size in
      let s4 = D.dup2 (D.dup2 s3 config_fd_orig config_fd) ram_fd_orig ram_fd in
      D.close (D.close s4 config_fd_orig) ram_fd_orig

  -- The kernel's image as KERNEL_FD, with its size, and the file system's as BLOCK_FD. `size` is what
  -- `img_stat` had.
  unfoldable pub open_files : (kernel fs size : ℕ) → D.State → ℕ × D.State
  open_files kernel fs size s =
      let (kernel_img_fd, s1) = D.open_file s kernel 0 in
      let s2 = create_files (move s1 kernel_img_fd kernel_fd) in
      let (block_fd_orig, s3) = D.open_file s2 fs 2 in
      (st_size (D.fstat s1 kernel_img_fd) size, move s3 block_fd_orig block_fd)

  module _ {S : AddressSpace} where
    -- `argv` is the arguments, and `garbage` what `img_stat` has before it is written.
    unfoldable pub main :
        (garbage : ℕ) → List ℕ → D.State → Process S → Result (D.State × Process S)
    main garbage (program ∷ stub ∷ kernel ∷ fs ∷ []) s p =
        let (stub_img_fd, s1) = D.open_file s stub 0 in
        let file_size = st_size (D.fstat s1 stub_img_fd) garbage in
        let (stub_addr, p1) =
          mmap p 0 (round_up file_size) (prot_exec ||| prot_read) map_private stub_img_fd 0 in
        let (kernel_size, s2) = open_files kernel fs file_size (D.close s1 stub_img_fd) in
        let (conf, p2) = map_config (record p1 { config = blank; ram = λ o. 0 }) in
        do
          p3 ← write_config p2 conf (record blank {
            stub_start = stub_addr;
            stub_size = round_up file_size;
            kernel_size = kernel_size;
          })
          let p4 = record_call (munmap p3 conf conf_size) (log "[urvirt] Entering urvirt-stub\n")
          ok (s2, record p4 { pc = stub_addr })
    main garbage argv s p = stop (exited 1)
