-- ===== src/Seccomp.antt =====
-- src/urvirt-stub/seccomp-bpf.c: the filter that lets only the stub's own code make system calls.
pub mod Laws
pub mod Examples
use urvirt.Common.{ℕ, ◌+◌, List, [], ◌∷◌, ◌>>>◌, u32}

-- `struct sock_filter`, as the macros `BPF_STMT` and `BPF_JUMP` of linux/filter.h build it here.
-- A jump skips `jt` instructions if its test of the accumulator against `k` holds, and `jf` if not.
pub data SockFilter : Type 0 where
  ld_w_abs : (offset : ℕ) → SockFilter
  jeq : (k jt jf : ℕ) → SockFilter
  jge : (k jt jf : ℕ) → SockFilter
  jgt : (k jt jf : ℕ) → SockFilter
  ret_allow : SockFilter
  ret_trap : SockFilter

-- `sc_ip_low` is the offset of the instruction pointer in `struct seccomp_data` of linux/seccomp.h.
unfoldable pub gen_addr_filter : ℕ → ℕ → ℕ → List SockFilter
gen_addr_filter sc_ip_low start_addr end_addr =
    let sc_ip_high = sc_ip_low + 4 in
    let start_addr_high = u32 (start_addr >>> 32) in
    let start_addr_low = u32 start_addr in
    let end_addr_high = u32 (end_addr >>> 32) in
    let end_addr_low = u32 end_addr in
    ld_w_abs sc_ip_high
    ∷ jeq start_addr_high 0 2
    ∷ ld_w_abs sc_ip_low
    ∷ jge start_addr_low 1 7
    ∷ jgt start_addr_high 0 6
    ∷ ld_w_abs sc_ip_high
    ∷ jeq end_addr_high 0 2
    ∷ ld_w_abs sc_ip_low
    ∷ jge end_addr_low 2 1
    ∷ jgt end_addr_high 1 0
    ∷ ret_allow
    ∷ ret_trap
    ∷ []
