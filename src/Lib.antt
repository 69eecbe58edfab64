-- ===== src/Lib.antt =====
-- URVirt runs a RISC-V supervisor program as an ordinary Linux process. A stub, mapped into the
-- process of the guest, catches the signals that the guest's privileged behaviour raises, emulates
-- what the guest meant, and returns to it. This library models the loader, the stub's start-up, its
-- signal handler with all that it calls, and the filter that makes the guest's system calls reach it.
--
-- The parts, and the files that model them:
--   Common, Bits: machine words as natural numbers with their wrap-around, and the bits of a word.
--   RiscvBits: src/common/riscv-bits.h, its bit fields and constants. A use of the macro `bitfield`
--     or `ins_bitfield` is an instance of get_field, set_field, mask_field or ins_field; Layouts has
--     the fields register by register.
--   Priv: src/urvirt-stub/riscv-priv.h, the privileged state (PrivState, `struct priv_state`), and
--     initialize_priv of riscv-priv.c; IsWellFormed is its invariant.
--   Csr, Trap, PrivInstr, PageTable, PageFault: src/urvirt-stub/riscv-priv.c, one function for each
--     of its functions (read_csr, write_csr, trap_target, enter_trap, handle_priv_instr,
--     lookup_pa_in_ram, lookup_pa, decode_sd, get_store_data, handle_page_fault), and helpers for
--     their branches. `sret` is a branch of handle_priv_instr.
--   Memory: src/common/common.h, the layout of RAM, and reads of memory.
--   Sbi: src/urvirt-stub/handle-sbi.c, handle_legacy_sbi_call and its branches.
--   Handler: src/urvirt-stub/urvirt-stub.c, handler, with a function for each signal, and
--     handler_wrapper, which ends it with rt_sigreturn. Cause has the instructions that a SIGSEGV can
--     come from, Exceptions what raises an exception of the guest, and Instructions the privileged
--     instructions of the guest's kernel.
--   Contained, and the modules of that name below PrivInstr, Sbi, PageFault and Handler: the calls by
--     which the handler may change the address space; Handler.Coherence has them along a run.
--   StartUp: src/urvirt-stub/urvirt-stub.c, entrypoint and entrypoint_1. Process has the address
--     space, what the shared page's file and RAM's hold, the log of calls and the pc.
--   Loader: src/urvirt-loader/urvirt-loader.c, main, on the same Process and a table of descriptors.
--   Syscalls: src/urvirt-stub/urvirt-syscalls.h and internal-syscall.h, the registers of each call.
--   TestKernel: src/test-kernel/test-kernel.c, kernel_main as the signals that it raises, and the
--     loop of clear_bss; and sbi.h, the calls with the registers that they use. Asm runs instructions
--     on the handler, with the page faults that come before each; Hart has what the architecture
--     means by them, and Refinement compares the two. Vector has stvec, and User has umode.
--   AddressSpace, Descriptors: interfaces for the calls of Linux that the start-up and the loader
--     make, with what the manual says of them as laws (IsLawful, IsPosix).
--   Seccomp: src/urvirt-stub/seccomp-bpf.c, gen_addr_filter.
--   Machine: what the handler works on. Machine has the privileged state, the registers of the
--     interrupted context (entry 0 is the pc), memory, RAM by offset, and the log of system calls.
--   Outcome: how code ends, with a value or at a stop; Kernel: what the surroundings answer.
--   Examples and the modules of that name below the parts: machines, an address space and a table of
--     descriptors to try the theorems on.
--
-- How the parts interact: the loader maps the stub, leaves its address and size and the kernel's size
-- in the shared page and jumps to it; the start-up unmaps all but the stub, maps a stack and RAM,
-- copies the kernel, installs the filter and jumps to the guest; from there on only the handler runs,
-- and the machine of Handler.Runs starts with what the start-up left. `handler` dispatches on the
-- signal. SIGSYS is an `ecall`: a call of the SBI from S mode, a trap from U mode. SIGILL in S mode is
-- a privileged instruction. SIGSEGV is a page fault, for which the guest's page table is walked and a
-- page mapped. SIGALRM sets the timer bit.
-- At the end an interrupt that is due is taken, and mappings are cleared if that was asked for.
-- Every function takes the machine and gives the next, or a stop.
--
-- Bounds and fuel: a word of w bits is a natural number with `% 2 ^ w` written at each operation that
-- can leave the word. The walk of the page table runs on 3 rounds, which are the three levels of the
-- loop; PageTable.Bounds has the ways in which the walk ends. The loops of umode run on rounds: the
-- outer one never ends, and is run for any number of rounds; the inner one needs one more than there
-- are characters.
--
-- What is a parameter: the answers of Linux, the `time` register and the effect of a block read are
-- fields of Kernel and Answers; the meaning of a filter program is the interface Bpf of Seccomp.Laws,
-- with the documented meaning of each instruction, and Seccomp.Examples has an interpreter for it.
-- The address space is the interface AddressSpace: IsLawful has the manual's account of mmap and
-- munmap for mappings that the system grants, and IsHospitable what the manual does not promise and the
-- code takes for granted: that they are granted, and that a mapping at no given address does not go
-- where the guest's RAM will be while there are other free pages. The descriptors are the
-- interface Descriptors, where a new descriptor is the least that is unused. How many bytes an
-- ordinary instruction of the test kernel takes, where it faults, what its stores do to RAM, and what
-- the context of a call has in a7 are fields of Hardware.
--
-- What is not modelled: printf.c, a copy of another project's library, whose calls are entries of the
-- log; the assembly of entry.S and the stack pointer that entrypoint sets; interrupts that come while
-- the test kernel runs, which sets no timer. The mapping of the shared page and of RAM inside the
-- handler is taken to succeed, as the code takes it; memory at the pc is taken to be readable. What is
-- logged just before a stop is the message of the stop.
pub mod Common
pub mod Bits
pub mod RiscvBits
pub mod Outcome
pub mod Priv
pub mod Csr
pub mod Syscalls
pub mod Machine
pub mod AddressSpace
pub mod Descriptors
pub mod Trap
pub mod PrivInstr
pub mod Memory
pub mod PageTable
pub mod Seccomp
pub mod Kernel
pub mod Sbi
pub mod PageFault
pub mod Contained
pub mod Handler
pub mod StartUp
pub mod TestKernel
pub mod Loader
pub mod Examples
