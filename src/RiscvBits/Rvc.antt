-- ===== src/RiscvBits/Rvc.antt =====
-- src/common/riscv-bits.h: which compressed instructions look like a load or a store.
use urvirt.Common.{ℕ, Bool, ◌&&◌, ◌||◌, ◌==◌, u16, ◌>>>◌, ◌&&&◌}

-- Compressed loads and stores, by quadrant and `funct3`.
unfoldable pub rvc_looks_like_load : ℕ → Bool
rvc_looks_like_load instr =
    let op = u16 (instr &&& 0b11) in
    let funct3 = u16 (instr >>> 13) in
    (op == 0b00 || op == 0b10) && (funct3 == 0b001 || funct3 == 0b010 || funct3 == 0b011)

unfoldable pub rvc_looks_like_store : ℕ → Bool
rvc_looks_like_store instr =
    let op = u16 (instr &&& 0b11) in
    let funct3 = u16 (instr >>> 13) in
    (op == 0b00 || op == 0b10) && (funct3 == 0b101 || funct3 == 0b110 || funct3 == 0b111)
