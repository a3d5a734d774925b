-- ===== src/Cpu/Rows.antt =====
-- The instructions of emulation/mc6809.cpp by the rows of the opcode table, as `Do_Opcode`,
-- `P2_Opcode` and `P3_Opcode` list them.
pub mod Memory
pub mod Control
pub mod Accumulator
pub mod Pages
