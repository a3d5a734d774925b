-- ===== src/Cpu/Progress.antt =====
-- The cycle counter of emulation/mc6809.cpp: it never goes back within a slice, and an instruction
-- that the processor has moves it on.
pub mod Timed
pub mod Clock
pub mod Bodies
pub mod Plain
pub mod Operands
pub mod Pages
pub mod Control
pub mod Instructions
pub mod Slices
pub mod Stuck
