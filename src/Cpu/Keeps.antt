-- ===== src/Cpu/Keeps.antt =====
-- Properties of the registers that every instruction of emulation/mc6809.cpp keeps, one rule for each
-- way to build an action.
pub mod Steps
pub mod Modes
pub mod Frames
pub mod Bodies
pub mod Moves
pub mod Plain
pub mod Operands
pub mod Pages
pub mod Control
pub mod Table
