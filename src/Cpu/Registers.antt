-- ===== src/Cpu/Registers.antt =====
-- The registers of emulation/mc6809.cpp. An assignment to a register of one or two bytes takes the
-- value at its width. The accumulators are the bytes of `D_REG`; the low byte of `dp` stays 0.
use cutiecoco.Base.{ℕ, ◌+◌, ◌*◌, ◌/◌, ◌%◌, Bool, ltb, List, if◌then◌else◌}
use cutiecoco.Base.Bits.{u8, u16}
use cutiecoco.Cpu.{Codes, Interrupts}

-- The numbers of the condition codes, of mc6809defs.h.
abbrev pub carry : ℕ
carry = 0

abbrev pub overflow : ℕ
overflow = 1

abbrev pub zero_code : ℕ
zero_code = 2

abbrev pub negative : ℕ
negative = 3

abbrev pub irq_mask : ℕ
irq_mask = 4

abbrev pub half_carry : ℕ
half_carry = 5

abbrev pub firq_mask : ℕ
firq_mask = 6

abbrev pub entire : ℕ
entire = 7

-- emulation/include/cutie/debugger.h, a debugger that never acts: `IsHalted`, `IsStepping`,
-- `Halt_Enabled` and `Break_Enabled`. Its `Halt` does nothing.
abbrev pub is_halted : Bool
is_halted = Bool.false

abbrev pub is_stepping : Bool
is_stepping = Bool.false

abbrev pub halt_enabled : Bool
halt_enabled = Bool.false

abbrev pub break_enabled : Bool
break_enabled = Bool.false

pub record Cpu : Type 0 where
  pub pc : ℕ
  pub x : ℕ
  pub y : ℕ
  pub u : ℕ
  pub s : ℕ
  pub a : ℕ
  pub b : ℕ
  pub dp : ℕ
  pub codes : Codes
  pub cycles : ℕ
  -- The static `ea` of `CalculateEA`, which some invalid postbytes leave as it was.
  pub ea : ℕ
  pub lines : Interrupts
  pub halted_ins_pending : Bool
  pub breakpoints : List ℕ
  -- Where a trace starts; nothing reads it while tracing is off.
  pub trace_triggers : List ℕ
  -- `JS_Ramp_Clock` of the joystick, which the loop advances.
  pub ramp_clock : ℕ

pub data Reg16 : Type 0 where
  reg_d reg_x reg_y reg_u reg_s reg_pc : Reg16

pub data Reg8 : Type 0 where
  reg_a reg_b reg_dp reg_cc : Reg8

abbrev pub set_pc : ℕ → Cpu → Cpu
set_pc v c = record c { pc = u16 v }

unfoldable pub get16 : Reg16 → Cpu → ℕ
get16 reg_d c = c.a * 256 + c.b
get16 reg_x c = c.x
get16 reg_y c = c.y
get16 reg_u c = c.u
get16 reg_s c = c.s
get16 reg_pc c = c.pc

unfoldable pub set16 : Reg16 → ℕ → Cpu → Cpu
set16 reg_d v c = record c { a = u16 v / 256; b = u16 v % 256 }
set16 reg_x v c = record c { x = u16 v }
set16 reg_y v c = record c { y = u16 v }
set16 reg_u v c = record c { u = u16 v }
set16 reg_s v c = record c { s = u16 v }
set16 reg_pc v c = set_pc v c

unfoldable pub get8 : Reg8 → Cpu → ℕ
unfolding cutiecoco.Cpu.get_cc_flags
get8 reg_a c = c.a
get8 reg_b c = c.b
get8 reg_dp c = c.dp
get8 reg_cc c = cutiecoco.Cpu.get_cc_flags c.codes

unfoldable pub set8 : Reg8 → ℕ → Cpu → Cpu
unfolding cutiecoco.Cpu.set_cc_flags
set8 reg_a v c = record c { a = u8 v }
set8 reg_b v c = record c { b = u8 v }
set8 reg_dp v c = record c { dp = u8 v }
set8 reg_cc v c = record c { codes = cutiecoco.Cpu.set_cc_flags (u8 v) c.codes }

-- `(signed char)v` and `(signed short)v`, as they are added to a word.
abbrev pub extend8 : ℕ → ℕ
extend8 v = if ltb v 128 then v else v + 65280

-- `MC6809ForcePC`.
unfoldable pub force_pc : ℕ → Cpu → Cpu
force_pc new_pc c = record (set_pc new_pc c) {
  lines = record c.lines { pending_interrupts = 0; sync_waiting = Bool.false };
}

-- `MC6809SetBreakpoints`.
unfoldable pub set_breakpoints : List ℕ → Cpu → Cpu
set_breakpoints breakpoints c = record c { breakpoints = breakpoints }

-- `MC6809SetTraceTriggers`.
unfoldable pub set_trace_triggers : List ℕ → Cpu → Cpu
set_trace_triggers triggers c = record c { trace_triggers = triggers }
