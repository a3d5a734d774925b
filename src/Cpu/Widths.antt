-- ===== src/Cpu/Widths.antt =====
-- The registers of emulation/mc6809.cpp stay within their widths.
use Prim.Native.Nat.{ℕ}
use cutiecoco.Base.{zero, ◌/◌, ◌%◌, ◌<◌, arith}
use cutiecoco.Base.Bits.{u8, u16}
use cutiecoco.Cpu.Bus.{Bus, State}
use cutiecoco.Cpu.Registers.{Cpu, Reg16, Reg8, set16, set8}
use cutiecoco.Cpu.Rows.Control.{reset_registers}
use cutiecoco.Cpu.Exec.{do_opcode}
use cutiecoco.Cpu.Keeps.Steps.{Stable}
use cutiecoco.Cpu.Keeps.Control.{Restarts}
use cutiecoco.Cpu.Keeps.Table.{Keeps-do_opcode}

pub record IsWellFormed (c : Cpu) : Type 0 where
  pub pc-lt : c.pc < 65536
  pub x-lt : c.x < 65536
  pub y-lt : c.y < 65536
  pub u-lt : c.u < 65536
  pub s-lt : c.s < 65536
  pub ea-lt : c.ea < 65536
  pub a-lt : c.a < 256
  pub b-lt : c.b < 256
  pub dp-lt : c.dp < 256

u16-lt : (v : ℕ) → u16 v < 65536
u16-lt v = omega arith

u8-lt : (v : ℕ) → u8 v < 256
u8-lt v = omega arith

high-lt : (v : ℕ) → u16 v / 256 < 256
high-lt v = omega arith

low-lt : (v : ℕ) → v % 256 < 256
low-lt v = omega arith

zero-lt_word : zero < 65536
zero-lt_word = omega arith

zero-lt_byte : zero < 256
zero-lt_byte = omega arith

ruleset width_rules = (u16-lt, u8-lt, high-lt, low-lt, zero-lt_word, zero-lt_byte)

set16-IsWellFormed : (r : Reg16) (v : ℕ) (c : Cpu) → IsWellFormed c → IsWellFormed (set16 r v c)
unfolding set16
set16-IsWellFormed Reg16.reg_d v c h = search width_rules
set16-IsWellFormed Reg16.reg_x v c h = search width_rules
set16-IsWellFormed Reg16.reg_y v c h = search width_rules
set16-IsWellFormed Reg16.reg_u v c h = search width_rules
set16-IsWellFormed Reg16.reg_s v c h = search width_rules
set16-IsWellFormed Reg16.reg_pc v c h = search width_rules

set8-IsWellFormed : (r : Reg8) (v : ℕ) (c : Cpu) → IsWellFormed c → IsWellFormed (set8 r v c)
unfolding set8
set8-IsWellFormed Reg8.reg_a v c h = search width_rules
set8-IsWellFormed Reg8.reg_b v c h = search width_rules
set8-IsWellFormed Reg8.reg_dp v c h = search width_rules
set8-IsWellFormed Reg8.reg_cc v c h = search width_rules

instance widths-Stable : Stable IsWellFormed
widths-Stable = record {
  word = set16-IsWellFormed;
  byte = set8-IsWellFormed;
  codes = λ k c h. search width_rules;
  cycles = λ n c h. search width_rules;
  ea = λ v c h. search width_rules;
  lines = λ l c h. search width_rules;
}

instance widths-Restarts : {cycle_for : ℕ} → Restarts cycle_for IsWellFormed
unfolding reset_registers
widths-Restarts = record {
  wait = λ c h. search width_rules;
  reset = λ c h. search width_rules;
  ramp = λ v c h. search width_rules;
  resume = λ c h. search width_rules;
}

module _ {M : Type 0} ⦃bus : Bus M⦄ where
  -- One instruction, whatever the memory holds, leaves every register within its width.
  pub do_opcode-IsWellFormed :
      (cycle_for : ℕ) (s : State M)
      → IsWellFormed s.cpu
      → IsWellFormed (do_opcode cycle_for s).1.cpu
  do_opcode-IsWellFormed cycle_for s h = (Keeps-do_opcode {P = IsWellFormed} cycle_for).at s h
