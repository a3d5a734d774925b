-- ===== src/Cpu/Keeps/Operands.antt =====
-- The rows 0x80 to 0xF0 of emulation/mc6809.cpp, for a property that every assignment keeps.
use cutiecoco.Base.{ℕ}
use cutiecoco.Cpu.Bus.{Bus, Act}
use cutiecoco.Cpu.Registers.{Cpu, Reg8}
use cutiecoco.Cpu.Keeps.Steps.{Stable, Keeps}
use cutiecoco.Cpu.Keeps.Modes.{mode_rules}
use cutiecoco.Cpu.Keeps.Bodies.{body_rules}
use cutiecoco.Cpu.Keeps.Frames.{Keeps-call}
use cutiecoco.Cpu.Rows.Accumulator.{
  combine8, byte_row, row_left, row_right, row_80, row_90, row_a0, row_b0, row_c0, row_d0, row_e0,
  row_f0,
}

module _ {P : Cpu → Type 0} {M : Type 0} ⦃stable : Stable P⦄ ⦃bus : Bus M⦄ where
  pub Keeps-combine8 : (f : ℕ → ℕ → ℕ) (b : Reg8) (n : ℕ) → Keeps {M = M} P (combine8 f b n)
  unfolding combine8
  Keeps-combine8 f b n = search (mode_rules, body_rules)

  pub Keeps-byte_row :
      (b : Reg8) (m : Act M ℕ) (n n' : ℕ) → Keeps P m → Keeps {M = M} P (byte_row b m n n')
  unfolding byte_row
  Keeps-byte_row b m n n' keeps = search (mode_rules, body_rules, Keeps-combine8) depth 40 fits 4000

  pub Keeps-row_left : (m : Act M ℕ) (n n' : ℕ) → Keeps P m → Keeps {M = M} P (row_left m n n')
  unfolding row_left
  Keeps-row_left m n n' keeps =
      search (mode_rules, body_rules, Keeps-byte_row, Keeps-call) depth 40 fits 4000

  pub Keeps-row_right : (m : Act M ℕ) (n n' : ℕ) → Keeps P m → Keeps {M = M} P (row_right m n n')
  unfolding row_right
  Keeps-row_right m n n' keeps = search (mode_rules, body_rules, Keeps-byte_row) depth 40 fits 4000

  pub Keeps-row_80 : (n : ℕ) → Keeps {M = M} P (row_80 n)
  unfolding row_80
  Keeps-row_80 n = search (mode_rules, body_rules, Keeps-byte_row) depth 40 fits 4000

  pub Keeps-row_90 : (n : ℕ) → Keeps {M = M} P (row_90 n)
  unfolding row_90
  Keeps-row_90 n = search (mode_rules, body_rules, Keeps-row_left)

  pub Keeps-row_a0 : (n : ℕ) → Keeps {M = M} P (row_a0 n)
  unfolding row_a0
  Keeps-row_a0 n = search (mode_rules, body_rules, Keeps-row_left)

  pub Keeps-row_b0 : (n : ℕ) → Keeps {M = M} P (row_b0 n)
  unfolding row_b0
  Keeps-row_b0 n = search (mode_rules, body_rules, Keeps-row_left)

  pub Keeps-row_c0 : (n : ℕ) → Keeps {M = M} P (row_c0 n)
  unfolding row_c0
  Keeps-row_c0 n = search (mode_rules, body_rules, Keeps-byte_row) depth 40 fits 4000

  pub Keeps-row_d0 : (n : ℕ) → Keeps {M = M} P (row_d0 n)
  unfolding row_d0
  Keeps-row_d0 n = search (mode_rules, body_rules, Keeps-row_right)

  pub Keeps-row_e0 : (n : ℕ) → Keeps {M = M} P (row_e0 n)
  unfolding row_e0
  Keeps-row_e0 n = search (mode_rules, body_rules, Keeps-row_right)

  pub Keeps-row_f0 : (n : ℕ) → Keeps {M = M} P (row_f0 n)
  unfolding row_f0
  Keeps-row_f0 n = search (mode_rules, body_rules, Keeps-row_right)

pub ruleset operand_rules = (
  mode_rules, body_rules, Keeps-combine8, Keeps-byte_row, Keeps-row_left, Keeps-row_right,
  Keeps-row_80, Keeps-row_90, Keeps-row_a0, Keeps-row_b0, Keeps-row_c0, Keeps-row_d0, Keeps-row_e0,
  Keeps-row_f0,
)
