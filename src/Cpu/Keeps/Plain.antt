-- ===== src/Cpu/Keeps/Plain.antt =====
-- The rows of emulation/mc6809.cpp over memory and the accumulators, for a property that every
-- assignment keeps.
use cutiecoco.Base.{ℕ}
use cutiecoco.Cpu.Bus.{Bus, Act}
use cutiecoco.Cpu.Registers.{Cpu, Reg8}
use cutiecoco.Cpu.Keeps.Steps.{Stable, Keeps}
use cutiecoco.Cpu.Keeps.Modes.{mode_rules}
use cutiecoco.Cpu.Keeps.Bodies.{body_rules}
use cutiecoco.Cpu.Rows.Memory.{
  jump, memory_row, row_00, row_60, row_70, inherent_row, row_40, row_50,
}

module _ {P : Cpu → Type 0} {M : Type 0} ⦃stable : Stable P⦄ ⦃bus : Bus M⦄ where
  pub Keeps-jump : (n n' : ℕ) → Keeps {M = M} P (jump n n')
  unfolding jump
  Keeps-jump n n' = search (mode_rules, body_rules)

  pub Keeps-memory_row :
      (m : Act M ℕ) (n n' n'' : ℕ) → Keeps P m → Keeps {M = M} P (memory_row m n n' n'')
  unfolding memory_row
  Keeps-memory_row m n n' n'' keeps = search (mode_rules, body_rules, Keeps-jump) depth 40 fits 4000

  pub Keeps-row_00 : (n : ℕ) → Keeps {M = M} P (row_00 n)
  unfolding row_00
  Keeps-row_00 n = search (mode_rules, body_rules, Keeps-memory_row)

  pub Keeps-row_60 : (n : ℕ) → Keeps {M = M} P (row_60 n)
  unfolding row_60
  Keeps-row_60 n = search (mode_rules, body_rules, Keeps-memory_row)

  pub Keeps-row_70 : (n : ℕ) → Keeps {M = M} P (row_70 n)
  unfolding row_70
  Keeps-row_70 n = search (mode_rules, body_rules, Keeps-memory_row)

  pub Keeps-inherent_row : (b : Reg8) (n : ℕ) → Keeps {M = M} P (inherent_row b n)
  unfolding inherent_row
  Keeps-inherent_row b n = search (mode_rules, body_rules) depth 40 fits 4000

  pub Keeps-row_40 : (n : ℕ) → Keeps {M = M} P (row_40 n)
  unfolding row_40
  Keeps-row_40 n = search (mode_rules, body_rules, Keeps-inherent_row)

  pub Keeps-row_50 : (n : ℕ) → Keeps {M = M} P (row_50 n)
  unfolding row_50
  Keeps-row_50 n = search (mode_rules, body_rules, Keeps-inherent_row)

pub ruleset plain_rules = (
  mode_rules, body_rules, Keeps-jump, Keeps-memory_row, Keeps-row_00, Keeps-row_60, Keeps-row_70,
  Keeps-inherent_row, Keeps-row_40, Keeps-row_50,
)
